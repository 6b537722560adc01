-- ===== src/Base/Texts.antt =====
-- Go strings as sequences of bytes, their equality, order and concatenation.
use Prim.Native.Nat.{ℕ, zero, suc, ◌+◌, ◌/◌, ◌%◌}
use Prim.Native.Char.{code}
use Prim.Native.String.{String}
use mathlib.Core.Bool.{Bool, true, false}
use mathlib.Core.List.{List, [], ◌∷◌}
use mathlib.Core.Logic.{◌↔◌}
use mathlib.Core.Path.{◌≡◌, refl}
use native.Mathlib.Omega.{arith}
use tezcatl.Base.Tests.{◌==◌, ==_iff, ltb, if◌then◌else◌, Eq}

abbrev pub Bytes : Type 0
Bytes = List ℕ

-- A text literal of the source; its bytes, since the literals in question are ASCII.
abbrev pub codes : String → Bytes
codes String.[] = []
codes (String.◌∷◌ c s) = code c ∷ codes s

unfoldable pub same_bytes : Bytes → Bytes → Bool
same_bytes [] [] = true
same_bytes [] (d ∷ t) = false
same_bytes (c ∷ s) [] = false
same_bytes (c ∷ s) (d ∷ t) = if c == d then same_bytes s t else false

pub same_bytes→eq : (s t : Bytes) → same_bytes s t ≡ true → s ≡ t
unfolding same_bytes
same_bytes→eq [] [] h = refl
same_bytes→eq [] (d ∷ t) h = ground arith
same_bytes→eq (c ∷ s) [] h = ground arith
same_bytes→eq (c ∷ s) (d ∷ t) h = ground (arith, same_bytes→eq s t)

pub same_bytes_refl : (s : Bytes) → same_bytes s s ≡ true
unfolding same_bytes
same_bytes_refl [] = refl
same_bytes_refl (c ∷ s) = ground (arith, same_bytes_refl s)

pub same_bytes_iff : (s t : Bytes) → (same_bytes s t ≡ true) ↔ (s ≡ t)
same_bytes_iff s t = (same_bytes→eq s t, λ e. rw e (same_bytes_refl t))

pub number_iff : (a b : ℕ) → ((a == b) ≡ true) ↔ (a ≡ b)
number_iff a b = ==_iff a b

instance abbrev pub bytes_eq : Eq Bytes
bytes_eq = record { beq = same_bytes; beq_iff = same_bytes_iff }

instance abbrev pub number_eq : Eq ℕ
number_eq = record { beq = ◌==◌; beq_iff = number_iff }

-- Go's `<` on strings
unfoldable pub before_bytes : Bytes → Bytes → Bool
before_bytes s [] = false
before_bytes [] (d ∷ t) = true
before_bytes (c ∷ s) (d ∷ t) = if ltb c d then true else if c == d then before_bytes s t else false

abbrev pub is_empty : Bytes → Bool
is_empty [] = true
is_empty (c ∷ s) = false

-- the decimal digits of a number: `strconv.Itoa` of a value that is not negative
unfoldable pub itoa_from : ℕ → ℕ → Bytes → Bytes
itoa_from zero n rest = rest
itoa_from (suc fuel) n rest =
    let more = itoa_from fuel (n / 10) ((b'0' + n % 10) ∷ rest) in
    if ltb n 10 then (b'0' + n % 10) ∷ rest else more

unfoldable pub itoa : ℕ → Bytes
unfolding itoa_from
itoa n = itoa_from (n + 1) n []
