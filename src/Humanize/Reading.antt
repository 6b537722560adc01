-- ===== src/Humanize/Reading.antt =====
-- internal/core/humanize/duration.go: the duration that a text says.
use native.Mathlib.Nat.{mod-lt, div-add-mod, zero-mul}
use mathlib.Core.List.{append_assoc}
use tezcatl.Base.{
  ℕ, zero, suc, ◌+◌, ◌-◌, ◌*◌, ◌/◌, ◌%◌, ◌<◌, ◌≡◌, refl, ap, ◌∙◌, inl, inr, Bool-cases, Bytes, [],
  ◌∷◌, ◌++◌, itoa, itoa_from, ltb, leb, ◌==◌, ◌&&◌, ltb→lt, ltb→le, arith, if◌then◌else◌,
}
use tezcatl.Base.Ints.{second, minute, hour}
use tezcatl.Humanize.{two_units}

-- the nanoseconds of a unit, by its letter
abbrev pub unit_size : ℕ → ℕ
unit_size c =
    if c == b'd'
    then 86_400_000_000_000
    else if c == b'h'
    then hour
    else if c == b'm'
    then minute
    else if c == b's'
    then second
    else 0

-- One character read, behind a sum and a number: a digit goes on with the number, a unit adds the number
-- of it to the sum, and a space is passed over.
abbrev pub read_char : ℕ → ℕ × ℕ → ℕ × ℕ
read_char c (sum, n) =
    if leb b'0' c && leb c b'9'
    then (sum, n * 10 + (c - b'0'))
    else if c == b' '
    then (sum, n)
    else (sum + n * unit_size c, 0)

unfoldable pub read_from : ℕ × ℕ → Bytes → ℕ
read_from (sum, n) [] = sum
read_from st (c ∷ s) = read_from (read_char c st) s

-- the duration that a text like "2h 5m" says
abbrev pub read_text : Bytes → ℕ
read_text s = read_from (0, 0) s

read_digit : (sum n k : ℕ) → k < 10 → read_char (b'0' + k) (sum, n) ≡ (sum, n * 10 + k)
read_digit sum n k h = ground arith

read_itoa_from :
    (fuel sum n : ℕ) (rest s : Bytes)
    → n < fuel
    → read_from (sum, 0) (itoa_from fuel n rest ++ s) ≡ read_from (sum, n) (rest ++ s)
unfolding read_from itoa_from
read_itoa_from zero sum n rest s h = absurd (omega arith)
read_itoa_from (suc fuel) sum n rest s h = elim (Bool-cases (ltb n 10)) [
  | inl small ↦ rw small (
      ap (λ st. read_from st (rest ++ s))
        (read_digit sum 0 (n % 10) (mod-lt n (omega arith))
          ∙ ap (λ k. (sum, k)) (omega (arith, ltb→lt n 10 small))))
  | inr large ↦ rw large (
      read_itoa_from fuel sum (n / 10) ((b'0' + n % 10) ∷ rest) s (omega (arith, ltb→le n 10 large))
      ∙ ap (λ st. read_from st (rest ++ s))
          (read_digit sum (n / 10) (n % 10) (mod-lt n (omega arith))
            ∙ ap (λ k. (sum, k)) (omega (arith, div-add-mod n 10))))
]

read_itoa : (sum n : ℕ) (s : Bytes) → read_from (sum, 0) (itoa n ++ s) ≡ read_from (sum, n) s
unfolding itoa
read_itoa sum n s = read_itoa_from (n + 1) sum n [] s (omega arith)

-- the pairs of units that a text names, and their letters
pub data Units : Type 0 where
  in_minutes in_hours in_days : Units

abbrev pub big_letter : Units → ℕ
big_letter in_minutes = b'm'
big_letter in_hours = b'h'
big_letter in_days = b'd'

abbrev pub small_letter : Units → ℕ
small_letter in_minutes = b's'
small_letter in_hours = b'm'
small_letter in_days = b'h'

abbrev pub big : Units → ℕ
big u = unit_size (big_letter u)

abbrev pub small : Units → ℕ
small u = unit_size (small_letter u)

read_big :
    (u : Units) (n : ℕ) (s : Bytes)
    → read_from (0, n) (big_letter u ∷ s) ≡ read_from (n * big u, 0) s
unfolding read_from
read_big in_minutes n s = ap (λ k. read_from (k, 0) s) (omega arith)
read_big in_hours n s = ap (λ k. read_from (k, 0) s) (omega arith)
read_big in_days n s = ap (λ k. read_from (k, 0) s) (omega arith)

read_small : (u : Units) (sum n : ℕ) → read_from (sum, n) (small_letter u ∷ []) ≡ sum + n * small u
unfolding read_from
read_small in_minutes sum n = refl
read_small in_hours sum n = refl
read_small in_days sum n = refl

read_space : (sum : ℕ) (s : Bytes) → read_from (sum, 0) (b' ' ∷ s) ≡ read_from (sum, 0) s
unfolding read_from
read_space sum s = refl

-- Two units with their numbers are read as their sum.
pub read_text-two_units :
    (u : Units) (major minor : ℕ)
    → read_text (two_units major (big_letter u ∷ []) minor (small_letter u ∷ []))
      ≡ major * big u + minor * small u
unfolding two_units read_from
read_text-two_units u major minor = elim (Bool-cases (minor == 0)) [
  | inl alone ↦ rw alone (
      read_itoa 0 major (big_letter u ∷ [])
      ∙ read_big u major []
      ∙ grind (arith, zero-mul (small u)))
  | inr both ↦
      rw
        (
          both,
          append_assoc (itoa major ++ big_letter u ∷ [] ++ b' ' ∷ []) (itoa minor)
              (small_letter u ∷ []),
          append_assoc (itoa major ++ big_letter u ∷ []) (b' ' ∷ [])
              (itoa minor ++ small_letter u ∷ []),
          append_assoc (itoa major) (big_letter u ∷ [])
              (b' ' ∷ (itoa minor ++ small_letter u ∷ [])),
        )
        (read_itoa 0 major (big_letter u ∷ b' ' ∷ (itoa minor ++ small_letter u ∷ []))
          ∙ read_big u major (b' ' ∷ (itoa minor ++ small_letter u ∷ []))
          ∙ read_space (major * big u) (itoa minor ++ small_letter u ∷ [])
          ∙ read_itoa (major * big u) minor (small_letter u ∷ [])
          ∙ read_small u (major * big u) minor)
]
