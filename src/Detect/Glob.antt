-- ===== src/Detect/Glob.antt =====
-- internal/core/detect/log.go: `globMatch`.
--
-- The indices `p` and `v` are the suffixes of the pattern and of the value that they start; the last
-- star is the pattern behind it and the suffix that `resumeFrom` starts.
pub mod Language
pub mod Prefix
pub mod Deciding
pub mod Ending
use tezcatl.Base.{
  ℕ, zero, suc, ◌+◌, ◌*◌, Bool, true, false, Option, none, some, List, [], ◌∷◌, Bytes, length, ◌==◌,
  if◌then◌else◌,
}

abbrev pub star_code : ℕ
star_code = b'*'

-- what is left of a pattern when the value is used up
unfoldable pub only_stars : Bytes → Bool
only_stars [] = true
only_stars (c ∷ p) = let rest = only_stars p in if c == star_code then rest else false

abbrev pub Star : Type 0
Star = Option (Bytes × Bytes)

-- the last star swallows one more byte, and the loop goes on as `continue` says
unfoldable pub backtrack : (Star → Bytes → Bytes → Option Bool) → Star → Option Bool
backtrack continue none = some false
backtrack continue (some (p, [])) = some false
backtrack continue (some (p, x ∷ resume)) = continue (some (p, resume)) p resume

-- The loop of `globMatch`; `none` means that the fuel ran out.
unfoldable pub scan : ℕ → Star → Bytes → Bytes → Option Bool
unfolding backtrack
scan zero star p v = none
scan (suc fuel) star p [] = some (only_stars p)
scan (suc fuel) star [] (x ∷ v) = backtrack (scan fuel) star
scan (suc fuel) star (c ∷ p) (x ∷ v) = elim (c == star_code) [
  | true ↦ scan fuel (some (p, x ∷ v)) p (x ∷ v)
  | false ↦ elim (c == x) [ true ↦ scan fuel star p v | false ↦ backtrack (scan fuel) star ]
]

-- more than the loop can take for a pattern and a value
unfoldable pub enough_for : Bytes → Bytes → ℕ
enough_for p v = (length p + 1) * (length v + 1) * (length v + 1) + length v + 1

-- `globMatch`
unfoldable pub glob_match : Bytes → Bytes → Option Bool
glob_match p v = scan (enough_for p v) none p v
