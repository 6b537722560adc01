-- ===== src/Detect/Log/Shape.antt =====
-- internal/core/detect/log.go: `templateLiterals`, `placeholderRatio`, `informative`.
use tezcatl.Base.{
  ℕ, zero, suc, ◌+◌, Bool, true, false, Option, none, some, [], ◌∷◌, Bytes, length, keep, leb, ◌==◌,
  ◌&&◌, ◌||◌, not, if◌then◌else◌,
}
use tezcatl.Base.Ints.{pos, ltb_ℤ}
use tezcatl.Base.Spaces.{fields}
use tezcatl.Model.{Floats}
use tezcatl.Detect.Log.{LogConfig}

-- `strings.IndexByte`
unfoldable pub index_byte : ℕ → Bytes → Option ℕ
index_byte b [] = none
index_byte b (c ∷ s) =
    if c == b then some 0 else elim (index_byte b s) [ none ↦ none | some i ↦ some (i + 1) ]

-- `maxPlaceholderLength`
abbrev pub max_placeholder_length : ℕ
max_placeholder_length = 8

abbrev pub is_letter_or_digit : ℕ → Bool
is_letter_or_digit c =
    (leb b'a' c && leb c b'z') || (leb b'A' c && leb c b'Z') || (leb b'0' c && leb c b'9')

-- how many bytes behind a `<` belong to the placeholder that it opens; 0 where it opens none
unfoldable pub mask_length : Bytes → ℕ
unfolding index_byte
mask_length s = elim (index_byte b'>' s) [
  | none ↦ 0
  | some i ↦ if leb (i + 1) max_placeholder_length then i + 1 else 0
]

-- the loop of `templateLiterals`, `skip` bytes before the end of a placeholder
unfoldable pub literals_from : ℕ → Bytes → ℕ
unfolding mask_length
literals_from skip [] = 0
literals_from (suc skip) (c ∷ s) = literals_from skip s
literals_from zero (c ∷ s) =
    let rest = literals_from zero s in
    let behind = literals_from (mask_length s) s in
    if c == b'<'
    then (if mask_length s == 0 then rest else behind)
    else (if is_letter_or_digit c then rest + 1 else rest)

-- `templateLiterals`
unfoldable pub template_literals : Bytes → ℕ
unfolding literals_from
template_literals s = literals_from 0 s

-- a byte that `strings.ContainsAny` does not look for
abbrev pub is_plain : ℕ → Bool
is_plain c = not ((c == b'<') || (c == b'>') || (c == b' '))

-- whether a byte and those behind it are plain up to a last `>`
unfoldable pub closes : ℕ → Bytes → Bool
closes c [] = c == b'>'
closes c (d ∷ s) = is_plain c && closes d s

-- whether a token is nothing but a placeholder
unfoldable pub is_mask : Bytes → Bool
unfolding closes
is_mask [] = false
is_mask (a ∷ []) = false
is_mask (a ∷ b ∷ []) = false
is_mask (a ∷ b ∷ c ∷ s) = (a == b'<') && is_plain b && closes c s

module _ {F : Type 0} ⦃fl : Floats F⦄ where
  -- `placeholderRatio`
  unfoldable pub placeholder_ratio : Bytes → F
  unfolding fields is_mask
  placeholder_ratio template = elim (fields template) [
    | [] ↦ fl.hundredths 0
    | token ∷ rest ↦
        fl.div (fl.of_int (pos (length (keep is_mask (token ∷ rest)))))
          (fl.of_int (pos (length (token ∷ rest))))
  ]

  -- `informative`
  unfoldable pub informative : LogConfig F → Bytes → Bool
  unfolding template_literals placeholder_ratio
  informative c template =
      if ltb_ℤ (pos 0) c.min_template_literals
        && ltb_ℤ (pos (template_literals template)) c.min_template_literals
      then false
      else (if fl.lt (fl.hundredths 0) c.max_placeholder_ratio
            && fl.lt c.max_placeholder_ratio (placeholder_ratio template)
          then false
          else true)
