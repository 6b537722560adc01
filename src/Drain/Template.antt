-- ===== src/Drain/Template.antt =====
-- internal/core/drain/drain.go and miner.go: templates, their distance to a message, parameters.
pub mod Generality
pub mod Parameters
use tezcatl.Base.{
  ℕ, zero, suc, ◌+◌, ◌-◌, Bool, true, false, ◌||◌, ◌&&◌, Option, none, some, List, [], ◌∷◌, ◌++◌,
  length, take, ltb, leb, ◌==◌, Bytes, bytes_eq, codes, if◌then◌else◌,
}
use tezcatl.Base.Ints.{pos}
use tezcatl.Model.{Floats}

-- the cut at the end of `tokenize`: `max_tokens` of 0 mines whole lines
unfoldable pub truncate : ℕ → List Bytes → List Bytes
truncate max_tokens tokens =
    if ltb 0 max_tokens && ltb max_tokens (length tokens)
    then take (max_tokens - 1) tokens ++ codes "<TRUNCATED>" ∷ []
    else tokens

-- the loop of `createTemplate`: `none` is an index out of range
unfoldable pub create_template : Bytes → List Bytes → List Bytes → Option (List Bytes)
create_template param [] template = some template
create_template param (t ∷ ts) [] = none
create_template param (t ∷ ts) (p ∷ ps) = elim (create_template param ts ps) [
  | none ↦ none
  | some rest ↦ some ((if bytes_eq.beq t p then p else param) ∷ rest)
]

-- `equalTokens`
unfoldable pub equal_tokens : List Bytes → List Bytes → Bool
equal_tokens [] [] = true
equal_tokens [] (b ∷ bs) = false
equal_tokens (a ∷ as_) [] = false
equal_tokens (a ∷ as_) (b ∷ bs) = if bytes_eq.beq a b then equal_tokens as_ bs else false

-- the loop of `seqDistance`: equal tokens and parameters, counted over lists of one length
unfoldable pub count_tokens : Bytes → List Bytes → List Bytes → ℕ × ℕ
count_tokens param [] tokens = (0, 0)
count_tokens param (p ∷ ps) [] = (0, 0)
count_tokens param (p ∷ ps) (t ∷ ts) =
    let (same, params) = count_tokens param ps ts in
    if bytes_eq.beq p param
    then (same, params + 1)
    else (if bytes_eq.beq p t then (same + 1, params) else (same, params))

module _ {F : Type 0} ⦃fl : Floats F⦄ where
  -- `seqDistance`
  unfoldable pub seq_distance : Bytes → List Bytes → List Bytes → Bool → F × ℕ
  seq_distance param template tokens include_params =
      let (same, params) = count_tokens param template tokens in
      let counted = if include_params then same + params else same in
      if length template == length tokens
      then (if length template == 0
          then (fl.hundredths 100, 0)
          else (fl.div (fl.of_int (pos counted)) (fl.of_int (pos (length template))), params))
      else (fl.hundredths 0, 0)

-- the loop of `alignParameters`, over lists of one length; `is_mask` is the set of mask names
unfoldable pub aligned : Bytes → (Bytes → Bool) → List Bytes → List Bytes → List Bytes
aligned param is_mask [] tokens = []
aligned param is_mask (p ∷ ps) [] = []
aligned param is_mask (p ∷ ps) (t ∷ ts) =
    if bytes_eq.beq p param || is_mask p
    then t ∷ aligned param is_mask ps ts
    else aligned param is_mask ps ts

-- `alignParameters`; `none` is the nil slice
unfoldable pub align_parameters :
    Bytes → (Bytes → Bool) → List Bytes → List Bytes → Option (List Bytes)
align_parameters param is_mask template tokens =
    if length tokens == length template then some (aligned param is_mask template tokens) else none
