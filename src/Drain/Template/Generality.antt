-- ===== src/Drain/Template/Generality.antt =====
-- internal/core/drain/drain.go: `createTemplate` and what a template covers.
use tezcatl.Base.{
  ◌≡◌, refl, inr, ◌⊎◌, some, List, [], ◌∷◌, arith, length, Bytes, bytes_eq, same_bytes_iff,
  if◌then◌else◌,
}
use tezcatl.Drain.Template.{create_template}

-- The template covers the message: each of its tokens is the parameter or the message's own.
abbrev pub Covers : Bytes → List Bytes → List Bytes → Type 0
Covers param [] [] = Unit
Covers param [] (t ∷ ts) = ⊥
Covers param (p ∷ ps) [] = ⊥
Covers param (p ∷ ps) (t ∷ ts) = ((p ≡ param) ⊎ (p ≡ t)) × Covers param ps ts

pub Covers-refl : (param : Bytes) (ts : List Bytes) → Covers param ts ts
Covers-refl param [] = tt
Covers-refl param (t ∷ ts) = (inr refl, Covers-refl param ts)

-- One template is at least as general as another.
abbrev pub Generalizes : Bytes → List Bytes → List Bytes → Type 0
Generalizes param wide narrow = (ts : List Bytes) → Covers param narrow ts → Covers param wide ts

-- Updating a template with a message of its length never goes out of range. The new template has the
-- same length, covers the message and all that the old one covered, and is the most specific
-- one that does: any template that covers the old one and the message covers the new one.
pub create_template_lem :
    (param : Bytes) (tokens template : List Bytes)
    → length tokens ≡ length template
    → (new : List Bytes) × (create_template param tokens template ≡ some new)
      × (length new ≡ length template)
      × Covers param new tokens
      × Generalizes param new template
      × ((wide : List Bytes)
          → Covers param wide template
          → Covers param wide tokens
          → Covers param wide new)
unfolding create_template
create_template_lem param [] [] h = ([], refl, refl, tt, λ ts c. c, λ wide c d. c)
create_template_lem param [] (p ∷ ps) h = absurd (omega arith)
create_template_lem param (t ∷ ts) [] h = absurd (omega arith)
create_template_lem param (t ∷ ts) (p ∷ ps) h =
    let (new, e, size, covers, wider, least) = create_template_lem param ts ps (omega arith) in
    (
      (if bytes_eq.beq t p then p else param) ∷ new,
      rw e,
      omega arith,
      (head_covers, covers),
      λ us c. wider_all new us c wider,
      λ wide c d. least_all new wide c d least,
    )
  where
    merged : Bytes
    merged = if bytes_eq.beq t p then p else param

    wider_all :
        (new us : List Bytes)
        → Covers param (p ∷ ps) us
        → Generalizes param new ps
        → Covers param (merged ∷ new) us
    wider_all new [] c w = c
    wider_all new (u ∷ us) c w = (ground (arith, c.0), w us c.1)

    least_all :
        (new wide : List Bytes)
        → Covers param wide (p ∷ ps)
        → Covers param wide (t ∷ ts)
        → ((w : List Bytes) → Covers param w ps → Covers param w ts → Covers param w new)
        → Covers param wide (merged ∷ new)
    least_all new [] c d l = c
    least_all new (w ∷ ws) c d l = (ground (arith, c.0, d.0, same_bytes_iff t p), l ws c.1 d.1)

    head_covers :
        ((if bytes_eq.beq t p then p else param) ≡ param)
        ⊎ ((if bytes_eq.beq t p then p else param) ≡ t)
    head_covers = ground (arith, same_bytes_iff t p)
