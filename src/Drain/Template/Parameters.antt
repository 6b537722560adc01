-- ===== src/Drain/Template/Parameters.antt =====
-- internal/core/drain/miner.go: `alignParameters` and the filling of a template.
use tezcatl.Base.{
  ℕ, suc, ◌≡◌, refl, ◌∙◌, ap, ap₂, Bool, true, false, ◌||◌, Bool-cases, inl, inr, some, List, [],
  ◌∷◌, arith, length, ==_iff, Bytes, bytes_eq, same_bytes_iff, if◌then◌else◌,
}
use tezcatl.Drain.Template.{aligned, align_parameters}
use tezcatl.Drain.Template.Generality.{Covers}

-- a template with its parameters and masks replaced by values, in order
abbrev pub fill : Bytes → (Bytes → Bool) → List Bytes → List Bytes → List Bytes
fill param is_mask [] values = []
fill param is_mask (p ∷ ps) [] = p ∷ fill param is_mask ps []
fill param is_mask (p ∷ ps) (v ∷ vs) =
    if bytes_eq.beq p param || is_mask p
    then v ∷ fill param is_mask ps vs
    else p ∷ fill param is_mask ps (v ∷ vs)

-- how many values a template takes
abbrev pub slots : Bytes → (Bytes → Bool) → List Bytes → ℕ
slots param is_mask [] = 0
slots param is_mask (p ∷ ps) =
    if bytes_eq.beq p param || is_mask p
    then suc (slots param is_mask ps)
    else slots param is_mask ps

module _ (param : Bytes) (is_mask : Bytes → Bool) where
  Covers-length : (ps ts : List Bytes) → Covers param ps ts → length ts ≡ length ps
  Covers-length [] [] c = refl
  Covers-length [] (t ∷ ts) c = absurd c
  Covers-length (p ∷ ps) [] c = absurd c
  Covers-length (p ∷ ps) (t ∷ ts) c = ap suc (Covers-length ps ts c.1)

  fill_step :
      (p v : Bytes) (ps vs : List Bytes)
      → (bytes_eq.beq p param || is_mask p) ≡ true
      → fill param is_mask (p ∷ ps) (v ∷ vs) ≡ v ∷ fill param is_mask ps vs
  fill_step p v ps vs h = rw h

  fill_skip :
      (p : Bytes) (ps vs : List Bytes)
      → (bytes_eq.beq p param || is_mask p) ≡ false
      → fill param is_mask (p ∷ ps) vs ≡ p ∷ fill param is_mask ps vs
  fill_skip p ps [] h = refl
  fill_skip p ps (v ∷ vs) h = rw h

  fill-aligned :
      (ps ts : List Bytes)
      → Covers param ps ts
      → (fill param is_mask ps (aligned param is_mask ps ts) ≡ ts)
        × (length (aligned param is_mask ps ts) ≡ slots param is_mask ps)
  unfolding aligned
  fill-aligned [] [] c = (refl, refl)
  fill-aligned [] (t ∷ ts) c = absurd c
  fill-aligned (p ∷ ps) [] c = absurd c
  fill-aligned (p ∷ ps) (t ∷ ts) c =
      let (filled, counted) = fill-aligned ps ts c.1 in
      elim (Bool-cases (bytes_eq.beq p param || is_mask p)) [
        | inl slot ↦ (
          rw slot (fill_step p t ps (aligned param is_mask ps ts) slot ∙ ap (◌∷◌ t) filled),
          rw slot (ap suc counted),
        )
        | inr literal ↦
            let same : p ≡ t = ground (arith, c.0, same_bytes_iff p param) in
            (
              rw literal
                  (fill_skip p ps (aligned param is_mask ps ts) literal ∙ ap₂ ◌∷◌ same filled),
              rw literal counted,
            )
      ]

  -- Nothing of a message is lost in its template and its parameters: where the template covers the
  -- message, `alignParameters` returns one value for each parameter or mask of the template,
  -- and the template filled with these values is the message.
  pub align_parameters-fill :
      (template tokens : List Bytes)
      → Covers param template tokens
      → (values : List Bytes) × (align_parameters param is_mask template tokens ≡ some values)
        × (length values ≡ slots param is_mask template)
        × (fill param is_mask template values ≡ tokens)
  unfolding align_parameters
  align_parameters-fill template tokens c =
      let (filled, counted) = fill-aligned template tokens c in
      let same = Covers-length template tokens c in
      (
        aligned param is_mask template tokens,
        rw ((==_iff (length tokens) (length template)).1 same),
        counted,
        filled,
      )
