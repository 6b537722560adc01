-- ===== src/Detect/Log/Markings/Choice.antt =====
-- internal/core/detect/log.go: the choice that `markingFor` makes.
use tezcatl.Base.{
  ◌≡◌, refl, sym, subst, ap, ap₂, ◌∙◌, ◌⊎◌, inl, inr, true, false, Bool-cases, Option-cases, none,
  some, some-cancel, [], ◌∷◌, Bytes, bytes_eq, same_bytes, same_bytes_iff, before_bytes, All, In,
  All-In, arith,
}
use mathlib.Core.Option.{none-ne-some}
use tezcatl.Base.Assoc.{Map, lookup, Distinct, has}
use tezcatl.Detect.Log.{Marking, LogDetector}
use tezcatl.Detect.Log.Markings.{
  Best, more_specific, matches, better, best_pattern, marking_of, marking_for,
}

before_bytes_trans :
    (a b c : Bytes) → before_bytes a b ≡ true → before_bytes b c ≡ true → before_bytes a c ≡ true
unfolding before_bytes
before_bytes_trans a b [] h k = k
before_bytes_trans a [] (z ∷ c) h k = absurd (let g = h in cc)
before_bytes_trans [] (y ∷ b) (z ∷ c) h k = refl
before_bytes_trans (x ∷ a) (y ∷ b) (z ∷ c) h k = ground (arith, before_bytes_trans a b c)

before_bytes_total : (a b : Bytes) → before_bytes a b ≡ false → before_bytes b a ≡ false → a ≡ b
unfolding before_bytes
before_bytes_total [] [] h k = refl
before_bytes_total [] (y ∷ b) h k = absurd cc
before_bytes_total (x ∷ a) [] h k = absurd cc
before_bytes_total (x ∷ a) (y ∷ b) h k =
    let heads : x ≡ y = ground arith in
    let tails : a ≡ b = ground (arith, heads, before_bytes_total a b) in
    ap₂ (λ z c. z ∷ c) heads tails

more_specific_trans :
    (a b c : Bytes) → more_specific a b ≡ true → more_specific b c ≡ true → more_specific a c ≡ true
unfolding more_specific
more_specific_trans a b c h k = ground (arith, before_bytes_trans a b c)

more_specific_total : (a b : Bytes) → more_specific a b ≡ false → more_specific b a ≡ false → a ≡ b
unfolding more_specific
more_specific_total a b h k = ground (arith, before_bytes_total a b)

-- a chosen pattern that another one does not beat
abbrev pub Unbeaten : Bytes → Best → Type 0
Unbeaten q none = ⊥
Unbeaten q (some (p, m)) = more_specific q p ≡ false

before_bytes_irrefl : (a : Bytes) → before_bytes a a ≡ false
unfolding before_bytes
before_bytes_irrefl [] = refl
before_bytes_irrefl (x ∷ a) = ground (arith, before_bytes_irrefl a)

more_specific_irrefl : (a : Bytes) → more_specific a a ≡ false
unfolding more_specific
more_specific_irrefl a = ground (arith, before_bytes_irrefl a)

-- being unbeaten outlasts a better choice
unbeaten_by_better :
    (q p p' : Bytes)
    → more_specific q p ≡ false
    → more_specific p' p ≡ true
    → more_specific q p' ≡ false
unbeaten_by_better q p p' h k = elim (Bool-cases (more_specific q p')) [
  | inl more ↦ absurd (let g = more_specific_trans q p' p more k in cc)
  | inr less ↦ less
]

better_keeps :
    (t q : Bytes) (e : Bytes × Marking) (best : Best)
    → Unbeaten q best
    → Unbeaten q (better t e best)
unfolding better
better_keeps t q (p, c) none h = absurd h
better_keeps t q (p, c) (some (b, m)) h = elim (Bool-cases (matches p t)) [
  | inl fits ↦ elim (Bool-cases (more_specific p b)) [
    | inl more ↦ rw (better, fits, more) (unbeaten_by_better q b p h more)
    | inr less ↦ rw (better, fits, less) h
  ]
  | inr other ↦ rw (better, other) h
]

better_considers :
    (t : Bytes) (e : Bytes × Marking) (best : Best)
    → matches e.0 t ≡ true
    → Unbeaten e.0 (better t e best)
unfolding better
better_considers t (p, c) none fits = rw (better, fits) (more_specific_irrefl p)
better_considers t (p, c) (some (b, m)) fits = elim (Bool-cases (more_specific p b)) [
  | inl more ↦ rw (better, fits, more) (more_specific_irrefl p)
  | inr less ↦ rw (better, fits, less) less
]

better_origin :
    (t : Bytes) (e : Bytes × Marking) (best : Best)
    → (better t e best ≡ best) ⊎ ((better t e best ≡ some e) × (matches e.0 t ≡ true))
unfolding better
better_origin t (p, c) best = elim (Bool-cases (matches p t)) [
  | inr other ↦ inl (rw (better, other) refl)
  | inl fits ↦ chosen best fits
]
  where
    chosen :
        (b : Best)
        → matches p t ≡ true
        → (better t (p, c) b ≡ b) ⊎ ((better t (p, c) b ≡ some (p, c)) × (matches p t ≡ true))
    chosen none fits = inr (rw (better, fits) refl, fits)
    chosen (some (b, m)) fits = elim (Bool-cases (more_specific p b)) [
      | inl more ↦ inr (rw (better, fits, more) refl, fits)
      | inr less ↦ inl (rw (better, fits, less) refl)
    ]

best_pattern_keeps :
    (t q : Bytes) (best : Best) (m : Map Bytes Marking)
    → Unbeaten q best
    → Unbeaten q (best_pattern t best m)
unfolding best_pattern
best_pattern_keeps t q best [] h = h
best_pattern_keeps t q best (e ∷ m) h =
    best_pattern_keeps t q (better t e best) m (better_keeps t q e best h)

best_pattern_considers :
    (t : Bytes) (best : Best) (m : Map Bytes Marking)
    → All (λ e. matches e.0 t ≡ true → Unbeaten e.0 (best_pattern t best m)) m
unfolding best_pattern
best_pattern_considers t best [] = tt
best_pattern_considers t best (e ∷ m) = (
  λ fits. best_pattern_keeps t e.0 (better t e best) m (better_considers t e best fits),
  best_pattern_considers t (better t e best) m,
)

best_pattern_origin :
    (t : Bytes) (best : Best) (m : Map Bytes Marking) (e : Bytes × Marking)
    → best_pattern t best m ≡ some e
    → (best ≡ some e) ⊎ (In e m × (matches e.0 t ≡ true))
unfolding best_pattern
best_pattern_origin t best [] e h = inl h
best_pattern_origin t best (x ∷ m) e h = elim (best_pattern_origin t (better t x best) m e h) [
  | inr (later, fits) ↦ inr (inr later, fits)
  | inl now ↦ elim (better_origin t x best) [
    | inl old ↦ inl (sym old ∙ now)
    | inr (new, fits) ↦
        (let same : x ≡ e = some-cancel (sym new ∙ now) in
          inr (inl (sym same), subst (λ y. matches y.0 t ≡ true) same fits))
  ]
]

lookup-In : (k : Bytes) (v : Marking) (m : Map Bytes Marking) → lookup k m ≡ some v → In (k, v) m
unfolding lookup
lookup-In k v [] h = absurd (none-ne-some v h)
lookup-In k v ((j, w) ∷ m) h = elim (Bool-cases (same_bytes j k)) [
  | inl same ↦
      inl
        (ap₂ (λ a b. (a, b)) (sym ((same_bytes_iff j k).0 same)) (sym (some-cancel (rw same at h))))
  | inr differ ↦ inr (lookup-In k v m (rw differ at h))
]

In-lookup :
    (k : Bytes) (v : Marking) (m : Map Bytes Marking)
    → Distinct m
    → In (k, v) m
    → lookup k m ≡ some v
unfolding lookup
In-lookup k v [] d i = elim i [ ]
In-lookup k v ((j, w) ∷ m) d (inl e) =
    rw ((same_bytes_iff j k).1 (sym (ap (λ p. p.0) e))) (ap (λ p. some p.1) (sym e))
In-lookup k v ((j, w) ∷ m) d (inr i) = elim (Bool-cases (same_bytes j k)) [
  | inl same ↦
      (let e : j ≡ k = (same_bytes_iff j k).0 same in
        let there : has j m ≡ true = rw (e, In-lookup k v m d.1 i) refl in
        absurd (let g = sym there ∙ d.0 in cc))
  | inr differ ↦ rw differ (In-lookup k v m d.1 i)
]

-- What `markingFor` promises of the pattern that it finds: it is a pattern that matches, and no other
-- that matches is longer, or as long and smaller; it finds none where none matches.
abbrev pub Chosen : Bytes → Map Bytes Marking → Best → Type 0
Chosen t m none = (q : Bytes) (v : Marking) → lookup q m ≡ some v → matches q t ≡ false
Chosen t m (some (p, v)) =
    (lookup p m ≡ some v)
    × (matches p t ≡ true)
    × ((q : Bytes) (w : Marking)
        → lookup q m ≡ some w
        → matches q t ≡ true
        → more_specific q p ≡ false)

pub best_pattern-Chosen :
    (t : Bytes) (m : Map Bytes Marking) → Distinct m → Chosen t m (best_pattern t none m)
best_pattern-Chosen t m d = chosen (best_pattern t none m) refl
  where
    fair :
        (q : Bytes) (v : Marking)
        → lookup q m ≡ some v
        → matches q t ≡ true
        → Unbeaten q (best_pattern t none m)
    fair q v h fits =
        All-In (λ e. matches e.0 t ≡ true → Unbeaten e.0 (best_pattern t none m)) (q, v) m
          (best_pattern_considers t none m) (lookup-In q v m h) fits

    chosen : (r : Best) → best_pattern t none m ≡ r → Chosen t m r
    chosen none e = λ q v h. elim (Bool-cases (matches q t)) [
      | inl fits ↦ absurd (subst (Unbeaten q) e (fair q v h fits))
      | inr other ↦ other
    ]
    chosen (some (p, v)) e = elim (best_pattern_origin t none m (p, v) e) [
      | inl never ↦ absurd (none-ne-some (p, v) never)
      | inr (i, fits) ↦
          (In-lookup p v m d i, fits, λ q w h fits'. subst (Unbeaten q) e (fair q w h fits'))
    ]

-- the promise has one solution, whatever the order of the map
only_choice :
    (t : Bytes) (m m' : Map Bytes Marking)
    → ((k : Bytes) → lookup k m ≡ lookup k m')
    → (r r' : Best) → Chosen t m r
    → Chosen t m' r'
    → r ≡ r'
only_choice t m m' same none none h k = refl
only_choice t m m' same none (some (p, v)) h (there, fits, k) =
    absurd (let g = sym fits ∙ h p v (same p ∙ there) in cc)
only_choice t m m' same (some (p, v)) none (there, fits, k) h =
    absurd (let g = sym fits ∙ h p v (sym (same p) ∙ there) in cc)
only_choice t m m' same (some (p, v)) (some (q, w)) (there, fits, h) (there', fits', k) =
    let e : p ≡ q =
      more_specific_total p q (k p v (sym (same p) ∙ there) fits) (h q w (same q ∙ there') fits') in
    let f : v ≡ w = some-cancel (sym there ∙ ap (λ i. lookup i m) e ∙ same q ∙ there') in
    ap₂ (λ a b. some (a, b)) e f

module _ {F : Type 0} where
  -- `markingFor` depends on the two maps alone, not on the order in which they are visited: two
  -- detectors whose markings and patterns agree key by key give every template the same marking.
  pub marking_for_order :
      (t : Bytes) (d d' : LogDetector F)
      → Distinct d.patterns
      → Distinct d'.patterns
      → ((k : Bytes) → lookup k d.markings ≡ lookup k d'.markings)
      → ((k : Bytes) → lookup k d.patterns ≡ lookup k d'.patterns)
      → marking_for t d ≡ marking_for t d'
  unfolding marking_for
  marking_for_order t d d' dist dist' markings patterns =
      elim (Option-cases (lookup t d'.markings)) [
        | inl absent ↦
            rw (marking_for, markings t, absent)
              (ap marking_of (
                only_choice t d.patterns d'.patterns patterns (best_pattern t none d.patterns)
                  (best_pattern t none d'.patterns) (best_pattern-Chosen t d.patterns dist)
                  (best_pattern-Chosen t d'.patterns dist')))
        | inr (v, there) ↦ rw (marking_for, markings t, there) refl
      ]

  -- A template marked by its own text has that marking; any other has the marking of the longest
  -- pattern that matches it, the smaller text where two are as long, or none where no pattern matches.
  pub marking_for_lem :
      (t : Bytes) (d : LogDetector F)
      → Distinct d.patterns
      → (lookup t d.markings ≡ some (marking_for t d))
        ⊎ ((lookup t d.markings ≡ none)
            × (r : Best) × Chosen t d.patterns r
            × (marking_for t d ≡ marking_of r))
  unfolding marking_for
  marking_for_lem t d dist = elim (Option-cases (lookup t d.markings)) [
    | inl absent ↦ inr (
      absent,
      best_pattern t none d.patterns,
      best_pattern-Chosen t d.patterns dist,
      rw (marking_for, absent) refl,
    )
    | inr (v, there) ↦ inl (rw (marking_for, there) refl)
  ]
