-- ===== src/Correlate/Corroborated.antt =====
-- internal/core/correlate/correlator.go: the severity of the events that `build` and `buildEcho` make.
use mathlib.Core.Option.{none-ne-some}
use tezcatl.Base.{
  ◌<◌, ◌≡◌, refl, ap, ◌∙◌, subst, Bool, true, false, Bool-cases, none, some, List, [], ◌∷◌, Bytes,
  bytes_eq, codes, itoa, same_bytes, All, In, ◌⊎◌, inl, inr, arith, ltb→lt, if◌then◌else◌, length,
  map, >>=-eq-some, some-cancel, ◌≢◌,
}
use tezcatl.Base.Assoc.{Map, lookup-insert_ne}
use tezcatl.Base.Sorting.{sort_by, In-sort_by, All-sort_by}
use tezcatl.Correlate.Emission.{
  any_by, stamped, seen_as, combine, stronger, severity_of, compose, build, echo_event, build_echo,
  related_changes, last_of, all_related,
}
use tezcatl.Correlate.Intake.{is_intended, intended}
use tezcatl.Correlate.State.{
  Config, Aggregated, PendingEvent, SourceState, EchoState, is_log, is_metric,
}
use tezcatl.Model.{Floats, Signal, RelatedChange, Event, critical}

any_by_lem {ℓ} :
    {A : Type ℓ} (p : A → Bool) (xs : List A)
    → any_by p xs ≡ true
    → (x : A) × In x xs × (p x ≡ true)
unfolding any_by
any_by_lem p [] h = ground arith
any_by_lem p (x ∷ xs) h = elim (Bool-cases (p x)) [
  | inl holds ↦ (x, inl refl, holds)
  | inr fails ↦ let (y, i, holds) = any_by_lem p xs (later fails) in (y, inr i, holds)
]
  where
    later : p x ≡ false → any_by p xs ≡ true
    later fails = ground arith

any_by-none {ℓ} :
    {A : Type ℓ} (p : A → Bool) (xs : List A) → All (λ x. p x ≡ false) xs → any_by p xs ≡ false
unfolding any_by
any_by-none p [] h = refl
any_by-none p (x ∷ xs) h = rw h.0 (any_by-none p xs h.1)

clash : {b : Bool} → b ≡ true → b ≡ false → ⊥
clash h k = ground arith

another_key : same_bytes (codes "occurrences") (codes "marking") ≡ false
unfolding same_bytes
another_key = refl

both : (a b : Bool) → (if a then b else false) ≡ true → (a ≡ true) × (b ≡ true)
both a b h = ground arith

module _ {F : Type 0} ⦃fl : Floats F⦄ where
  abbrev pub Logged : List (Signal F) → Type 0
  Logged signals = (s : Signal F) × In s signals × (is_log s.modality ≡ true)

  abbrev pub Measured : List (Signal F) → Type 0
  Measured signals = (s : Signal F) × In s signals × (is_metric s.modality ≡ true)

  abbrev pub Asked : List (Signal F) → Type 0
  Asked signals = (s : Signal F) × In s signals × (intended s ≡ true)

  -- A critical event is confident, and has logs and metrics that agree, or a log near a change, or
  -- a signal that a person asked for.
  abbrev pub Corroborated : Event F → Type 0
  Corroborated ev =
      ev.severity ≡ critical
      → (fl.lt ev.confidence (fl.hundredths 85) ≡ false)
        × ((Logged ev.signals × Measured ev.signals)
            ⊎ ((0 < length ev.related_changes) × Logged ev.signals)
            ⊎ Asked ev.signals)

  severity_of_lem :
      (confidence : F) (signals : List (Signal F)) (multimodal near : Bool)
      → severity_of confidence signals multimodal near ≡ critical
      → (fl.lt confidence (fl.hundredths 85) ≡ false)
        × ((multimodal ≡ true)
            ⊎ ((near ≡ true) × (any_by (λ s. is_log s.modality) signals ≡ true))
            ⊎ (any_by intended signals ≡ true))
  unfolding severity_of
  severity_of_lem confidence signals multimodal near h = ground arith

  sorted-any :
      (p : Signal F → Bool) (signals : List (Signal F))
      → any_by p signals ≡ true
      → (s : Signal F) × In s (sort_by stronger signals) × (p s ≡ true)
  sorted-any p signals h =
      let (s, i, holds) = any_by_lem p signals h in (s, In-sort_by stronger s signals i, holds)

  combine-multimodal :
      (aggregated : List (Aggregated F))
      → (combine aggregated).multimodal ≡ true
      → Logged (combine aggregated).signals × Measured (combine aggregated).signals
  unfolding combine seen_as
  combine-multimodal aggregated h = (
    sorted-any _ (map stamped aggregated) (both _ _ h).0,
    sorted-any _ (map stamped aggregated) (both _ _ h).1,
  )

  -- the number of occurrences does not change what a signal is
  stamped-intended : (a : Aggregated F) → intended (stamped a) ≡ intended a.signal
  unfolding intended stamped
  stamped-intended a =
      ap (λ o. is_intended a.signal.kind (elim o [ none ↦ [] | some v ↦ v ]))
        (lookup-insert_ne (codes "occurrences") (codes "marking") (itoa a.count) a.signal.attributes
          another_key)

  combine-unasked :
      (m : Map Bytes (Aggregated F))
      → All (λ p. intended p.1.signal ≡ false) m
      → any_by intended (combine (map (λ p. p.1) m)).signals ≡ false
  unfolding combine
  combine-unasked m h = any_by-none intended (sort_by stronger (map stamped (map (λ p. p.1) m))) (
      All-sort_by stronger (λ s. intended s ≡ false) (map stamped (map (λ p. p.1) m)) (unasked m h))
    where
      unasked :
          (n : Map Bytes (Aggregated F))
          → All (λ p. intended p.1.signal ≡ false) n
          → All (λ s. intended s ≡ false) (map stamped (map (λ p. p.1) n))
      unasked [] k = tt
      unasked (p ∷ rest) k = (stamped-intended p.1 ∙ k.0, unasked rest k.1)

  compose-Corroborated :
      (id source : Bytes) (p : PendingEvent F) (aggregated : List (Aggregated F))
      (changes : List (RelatedChange F)) (signals : List (Signal F)) (ev : Event F)
      → compose id source p (combine aggregated) changes signals ≡ some ev
      → Corroborated ev
  unfolding compose
  compose-Corroborated id source p aggregated changes [] ev h = absurd (none-ne-some ev h)
  compose-Corroborated id source p aggregated changes (dominant ∷ rest) ev h =
      subst Corroborated (some-cancel h) (λ grave.
        let (sure, why) = severity_of_lem _ _ _ _ grave in
        (
          sure,
          elim why [
            | inl multimodal ↦ inl (combine-multimodal aggregated multimodal)
            | inr (inl (near, logged)) ↦
                inr (inl (ltb→lt 0 (length changes) near, any_by_lem _ _ logged))
            | inr (inr asked) ↦ inr (inr (any_by_lem intended _ asked))
          ],
        ))

  -- The event of a source is critical only when it is corroborated.
  pub build-Corroborated :
      (id : Bytes) (c : Config) (source : Bytes) (s : SourceState F) (p : PendingEvent F)
      (ev : Event F)
      → build id c source s p ≡ some ev
      → Corroborated ev
  unfolding build
  build-Corroborated id c source s p ev h =
      let (changes, known, composed) =
        >>=-eq-some (related_changes c p.first_signal_at s.changes) _ h in
      compose-Corroborated id source p (map (λ q. q.1) p.signals) changes _ ev composed

  -- The event of an echo that holds no signal a person asked for is not critical.
  pub build_echo-mild :
      (id source : Bytes) (e : EchoState F) (ev : Event F)
      → All (λ p. intended p.1.signal ≡ false) e.signals
      → build_echo id source e ≡ some ev
      → ev.severity ≢ critical
  unfolding build_echo echo_event
  build_echo-mild id source e ev unasked h grave =
      let (latest, l, h₁) = >>=-eq-some (last_of e.changes) _ h in
      let (changes, m, h₂) = >>=-eq-some (all_related e.first_signal_at e.changes) _ h₁ in
      let (declared, n, h₃) = >>=-eq-some latest.change _ h₂ in
      let (sure, why) = severity_of_lem _ _ _ _ (ap (λ v. v.severity) (some-cancel h₃) ∙ grave) in
      elim why [
        | inl never ↦ absurd (ground arith)
        | inr (inl never) ↦ absurd (ground arith)
        | inr (inr asked) ↦ absurd (clash asked (combine-unasked e.signals unasked))
      ]
