-- ===== src/Correlate/Running.antt =====
-- internal/core/correlate/correlator.go: `Flush`, and sequences of calls of a correlator.
use tezcatl.Base.{
  ℕ, suc, ◌+◌, ◌<◌, ◌≡◌, refl, sym, ap, ◌∙◌, subst, Bool, true, Bool-cases, Option-cases, Option,
  none, some, List, [], ◌∷◌, ◌++◌, Bytes, All, All-append, inl, inr, arith, length, map, ◌==◌,
}
use tezcatl.Base.Assoc.{Map}
use tezcatl.Base.Ints.{Time}
use tezcatl.Base.Sorting.{length-sort_by}
use tezcatl.Correlate.Corroborated.{Corroborated, build-Corroborated, build_echo-mild}
use tezcatl.Correlate.Emission.{
  combine, stamped, stronger, related, all_related, related_changes, is_near, last_of, compose,
  build, echo_event, build_echo,
}
use tezcatl.Correlate.Flushing.{
  Flushed, is_due, is_past, flush_source, flush_sources, flush_echoes, flush, Call, observing,
  adding, flushing, serve, run,
}
use tezcatl.Correlate.Soundness.{
  Declared, PendingOk, SoundSource, SoundEcho, Sound, WellFormed, observe-Sound, with_pending-Sound,
}
use tezcatl.Correlate.Adding.{add-Sound}
use tezcatl.Correlate.State.{
  Config, Aggregated, PendingEvent, SourceState, EchoState, Correlator, with_pending,
  new_correlator,
}
use tezcatl.Model.{Floats, Observation, Signal, RelatedChange, Event}

length-map {ℓ κ} :
    {A : Type ℓ} {B : Type κ} (f : A → B) (xs : List A) → length (map f xs) ≡ length xs
length-map f [] = refl
length-map f (x ∷ xs) = ap suc (length-map f xs)

module _ {F : Type 0} ⦃fl : Floats F⦄ where
  related-total :
      (at : Time) (o : Observation F) → Declared o → (r : RelatedChange F) × (related at o ≡ some r)
  unfolding related
  related-total at o d = elim (Option-cases o.change) [
    | inl absent ↦ absurd (ground arith)
    | inr (r, known) ↦ rw known (_, refl)
  ]

  all_related-total :
      (at : Time) (os : List (Observation F))
      → All Declared os
      → (rs : List (RelatedChange F)) × (all_related at os ≡ some rs)
  unfolding all_related
  all_related-total at [] d = ([], refl)
  all_related-total at (o ∷ os) d =
      let (r, one) = related-total at o d.0 in
      let (rs, more) = all_related-total at os d.1 in (r ∷ rs, rw (one, more) refl)

  related_changes-total :
      (c : Config) (at : Time) (os : List (Observation F))
      → All Declared os
      → (rs : List (RelatedChange F)) × (related_changes c at os ≡ some rs)
  unfolding related_changes
  related_changes-total c at [] d = ([], refl)
  related_changes-total c at (o ∷ os) d =
      let (r, one) = related-total at o d.0 in
      let (rs, more) = related_changes-total c at os d.1 in
      elim (Bool-cases (is_near c at o)) [
        | inl near ↦ (r ∷ rs, rw (more, near, one) refl)
        | inr far ↦ (rs, rw (more, far) refl)
      ]

  last_of-total :
      (os : List (Observation F))
      → All Declared os
      → 0 < length os
      → (o : Observation F) × (last_of os ≡ some o) × Declared o
  unfolding last_of
  last_of-total [] d n = absurd (omega arith)
  last_of-total (o ∷ []) d n = (o, refl, d.0)
  last_of-total (o ∷ p ∷ rest) d n = last_of-total (p ∷ rest) d.1 (omega arith)

  combine-length : (ags : List (Aggregated F)) → length (combine ags).signals ≡ length ags
  unfolding combine
  combine-length ags = length-sort_by stronger (map stamped ags) ∙ length-map stamped ags

  compose-total :
      (id name : Bytes) (p : PendingEvent F) (ags : List (Aggregated F))
      (rs : List (RelatedChange F)) (signals : List (Signal F))
      → 0 < length signals
      → (ev : Event F) × (compose id name p (combine ags) rs signals ≡ some ev)
  unfolding compose
  compose-total id name p ags rs [] n = absurd (omega arith)
  compose-total id name p ags rs (s ∷ rest) n = (_, refl)

  build-total :
      (id : Bytes) (c : Config) (name : Bytes) (s : SourceState F) (p : PendingEvent F)
      → SoundSource s
      → 0 < length p.signals
      → (ev : Event F) × (build id c name s p ≡ some ev)
  unfolding build
  build-total id c name s p k n =
      let ags = map (λ q. q.1) p.signals in
      let (rs, known) = related_changes-total c p.first_signal_at s.changes k.declared in
      let (ev, made) =
        compose-total id name p ags rs (combine ags).signals
          (subst (λ m. 0 < m) (sym (combine-length ags ∙ length-map (λ q. q.1) p.signals)) n) in
      (ev, rw known made)

  build_echo-total :
      (id name : Bytes) (e : EchoState F)
      → SoundEcho e
      → (ev : Event F) × (build_echo id name e ≡ some ev)
  unfolding build_echo
  build_echo-total id name e k =
      let (latest, found, d) = last_of-total e.changes k.declared k.some_change in
      let (rs, known) = all_related-total e.first_signal_at e.changes k.declared in
      elim (Option-cases latest.change) [
        | inl absent ↦ absurd (ground arith)
        | inr (r, declared) ↦ (echo_event id name e rs r, rw (found, known, declared) refl)
      ]

  flush_source-total :
      (ids : ℕ → Bytes) (c : Correlator F) (force : Bool) (now : Time) (name : Bytes)
      (s : SourceState F) (p : Option (PendingEvent F))
      → SoundSource s
      → PendingOk p
      → is_due c force now p ≡ true
      → (ev : Event F) × (flush_source ids c name s p ≡ some ev) × Corroborated ev
  unfolding flush_source is_due
  flush_source-total ids c force now name s none k n due = absurd (ground arith)
  flush_source-total ids c force now name s (some p) k n due =
      let (ev, made) = build-total (ids 0) c.config name s p k n in
      (ev, made, build-Corroborated (ids 0) c.config name s p ev made)

  flush_sources-Sound :
      (ids : ℕ → Bytes) (c : Correlator F) (force : Bool) (now : Time)
      (m : Map Bytes (SourceState F))
      → All (λ p. SoundSource p.1) m
      → (f : Flushed F (SourceState F)) × (flush_sources ids c force now m ≡ some f)
        × All (λ p. SoundSource p.1) f.left
        × All Corroborated f.emitted
  unfolding flush_sources
  flush_sources-Sound ids c force now [] k = (_, refl, tt, tt)
  flush_sources-Sound ids c force now ((name, s) ∷ rest) k =
      let (f, ran, left, good) = flush_sources-Sound (λ n. ids (suc n)) c force now rest k.1 in
      elim (Bool-cases (is_due c force now s.pending)) [
        | inl due ↦
            let (ev, made, fine) =
              flush_source-total ids c force now name s s.pending k.0 k.0.pending due in
            (
              record { left = (name, with_pending none s) ∷ f.left; emitted = ev ∷ f.emitted },
              rw (due, made, ran) refl,
              (with_pending-Sound none s k.0 tt, left),
              (fine, good),
            )
        | inr early ↦
            let (f', ran', left', good') = flush_sources-Sound ids c force now rest k.1 in
            (
              record { left = (name, s) ∷ f'.left; emitted = f'.emitted },
              rw (early, ran') refl,
              (k.0, left'),
              good',
            )
      ]

  flush_echoes-Sound :
      (ids : ℕ → Bytes) (c : Correlator F) (force : Bool) (now : Time) (m : Map Bytes (EchoState F))
      → All (λ p. SoundEcho p.1) m
      → (f : Flushed F (EchoState F)) × (flush_echoes ids c force now m ≡ some f)
        × All (λ p. SoundEcho p.1) f.left
        × All Corroborated f.emitted
  unfolding flush_echoes
  flush_echoes-Sound ids c force now [] k = (_, refl, tt, tt)
  flush_echoes-Sound ids c force now ((name, e) ∷ rest) k =
      elim (Bool-cases (is_past c force now e)) [
        | inl past ↦ elim (Bool-cases (length e.signals == 0)) [
          | inl silent ↦
              let (f, ran, left, good) = flush_echoes-Sound ids c force now rest k.1 in
              (f, rw (past, silent) ran, left, good)
          | inr loud ↦
              let (f, ran, left, good) =
                flush_echoes-Sound (λ n. ids (suc n)) c force now rest k.1 in
              let (ev, made) = build_echo-total (ids 0) name e k.0 in
              (
                record { left = f.left; emitted = ev ∷ f.emitted },
                rw (past, loud, made, ran) refl,
                left,
                (λ grave. absurd (build_echo-mild (ids 0) name e ev k.0.unasked made grave), good),
              )
        ]
        | inr early ↦
            let (f, ran, left, good) = flush_echoes-Sound ids c force now rest k.1 in
            (
              record { left = (name, e) ∷ f.left; emitted = f.emitted },
              rw (early, ran) refl,
              (k.0, left),
              good,
            )
      ]

  pub serve-Sound :
      (call : Call F) (c : Correlator F)
      → WellFormed call
      → Sound c
      → (next : Correlator F) × (events : List (Event F)) × (serve call c ≡ some (next, events))
        × Sound next
        × All Corroborated events
  unfolding serve flush
  serve-Sound (observing now o) c w k = (_, _, refl, observe-Sound now o c w k, tt)
  serve-Sound (adding now o signals) c w k = (_, _, refl, add-Sound now o signals c k, tt)
  serve-Sound (flushing ids force now) c w k =
      let (f, ran, left, good) = flush_sources-Sound ids c force now c.sources k.sources in
      let (g, ran', left', good') =
        flush_echoes-Sound (λ n. ids (length f.emitted + n)) c force now c.echoes k.echoes in
      (
        record { config = c.config; watermark = c.watermark; sources = f.left; echoes = g.left },
        f.emitted ++ g.emitted,
        rw (ran, ran') refl,
        record { sources = left; echoes = left' },
        All-append Corroborated f.emitted g.emitted good good',
      )

  run-Sound :
      (calls : List (Call F)) (c : Correlator F)
      → All WellFormed calls
      → Sound c
      → (final : Correlator F) × (events : List (Event F)) × (run calls c ≡ some (final, events))
        × Sound final
        × All Corroborated events
  unfolding run
  run-Sound [] c w k = (c, [], refl, k, tt)
  run-Sound (call ∷ rest) c w k =
      let (next, events, one, fine, good) = serve-Sound call c w.0 k in
      let (final, more, ran, end, all) = run-Sound rest next w.1 fine in
      (final, events ++ more, rw (one, ran) refl, end, All-append Corroborated events more good all)

  pub new_correlator-Sound : (config : Option Config) → Sound (new_correlator {F = F} config)
  unfolding new_correlator
  new_correlator-Sound none = record { sources = tt; echoes = tt }
  new_correlator-Sound (some c) = record { sources = tt; echoes = tt }

  -- Whatever the calls of a new correlator, whose observed changes have their records: none of them
  -- panics, and every event emitted that is critical has a confidence not below 0.85 and, among its
  -- signals, a log and a metric, or a log beside a related change, or one that a person asked for;
  -- afterwards no echo holds a signal that a person asked for, and no pending event is empty.
  pub run-new_correlator :
      (config : Option Config) (calls : List (Call F))
      → All WellFormed calls
      → (final : Correlator F) × (events : List (Event F)) × (run calls (new_correlator config)
          ≡ some (final, events))
        × Sound final
        × All Corroborated events
  run-new_correlator config calls w =
      run-Sound calls (new_correlator config) w (new_correlator-Sound config)
