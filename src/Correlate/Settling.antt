-- ===== src/Correlate/Settling.antt =====
-- internal/core/correlate/correlator.go: what `Flush` leaves in the correlator.
use tezcatl.Base.{
  ℕ, suc, ◌+◌, ◌≡◌, refl, ap, subst, Bool, false, Bool-cases, some, List, [], ◌∷◌, Bytes, All, inl,
  inr, length, map, >>=-eq-some, some-cancel, ◌==◌,
}
use tezcatl.Base.Assoc.{Map}
use tezcatl.Base.Ints.{Time}
use tezcatl.Correlate.Emission.{build_echo}
use tezcatl.Correlate.Flushing.{
  Flushed, is_due, is_past, flush_source, flush_sources, flush_echoes, flush, flushing, serve,
}
use tezcatl.Correlate.Running.{serve-Sound}
use tezcatl.Correlate.Soundness.{Sound}
use tezcatl.Correlate.State.{SourceState, EchoState, Correlator}
use tezcatl.Model.{Floats, Event}

module _ {F : Type 0} ⦃fl : Floats F⦄ where
  -- no source has an event that is due
  abbrev pub Settled : Correlator F → Bool → Time → Map Bytes (SourceState F) → Type 0
  Settled c force now m = All (λ p. is_due c force now p.1.pending ≡ false) m

  -- no echo is past its window
  abbrev pub Fresh : Correlator F → Bool → Time → Map Bytes (EchoState F) → Type 0
  Fresh c force now m = All (λ p. is_past c force now p.1 ≡ false) m

  flush_sources-Settled :
      (ids : ℕ → Bytes) (c : Correlator F) (force : Bool) (now : Time)
      (m : Map Bytes (SourceState F)) (f : Flushed F (SourceState F))
      → flush_sources ids c force now m ≡ some f
      → Settled c force now f.left × (map (λ p. p.0) f.left ≡ map (λ p. p.0) m)
  unfolding flush_sources is_due
  flush_sources-Settled ids c force now [] f h =
      subst (λ g. Settled c force now g.left × (map (λ p. p.0) g.left ≡ [])) (some-cancel h)
        (tt, refl)
  flush_sources-Settled ids c force now ((name, s) ∷ rest) f h =
      elim (Bool-cases (is_due c force now s.pending)) [
        | inl due ↦
            let (ev, made, h₁) =
              >>=-eq-some (flush_source ids c name s s.pending) _ (rw due at h) in
            let (g, ran, h₂) =
              >>=-eq-some (flush_sources (λ n. ids (suc n)) c force now rest) _ h₁ in
            let (settled, names) =
              flush_sources-Settled (λ n. ids (suc n)) c force now rest g ran in
            subst
              (λ r.
                Settled c force now r.left × (map (λ p. p.0) r.left ≡ name ∷ map (λ p. p.0) rest))
              (some-cancel h₂) ((refl, settled), ap (λ l. name ∷ l) names)
        | inr early ↦
            let (g, ran, h₁) = >>=-eq-some (flush_sources ids c force now rest) _ (rw early at h) in
            let (settled, names) = flush_sources-Settled ids c force now rest g ran in
            subst
              (λ r.
                Settled c force now r.left × (map (λ p. p.0) r.left ≡ name ∷ map (λ p. p.0) rest))
              (some-cancel h₁) ((early, settled), ap (λ l. name ∷ l) names)
      ]

  flush_echoes-Fresh :
      (ids : ℕ → Bytes) (c : Correlator F) (force : Bool) (now : Time) (m : Map Bytes (EchoState F))
      (f : Flushed F (EchoState F))
      → flush_echoes ids c force now m ≡ some f
      → Fresh c force now f.left
  unfolding flush_echoes
  flush_echoes-Fresh ids c force now [] f h =
      subst (λ g. Fresh c force now g.left) (some-cancel h) tt
  flush_echoes-Fresh ids c force now ((name, e) ∷ rest) f h =
      elim (Bool-cases (is_past c force now e)) [
        | inl past ↦ elim (Bool-cases (length e.signals == 0)) [
          | inl silent ↦ flush_echoes-Fresh ids c force now rest f (rw (past, silent) at h)
          | inr loud ↦
              let (ev, made, h₁) =
                >>=-eq-some (build_echo (ids 0) name e) _ (rw (past, loud) at h) in
              let (g, ran, h₂) =
                >>=-eq-some (flush_echoes (λ n. ids (suc n)) c force now rest) _ h₁ in
              subst (λ r. Fresh c force now r.left) (some-cancel h₂)
                (flush_echoes-Fresh (λ n. ids (suc n)) c force now rest g ran)
        ]
        | inr early ↦
            let (g, ran, h₁) = >>=-eq-some (flush_echoes ids c force now rest) _ (rw early at h) in
            subst (λ r. Fresh c force now r.left) (some-cancel h₁)
              (early, flush_echoes-Fresh ids c force now rest g ran)
      ]

  flush-left :
      (ids : ℕ → Bytes) (c next : Correlator F) (force : Bool) (now : Time)
      (events : List (Event F))
      → flush ids force now c ≡ some (next, events)
      → Settled c force now next.sources
        × (map (λ p. p.0) next.sources ≡ map (λ p. p.0) c.sources)
        × Fresh c force now next.echoes
  unfolding flush
  flush-left ids c next force now events h =
      let (f, ran, h₁) = >>=-eq-some (flush_sources ids c force now c.sources) _ h in
      let (g, ran', h₂) =
        >>=-eq-some (flush_echoes (λ n. ids (length f.emitted + n)) c force now c.echoes) _ h₁ in
      let (settled, names) = flush_sources-Settled ids c force now c.sources f ran in
      subst
        (λ r.
          Settled c force now r.0.sources
          × (map (λ p. p.0) r.0.sources ≡ map (λ p. p.0) c.sources)
          × Fresh c force now r.0.echoes)
        (some-cancel h₂) (settled, names, flush_echoes-Fresh _ c force now c.echoes g ran')

  -- A flush of a sound correlator returns, forgets no source, and leaves nothing that it should have
  -- emitted: no pending event whose window has expired and no echo whose window has, and none at all
  -- when it is forced.
  pub flush-Settled :
      (ids : ℕ → Bytes) (force : Bool) (now : Time) (c : Correlator F)
      → Sound c
      → (next : Correlator F) × (events : List (Event F)) × (flush ids force now c
          ≡ some (next, events))
        × Settled c force now next.sources
        × (map (λ p. p.0) next.sources ≡ map (λ p. p.0) c.sources)
        × Fresh c force now next.echoes
  unfolding flush serve
  flush-Settled ids force now c k =
      let (next, events, ran, sound, good) = serve-Sound (flushing ids force now) c tt k in
      let (settled, names, fresh) = flush-left ids c next force now events ran in
      (next, events, ran, settled, names, fresh)
