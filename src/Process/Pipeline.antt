-- ===== src/Process/Pipeline.antt =====
-- internal/core/processor: the chain from `Normalize` to `Analysis`.
use tezcatl.Base.{
  ℕ, ◌+◌, ◌≡◌, refl, sym, ap, ◌∙◌, inl, inr, true, false, Option, Option-cases, none, some, List,
  [], ◌∷◌, ◌++◌, length, All, ◌>>=◌, is_empty, either_branch, arith,
}
use tezcatl.Base.Ints.{ℤ, pos}
use tezcatl.Correlate.Adding.{add-Sound}
use tezcatl.Correlate.Corroborated.{Corroborated}
use tezcatl.Correlate.Flushing.{flushing, serve}
use tezcatl.Correlate.Intake.{add}
use tezcatl.Correlate.Running.{serve-Sound, new_correlator-Sound}
use tezcatl.Correlate.Soundness.{Declared, Sound, observe-Sound}
use tezcatl.Correlate.State.{Config, Correlator, is_change, observe, new_correlator}
use tezcatl.Dampen.{Dampener}
use tezcatl.Model.{
  Floats, Observation, Signal, Event, Modality, log, metric, change, trace, unnamed,
}
use tezcatl.Process.{
  Moment, Normalized, accepted, refused, overrun, cut, named, shorten, check_metric, check_change,
  check, completed, complete, normalize,
}
use tezcatl.Process.Analysis.{Analysis, dampen, flush_analysis, run_detectors, analyse}
use tezcatl.Process.Chain.{Delivers, done, then_by, run_worker-Worked}
use tezcatl.Process.Worker.{Verdict, next, failed, Processor, Work, run_worker}

-- what the correlator expects of an observation
abbrev pub Ready : {F : Type 0} → Observation F → Type 0
Ready o = is_change o.modality ≡ true → Declared o

abbrev pub Fine : {F : Type 0} → Normalized F → Type 0
Fine (accepted o) = Ready o
Fine (refused why) = Unit
Fine overrun = ⊥

module _ {F : Type 0} where
  not_change :
      (o : Observation F) (mo : Modality) → o.modality ≡ mo → is_change mo ≡ false → Ready o
  not_change o mo e other changing = absurd (let g = sym changing ∙ ap is_change e ∙ other in cc)

  check-Fine :
      (n : ℕ) (o : Observation F) (mo : Modality) → o.modality ≡ mo → Fine (check (pos n) o mo)
  unfolding check shorten check_metric check_change cut
  check-Fine n o log e = elim (Option-cases o.log) [
    | inl absent ↦ rw (check, absent) tt
    | inr (r, there) ↦ rw (check, there) (not_change o log e refl)
  ]
  check-Fine n o metric e = elim (Option-cases o.metric) [
    | inl absent ↦ rw (check, absent) tt
    | inr (m, there) ↦
        rw (check, there) (either_branch Fine (is_empty m.name) tt (not_change o metric e refl))
  ]
  check-Fine n o change e = elim (Option-cases o.change) [
    | inl absent ↦ rw (check, absent) tt
    | inr (c, there) ↦
        rw (check, there) (either_branch Fine (is_empty c.type) tt (λ changing. refl))
  ]
  check-Fine n o trace e = tt
  check-Fine n o (unnamed text) e = tt

  complete-Fine : (m : Moment) (r : Normalized F) → Fine r → Fine (complete m r)
  unfolding complete completed
  complete-Fine m (accepted o) h = h
  complete-Fine m (refused why) h = tt
  complete-Fine m overrun h = h

  pub normalize-Fine : (n : ℕ) (m : Moment) (o : Observation F) → Fine (normalize (pos n) m o)
  unfolding normalize
  normalize-Fine n m o = either_branch Fine (is_empty (named o).source) tt (
      complete-Fine m (check (pos n) (named o) (named o).modality)
        (check-Fine n (named o) (named o).modality refl))

module _ {F : Type 0} {S : Type 0} where
  -- the answer of `Normalize.Process`
  unfoldable pub answer_of :
      Observation F → S → Normalized F → Option (S × Verdict F × List (Event F))
  answer_of o s (accepted o') = some (s, next o', [])
  answer_of o s (refused why) = some (s, failed o, [])
  answer_of o s overrun = none

  -- `Normalize` as a processor
  unfoldable pub normalizing : ℤ → Processor F S
  unfolding normalize answer_of
  normalizing limit m o s = answer_of o s (normalize limit m o)

  normalizing-Delivers :
      (I : S → Type 0) (Good : Event F → Type 0) (n : ℕ) (m : Moment) (o : Observation F) (s : S)
      → I s
      → Delivers I Good Ready (normalizing (pos n) m o s)
  unfolding normalizing answer_of
  normalizing-Delivers I Good n m o s k = delivered (normalize (pos n) m o) (normalize-Fine n m o)
    where
      delivered : (r : Normalized F) → Fine r → Delivers I Good Ready (answer_of o s r)
      delivered (accepted o') h = record {
        answer = (s, next o', []);
        is_answer = refl;
        kept = k;
        passed = h;
        good = tt;
      }
      delivered (refused why) h = record {
        answer = (s, failed o, []);
        is_answer = refl;
        kept = k;
        passed = tt;
        good = tt;
      }
      delivered overrun h = absurd h

-- a worker with a new correlator
unfoldable pub new_work :
    {F D : Type 0} → Option Config → List D → Option (Dampener F) → Work F (Analysis F D)
unfolding new_correlator
new_work config ds damp = record {
  state = record { detectors = ds; dampener = damp; correlator = new_correlator config };
  processed = 0;
  rejected = 0;
  sent = [];
}

abbrev pub Anything : {F : Type 0} → Observation F → Type 0
Anything o = Unit

anything : {F : Type 0} (os : List (Moment × Observation F)) → All (λ e. Anything e.1) os
anything [] = tt
anything (x ∷ xs) = (tt, anything xs)

module _ {F : Type 0} ⦃fl : Floats F⦄ {D : Type 0}
    (detect : Observation F → D → Option (D × List (Signal F))) where
  -- `Analysis` as a processor, beside the state of the processors before it
  unfoldable pub analysing : Processor F (Analysis F D)
  unfolding analyse
  analysing m o a = do out ← analyse detect m o a; some (out.0, next o, out.1)

  module _ (Going : D → Type 0) where
    -- the correlator is sound, and no detector is about to panic
    abbrev pub SoundAnalysis : Analysis F D → Type 0
    SoundAnalysis a = Sound a.correlator × All Going a.detectors

    module _
        (total : (o : Observation F) (d : D)
          → Going d
          → (out : D × List (Signal F)) × (detect o d ≡ some out) × Going out.0) where
      run_detectors-total :
          (o : Observation F) (ds : List D)
          → All Going ds
          → (out : List D × List (Signal F)) × (run_detectors detect o ds ≡ some out)
            × All Going out.0
      unfolding run_detectors
      run_detectors-total o [] g = (([], []), refl, tt)
      run_detectors-total o (d ∷ ds) (g, gs) =
          let (first, one, still) = total o d g in
          let (rest, others, more) = run_detectors-total o ds gs in
          (
            (first.0 ∷ rest.0, first.1 ++ rest.1),
            rw (run_detectors, one, others) refl,
            (still, more),
          )

      flush_analysis-Sound :
          (m : Moment) (a : Analysis F D)
          → SoundAnalysis a
          → (out : Analysis F D × List (Event F)) × (flush_analysis false m a ≡ some out)
            × SoundAnalysis out.0
            × All Corroborated out.1
      unfolding flush_analysis serve
      flush_analysis-Sound m a (k, g) =
          let (c, events, ran, fine, good) =
            serve-Sound (flushing m.event_ids false m.now) a.correlator tt k in
          (
            (record a { correlator = c }, events),
            ap
                (λ r. r >>= λ (f : Correlator F × List (Event F)).
                  some (record a { correlator = f.0 }, f.1))
                ran,
            (fine, g),
            good,
          )

      analyse-Sound :
          (m : Moment) (o : Observation F) (a : Analysis F D)
          → SoundAnalysis a
          → Ready o
          → (out : Analysis F D × List (Event F)) × (analyse detect m o a ≡ some out)
            × SoundAnalysis out.0
            × All Corroborated out.1
      unfolding analyse
      analyse-Sound m o a (k, g) ready =
          let (found, ran, going) = run_detectors-total o a.detectors g in
          let damped = dampen a.dampener found.1 in
          let fed =
            add-Sound m.now o damped.1 (observe m.now o a.correlator)
              (observe-Sound m.now o a.correlator ready k) in
          let (out, flushed, fine, good) =
            flush_analysis-Sound m
              (record {
                detectors = found.0;
                dampener = damped.0;
                correlator = add m.now o damped.1 (observe m.now o a.correlator);
              })
              (fed, going) in
          (out, rw (analyse, ran) flushed, fine, good)

      analysing-Delivers :
          (m : Moment) (o : Observation F) (a : Analysis F D)
          → SoundAnalysis a
          → Ready o
          → Delivers SoundAnalysis Corroborated Ready (analysing m o a)
      unfolding analysing
      analysing-Delivers m o a k ready =
          let (out, ran, fine, good) = analyse-Sound m o a k ready in
          record {
            answer = (out.0, next o, out.1);
            is_answer = rw (analysing, ran) refl;
            kept = fine;
            passed = ready;
            good = good;
          }

      -- A worker that normalizes and analyses whatever observations reach it, with a bound on the log
      -- records that is not negative, a new correlator, and detectors that do not panic and stay so,
      -- never panics: every observation is counted once, as processed or as rejected, and every
      -- critical event that it sends is corroborated.
      pub run_worker-counts :
          (n : ℕ) (config : Option Config) (ds : List D) (damp : Option (Dampener F))
          (os : List (Moment × Observation F))
          → All Going ds
          → (w : Work F (Analysis F D)) × (run_worker
                (normalizing (pos n) ∷ analysing ∷ [])
                os
                (new_work config ds damp)
              ≡ some w)
            × (w.processed + w.rejected ≡ length os)
            × All Corroborated w.sent
      unfolding new_work
      run_worker-counts n config ds damp os going =
          let ran =
            run_worker-Worked SoundAnalysis Corroborated Anything
              (normalizing (pos n) ∷ analysing ∷ [])
              (then_by Ready
                (λ m o s k q. normalizing-Delivers SoundAnalysis Corroborated n m o s k)
                (then_by Ready analysing-Delivers done))
              os (new_work config ds damp) (new_correlator-Sound config, going) tt (anything os) in
          (ran.final, ran.is_final, omega (arith, ran.counted), ran.all_good)
