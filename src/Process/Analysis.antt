-- ===== src/Process/Analysis.antt =====
-- internal/core/processor/analysis.go: `Analysis.Process` and `Analysis.Flush`.
--
-- A detector is an interface of the source: a state of type `D` and its `Detect`, whose panic is `none`.
use tezcatl.Base.{Bool, false, Option, none, some, List, [], ◌∷◌, ◌++◌, ◌>>=◌}
use tezcatl.Correlate.Flushing.{flush}
use tezcatl.Correlate.Intake.{add}
use tezcatl.Correlate.State.{Correlator, observe}
use tezcatl.Dampen.{Dampener, filter}
use tezcatl.Model.{Floats, Observation, Signal, Event}
use tezcatl.Process.{Moment}

-- `Analysis`
pub record Analysis (F : Type 0) (D : Type 0) : Type 0 where
  pub detectors : List D
  pub dampener : Option (Dampener F)
  pub correlator : Correlator F

module _ {F : Type 0} ⦃fl : Floats F⦄ where
  -- the dampener, where there is one
  unfoldable pub dampen :
      Option (Dampener F) → List (Signal F) → Option (Dampener F) × List (Signal F)
  unfolding filter
  dampen none signals = (none, signals)
  dampen (some d) signals = let (next, left) = filter signals d in (some next, left)

module _ {F : Type 0} ⦃fl : Floats F⦄ {D : Type 0} where
  -- `Analysis.Flush`
  unfoldable pub flush_analysis :
      Bool → Moment → Analysis F D → Option (Analysis F D × List (Event F))
  unfolding flush
  flush_analysis force m a = do
    flushed ← flush m.event_ids force m.now a.correlator
    some (record a { correlator = flushed.0 }, flushed.1)

  module _ (detect : Observation F → D → Option (D × List (Signal F))) where
    -- `for _, detector := range a.detectors`
    unfoldable pub run_detectors : Observation F → List D → Option (List D × List (Signal F))
    run_detectors o [] = some ([], [])
    run_detectors o (d ∷ ds) = do
      first ← detect o d
      rest ← run_detectors o ds
      some (first.0 ∷ rest.0, first.1 ++ rest.1)

    -- `Analysis.Process`
    unfoldable pub analyse :
        Moment → Observation F → Analysis F D → Option (Analysis F D × List (Event F))
    unfolding observe run_detectors dampen add flush_analysis
    analyse m o a =
        let observed = observe m.now o a.correlator in
        do
          detected ← run_detectors o a.detectors
          let (dampener, signals) = dampen a.dampener detected.1
          flush_analysis false m (record {
            detectors = detected.0;
            dampener = dampener;
            correlator = add m.now o signals observed;
          })
