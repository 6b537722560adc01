-- ===== src/Tests/Processing.antt =====
-- internal/core/processor and internal/core/engine on concrete inputs.
use tezcatl.Base.{
  ℕ, ◌+◌, ◌≡◌, ◌≢◌, sym, ap, subst, none, some, List, [], ◌∷◌, ◌++◌, ◌==◌, codes, length, get_or,
  keep, All, arith,
}
use tezcatl.Base.Ints.{pos, pos_part, Time}
use tezcatl.Correlate.Corroborated.{Corroborated}
use tezcatl.Detect.Log.{LogDetector, default_log_config, new_log_detector}
use tezcatl.Detect.Log.Detecting.{detect}
use tezcatl.Detect.Log.Detecting.Going.{detect-Kept}
use tezcatl.Model.{Observation, Signal, zero_observation, partition_key}
use tezcatl.Process.{Moment}
use tezcatl.Process.Analysis.{Analysis}
use tezcatl.Process.Dispatch.{partition_index, dispatch, dispatch_lem}
use tezcatl.Process.Pipeline.{normalizing, analysing, new_work, run_worker-counts}
use tezcatl.Process.Worker.{Work, run_worker}
use tezcatl.Tests.Samples.{nat_floats, observed}

abbrev hour_of_day : Time → ℕ
hour_of_day t = 7

abbrev Wide : LogDetector ℕ → Type 0
Wide d = d.config.spike_bucket ≢ pos 0

kept-Wide :
    (o : Observation ℕ) (d : LogDetector ℕ)
    → Wide d
    → (out : LogDetector ℕ × List (Signal ℕ)) × (detect hour_of_day o d ≡ some out) × Wide out.0
kept-Wide o d wide =
    let (out, e, same) = detect-Kept hour_of_day o d wide in
    (out, e, subst (λ c. c.spike_bucket ≢ pos 0) (sym same) wide)

new_log_detector-Wide : Wide (new_log_detector none)
unfolding new_log_detector default_log_config
new_log_detector-Wide e = absurd (let f = ap pos_part e in omega (arith, f))

abbrev tick : Moment
tick = record { now = 9; id = codes "id"; event_ids = λ n. codes "event" }

-- one without a log record, one without a source
abbrev arriving : List (Moment × Observation ℕ)
arriving = (tick, observed 5) ∷ (tick, zero_observation) ∷ []

run_worker-counts_example :
    (w : Work ℕ (Analysis ℕ (LogDetector ℕ))) × (run_worker
        (normalizing (pos 8) ∷ analysing (detect hour_of_day) ∷ [])
        arriving
        (new_work none (new_log_detector none ∷ []) none)
      ≡ some w)
    × (w.processed + w.rejected ≡ length arriving)
    × All Corroborated w.sent
run_worker-counts_example =
    run_worker-counts (detect hour_of_day) Wide kept-Wide 8 none (new_log_detector none ∷ []) none
      arriving (new_log_detector-Wide, tt)

dispatch_lem_example :
    get_or (dispatch length (observed 1 ∷ zero_observation ∷ []) ([] ∷ [] ∷ [])) 1 []
    ≡ []
      ++ keep
          (λ o. partition_index length (partition_key o) 2 == 1)
          (observed 1 ∷ zero_observation ∷ [])
dispatch_lem_example =
    dispatch_lem length (observed 1 ∷ zero_observation ∷ []) ([] ∷ [] ∷ []) 1 (omega arith)
