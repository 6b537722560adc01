-- ===== src/Process/Worker.antt =====
-- internal/core/engine/engine.go: `runWorker`, the chain of processors.
--
-- A processor is an interface of the source, here a function on the state `S` of all of them.
use tezcatl.Base.{ℕ, ◌+◌, Option, some, List, [], ◌∷◌, ◌++◌, ◌>>=◌}
use tezcatl.Model.{Observation, Event}
use tezcatl.Process.{Moment}

-- what `Process` answers: the observation as it leaves it, and whether to go on; or an error
pub data Verdict (F : Type 0) : Type 0 where
  next stop failed : Observation F → Verdict F

-- `Process` with the events it emits; `none` is a panic
abbrev pub Processor : Type 0 → Type 0 → Type 0
Processor F S = Moment → Observation F → S → Option (S × Verdict F × List (Event F))

-- the counters of a worker and what it has sent
pub record Work (F : Type 0) (S : Type 0) : Type 0 where
  pub state : S
  pub processed : ℕ
  pub rejected : ℕ
  pub sent : List (Event F)

module _ {F : Type 0} {S : Type 0} where
  -- one observation that is done with
  unfoldable pub count_processed : Work F S → Work F S
  count_processed w = record w { processed = w.processed + 1 }

  unfoldable pub count_rejected : Work F S → Work F S
  count_rejected w = record w { rejected = w.rejected + 1 }

  -- the state and the events of a processor that has run
  unfoldable pub moved : Work F S → S × Verdict F × List (Event F) → Work F S
  moved w out = record w { state = out.0; sent = w.sent ++ out.2 }

  -- what the loop does with a verdict
  unfoldable pub heed :
      (Observation F → Option (Work F S)) → Work F S → Verdict F → Option (Work F S)
  unfolding count_rejected
  heed continue w (next o) = continue o
  heed continue w (stop o) = some (count_rejected w)
  heed continue w (failed o) = some (count_rejected w)

  -- The loop over the processors: the first that fails or stops ends it.
  unfoldable pub run_chain :
      List (Processor F S) → Moment → Observation F → Work F S → Option (Work F S)
  unfolding count_processed moved heed
  run_chain [] m o w = some (count_processed w)
  run_chain (p ∷ ps) m o w = do
    out ← p m o w.state
    heed (λ o'. run_chain ps m o' (moved w out)) (moved w out) out.1

  -- `runWorker`: the loop over the observations of one input
  unfoldable pub run_worker :
      List (Processor F S) → List (Moment × Observation F) → Work F S → Option (Work F S)
  unfolding run_chain
  run_worker ps [] w = some w
  run_worker ps ((m, o) ∷ rest) w = do after ← run_chain ps m o w; run_worker ps rest after
