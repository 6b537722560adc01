-- ===== src/Process.antt =====
-- internal/core/processor/normalize.go: `Normalize.Process`.
pub mod Analysis
pub mod Worker
pub mod Chain
pub mod Pipeline
pub mod Dispatch
use tezcatl.Base.{
  ℕ, Bool, true, false, Option, none, some, List, [], ◌∷◌, ◌++◌, Bytes, codes, length, take,
  is_empty, ◌==◌, if◌then◌else◌,
}
use tezcatl.Base.Ints.{ℤ, pos, negsuc, Time, ltb_ℤ}
use tezcatl.Model.{
  Observation, LogRecord, MetricSample, ChangeRecord, Modality, log, metric, change, trace, unnamed,
}

-- `DefaultMaxLogLength`
abbrev pub default_max_log_length : ℤ
default_max_log_length = pos 8192

-- `DefaultEnvironment`
abbrev pub default_environment : Bytes
default_environment = codes "default"

-- the errors of `Process`
pub data Refusal : Type 0 where
  no_source no_log no_metric no_metric_name no_change no_change_type : Refusal
  unsupported : Modality → Refusal

pub data Normalized (F : Type 0) : Type 0 where
  accepted : Observation F → Normalized F
  refused : Refusal → Normalized F
  -- a slice bound below zero
  overrun : Normalized F

-- what one observation meets: the clock, a new identity and those of the events that it may cause
pub record Moment : Type 0 where
  pub now : Time
  pub id : Bytes
  pub event_ids : ℕ → Bytes

-- `if len(s) > max { s = s[:max] }`
unfoldable pub cut : ℤ → Bytes → Option Bytes
cut (pos n) s = some (take n s)
cut (negsuc n) s = none

module _ {F : Type 0} where
  -- the source that an observation is filed under
  unfoldable pub named : Observation F → Observation F
  named o =
      if is_empty o.service
      then o
      else (let environment =
            if is_empty o.environment then default_environment else o.environment in
          record o { environment = environment; source = environment ++ codes "/" ++ o.service })

  unfoldable pub shorten : ℤ → Observation F → LogRecord → Normalized F
  unfolding cut
  shorten limit o r = elim (cut limit r.raw) [
    | none ↦ overrun
    | some raw ↦ elim (cut limit r.message) [
      | none ↦ overrun
      | some message ↦
          accepted (record o { log = some (record r { raw = raw; message = message }) })
    ]
  ]

  unfoldable pub check_metric : Observation F → Option (MetricSample F) → Normalized F
  check_metric o none = refused no_metric
  check_metric o (some m) = if is_empty m.name then refused no_metric_name else accepted o

  unfoldable pub check_change : Observation F → Option ChangeRecord → Normalized F
  check_change o none = refused no_change
  check_change o (some c) = if is_empty c.type then refused no_change_type else accepted o

  -- the `switch` on the modality
  unfoldable pub check : ℤ → Observation F → Modality → Normalized F
  unfolding shorten check_metric check_change
  check limit o log = elim o.log [ none ↦ refused no_log | some r ↦ shorten limit o r ]
  check limit o metric = check_metric o o.metric
  check limit o change = check_change o o.change
  check limit o trace = refused (unsupported trace)
  check limit o (unnamed text) = refused (unsupported (unnamed text))

  -- the fields that are still missing
  unfoldable pub completed : Moment → Observation F → Observation F
  completed m o =
      let ingested = if o.ingested_at == 0 then m.now else o.ingested_at in
      record o {
        ingested_at = ingested;
        timestamp = if o.timestamp == 0 then ingested else o.timestamp;
        id = if is_empty o.id then m.id else o.id;
      }

  unfoldable pub complete : Moment → Normalized F → Normalized F
  unfolding completed
  complete m (accepted o) = accepted (completed m o)
  complete m (refused why) = refused why
  complete m overrun = overrun

  -- `Normalize.Process`
  unfoldable pub normalize : ℤ → Moment → Observation F → Normalized F
  unfolding named check complete
  normalize limit m o =
      if is_empty (named o).source
      then refused no_source
      else complete m (check limit (named o) (named o).modality)
