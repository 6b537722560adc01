-- ===== src/Sink/Resilient.antt =====
-- internal/core/sink/resilient.go: a bounded queue in front of a sink that may fail.
pub mod Queue
pub mod Retries
use tezcatl.Base.{
  ℕ, zero, suc, ◌+◌, ◌*◌, min, Bool, true, false, Option, none, some, List, [], ◌∷◌, ◌++◌, length,
  ltb, leb, if◌then◌else◌,
}
use tezcatl.Base.Ints.{ℤ, pos, pos_part, leb_ℤ, second}
use tezcatl.Model.{Event}

-- The fields of `Resilient` that change, and its settings; backoffs are nanoseconds.
pub record Resilient (F : Type 0) : Type 0 where
  pub queue : List (Event F)
  pub queue_size : ℕ
  pub max_attempts : ℕ
  pub initial_backoff : ℕ
  pub dropped : ℕ

abbrev pub retry_max_backoff : ℕ
retry_max_backoff = 30 * second

module _ {F : Type 0} where
  -- `newResilient`
  unfoldable pub new_resilient : ℤ → ℤ → ℕ → Resilient F
  new_resilient queue_size max_attempts initial_backoff = record {
    queue = [];
    queue_size = if leb_ℤ queue_size (pos 0) then 1024 else pos_part queue_size;
    max_attempts = if leb_ℤ max_attempts (pos 0) then 5 else pos_part max_attempts;
    initial_backoff = initial_backoff;
    dropped = 0;
  }

  -- one round of the loop of `Publish`
  unfoldable pub offer : Event F → Resilient F → Resilient F
  offer e r =
      if ltb (length r.queue) r.queue_size
      then record r { queue = r.queue ++ e ∷ [] }
      else record r { dropped = r.dropped + 1 }

  -- `Publish`
  unfoldable pub publish : List (Event F) → Resilient F → Resilient F
  publish [] r = r
  publish (e ∷ es) r = publish es (offer e r)

-- How `publishWithRetries` ended: whether the inner sink took the event, at which attempt the
-- loop returned, and the sleeps between the attempts.
pub record Outcome : Type 0 where
  pub delivered : Bool
  pub attempts : ℕ
  pub slept : List ℕ

abbrev pub after_sleep : ℕ → Option Outcome → Option Outcome
after_sleep backoff none = none
after_sleep backoff (some o) = some (record o { slept = backoff ∷ o.slept })

-- `inner n` says whether the inner sink takes the event at the nth attempt.
module _ (inner : ℕ → Bool) (max_attempts : ℕ) where
  -- the loop of `publishWithRetries`; `none` means that the fuel ran out
  unfoldable pub attempt_from : ℕ → ℕ → ℕ → Option Outcome
  attempt_from zero attempt backoff = none
  attempt_from (suc fuel) attempt backoff =
      let again =
        after_sleep backoff
          (attempt_from fuel (attempt + 1) (min (backoff * 2) retry_max_backoff)) in
      if inner attempt
      then some (record { delivered = true; attempts = attempt; slept = [] })
      else (if leb max_attempts attempt
          then some (record { delivered = false; attempts = attempt; slept = [] })
          else again)

-- `publishWithRetries`, with fuel for as many attempts as may be made
unfoldable pub publish_with_retries : {F : Type 0} → (ℕ → Bool) → Resilient F → Option Outcome
unfolding attempt_from
publish_with_retries inner r = attempt_from inner r.max_attempts r.max_attempts 1 r.initial_backoff
