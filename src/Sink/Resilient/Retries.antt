-- ===== src/Sink/Resilient/Retries.antt =====
-- How sink.Resilient retries one event.
use tezcatl.Base.{
  ℕ, zero, suc, ◌+◌, ◌*◌, ◌≤◌, ◌<◌, min, max, ◌≡◌, Bool, true, false, Bool-cases, inl, inr, some,
  [], ◌∷◌, arith, length, All, leb, leb→le, ◌==◌, ==_iff,
}
use tezcatl.Sink.Resilient.{
  Resilient, Outcome, attempt_from, publish_with_retries, retry_max_backoff,
}

module _ (inner : ℕ → Bool) (most : ℕ) where
  -- What is promised of an outcome of attempts that begin at `first`.
  pub record Promised (first longest : ℕ) (o : Outcome) : Type 0 where
    pub started : first ≤ o.attempts
    pub stopped : o.attempts ≤ most
    pub failed_before : (n : ℕ) → first ≤ n → n < o.attempts → inner n ≡ false
    pub answer : inner o.attempts ≡ o.delivered
    pub gave_up : o.delivered ≡ false → o.attempts ≡ most
    pub slept_between : first + length o.slept ≡ o.attempts
    pub slept_briefly : All (λ t. t ≤ longest) o.slept

  attempt_from-Promised :
      (fuel attempt backoff longest : ℕ)
      → attempt ≤ most
      → most < fuel + attempt
      → backoff ≤ longest
      → retry_max_backoff ≤ longest
      → (o : Outcome) × (attempt_from inner most fuel attempt backoff ≡ some o)
        × Promised attempt longest o
  unfolding attempt_from
  attempt_from-Promised zero attempt backoff longest h f b m = absurd (omega arith)
  attempt_from-Promised (suc fuel) attempt backoff longest h f b m =
      elim (Bool-cases (inner attempt)) [
        | inl took ↦ (
          record { delivered = true; attempts = attempt; slept = [] },
          rw took,
          record {
            started = omega arith;
            stopped = h;
            failed_before = λ n l g. absurd (omega arith);
            answer = took;
            gave_up = λ e. ground arith;
            slept_between = omega arith;
            slept_briefly = tt;
          },
        )
        | inr failed ↦ elim (Bool-cases (leb most attempt)) [
          | inl last ↦ (
            record { delivered = false; attempts = attempt; slept = [] },
            rw (failed, last),
            record {
              started = omega arith;
              stopped = h;
              failed_before = λ n l g. absurd (omega arith);
              answer = failed;
              gave_up = λ e. omega (arith, leb→le most attempt last);
              slept_between = omega arith;
              slept_briefly = tt;
            },
          )
          | inr more ↦
              let (o, run, p) =
                attempt_from-Promised fuel (attempt + 1) (min (backoff * 2) retry_max_backoff)
                  longest (ground arith) (omega arith) (omega arith) m in
              (
                record o { slept = backoff ∷ o.slept },
                rw (failed, more, run),
                record {
                  started = omega (arith, p.started);
                  stopped = p.stopped;
                  failed_before = λ n l g. elim (Bool-cases (n == attempt)) [
                    | inl here ↦ rw ((==_iff n attempt).0 here) failed
                    | inr later ↦ p.failed_before n (ground arith) g
                  ];
                  answer = p.answer;
                  gave_up = p.gave_up;
                  slept_between = omega (arith, p.slept_between);
                  slept_briefly = (b, p.slept_briefly);
                },
              )
        ]
      ]

-- `publishWithRetries` always returns, whatever the inner sink answers: at the first attempt that the
-- sink takes, or after `maxAttempts` failures, which is the only way in which the event is lost;
-- it sleeps once between two attempts, and never longer than the larger of the initial backoff
-- and 30 seconds.
pub publish_with_retries-Promised :
    {F : Type 0} (inner : ℕ → Bool) (r : Resilient F)
    → 0 < r.max_attempts
    → (o : Outcome) × (publish_with_retries inner r ≡ some o)
      × Promised inner r.max_attempts 1 (max r.initial_backoff retry_max_backoff) o
unfolding publish_with_retries
publish_with_retries-Promised inner r h =
    attempt_from-Promised inner r.max_attempts r.max_attempts 1 r.initial_backoff
      (max r.initial_backoff retry_max_backoff) (omega arith) (omega arith) (omega arith)
      (omega arith)
