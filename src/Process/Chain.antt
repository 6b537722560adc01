-- ===== src/Process/Chain.antt =====
-- internal/core/engine/engine.go and internal/core/processor: a worker over the whole chain.
use tezcatl.Base.{
  ℕ, ◌+◌, ◌≡◌, refl, ap, ◌∙◌, Option, some, List, [], ◌∷◌, length, All, All-append, ◌>>=◌, arith,
}
use tezcatl.Model.{Observation, Event}
use tezcatl.Process.{Moment}
use tezcatl.Process.Worker.{
  Verdict, next, stop, failed, Processor, Work, count_processed, count_rejected, moved, heed,
  run_chain, run_worker,
}

abbrev pub Ok : {F : Type 0} → (Observation F → Type 0) → Verdict F → Type 0
Ok Q (next o) = Q o
Ok Q (stop o) = Unit
Ok Q (failed o) = Unit

-- A processor does not panic, keeps an invariant of the state, passes on observations that satisfy
-- `Q`, and emits good events only.
pub record Delivers {F : Type 0} {S : Type 0} (I : S → Type 0) (Good : Event F → Type 0)
    (Q : Observation F → Type 0) (r : Option (S × Verdict F × List (Event F))) : Type 0 where
  pub answer : S × Verdict F × List (Event F)
  pub is_answer : r ≡ some answer
  pub kept : I answer.0
  pub passed : Ok Q answer.1
  pub good : All Good answer.2

-- a chain in which every processor delivers what the one behind it expects
pub data Fits {F : Type 0} {S : Type 0} (I : S → Type 0) (Good : Event F → Type 0)
    : (Observation F → Type 0) → List (Processor F S) → Type 1 where
  done : {Q : Observation F → Type 0} → Fits I Good Q []
  then_by :
      {Q : Observation F → Type 0} {p : Processor F S} {ps : List (Processor F S)}
      (R : Observation F → Type 0)
      → ((m : Moment) (o : Observation F) (s : S) → I s → Q o → Delivers I Good R (p m o s))
      → Fits I Good R ps
      → Fits I Good Q (p ∷ ps)

module _ {F : Type 0} {S : Type 0} (I : S → Type 0) (Good : Event F → Type 0) where
  -- a worker's state after `n` more observations
  pub record Worked (n : ℕ) (w : Work F S) (r : Option (Work F S)) : Type 0 where
    pub final : Work F S
    pub is_final : r ≡ some final
    pub sound : I final.state
    pub all_good : All Good final.sent
    pub counted : final.processed + final.rejected ≡ w.processed + w.rejected + n

  rejected-Worked :
      (w : Work F S) → I w.state → All Good w.sent → Worked 1 w (some (count_rejected w))
  unfolding count_rejected
  rejected-Worked w k g = record {
    final = count_rejected w;
    is_final = refl;
    sound = k;
    all_good = g;
    counted = omega arith;
  }

  heed-Worked :
      (Q : Observation F → Type 0) (continue : Observation F → Option (Work F S)) (w : Work F S)
      (v : Verdict F)
      → I w.state
      → All Good w.sent
      → Ok Q v
      → ((o : Observation F) → Q o → Worked 1 w (continue o))
      → Worked 1 w (heed continue w v)
  unfolding heed
  heed-Worked Q continue w (next o) k g q go_on = go_on o q
  heed-Worked Q continue w (stop o) k g q go_on = rejected-Worked w k g
  heed-Worked Q continue w (failed o) k g q go_on = rejected-Worked w k g

  run_chain-Worked :
      (Q : Observation F → Type 0) (ps : List (Processor F S))
      → Fits I Good Q ps
      → (m : Moment) (o : Observation F) (w : Work F S) → I w.state
      → All Good w.sent
      → Q o
      → Worked 1 w (run_chain ps m o w)
  unfolding run_chain count_processed moved
  run_chain-Worked Q [] done m o w k g q = record {
    final = count_processed w;
    is_final = refl;
    sound = k;
    all_good = g;
    counted = omega arith;
  }
  run_chain-Worked Q (p ∷ ps) (then_by R one rest) m o w k g q =
      let d = one m o w.state k q in
      let g' = All-append Good w.sent d.answer.2 g d.good in
      let there =
        heed-Worked R (λ o'. run_chain ps m o' (moved w d.answer)) (moved w d.answer) d.answer.1
          d.kept g' d.passed
          (λ o' r. run_chain-Worked R ps rest m o' (moved w d.answer) d.kept g' r) in
      record {
        final = there.final;
        is_final =
            ap
              (λ r. r >>= λ (out : S × Verdict F × List (Event F)).
                heed (λ o'. run_chain ps m o' (moved w out)) (moved w out) out.1)
              d.is_answer
            ∙ there.is_final;
        sound = there.sound;
        all_good = there.all_good;
        counted = there.counted;
      }

  -- A worker whose chain fits never panics, handles every observation once and sends good events.
  pub run_worker-Worked :
      (Q : Observation F → Type 0) (ps : List (Processor F S))
      → Fits I Good Q ps
      → (os : List (Moment × Observation F)) (w : Work F S) → I w.state
      → All Good w.sent
      → All (λ e. Q e.1) os
      → Worked (length os) w (run_worker ps os w)
  unfolding run_worker
  run_worker-Worked Q ps fits [] w k g q = record {
    final = w;
    is_final = refl;
    sound = k;
    all_good = g;
    counted = omega arith;
  }
  run_worker-Worked Q ps fits ((m, o) ∷ rest) w k g (q, qs) =
      let one = run_chain-Worked Q ps fits m o w k g q in
      let more = run_worker-Worked Q ps fits rest one.final one.sound one.all_good qs in
      record {
        final = more.final;
        is_final = ap (λ r. r >>= λ after. run_worker ps rest after) one.is_final ∙ more.is_final;
        sound = more.sound;
        all_good = more.all_good;
        counted = omega (arith, one.counted, more.counted);
      }
