-- ===== src/Dampen/Admission.antt =====
-- What dampen lets through and what it holds back.
use tezcatl.Base.{
  ℕ, ◌+◌, ◌*◌, ◌^◌, ◌≤◌, min, ◌≡◌, refl, ap, ◌∙◌, inl, inr, Bool-cases, if◌then◌else◌, Bool, true,
  false, ◌||◌, Option, none, some, List, [], ◌∷◌, arith, length, length-append, Bytes, bytes_eq,
}
use tezcatl.Base.Assoc.{Map, lookup, lookup-insert_self, lookup-insert_ne}
use tezcatl.Base.Ints.{leb_ℤ, ltb_ℤ, pos, sub, Time}
use tezcatl.Dampen.Silence.{with_defaults-most, silence-most}
use tezcatl.Dampen.{
  Config, Pattern, Dampener, Verdict, hold, report, key, judge, admit, is_worse, is_quiet_enough,
  tally, filter_one, filter_each, filter, silence, with_defaults,
}
use tezcatl.Model.{Signal, Floats}

abbrev pub is_report : Verdict → Bool
is_report hold = false
is_report (report a) = true

module _ {F : Type 0} ⦃fl : Floats F⦄ where
  -- what is remembered of a signal's pattern
  abbrev pub remembered : Signal F → Map Bytes (Pattern F) → Option (Pattern F)
  remembered s patterns = lookup (key s) patterns

  judge_lem :
      (c : Config F) (s : Signal F) (p : Pattern F)
      → is_report (judge c s p).0 ≡ (is_worse c s p || is_quiet_enough c s p)
  unfolding judge
  judge_lem c s p = ground arith

  judge-seen :
      (c : Config F) (s : Signal F) (p : Pattern F) → (judge c s p).1.last_seen ≡ s.timestamp
  unfolding judge
  judge-seen c s p = ground arith

  judge-reported :
      (c : Config F) (s : Signal F) (p : Pattern F)
      → is_report (judge c s p).0 ≡ true
      → let q = (judge c s p).1 in
        (q.reported_at ≡ s.timestamp) × (q.suppressed ≡ 0) × (q.max_score ≡ s.score)
  unfolding judge
  judge-reported c s p h = ground arith

  judge-held :
      (c : Config F) (s : Signal F) (p : Pattern F)
      → is_report (judge c s p).0 ≡ false
      → let q = (judge c s p).1 in
        (q.reported_at ≡ p.reported_at)
        × (q.suppressed ≡ p.suppressed + 1)
        × (q.max_score ≡ p.max_score)
  unfolding judge
  judge-held c s p h = ground arith

  -- The silence asked of a pattern at an instant: the cooldown doubled for each report of the streak and
  -- cut at the maximum, or the plain cooldown where the pattern was not seen for longer than that.
  abbrev pub asked : ℕ → ℕ → Pattern F → Time → ℕ
  asked most cooldown p at =
      let stretched = min most (cooldown * 2 ^ p.streak) in
      if ltb_ℤ (pos stretched) (sub at p.last_seen) then cooldown else stretched

  is_quiet_enough_lem :
      (c : Config F) (s : Signal F) (p : Pattern F) (cooldown most : ℕ)
      → cooldown ≤ most
      → ((q : Pattern F) → silence q c ≡ pos (min most (cooldown * 2 ^ q.streak)))
      → is_quiet_enough c s p
        ≡ leb_ℤ (pos (asked most cooldown p s.timestamp)) (sub s.timestamp p.reported_at)
  is_quiet_enough_lem c s p cooldown most above closed =
      elim (Bool-cases
        (ltb_ℤ (pos (min most (cooldown * 2 ^ p.streak))) (sub s.timestamp p.last_seen))) [
          | inl gone ↦
              rw (closed p, gone)
                (rw (closed (record p { streak = 0; last_seen = s.timestamp }))
                  (ap (λ n. leb_ℤ (pos n) (sub s.timestamp p.reported_at)) (omega arith)))
          | inr here ↦ rw (closed p, here) (rw (closed (record p { last_seen = s.timestamp })) refl)
        ]

  -- Under a cooldown that is not negative, a signal whose pattern is not remembered is always reported.
  -- One whose pattern is remembered is reported exactly when its score reaches the score of its last
  -- report plus the escalation, or the time since the last report reaches the silence asked of the
  -- pattern: the cooldown doubled for each report of its streak and cut at the maximum, or the plain
  -- cooldown where the time since it was last seen is longer than that.
  pub admit-reports :
      (c : Config F) (s : Signal F) (m : Map Bytes (Pattern F)) (cooldown : ℕ)
      → c.cooldown ≡ pos cooldown
      → (most : ℕ) × ((with_defaults c).max_cooldown ≡ pos most)
        × (cooldown ≤ most)
        × (remembered s m ≡ none → is_report (admit (with_defaults c) s m).0 ≡ true)
        × ((p : Pattern F)
            → remembered s m ≡ some p
            → is_report (admit (with_defaults c) s m).0 ≡ (
                fl.le (fl.add p.max_score (with_defaults c).escalation) s.score
                || leb_ℤ (pos (asked most cooldown p s.timestamp)) (sub s.timestamp p.reported_at)))
  unfolding admit
  admit-reports c s m cooldown e =
      let (most, settled, above) = with_defaults-most c cooldown e in
      (
        most,
        settled,
        above,
        λ fresh. rw (fresh, admit) refl,
        λ p known.
            rw (known, admit)
              (judge_lem (with_defaults c) s p
                ∙ ap (λ b. is_worse (with_defaults c) s p || b)
                    (is_quiet_enough_lem (with_defaults c) s p cooldown most above
                      (silence-most c cooldown most e settled above))),
      )

  -- After a signal of a remembered pattern the pattern is still remembered, last seen at the signal's
  -- instant. A report also sets the instant of the last report and the strongest score to the signal's
  -- and the count of suppressed signals to 0; holding back changes neither and counts one more.
  pub admit-remembers :
      (c : Config F) (s : Signal F) (m : Map Bytes (Pattern F)) (p : Pattern F)
      → remembered s m ≡ some p
      → (q : Pattern F) × (remembered s (admit c s m).1 ≡ some q)
        × (q.last_seen ≡ s.timestamp)
        × (is_report (admit c s m).0 ≡ true
            → (q.reported_at ≡ s.timestamp) × (q.suppressed ≡ 0) × (q.max_score ≡ s.score))
        × (is_report (admit c s m).0 ≡ false
            → (q.reported_at ≡ p.reported_at)
              × (q.suppressed ≡ p.suppressed + 1)
              × (q.max_score ≡ p.max_score))
  unfolding admit
  admit-remembers c s m p e =
      rw (e, admit)
        (
          (judge c s p).1,
          lookup-insert_self (key s) (judge c s p).1 m,
          judge-seen c s p,
          judge-reported c s p,
          judge-held c s p,
        )

  -- Deciding about one known pattern leaves what is remembered of all others as it was.
  pub admit-others :
      (c : Config F) (s : Signal F) (m : Map Bytes (Pattern F)) (p : Pattern F) (k : Bytes)
      → remembered s m ≡ some p
      → bytes_eq.beq (key s) k ≡ false
      → lookup k (admit c s m).1 ≡ lookup k m
  unfolding admit
  admit-others c s m p k e h = rw (e, admit) (lookup-insert_ne (key s) k (judge c s p).1 m h)

  tally-counts :
      (v : Verdict) (s : Signal F) (d : Dampener F)
      → ((tally v s d).0.reported ≡ d.reported + length (tally v s d).1)
        × ((tally v s d).0.reported + (tally v s d).0.suppressed ≡ d.reported + d.suppressed + 1)
  unfolding tally
  tally-counts hold s d = (omega arith, omega arith)
  tally-counts (report a) s d = (omega arith, omega arith)

  filter_each-counts :
      (signals : List (Signal F)) (d : Dampener F)
      → ((filter_each signals d).0.reported ≡ d.reported + length (filter_each signals d).1)
        × ((filter_each signals d).0.reported + (filter_each signals d).0.suppressed
            ≡ d.reported + d.suppressed + length signals)
  unfolding filter_each filter_one
  filter_each-counts [] d = (omega arith, omega arith)
  filter_each-counts (s ∷ rest) d =
      let (v, m) = admit d.config s d.patterns in
      let d' : Dampener F = record d { patterns = m } in
      omega (
        arith,
        filter_each-counts rest (tally v s d').0,
        tally-counts v s d',
        length-append (tally v s d').1 (filter_each rest (tally v s d').0).1,
      )

  -- Every signal is accounted for: with dampening on, the counter of reported signals grows by the
  -- number of signals that are let through, and both counters together by the number of all.
  pub filter-counts :
      (signals : List (Signal F)) (d : Dampener F)
      → leb_ℤ d.config.cooldown (pos 0) ≡ false
      → ((filter signals d).0.reported ≡ d.reported + length (filter signals d).1)
        × ((filter signals d).0.reported + (filter signals d).0.suppressed
            ≡ d.reported + d.suppressed + length signals)
  unfolding filter
  filter-counts signals d h = simp h (filter_each-counts signals d)
