-- ===== src/Detect/Metric/Detecting/Bounds.antt =====
-- internal/core/detect/metric.go: the memory of the metric detector.
use tezcatl.Base.{
  suc, ◌-◌, ◌≤◌, ◌<◌, ◌≡◌, refl, sym, subst, inl, inr, Bool, false, Bool-cases, Option,
  Option-cases, List, [], ◌∷◌, ◌++◌, Bytes, bytes_eq, same_bytes, length, length-drop, ◌==◌, ◌&&◌,
  ◌||◌, not, All, arith, either_branch,
}
use tezcatl.Base.Assoc.{Map, lookup, insert, has, Distinct, insert-Distinct, length-insert_old}
use tezcatl.Base.Ints.{ℤ, pos, pos_part, leb_ℤ, ltb_ℤ, Time, Duration, sub}
use tezcatl.Correlate.Soundness.{All-insert, All-lookup}
use tezcatl.Detect.Log.Detecting.Cap.{length-insert-le}
use tezcatl.Detect.Metric.{
  MetricConfig, MetricStats, MetricDetector, max_deviations, new_metric_detector,
  series_sweep_interval,
}
use tezcatl.Detect.Metric.Baseline.{note_deviation, is_near_last, record_deviation, update}
use tezcatl.Detect.Metric.Detecting.{
  is_metric, seasoned, statistical, judge_series, enter_series, detect_sample, detect_metric,
}
use tezcatl.Detect.Metric.Series.{series_key, is_ignored, swept, sweep, make_series_room}
use tezcatl.Detect.Room.{make_room}
use tezcatl.Detect.Room.Oldest.{make_room-Distinct, make_room-lt, All-make_room}
use tezcatl.Model.{Floats, Observation, MetricSample, Signal}

abbrev pub Brief : {F : Type 0} → MetricStats F → Type 0
Brief s = length s.deviations ≤ max_deviations

-- no series twice, no more than the cap where there is one, and few deviations of each
pub record Within {F : Type 0} (cap : ℤ) (m : Map Bytes (MetricStats F)) : Type 0 where
  pub distinct : Distinct m
  pub bounded : 0 < pos_part cap → length m ≤ pos_part cap
  pub brief : All (λ e. Brief e.1) m

-- the series of a detector, within the cap of its configuration
abbrev pub AllWithin : {F : Type 0} → MetricDetector F → Type 0
AllWithin d = Within d.config.max_series d.series

note_deviation-le :
    (ds : List Time) (at : Time) (tolerance : Duration)
    → length ds ≤ max_deviations
    → length (note_deviation ds at tolerance) ≤ max_deviations
unfolding note_deviation
note_deviation-le ds at tolerance h =
    either_branch (λ (l : List Time). length l ≤ max_deviations) (is_near_last ds at tolerance) h
      (omega (arith, length-drop (length (ds ++ at ∷ []) - max_deviations) (ds ++ at ∷ [])))

module _ {F : Type 0} where
  swept-has :
      (c : MetricConfig F) (now : Time) (k : Bytes) (m : Map Bytes (MetricStats F))
      → has k m ≡ false
      → has k (swept c now m) ≡ false
  unfolding swept lookup
  swept-has c now k [] h = h
  swept-has c now k ((j, s) ∷ m) h = elim (Bool-cases (same_bytes j k)) [
    | inl same ↦ absurd (let g = rw same at h in cc)
    | inr differ ↦
        (let rest = swept-has c now k m (rw differ at h) in
          either_branch (λ (l : Map Bytes (MetricStats F)). has k l ≡ false) (s.last_seen == 0)
            (rw differ rest)
            (either_branch (λ (l : Map Bytes (MetricStats F)). has k l ≡ false)
              (ltb_ℤ c.series_ttl (sub now s.last_seen)) rest (rw differ rest)))
  ]

  swept-Within :
      (cap : ℤ) (c : MetricConfig F) (now : Time) (m : Map Bytes (MetricStats F))
      → Distinct m
      → All (λ e. Brief e.1) m
      → Distinct (swept c now m)
        × All (λ e. Brief e.1) (swept c now m)
        × (length (swept c now m) ≤ length m)
  unfolding swept
  swept-Within cap c now [] d b = (tt, tt, omega arith)
  swept-Within cap c now ((j, s) ∷ m) (new, d) (one, b) =
      let (d', b', l') = swept-Within cap c now m d b in
      let kept = swept-has c now j m new in
      either_branch
        (λ (l : Map Bytes (MetricStats F)).
          Distinct l × All (λ e. Brief e.1) l × (length l ≤ suc (length m)))
        (s.last_seen == 0) ((kept, d'), (one, b'), omega arith)
        (either_branch
          (λ (l : Map Bytes (MetricStats F)).
            Distinct l × All (λ e. Brief e.1) l × (length l ≤ suc (length m)))
          (ltb_ℤ c.series_ttl (sub now s.last_seen)) (d', b', omega arith)
          ((kept, d'), (one, b'), omega arith))

  sweep-Within :
      (now : Time) (d : MetricDetector F)
      → Within d.config.max_series d.series
      → Within d.config.max_series (sweep now d).series
  unfolding sweep
  sweep-Within now d h =
      let (dist, brief, less) =
        swept-Within d.config.max_series d.config now d.series h.distinct h.brief in
      either_branch (λ (x : MetricDetector F). Within d.config.max_series x.series)
        (leb_ℤ d.config.series_ttl (pos 0)
          || not (d.last_sweep == 0) && ltb_ℤ (sub now d.last_sweep) (pos series_sweep_interval))
        h (record { distinct = dist; bounded = λ k. omega (arith, h.bounded k); brief = brief })

  sweep-config : (now : Time) (d : MetricDetector F) → (sweep now d).config ≡ d.config
  unfolding sweep
  sweep-config now d =
      either_branch (λ (x : MetricDetector F). x.config ≡ d.config)
        (leb_ℤ d.config.series_ttl (pos 0)
          || not (d.last_sweep == 0) && ltb_ℤ (sub now d.last_sweep) (pos series_sweep_interval))
        refl refl

  record_deviation-Brief :
      (c : MetricConfig F) (s : MetricStats F) (at : Time)
      → Brief s
      → Brief (record_deviation c s at).1
  unfolding record_deviation
  record_deviation-Brief c s at h = note_deviation-le s.deviations at c.seasonal_tolerance h

module _ {F : Type 0} ⦃fl : Floats F⦄ where
  enter_series-Within :
      (key : Bytes) (d : MetricDetector F) (s : MetricStats F)
      → Within d.config.max_series d.series
      → Brief s
      → Within d.config.max_series (insert key s (enter_series key d).0.series)
  unfolding enter_series make_series_room
  enter_series-Within key d s h b = elim (Option-cases (lookup key d.series)) [
    | inl absent ↦
        (let kept = make_room (λ (x : MetricStats F). x.last_seen) d.config.max_series d.series in
          rw (enter_series, absent)
            (record {
              distinct =
                  insert-Distinct key s kept
                    (make_room-Distinct (λ x. x.last_seen) d.config.max_series d.series h.distinct);
              bounded = λ some_cap. omega (
                arith,
                make_room-lt (λ (x : MetricStats F). x.last_seen) d.config.max_series d.series
                    some_cap,
                length-insert-le key s kept,
              );
              brief =
                  All-insert Brief key s kept b
                    (All-make_room (λ x. x.last_seen) Brief d.config.max_series d.series h.brief);
            }))
    | inr (old, there) ↦
        rw (enter_series, there)
          (record {
            distinct = insert-Distinct key s d.series h.distinct;
            bounded =
                λ some_cap. rw (length-insert_old key s old d.series there) (h.bounded some_cap);
            brief = All-insert Brief key s d.series b h.brief;
          })
  ]

  enter_series-keeps :
      (key : Bytes) (d : MetricDetector F)
      → All (λ e. Brief e.1) d.series
      → ((enter_series key d).0.config ≡ d.config) × Brief (enter_series key d).1
  unfolding enter_series make_series_room
  enter_series-keeps key d b = elim (Option-cases (lookup key d.series)) [
    | inl absent ↦ rw (enter_series, absent) (refl, omega arith)
    | inr (old, there) ↦ rw (enter_series, there) (refl, All-lookup Brief key old d.series b there)
  ]

  seasoned-Brief :
      (c : MetricConfig F) (at : Time) (s : MetricStats F) (signals : List (Signal F))
      → Brief s
      → Brief (seasoned c at s signals).0
  unfolding seasoned
  seasoned-Brief c at s [] b = b
  seasoned-Brief c at s (first ∷ rest) b = record_deviation-Brief c s at b

  update-Brief :
      (c : MetricConfig F) (value : F) (s : MetricStats F) → Brief s → Brief (update c value s)
  unfolding update
  update-Brief c value s b = either_branch (λ (x : MetricStats F). Brief x) (s.count == 0) b b

  module _ (path_match : Bytes → Bytes → Option Bool) where
    judge_series-Brief :
        (d : MetricDetector F) (obs : Observation F) (m : MetricSample F) (key : Bytes)
        (s : MetricStats F)
        → Brief s
        → Brief (judge_series path_match d obs m key s).0
    unfolding judge_series statistical
    judge_series-Brief d obs m key s b =
        either_branch (λ (x : MetricStats F × List (Signal F)). Brief x.0)
          (is_ignored path_match key m.name d) b
          (either_branch (λ (x : MetricStats F × List (Signal F)). Brief x.0)
            (leb_ℤ d.config.warmup_samples (pos s.count))
            (seasoned-Brief d.config obs.timestamp _ _ b) b)

    detect_sample-AllWithin :
        (obs : Observation F) (m : MetricSample F) (d : MetricDetector F)
        → AllWithin d
        → AllWithin (detect_sample path_match obs m d).0
    unfolding detect_sample
    detect_sample-AllWithin obs m d h =
        let key = series_key obs.source m in
        let clean = sweep obs.timestamp d in
        let same = sweep-config obs.timestamp d in
        let fine =
          subst (λ (c : MetricConfig F). Within c.max_series clean.series) (sym same)
            (sweep-Within obs.timestamp d h) in
        let (config, brief) = enter_series-keeps key clean fine.brief in
        let roomy = (enter_series key clean).0 in
        let judged =
          judge_series path_match roomy obs m key
            (record (enter_series key clean).1 { last_seen = obs.timestamp }) in
        let kept =
          judge_series-Brief roomy obs m key
            (record (enter_series key clean).1 { last_seen = obs.timestamp }) brief in
        subst
          (λ (c : MetricConfig F).
            Within c.max_series (insert key (update roomy.config m.value judged.0) roomy.series))
          (sym config)
          (enter_series-Within key clean (update roomy.config m.value judged.0) fine
            (update-Brief roomy.config m.value judged.0 kept))

    detect_metric-AllWithin :
        (obs : Observation F) (d : MetricDetector F)
        → AllWithin d
        → AllWithin (detect_metric path_match obs d).0
    unfolding detect_metric
    detect_metric-AllWithin obs d h = elim (Option-cases obs.metric) [
      | inl absent ↦ rw (detect_metric, absent) h
      | inr (m, there) ↦
          rw (detect_metric, there)
            (either_branch (λ (x : MetricDetector F × List (Signal F)). AllWithin x.0)
              (is_metric obs.modality) (detect_sample-AllWithin obs m d h) h)
    ]

    -- `Detect` on observation after observation; the signals are dropped
    unfoldable pub follow : List (Observation F) → MetricDetector F → MetricDetector F
    unfolding detect_metric
    follow [] d = d
    follow (obs ∷ rest) d = follow rest (detect_metric path_match obs d).0

    follow-AllWithin :
        (os : List (Observation F)) (d : MetricDetector F) → AllWithin d → AllWithin (follow os d)
    unfolding follow
    follow-AllWithin [] d h = h
    follow-AllWithin (obs ∷ rest) d h =
        follow-AllWithin rest (detect_metric path_match obs d).0 (detect_metric-AllWithin obs d h)

    -- From a new detector, after any observations, no series is held twice, there are no more of them
    -- than a positive cap, and each remembers at most 32 deviations.
    pub follow-Within :
        (given : Option (MetricConfig F)) (os : List (Observation F))
        → AllWithin (follow os (new_metric_detector given))
    unfolding new_metric_detector
    follow-Within given os =
        follow-AllWithin os (new_metric_detector given)
          (record { distinct = tt; bounded = λ some_cap. omega arith; brief = tt })
