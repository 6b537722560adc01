-- ===== src/Detect/Metric/Detecting.antt =====
-- internal/core/detect/metric.go: `Detect`.
pub mod Quiet
pub mod Bounds
use tezcatl.Base.{
  ℕ, ◌+◌, Bool, true, false, Option, none, some, List, [], ◌∷◌, ◌++◌, map, Bytes, bytes_eq, codes,
  itoa, ltb, ◌&&◌, not, same_bytes, if◌then◌else◌,
}
use tezcatl.Base.Assoc.{Map, lookup, insert}
use tezcatl.Base.Ints.{ℤ, pos, leb_ℤ, Time}
use tezcatl.Detect.Metric.{ThresholdRule, MetricConfig, MetricStats, MetricDetector}
use tezcatl.Detect.Metric.Baseline.{update, record_deviation}
use tezcatl.Detect.Metric.Series.{series_key, is_ignored, make_series_room, sweep, min_delta}
use tezcatl.Model.{
  Floats, Observation, MetricSample, Signal, Modality, log, metric, change, trace, unnamed,
}

abbrev pub is_metric : Modality → Bool
is_metric log = false
is_metric metric = true
is_metric change = false
is_metric trace = false
is_metric (unnamed text) = false

module _ {F : Type 0} ⦃fl : Floats F⦄ where
  abbrev pub no_stats : MetricStats F
  no_stats = record {
    count = 0;
    mean = fl.hundredths 0;
    variance = fl.hundredths 0;
    fast_ewma = fl.hundredths 0;
    slow_ewma = fl.hundredths 0;
    drift_signaled = false;
    last_seen = 0;
    deviations = [];
  }

  -- the closure `newSignal`
  unfoldable pub metric_signal :
      Observation F → MetricSample F → Bytes → Bytes → F → Bytes → Map Bytes Bytes → Signal F
  unfolding insert
  metric_signal obs m key kind score summary attributes = record {
    kind = kind;
    modality = metric;
    source = obs.source;
    timestamp = obs.timestamp;
    score = score;
    summary = summary;
    attributes = insert (codes "observation_id") obs.id (
        insert (codes "value") (fl.shortest m.value)
          (insert (codes "series") key (insert (codes "metric") m.name attributes)));
  }

  -- a bound that is crossed
  unfoldable pub above : Observation F → MetricSample F → Bytes → Option F → List (Signal F)
  unfolding metric_signal
  above obs m key none = []
  above obs m key (some most) =
      if fl.lt most m.value
      then metric_signal obs m key (codes "metric.threshold") (fl.hundredths 90)
          (m.name
            ++ codes " = "
            ++ fl.general 4 m.value
            ++ codes " above configured maximum "
            ++ fl.plain most)
          ((codes "max", fl.shortest most) ∷ [])
        ∷ []
      else []

  unfoldable pub below : Observation F → MetricSample F → Bytes → Option F → List (Signal F)
  unfolding metric_signal
  below obs m key none = []
  below obs m key (some least) =
      if fl.lt m.value least
      then metric_signal obs m key (codes "metric.threshold") (fl.hundredths 90)
          (m.name
            ++ codes " = "
            ++ fl.general 4 m.value
            ++ codes " below configured minimum "
            ++ fl.plain least)
          ((codes "min", fl.shortest least) ∷ [])
        ∷ []
      else []

  -- the loop over the thresholds
  unfoldable pub threshold_signals :
      Observation F → MetricSample F → Bytes → List (ThresholdRule F) → List (Signal F)
  unfolding above below
  threshold_signals obs m key [] = []
  threshold_signals obs m key (rule ∷ rest) =
      let others = threshold_signals obs m key rest in
      if same_bytes rule.metric_name m.name
      then above obs m key rule.highest ++ (below obs m key rule.lowest ++ others)
      else others

  -- the deviation from the baseline
  unfoldable pub deviation_signals :
      MetricConfig F → F → Observation F → MetricSample F → Bytes → MetricStats F → List (Signal F)
  unfolding metric_signal
  deviation_signals c floor obs m key s =
      let stddev = fl.sqrt s.variance in
      let z = fl.div (fl.minus m.value s.mean) stddev in
      if fl.lt (fl.hundredths 0) stddev
        && fl.le floor (fl.abs (fl.minus m.value s.mean))
        && fl.le c.z_threshold (fl.abs z)
      then metric_signal obs m key (codes "metric.zscore")
          (fl.smaller (fl.hundredths 95)
            (fl.add (fl.hundredths 50) (fl.div (fl.abs z) (fl.of_int (pos 10)))))
          (m.name
            ++ codes " = "
            ++ fl.general 4 m.value
            ++ codes " deviates from baseline "
            ++ fl.general 3 s.mean
            ++ codes " (z = "
            ++ fl.fixed 1 z
            ++ codes ")")
          ((codes "mean", fl.general 4 s.mean)
            ∷ (codes "stddev", fl.general 4 stddev)
            ∷ (codes "z", fl.fixed 2 z)
            ∷ [])
        ∷ []
      else []

  -- whether the fast trend has left the slow one
  unfoldable pub is_drifting : MetricConfig F → F → MetricStats F → Bool
  is_drifting c floor s =
      let apart = fl.abs (fl.minus s.fast_ewma s.slow_ewma) in
      let least = fl.div (fl.of_int (pos 1)) (fl.of_int (pos 1_000_000_000)) in
      fl.le c.trend_threshold (fl.div apart (fl.larger (fl.abs s.slow_ewma) least))
      && fl.le floor apart

  unfoldable pub drift_signals :
      Bool → Observation F → MetricSample F → Bytes → MetricStats F → List (Signal F)
  unfolding metric_signal
  drift_signals drifting obs m key s =
      if drifting && not s.drift_signaled
      then metric_signal obs m key (codes "metric.trend_drift") (fl.hundredths 60)
          (m.name
            ++ codes " drifting: fast trend "
            ++ fl.general 3 s.fast_ewma
            ++ codes " vs baseline "
            ++ fl.general 3 s.slow_ewma)
          ((codes "fast", fl.general 4 s.fast_ewma) ∷ (codes "slow", fl.general 4 s.slow_ewma) ∷ [])
        ∷ []
      else []

  -- `signals[i].Attributes["recurring_days"] = strconv.Itoa(days)`
  abbrev pub with_days : ℕ → Signal F → Signal F
  with_days days s = record s {
    attributes = insert (codes "recurring_days") (itoa days) s.attributes;
  }

  -- The statistical signals of a deviation after `recordDeviation`: none that recurs.
  unfoldable pub seasoned :
      MetricConfig F → Time → MetricStats F → List (Signal F) → MetricStats F × List (Signal F)
  unfolding record_deviation
  seasoned c at s [] = (s, [])
  seasoned c at s (first ∷ rest) =
      let (verdict, after) = record_deviation c s at in
      (
        after,
        if verdict.0
            then []
            else (if ltb 0 verdict.1
                then map (with_days verdict.1) (first ∷ rest)
                else first ∷ rest),
      )

  -- the detector with room for the series, and the statistics that the series starts from
  unfoldable pub enter_series : Bytes → MetricDetector F → MetricDetector F × MetricStats F
  unfolding lookup make_series_room
  enter_series key d = elim (lookup key d.series) [
    | some s ↦ (d, s)
    | none ↦ (make_series_room d, no_stats)
  ]

  module _ (path_match : Bytes → Bytes → Option Bool) where
    -- what a series past its warmup adds
    unfoldable pub statistical :
        MetricConfig F
        → Observation F
        → MetricSample F
        → Bytes
        → MetricStats F
        → MetricStats F × List (Signal F)
    unfolding min_delta deviation_signals is_drifting drift_signals seasoned
    statistical c obs m key s =
        let floor = min_delta path_match m.name c in
        let drifting = is_drifting c floor s in
        seasoned c obs.timestamp (record s { drift_signaled = drifting })
          (deviation_signals c floor obs m key s ++ drift_signals drifting obs m key s)

    -- the signals of an observation of a series, and the statistics before `update`
    unfoldable pub judge_series :
        MetricDetector F
        → Observation F
        → MetricSample F
        → Bytes
        → MetricStats F
        → MetricStats F × List (Signal F)
    unfolding is_ignored threshold_signals statistical
    judge_series d obs m key s =
        let crossed = threshold_signals obs m key d.config.thresholds in
        if is_ignored path_match key m.name d
        then (s, [])
        else (if leb_ℤ d.config.warmup_samples (pos s.count)
            then (
              (statistical d.config obs m key s).0,
              crossed ++ (statistical d.config obs m key s).1,
            )
            else (s, crossed))

    -- `Detect` past its first guard
    unfoldable pub detect_sample :
        Observation F → MetricSample F → MetricDetector F → MetricDetector F × List (Signal F)
    unfolding sweep series_key enter_series judge_series update insert
    detect_sample obs m d =
        let key = series_key obs.source m in
        let (roomy, start) = enter_series key (sweep obs.timestamp d) in
        let (judged, signals) =
          judge_series roomy obs m key (record start { last_seen = obs.timestamp }) in
        (
          record roomy { series = insert key (update roomy.config m.value judged) roomy.series },
          signals,
        )

    -- `Detect`
    unfoldable pub detect_metric :
        Observation F → MetricDetector F → MetricDetector F × List (Signal F)
    unfolding detect_sample
    detect_metric obs d = elim obs.metric [
      | none ↦ (d, [])
      | some m ↦ if is_metric obs.modality then detect_sample obs m d else (d, [])
    ]
