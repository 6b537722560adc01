-- ===== src/Detect/Metric/Detecting/Quiet.antt =====
-- internal/core/detect/metric.go: when only the configured bounds give a signal.
use tezcatl.Base.{
  ◌≡◌, refl, sym, subst, ◌∙◌, inl, inr, ◌⊎◌, Bool, true, false, Bool-cases, Option, none, some,
  List, [], ◌∷◌, ◌++◌, Bytes, codes, same_bytes, All, All-append, either_branch,
}
use tezcatl.Base.Ints.{pos, leb_ℤ, Time}
use tezcatl.Detect.Metric.{ThresholdRule, MetricConfig, MetricStats, MetricDetector}
use tezcatl.Detect.Metric.Baseline.{record_deviation, recurring_days, is_recurring}
use tezcatl.Detect.Metric.Detecting.{
  metric_signal, above, below, threshold_signals, is_metric, seasoned, deviation_signals,
  drift_signals, is_drifting, statistical, judge_series, enter_series, detect_sample, detect_metric,
}
use tezcatl.Detect.Metric.Series.{series_key, is_ignored, sweep, min_delta}
use tezcatl.Model.{Floats, Observation, MetricSample, Signal}

-- a signal of a configured bound
abbrev pub Crossing : {F : Type 0} → Signal F → Type 0
Crossing s = s.kind ≡ codes "metric.threshold"

module _ {F : Type 0} ⦃fl : Floats F⦄ where
  above-Crossing :
      (obs : Observation F) (m : MetricSample F) (key : Bytes) (b : Option F)
      → All Crossing (above obs m key b)
  unfolding above metric_signal
  above-Crossing obs m key none = tt
  above-Crossing obs m key (some most) =
      either_branch (All Crossing) (fl.lt most m.value) (refl, tt) tt

  below-Crossing :
      (obs : Observation F) (m : MetricSample F) (key : Bytes) (b : Option F)
      → All Crossing (below obs m key b)
  unfolding below metric_signal
  below-Crossing obs m key none = tt
  below-Crossing obs m key (some least) =
      either_branch (All Crossing) (fl.lt m.value least) (refl, tt) tt

  threshold_signals-Crossing :
      (obs : Observation F) (m : MetricSample F) (key : Bytes) (rules : List (ThresholdRule F))
      → All Crossing (threshold_signals obs m key rules)
  unfolding threshold_signals
  threshold_signals-Crossing obs m key [] = tt
  threshold_signals-Crossing obs m key (rule ∷ rest) =
      let others = threshold_signals-Crossing obs m key rest in
      either_branch (All Crossing) (same_bytes rule.metric_name m.name)
        (All-append Crossing (above obs m key rule.highest) _
          (above-Crossing obs m key rule.highest)
          (All-append Crossing (below obs m key rule.lowest) _
            (below-Crossing obs m key rule.lowest) others))
        others

  -- a deviation that recurs
  abbrev pub Recurs : MetricConfig F → MetricStats F → Time → Type 0
  Recurs c s at = is_recurring c (recurring_days c s at) ≡ true

  seasoned-recurring :
      (c : MetricConfig F) (at : Time) (s : MetricStats F) (signals : List (Signal F))
      → Recurs c s at
      → (seasoned c at s signals).1 ≡ []
  unfolding seasoned record_deviation
  seasoned-recurring c at s [] r = refl
  seasoned-recurring c at s (first ∷ rest) r = rw (seasoned, record_deviation, r) refl

  module _ (path_match : Bytes → Bytes → Option Bool) where
    -- why a series says nothing of its own
    abbrev pub Quieted : MetricDetector F → MetricSample F → Bytes → MetricStats F → Time → Type 0
    Quieted d m key s at =
        (is_ignored path_match key m.name d ≡ true)
        ⊎ (leb_ℤ d.config.warmup_samples (pos s.count) ≡ false)
        ⊎ Recurs d.config s at

    judge_series-Crossing :
        (d : MetricDetector F) (obs : Observation F) (m : MetricSample F) (key : Bytes)
        (s : MetricStats F)
        → Quieted d m key s obs.timestamp
        → All Crossing (judge_series path_match d obs m key s).1
    unfolding judge_series statistical recurring_days
    judge_series-Crossing d obs m key s why =
        elim (Bool-cases (is_ignored path_match key m.name d)) [
          | inl ignored ↦ rw (judge_series, ignored) tt
          | inr heard ↦ elim (Bool-cases (leb_ℤ d.config.warmup_samples (pos s.count))) [
            | inr early ↦
                rw (judge_series, heard, early)
                  (threshold_signals-Crossing obs m key d.config.thresholds)
            | inl warm ↦
                (let floor = min_delta path_match m.name d.config in
                  let drifting = is_drifting d.config floor s in
                  let quiet : (statistical path_match d.config obs m key s).1 ≡ [] =
                    seasoned-recurring d.config obs.timestamp
                      (record s { drift_signaled = drifting })
                      (deviation_signals d.config floor obs m key s
                        ++ drift_signals drifting obs m key s)
                      (recurs heard warm why) in
                  rw (judge_series, heard, warm)
                    (All-append Crossing (threshold_signals obs m key d.config.thresholds) _
                      (threshold_signals-Crossing obs m key d.config.thresholds)
                      (subst (All Crossing) (sym quiet) tt)))
          ]
        ]
      where
        recurs :
            is_ignored path_match key m.name d ≡ false
            → leb_ℤ d.config.warmup_samples (pos s.count) ≡ true
            → Quieted d m key s obs.timestamp
            → Recurs d.config s obs.timestamp
        recurs heard warm (inl ignored) = absurd (let g = sym heard ∙ ignored in cc)
        recurs heard warm (inr (inl early)) = absurd (let g = sym warm ∙ early in cc)
        recurs heard warm (inr (inr r)) = r

    -- A series that is ignored, or still warming up, or whose deviation was seen near the same hour on
    -- each of the days that the configuration asks for, gives no signal but those of the configured
    -- bounds: a nightly peak is not reported as a deviation or a drift.
    pub detect_metric-quiet :
        (obs : Observation F) (m : MetricSample F) (d : MetricDetector F)
        → obs.metric ≡ some m
        → is_metric obs.modality ≡ true
        → (let key = series_key obs.source m in
            let (roomy, start) = enter_series key (sweep obs.timestamp d) in
            Quieted roomy m key start obs.timestamp)
        → All Crossing (detect_metric path_match obs d).1
    unfolding detect_metric detect_sample recurring_days
    detect_metric-quiet obs m d there modality why =
        let key = series_key obs.source m in
        let entered = enter_series key (sweep obs.timestamp d) in
        rw (detect_metric, there, modality)
          (judge_series-Crossing entered.0 obs m key
            (record entered.1 { last_seen = obs.timestamp }) why)
