-- ===== src/Detect/Metric/Baseline.antt =====
-- internal/core/detect/metric.go: `update`, `recordDeviation`, `recurringDays`, `deviatedNear`.
use tezcatl.Base.{
  ℕ, zero, suc, ◌+◌, ◌-◌, ◌*◌, Bool, true, false, List, [], ◌∷◌, ◌++◌, length, drop, ◌==◌, ◌&&◌,
  ◌||◌, same_bytes, if◌then◌else◌,
}
use tezcatl.Base.Ints.{
  pos, pos_part, neg_part, neg_ℤ, leb_ℤ, ltb_ℤ, Time, Duration, sub, add_time, hour,
}
use tezcatl.Detect.Metric.{MetricConfig, MetricStats, seasonality_daily, max_deviations}
use tezcatl.Model.{Floats}

-- `d.Abs()`
abbrev pub magnitude : Duration → ℕ
magnitude d = pos_part d + neg_part d

-- `deviatedNear`
unfoldable pub deviated_near : List Time → Time → Duration → Bool
deviated_near [] at tolerance = false
deviated_near (past ∷ rest) at tolerance =
    leb_ℤ (pos (magnitude (sub past at))) tolerance || deviated_near rest at tolerance

-- the instant a number of days before
abbrev pub days_before : ℕ → Time → Time
days_before day at = add_time at (neg_ℤ (pos (day * (24 * hour))))

-- the loop of `recurringDays`, with `left` days to go from `day` on
unfoldable pub days_from : ℕ → ℕ → List Time → Time → Duration → ℕ
unfolding deviated_near
days_from zero day deviations at tolerance = 0
days_from (suc left) day deviations at tolerance =
    let more = days_from left (day + 1) deviations at tolerance in
    if deviated_near deviations (days_before day at) tolerance then more + 1 else 0

-- the last of the deviations that were kept, where there is one
unfoldable pub is_near_last : List Time → Time → Duration → Bool
is_near_last [] at tolerance = false
is_near_last (past ∷ []) at tolerance = leb_ℤ (pos (magnitude (sub at past))) tolerance
is_near_last (past ∷ next ∷ rest) at tolerance = is_near_last (next ∷ rest) at tolerance

-- the deviations with one more, unless it is near the last one, and the oldest dropped
unfoldable pub note_deviation : List Time → Time → Duration → List Time
unfolding is_near_last
note_deviation deviations at tolerance =
    let grown = deviations ++ at ∷ [] in
    if is_near_last deviations at tolerance
    then deviations
    else drop (length grown - max_deviations) grown

module _ {F : Type 0} where
  abbrev pub is_daily : MetricConfig F → Bool
  is_daily c = same_bytes c.seasonality seasonality_daily

  -- `recurringDays`
  unfoldable pub recurring_days : MetricConfig F → MetricStats F → Time → ℕ
  unfolding days_from
  recurring_days c s at =
      if not_seasonal c
      then 0
      else days_from (pos_part c.seasonal_days - 1) 1 s.deviations at c.seasonal_tolerance
    where
      not_seasonal : MetricConfig F → Bool
      not_seasonal c' = if is_daily c' then ltb_ℤ c'.seasonal_days (pos 2) else true

  -- `recordDeviation`: whether the deviation recurs, on how many days, and the statistics after it
  unfoldable pub is_recurring : MetricConfig F → ℕ → Bool
  is_recurring c days =
      is_daily c && ltb_ℤ (pos 1) c.seasonal_days && leb_ℤ c.seasonal_days (pos (days + 1))

  unfoldable pub record_deviation :
      MetricConfig F → MetricStats F → Time → (Bool × ℕ) × MetricStats F
  unfolding recurring_days is_recurring note_deviation
  record_deviation c s at =
      let days = recurring_days c s at in
      (
        (is_recurring c days, days),
        record s { deviations = note_deviation s.deviations at c.seasonal_tolerance },
      )

module _ {F : Type 0} ⦃fl : Floats F⦄ where
  -- `update`
  unfoldable pub update : MetricConfig F → F → MetricStats F → MetricStats F
  update c value s =
      let delta = fl.minus value s.mean in
      if s.count == 0
      then record s { mean = value; fast_ewma = value; slow_ewma = value; count = s.count + 1 }
      else record s {
        mean = fl.add s.mean (fl.mul c.alpha delta);
        variance =
            fl.mul (fl.minus (fl.hundredths 100) c.alpha)
              (fl.add s.variance (fl.mul (fl.mul c.alpha delta) delta));
        fast_ewma = fl.add s.fast_ewma (fl.mul c.trend_fast_alpha (fl.minus value s.fast_ewma));
        slow_ewma = fl.add s.slow_ewma (fl.mul c.trend_slow_alpha (fl.minus value s.slow_ewma));
        count = s.count + 1;
      }
