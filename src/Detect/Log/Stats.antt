-- ===== src/Detect/Log/Stats.antt =====
-- internal/core/detect/log.go: the statistics of a template: `intervalCV`, the intervals that `Detect`
-- folds in, `rollBucket`, `spikeBaseline`, `stillRare`.
use tezcatl.Base.{
  ℕ, zero, suc, ◌+◌, ◌-◌, ◌/◌, ◌%◌, min, Bool, true, false, Option, none, some, List, bytes_eq,
  get_or, set, ltb, leb, ◌&&◌, ◌||◌, same_bytes, if◌then◌else◌,
}
use tezcatl.Base.Ints.{pos, negsuc, leb_ℤ, Time, Duration, sub, before}
use tezcatl.Model.{Floats}
use tezcatl.Detect.Log.{LogConfig, TemplateStats, seasonality_hourly}

-- `t.Truncate(d)`
unfoldable pub truncate_time : Time → Duration → Time
truncate_time t (pos zero) = t
truncate_time t (pos (suc d)) = t - t % suc d
truncate_time t (negsuc d) = t

-- `xs[i]++`
unfoldable pub bump : ℕ → List ℕ → List ℕ
bump i xs = set xs i (get_or xs i 0 + 1)

module _ {F : Type 0} ⦃fl : Floats F⦄ where
  abbrev pub zero_float : F
  zero_float = fl.hundredths 0

  abbrev pub alpha : F
  alpha = fl.hundredths 30

  -- x += alpha * (y - x)
  unfoldable pub fold_in : F → F → F
  fold_in y x = fl.add x (fl.mul alpha (fl.minus y x))

  -- `seasonal`
  unfoldable pub seasonal : LogConfig F → Bool
  seasonal c = same_bytes c.seasonality seasonality_hourly

  -- `intervalCV`; `none` for a second result of false
  unfoldable pub interval_cv : TemplateStats F → Option F
  interval_cv s =
      if fl.le s.mean_interval zero_float || ltb s.interval_samples 5
      then none
      else some (fl.div (fl.sqrt s.interval_variance) s.mean_interval)

  -- `Detect`: the interval since the last sighting, where it counts
  unfoldable pub fold_interval : Time → TemplateStats F → TemplateStats F
  fold_interval at s =
      let interval = fl.seconds (sub at s.last_seen) in
      let delta = fl.minus interval s.mean_interval in
      if ltb 0 s.count && fl.le zero_float interval
      then (if fl.same s.mean_interval zero_float
          then record s { mean_interval = interval }
          else record s {
            mean_interval = fl.add s.mean_interval (fl.mul alpha delta);
            interval_variance =
                fl.mul (fl.hundredths 70)
                  (fl.add s.interval_variance (fl.mul (fl.mul alpha delta) delta));
            interval_samples = s.interval_samples + 1;
          })
      else s

  -- the loop that decays through empty buckets
  unfoldable pub decay : ℕ → F → F
  unfolding fold_in
  decay zero baseline = baseline
  decay (suc n) baseline = decay n (fold_in zero_float baseline)

  -- `stillRare`
  unfoldable pub still_rare : LogConfig F → TemplateStats F → Bool
  still_rare c s =
      if leb_ℤ c.rare_max_interval (pos 0) || fl.le s.mean_interval zero_float
      then true
      else fl.le s.mean_interval (fl.seconds c.rare_max_interval)

  module _ (hour_of : Time → ℕ) where
    -- `rollBucket` where the bucket is over, `elapsed` buckets after the last one
    unfoldable pub next_bucket : LogConfig F → Time → ℕ → TemplateStats F → TemplateStats F
    unfolding fold_in decay seasonal bump
    next_bucket c start elapsed s =
        let seen = fl.of_int (pos s.bucket_count) in
        let hour = hour_of s.bucket_start in
        let by_hour =
          if seasonal c
          then record s {
            hourly_baseline =
                set s.hourly_baseline hour
                  (fold_in seen (get_or s.hourly_baseline hour zero_float));
            hourly_folded = bump hour s.hourly_folded;
          }
          else s in
        record by_hour {
          bucket_baseline = decay (min (elapsed - 1) 60) (fold_in seen s.bucket_baseline);
          bucket_start = start;
          bucket_count = 0;
          spike_signaled = false;
        }

    -- `rollBucket` where the bucket is over: the number of buckets gone by is a division by the width,
    -- which panics at zero, the result `none`; a negative number of them runs through no loop
    unfoldable pub bucket_over :
        Duration → LogConfig F → Time → TemplateStats F → Option (TemplateStats F)
    unfolding next_bucket
    bucket_over (pos zero) c start s = none
    bucket_over (pos (suc d)) c start s =
        some (next_bucket c start ((start - s.bucket_start) / suc d) s)
    bucket_over (negsuc d) c start s = some (next_bucket c start 0 s)

    -- `rollBucket`
    unfoldable pub roll_bucket : LogConfig F → Time → TemplateStats F → Option (TemplateStats F)
    unfolding truncate_time bucket_over
    roll_bucket c at s =
        let start = truncate_time at c.spike_bucket in
        if before s.bucket_start start then bucket_over c.spike_bucket c start s else some s

    -- `spikeBaseline`
    unfoldable pub spike_baseline : LogConfig F → Time → TemplateStats F → F
    unfolding seasonal
    spike_baseline c at s =
        if seasonal c && leb 3 (get_or s.hourly_folded (hour_of at) 0)
        then get_or s.hourly_baseline (hour_of at) zero_float
        else s.bucket_baseline
