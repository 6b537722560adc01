-- ===== src/Detect/Metric.antt =====
-- internal/core/detect/metric.go: the types of the metric detector.
--
-- The 64-bit counters grow by one and are natural numbers.
pub mod Series
pub mod Baseline
pub mod Detecting
use tezcatl.Base.{ℕ, ◌*◌, Bool, false, Option, none, some, List, [], ◌∷◌, Bytes, codes}
use tezcatl.Base.Assoc.{Map}
use tezcatl.Base.Ints.{ℤ, pos, Time, Duration, minute, hour}
use tezcatl.Model.{Floats}

abbrev pub seasonality_daily : Bytes
seasonality_daily = codes "daily"

abbrev pub max_deviations : ℕ
max_deviations = 32

abbrev pub series_sweep_interval : ℕ
series_sweep_interval = hour

-- `ThresholdRule`
pub record ThresholdRule (F : Type 0) : Type 0 where
  pub metric_name : Bytes
  pub lowest : Option F
  pub highest : Option F

-- `MetricConfig`
pub record MetricConfig (F : Type 0) : Type 0 where
  pub warmup_samples : ℤ
  pub alpha : F
  pub z_threshold : F
  pub trend_fast_alpha : F
  pub trend_slow_alpha : F
  pub trend_threshold : F
  pub thresholds : List (ThresholdRule F)
  pub min_deltas : Map Bytes F
  pub seasonality : Bytes
  pub seasonal_tolerance : Duration
  pub seasonal_days : ℤ
  pub max_series : ℤ
  pub series_ttl : Duration

-- `metricStats`
pub record MetricStats (F : Type 0) : Type 0 where
  pub count : ℕ
  pub mean : F
  pub variance : F
  pub fast_ewma : F
  pub slow_ewma : F
  pub drift_signaled : Bool
  pub last_seen : Time
  pub deviations : List Time

-- `MetricDetector`; `ignored` is the set of its keys
pub record MetricDetector (F : Type 0) : Type 0 where
  pub config : MetricConfig F
  pub series : Map Bytes (MetricStats F)
  pub evicted : ℕ
  pub expired : ℕ
  pub last_sweep : Time
  pub ignored : Map Bytes Bool

module _ {F : Type 0} ⦃fl : Floats F⦄ where
  -- `DefaultMinDeltas`
  unfoldable pub default_min_deltas : Map Bytes F
  default_min_deltas = (codes "*percent", fl.hundredths 1000) ∷ []

  -- `DefaultMetricConfig`
  unfoldable pub default_metric_config : MetricConfig F
  unfolding default_min_deltas
  default_metric_config = record {
    warmup_samples = pos 30;
    alpha = fl.hundredths 5;
    z_threshold = fl.hundredths 300;
    trend_fast_alpha = fl.hundredths 30;
    trend_slow_alpha = fl.hundredths 5;
    trend_threshold = fl.hundredths 50;
    thresholds = [];
    min_deltas = default_min_deltas;
    seasonality = seasonality_daily;
    seasonal_tolerance = pos (5 * minute);
    seasonal_days = pos 3;
    max_series = pos 10_000;
    series_ttl = pos (168 * hour);
  }

  -- `NewMetricDetector`
  unfoldable pub new_metric_detector : Option (MetricConfig F) → MetricDetector F
  unfolding default_metric_config
  new_metric_detector given =
      let config : MetricConfig F = elim given [ none ↦ default_metric_config | some c ↦ c ] in
      record {
        config = config;
        series = [];
        evicted = 0;
        expired = 0;
        last_sweep = 0;
        ignored = [];
      }
