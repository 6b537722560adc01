-- ===== src/Detect/Log.antt =====
-- internal/core/detect/log.go: the types of the log detector.
--
-- The 64-bit counters grow by one with an observation and are natural numbers: no run reaches 2^63.
-- A `[24]` array is a list of 24 cells. Pointers into the maps are followed by writing the entry back.
pub mod Markings
pub mod Stats
pub mod Shape
pub mod Scan
pub mod Detecting
use tezcatl.Base.{
  ℕ, ◌*◌, ◌+◌, ◌≡◌, refl, Bool, true, false, Option, none, some, List, [], ◌∷◌, Bytes, bytes_eq,
  codes, replicate, ltb, if◌then◌else◌,
}
use tezcatl.Base.Assoc.{Map, insert}
use tezcatl.Base.Ints.{ℤ, pos, Time, Duration, second, minute, hour}
use tezcatl.Model.{Floats}

pub data Marking : Type 0 where
  normal ignore symptomatic heartbeat : Marking
  -- any other text, the empty one of an unmarked template included
  other : Bytes → Marking

-- the text of a marking
unfoldable pub marking_text : Marking → Bytes
marking_text normal = codes "normal"
marking_text ignore = codes "ignore"
marking_text symptomatic = codes "symptomatic"
marking_text heartbeat = codes "heartbeat"
marking_text (other text) = text

abbrev pub scope_heartbeat : Bytes
scope_heartbeat = codes "heartbeat"

abbrev pub scope_all : Bytes
scope_all = codes "all"

abbrev pub seasonality_hourly : Bytes
seasonality_hourly = codes "hourly"

-- `LogConfig`
pub record LogConfig (F : Type 0) : Type 0 where
  pub learning_period : Duration
  pub rare_threshold : ℤ
  pub rare_min_observations : ℤ
  pub rare_max_interval : Duration
  pub spike_bucket : Duration
  pub spike_factor : F
  pub spike_min_count : ℤ
  pub disappearance_factor : F
  pub disappearance_min_count : ℤ
  pub disappearance_scan_interval : Duration
  pub disappearance_scope : Bytes
  pub disappearance_min_silence : Duration
  pub disappearance_max_cv : F
  pub min_template_literals : ℤ
  pub max_placeholder_ratio : F
  pub seasonality : Bytes
  pub seasonal_min_observations : ℤ
  pub markings : Map Bytes Marking
  pub marking_patterns : Map Bytes Marking
  pub max_templates : ℤ

-- `templateStats`
pub record TemplateStats (F : Type 0) : Type 0 where
  pub template : Bytes
  pub count : ℕ
  pub last_seen : Time
  pub mean_interval : F
  pub interval_variance : F
  pub interval_samples : ℕ
  pub bucket_start : Time
  pub bucket_count : ℕ
  pub bucket_baseline : F
  pub spike_signaled : Bool
  pub missing_signaled : Bool
  pub hourly_counts : List ℕ
  pub hourly_baseline : List F
  pub hourly_folded : List ℕ

-- `logSourceState`
pub record SourceState (F : Type 0) : Type 0 where
  pub first_seen : Time
  pub total : ℕ
  pub templates : Map Bytes (TemplateStats F)
  pub last_scan : Time
  pub hourly_seen : List ℕ

-- `LogDetector`
pub record LogDetector (F : Type 0) : Type 0 where
  pub config : LogConfig F
  pub markings : Map Bytes Marking
  pub patterns : Map Bytes Marking
  pub sources : Map Bytes (SourceState F)

-- `maps.Copy`
unfoldable pub copy_markings : Map Bytes Marking → Map Bytes Marking → Map Bytes Marking
unfolding insert
copy_markings into [] = into
copy_markings into ((k, m) ∷ rest) = copy_markings (insert k m into) rest

module _ {F : Type 0} ⦃fl : Floats F⦄ where
  -- `DefaultLogConfig`
  unfoldable pub default_log_config : LogConfig F
  default_log_config = record {
    learning_period = pos (5 * minute);
    rare_threshold = pos 3;
    rare_min_observations = pos 500;
    rare_max_interval = pos hour;
    spike_bucket = pos minute;
    spike_factor = fl.hundredths 300;
    spike_min_count = pos 10;
    disappearance_factor = fl.hundredths 300;
    disappearance_min_count = pos 10;
    disappearance_scan_interval = pos (30 * second);
    disappearance_scope = scope_heartbeat;
    disappearance_min_silence = pos (5 * minute);
    disappearance_max_cv = fl.hundredths 50;
    min_template_literals = pos 0;
    max_placeholder_ratio = fl.hundredths 0;
    seasonality = seasonality_hourly;
    seasonal_min_observations = pos 50;
    markings = [];
    marking_patterns = [];
    max_templates = pos 2000;
  }

  -- `NewLogDetector`
  unfoldable pub new_log_detector : Option (LogConfig F) → LogDetector F
  unfolding copy_markings default_log_config
  new_log_detector given =
      let config : LogConfig F = elim given [ none ↦ default_log_config | some c ↦ c ] in
      record {
        config = config;
        markings = copy_markings [] config.markings;
        patterns = copy_markings [] config.marking_patterns;
        sources = [];
      }
