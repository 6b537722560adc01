-- ===== src/Tests/Detecting.antt =====
-- internal/core/detect and internal/core/humanize on concrete inputs.
use tezcatl.Base.{
  Option, ℕ, ◌+◌, ◌*◌, ◌/◌, ◌%◌, ◌≤◌, ◌<◌, ◌≡◌, ◌≢◌, refl, ap, sym, ◌∙◌, ◌↔◌, ◌⊎◌, inl, inr, Bool,
  true, false, none, some, List, [], ◌∷◌, Bytes, bytes_eq, same_bytes, same_bytes_iff, Bool-cases,
  codes, arith, All,
}
use tezcatl.Base.Assoc.{Map, lookup}
use tezcatl.Base.Ints.{pos, pos_part, Time, hour, minute}
use tezcatl.Detect.Glob.{glob_match, scan, enough_for, only_stars}
use tezcatl.Detect.Glob.Ending.{glob_match_lem}
use tezcatl.Detect.Glob.Language.{Matches}
use tezcatl.Detect.Log.{
  Marking, ignore, symptomatic, LogConfig, LogDetector, SourceState, TemplateStats,
  default_log_config, new_log_detector,
}
use tezcatl.Detect.Log.Markings.{Best, marking_of, marking_for}
use tezcatl.Detect.Log.Markings.Choice.{Chosen, marking_for_lem, marking_for_order}
use tezcatl.Detect.Log.Scan.{scan_templates}
use tezcatl.Detect.Log.Scan.Once.{unreported, scan_templates-once}
use tezcatl.Detect.Log.Detecting.{new_stats, new_source, source_of}
use tezcatl.Detect.Log.Detecting.Cap.{watch, AllCapped, watch-Capped}
use tezcatl.Detect.Log.Detecting.Going.{watch-going, detect-Kept}
use tezcatl.Detect.Log.Detecting.Learning.{StartsFrom, Relearned}
use tezcatl.Detect.Log.Detecting.Quiet.{ShapeFree, detect-muted, detect-learning}
use tezcatl.Detect.Metric.{MetricStats, MetricDetector, default_metric_config, new_metric_detector}
use tezcatl.Detect.Metric.Detecting.{no_stats, detect_metric, enter_series}
use tezcatl.Detect.Metric.Detecting.Bounds.{AllWithin, follow, follow-Within}
use tezcatl.Detect.Metric.Detecting.Quiet.{Crossing, detect_metric-quiet}
use tezcatl.Detect.Metric.Series.{sweep, series_key}
use tezcatl.Detect.Metric.Baseline.{is_recurring, recurring_days}
use tezcatl.Humanize.{say_duration, two_units, round_to, round_to_scale, scale_of}
use tezcatl.Humanize.Reading.{Units, big_letter, small_letter, big, small, read_text}
use tezcatl.Humanize.Units.{Rounded, spoken_lem}
use tezcatl.Model.{MetricSample, metric, LogRecord, Observation, Signal, zero_observation, log}
use tezcatl.Tests.Samples.{nat_floats}

glob_match_lem_example :
    (b : Bool) × (glob_match (codes "a*b*c") (codes "a-bb-c") ≡ some b)
    × ((b ≡ true) ↔ Matches (codes "a*b*c") (codes "a-bb-c"))
glob_match_lem_example = glob_match_lem (codes "a*b*c") (codes "a-bb-c")

glob_match_runs : glob_match (codes "a*b*c") (codes "a-bb-c") ≡ some true
unfolding glob_match scan enough_for only_stars
glob_match_runs = refl

glob_match_fails : glob_match (codes "<*> failed") (codes "<NUM> failed twice") ≡ some false
unfolding glob_match scan enough_for only_stars
glob_match_fails = refl

abbrev hour_of_day : Time → ℕ
hour_of_day t = t / hour % 24

-- two patterns that overlap, in both orders
abbrev patterns : Map Bytes Marking
patterns = (codes "job *", ignore) ∷ (codes "job * failed", symptomatic) ∷ []

abbrev swapped : Map Bytes Marking
swapped = (codes "job * failed", symptomatic) ∷ (codes "job *", ignore) ∷ []

abbrev narrow : LogConfig ℕ
narrow = record default_log_config {
  max_templates = pos 1;
  markings = [];
  marking_patterns = patterns;
}

abbrev mined : LogRecord
mined = record {
  raw = codes "job 7 failed";
  message = codes "job 7 failed";
  level = [];
  template_id = codes "3";
  template = codes "job <NUM> failed";
  parameters = codes "7" ∷ [];
}

abbrev seen_at : Time → Observation ℕ
seen_at t = record zero_observation {
  source = codes "prod/app";
  modality = log;
  timestamp = t;
  log = some mined;
}

wide : narrow.spike_bucket ≢ pos 0
unfolding default_log_config
wide e = absurd (let f = ap pos_part e in omega (arith, f))

watch-going_example :
    (d : LogDetector ℕ) × (watch hour_of_day
        (seen_at minute ∷ seen_at hour ∷ [])
        (new_log_detector (some narrow))
      ≡ some d)
watch-going_example = watch-going hour_of_day narrow (seen_at minute ∷ seen_at hour ∷ []) wide

abbrev watched : LogDetector ℕ
watched = (watch-going hour_of_day narrow (seen_at minute ∷ seen_at hour ∷ []) wide).0

watch-Capped_example : AllCapped watched
watch-Capped_example =
    watch-Capped hour_of_day (some narrow) (seen_at minute ∷ seen_at hour ∷ []) watched
      (watch-going hour_of_day narrow (seen_at minute ∷ seen_at hour ∷ []) wide).1

abbrev fresh : LogDetector ℕ
fresh = record {
  config = narrow;
  markings = (codes "job <NUM> failed", ignore) ∷ [];
  patterns = patterns;
  sources = [];
}

abbrev after : LogDetector ℕ × List (Signal ℕ)
after = (detect-Kept hour_of_day (seen_at minute) fresh wide).0

detect-muted_example :
    (after.1 ≡ [])
    × (state : SourceState ℕ) × (lookup (codes "prod/app") after.0.sources ≡ some state)
    × (state.first_seen ≡ (source_of (seen_at minute) fresh).first_seen)
    × (state.total ≡ (source_of (seen_at minute) fresh).total + 1)
    × (start : TemplateStats ℕ) × StartsFrom mined (source_of (seen_at minute) fresh) start
    × (s : TemplateStats ℕ) × (lookup mined.template_id state.templates ≡ some s)
    × Relearned (seen_at minute) mined start s
unfolding marking_for lookup same_bytes
detect-muted_example =
    detect-muted hour_of_day (seen_at minute) mined fresh after refl refl refl
      (detect-Kept hour_of_day (seen_at minute) fresh wide).1

abbrev unmarked : LogDetector ℕ
unmarked = record fresh { markings = []; patterns = [] }

abbrev learned : LogDetector ℕ × List (Signal ℕ)
learned = (detect-Kept hour_of_day (seen_at minute) unmarked wide).0

detect-learning_example : All ShapeFree learned.1
unfolding source_of lookup new_source default_log_config
detect-learning_example =
    detect-learning hour_of_day (seen_at minute) mined unmarked learned refl refl (inl refl)
      (detect-Kept hour_of_day (seen_at minute) unmarked wide).1

marking_for_lem_example :
    (lookup (codes "job 7") unmarked.markings
      ≡ some (marking_for (codes "job 7") (record unmarked { patterns = patterns })))
    ⊎ ((lookup (codes "job 7") unmarked.markings ≡ none)
        × (r : Best) × Chosen (codes "job 7") patterns r
        × (marking_for (codes "job 7") (record unmarked { patterns = patterns }) ≡ marking_of r))
unfolding lookup same_bytes
marking_for_lem_example =
    marking_for_lem (codes "job 7") (record unmarked { patterns = patterns }) (refl, (refl, tt))

same_patterns : (k : Bytes) → lookup k patterns ≡ lookup k swapped
unfolding lookup
same_patterns k = elim (Bool-cases (same_bytes (codes "job *") k)) [
  | inr other ↦ rw (lookup, other) refl
  | inl first ↦ elim (Bool-cases (same_bytes (codes "job * failed") k)) [
    | inr other ↦ rw (lookup, first, other) refl
    | inl second ↦ absurd (
        let e : codes "job *" ≡ codes "job * failed" =
          (same_bytes_iff (codes "job *") k).0 first
          ∙ sym ((same_bytes_iff (codes "job * failed") k).0 second) in
        cc)
  ]
]

marking_for_order_example :
    marking_for (codes "job 7 failed") (record unmarked { patterns = patterns })
    ≡ marking_for (codes "job 7 failed") (record unmarked { patterns = swapped })
unfolding lookup same_bytes
marking_for_order_example =
    marking_for_order (codes "job 7 failed") (record unmarked { patterns = patterns })
      (record unmarked { patterns = swapped }) (refl, (refl, tt)) (refl, (refl, tt)) (λ k. refl)
      same_patterns

abbrev silent : Map Bytes (TemplateStats ℕ)
silent = (codes "3", record (new_stats narrow minute) { count = 40; mean_interval = 100 }) ∷ []

scan_templates-once_example :
    (scan_templates hour_of_day unmarked []
      (3 * hour)
      (codes "b")
      (scan_templates hour_of_day unmarked [] (2 * hour) (codes "a") silent).0).1
    ≡ (scan_templates hour_of_day unmarked []
        (3 * hour)
        (codes "b")
        (unreported hour_of_day unmarked [] (2 * hour) silent)).1
scan_templates-once_example =
    scan_templates-once hour_of_day unmarked unmarked [] [] (2 * hour) (3 * hour) (codes "a")
      (codes "b") silent

abbrev long_pause : ℕ
long_pause = 27 * minute + 47_700_000_000

spoken_lem_example :
    (read_text (say_duration ℕ (pos long_pause)) ≡ round_to_scale long_pause)
    × (u : Units) × (major : ℕ) × (minor : ℕ) × (say_duration ℕ (pos long_pause)
        ≡ two_units major (big_letter u ∷ []) minor (small_letter u ∷ []))
    × (minor * small u < big u)
    × (scale_of long_pause ≤ small u)
    × Rounded long_pause (scale_of long_pause) (round_to_scale long_pause)
unfolding round_to_scale scale_of round_to
spoken_lem_example = spoken_lem ℕ long_pause (omega arith)

long_pause_text : say_duration ℕ (pos long_pause) ≡ codes "27m 48s"
unfolding say_duration
long_pause_text = refl

abbrev no_glob : Bytes → Bytes → Option Bool
no_glob p v = some (same_bytes p v)

abbrev load : MetricSample ℕ
load = record { name = codes "load"; value = 900; labels = (codes "host", codes "a") ∷ [] }

abbrev loaded : Time → Observation ℕ
loaded t = record zero_observation {
  source = codes "prod/app";
  modality = metric;
  timestamp = t;
  metric = some load;
}

follow-Within_example : AllWithin (
    follow no_glob
      (loaded minute ∷ loaded hour ∷ [])
      (new_metric_detector (some (record default_metric_config { max_series = pos 1 }))))
follow-Within_example =
    follow-Within no_glob (some (record default_metric_config { max_series = pos 1 }))
      (loaded minute ∷ loaded hour ∷ [])

-- a deviation at the same hour of the day before and of the one before that
abbrev recurring : MetricStats ℕ
recurring = record no_stats {
  count = 40;
  last_seen = 47 * hour;
  deviations = hour ∷ 25 * hour ∷ [];
}

abbrev nightly : MetricDetector ℕ
nightly = record {
  config = default_metric_config;
  series = (codes "prod/app/load{host=a}", recurring) ∷ [];
  evicted = 0;
  expired = 0;
  last_sweep = 48 * hour;
  ignored = [];
}

detect_metric-quiet_example : All Crossing (detect_metric no_glob (loaded (49 * hour)) nightly).1
unfolding default_metric_config is_recurring same_bytes enter_series sweep series_key recurring_days
detect_metric-quiet_example =
    detect_metric-quiet no_glob (loaded (49 * hour)) load nightly refl refl (inr (inr refl))
