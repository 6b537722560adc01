-- ===== src/Detect/Log/Detecting.antt =====
-- internal/core/detect/log.go: `Detect`.
pub mod Learning
pub mod Cap
pub mod Going
pub mod Quiet
use tezcatl.Base.{
  ℕ, ◌+◌, Bool, true, false, Option, none, some, List, [], ◌∷◌, ◌++◌, Bytes, bytes_eq, codes, itoa,
  replicate, is_empty, leb, ◌&&◌, ◌||◌, not, same_bytes, ◌>>=◌, if◌then◌else◌,
}
use tezcatl.Base.Assoc.{Map, lookup, insert}
use tezcatl.Base.Ints.{ℤ, pos, leb_ℤ, ltb_ℤ, Time, sub}
use tezcatl.Model.{
  Floats, Signal, Observation, Modality, LogRecord, log, metric, change, trace, unnamed, text_at,
}
use tezcatl.Detect.Log.{
  Marking, normal, ignore, symptomatic, heartbeat, other, LogConfig, TemplateStats, SourceState,
  LogDetector,
}
use tezcatl.Detect.Log.Markings.{marking_for}
use tezcatl.Detect.Room.{make_room}
use tezcatl.Detect.Log.Stats.{
  bump, seasonal, fold_interval, roll_bucket, truncate_time, spike_baseline, still_rare,
}
use tezcatl.Detect.Log.Shape.{informative}
use tezcatl.Detect.Log.Scan.{is_muted, scan_missing}

abbrev pub is_log : Modality → Bool
is_log log = true
is_log metric = false
is_log change = false
is_log trace = false
is_log (unnamed text) = false

abbrev pub is_symptomatic : Marking → Bool
is_symptomatic normal = false
is_symptomatic ignore = false
is_symptomatic symptomatic = true
is_symptomatic heartbeat = false
is_symptomatic (other text) = false

module _ {F : Type 0} ⦃fl : Floats F⦄ where
  -- the state of a source seen for the first time
  unfoldable pub new_source : Time → SourceState F
  new_source at = record {
    first_seen = at;
    total = 0;
    templates = [];
    last_scan = 0;
    hourly_seen = replicate 24 0;
  }

  -- the statistics of a template seen for the first time
  unfoldable pub new_stats : LogConfig F → Time → TemplateStats F
  unfolding truncate_time
  new_stats c at = record {
    template = [];
    count = 0;
    last_seen = at;
    mean_interval = fl.hundredths 0;
    interval_variance = fl.hundredths 0;
    interval_samples = 0;
    bucket_start = truncate_time at c.spike_bucket;
    bucket_count = 0;
    bucket_baseline = fl.hundredths 0;
    spike_signaled = false;
    missing_signaled = false;
    hourly_counts = replicate 24 0;
    hourly_baseline = replicate 24 (fl.hundredths 0);
    hourly_folded = replicate 24 0;
  }

  -- the closure `newSignal`
  unfoldable pub new_signal :
      Observation F → LogRecord → Bytes → F → Bytes → Map Bytes Bytes → Signal F
  unfolding insert
  new_signal obs record_of kind score summary attributes = record {
    kind = kind;
    modality = log;
    source = obs.source;
    timestamp = obs.timestamp;
    score = score;
    summary = summary;
    attributes = insert (codes "observation_id") obs.id (
        insert (codes "template") record_of.template
          (insert (codes "template_id") record_of.template_id attributes));
  }

  unfoldable pub symptomatic_signals : Observation F → LogRecord → Marking → List (Signal F)
  unfolding new_signal
  symptomatic_signals obs r marking =
      if is_symptomatic marking
      then new_signal obs r (codes "log.symptomatic_template") (fl.hundredths 90)
          (codes "symptomatic template observed: " ++ r.template) []
        ∷ []
      else []

  -- a template that is new, or else one that is rare
  unfoldable pub shape_signals :
      LogConfig F → Observation F → LogRecord → Bool → ℕ → TemplateStats F → List (Signal F)
  unfolding new_signal still_rare
  shape_signals c obs r worth total s =
      if worth
        && same_bytes (text_at (codes "drain.change_type") obs.attributes) (codes "cluster_created")
      then new_signal obs r (codes "log.new_template") (fl.hundredths 80)
          (codes "new log template after learning period: " ++ r.template) []
        ∷ []
      else (if worth
            && leb_ℤ (pos s.count) c.rare_threshold
            && leb_ℤ c.rare_min_observations (pos total)
            && still_rare c s
          then new_signal obs r (codes "log.rare_template") (fl.hundredths 60)
              (codes "rare log template ("
                ++ itoa s.count
                ++ codes "/"
                ++ itoa total
                ++ codes " observations): "
                ++ r.template)
              ((codes "count", itoa s.count)
                ∷ (codes "total", itoa total)
                ∷ (codes "mean_interval_s", fl.fixed 1 s.mean_interval)
                ∷ [])
            ∷ []
          else [])

  -- the condition of a frequency spike
  unfoldable pub is_spike : LogConfig F → Bool → F → TemplateStats F → Bool
  is_spike c worth baseline s =
      let threshold = fl.larger (fl.of_int c.spike_min_count) (fl.mul baseline c.spike_factor) in
      worth
      && not s.spike_signaled
      && fl.lt (fl.hundredths 0) baseline
      && fl.le threshold (fl.of_int (pos s.bucket_count))

  unfoldable pub spike_signal : Observation F → LogRecord → F → TemplateStats F → Signal F
  unfolding new_signal
  spike_signal obs r baseline s =
      new_signal obs r (codes "log.frequency_spike") (fl.hundredths 70)
        (codes "frequency spike for template ("
          ++ itoa s.bucket_count
          ++ codes " in current bucket, baseline "
          ++ fl.fixed 1 baseline
          ++ codes "): "
          ++ r.template)
        ((codes "bucket_count", itoa s.bucket_count) ∷ (codes "baseline", fl.fixed 2 baseline) ∷ [])

  -- the source with room for the template, and the statistics that the template starts from
  unfoldable pub enter :
      LogConfig F → Observation F → LogRecord → SourceState F → SourceState F × TemplateStats F
  unfolding lookup make_room new_stats
  enter c obs r state = elim (lookup r.template_id state.templates) [
    | some s ↦ (state, s)
    | none ↦ (
      record state { templates = make_room (λ s. s.last_seen) c.max_templates state.templates },
      new_stats c obs.timestamp,
    )
  ]

  -- the source that an observation belongs to
  unfoldable pub source_of : Observation F → LogDetector F → SourceState F
  unfolding lookup new_source
  source_of obs d = elim (lookup obs.source d.sources) [
    | none ↦ new_source obs.timestamp
    | some state ↦ state
  ]

  unfoldable pub store_source :
      LogDetector F
      → Observation F
      → SourceState F × List (Signal F)
      → LogDetector F × List (Signal F)
  unfolding insert
  store_source d obs (state, signals) =
      (record d { sources = insert obs.source state d.sources }, signals)

  -- past the learning period, of a template that says enough
  unfoldable pub is_worth : LogDetector F → Observation F → LogRecord → SourceState F → Bool
  unfolding informative
  is_worth d obs r state =
      not (ltb_ℤ (sub obs.timestamp state.first_seen) d.config.learning_period)
      && informative d.config r.template

  -- `stats.SpikeSignaled = true`
  unfoldable pub mark_spike : Bool → LogRecord → TemplateStats F → SourceState F → SourceState F
  unfolding insert
  mark_spike spike r s state =
      if spike
      then record state {
        templates = insert r.template_id (record s { spike_signaled = true }) state.templates;
      }
      else state

  module _ (hour_of : Time → ℕ) where
    -- the statistics before the bucket is rolled
    unfoldable pub count_in :
        LogConfig F → Observation F → LogRecord → TemplateStats F → TemplateStats F
    unfolding fold_interval bump seasonal
    count_in c obs r s =
        let timed = fold_interval obs.timestamp (record s { template = r.template }) in
        record timed {
          count = timed.count + 1;
          last_seen = obs.timestamp;
          missing_signaled = false;
          hourly_counts =
              if seasonal c
              then bump (hour_of obs.timestamp) timed.hourly_counts
              else timed.hourly_counts;
        }

    -- What an observation adds to the statistics of its template; `none` is a panic of `rollBucket`.
    unfoldable pub learn_stats :
        LogConfig F → Observation F → LogRecord → TemplateStats F → Option (TemplateStats F)
    unfolding count_in roll_bucket
    learn_stats c obs r s = do
      rolled ← roll_bucket hour_of c obs.timestamp (count_in c obs r s)
      some (record rolled { bucket_count = rolled.bucket_count + 1 })

    -- the statistics learned and written back, with the hour of the source
    unfoldable pub learn_from :
        LogConfig F
        → Observation F
        → LogRecord
        → SourceState F × TemplateStats F
        → Option (SourceState F × TemplateStats F)
    unfolding learn_stats insert
    learn_from c obs r (roomy, start) = do
      s ← learn_stats c obs r start
      some (
        record roomy {
          templates = insert r.template_id s roomy.templates;
          hourly_seen =
              if seasonal c
              then bump (hour_of obs.timestamp) roomy.hourly_seen
              else roomy.hourly_seen;
        },
        s,
      )

    -- The first half of `Detect`, on the state of the source: everything that is learned.
    unfoldable pub learn :
        LogConfig F
        → Observation F
        → LogRecord
        → SourceState F
        → Option (SourceState F × TemplateStats F)
    unfolding enter learn_from
    learn c obs r state =
        learn_from c obs r (enter c obs r (record state { total = state.total + 1 }))

    -- whether the observation makes a frequency spike
    unfoldable pub spikes :
        LogDetector F → Observation F → LogRecord → SourceState F → TemplateStats F → Bool
    unfolding is_worth is_spike spike_baseline
    spikes d obs r state s =
        is_spike d.config (is_worth d obs r state) (spike_baseline hour_of d.config obs.timestamp s)
          s

    unfoldable pub spike_signals :
        LogDetector F → Observation F → LogRecord → Bool → TemplateStats F → List (Signal F)
    unfolding spike_signal spike_baseline
    spike_signals d obs r spike s =
        if spike
        then spike_signal obs r (spike_baseline hour_of d.config obs.timestamp s) s ∷ []
        else []

    -- The second half: the signals of the template that was seen and the scan for the missing ones.
    unfoldable pub report :
        LogDetector F
        → Observation F
        → LogRecord
        → Marking
        → SourceState F
        → TemplateStats F
        → SourceState F × List (Signal F)
    unfolding symptomatic_signals shape_signals spikes mark_spike spike_signals scan_missing
    report d obs r marking state s =
        let worth = is_worth d obs r state in
        let spike = spikes d obs r state s in
        let (scanned, missing) =
          scan_missing hour_of d obs.timestamp obs.source (mark_spike spike r s state) in
        (
          scanned,
          symptomatic_signals obs r marking
              ++ (shape_signals d.config obs r worth state.total s
                  ++ (spike_signals d obs r spike s ++ missing)),
        )

    -- The marking decides whether the observation is reported after it is learned.
    unfoldable pub settle :
        LogDetector F
        → Observation F
        → LogRecord
        → SourceState F × TemplateStats F
        → SourceState F × List (Signal F)
    unfolding marking_for report
    settle d obs r (state, s) =
        let marking = marking_for r.template d in
        if is_muted marking then (state, []) else report d obs r marking state s

    -- `Detect` past its first guard
    unfoldable pub detect_record :
        Observation F → LogRecord → LogDetector F → Option (LogDetector F × List (Signal F))
    unfolding source_of learn settle store_source
    detect_record obs r d = do
      learned ← learn d.config obs r (source_of obs d)
      some (store_source d obs (settle d obs r learned))

    -- `Detect`; `none` is a panic
    unfoldable pub detect : Observation F → LogDetector F → Option (LogDetector F × List (Signal F))
    unfolding detect_record
    detect obs d = elim obs.log [
      | none ↦ some (d, [])
      | some r ↦
          if is_log obs.modality && not (is_empty r.template_id)
          then detect_record obs r d
          else some (d, [])
    ]
