-- ===== src/Detect/Log/Scan.antt =====
-- internal/core/detect/log.go: `scanMissing`.
pub mod Once
use tezcatl.Base.{
  ℕ, zero, suc, ◌+◌, Bool, true, false, Option, none, some, List, [], ◌∷◌, ◌++◌, Bytes, bytes_eq,
  codes, get_or, ltb, ◌==◌, ◌&&◌, ◌||◌, not, same_bytes, if◌then◌else◌,
}
use tezcatl.Base.Assoc.{Map}
use tezcatl.Base.Ints.{ℤ, pos, leb_ℤ, ltb_ℤ, Time, sub}
use tezcatl.Humanize.{say_seconds}
use tezcatl.Model.{Floats, Signal, log}
use tezcatl.Detect.Log.{
  Marking, normal, ignore, symptomatic, heartbeat, other, marking_text, scope_all, LogConfig,
  TemplateStats, SourceState, LogDetector,
}
use tezcatl.Detect.Log.Markings.{marking_for}
use tezcatl.Detect.Log.Stats.{seasonal, interval_cv}

-- `marking == MarkingIgnore || marking == MarkingNormal`
abbrev pub is_muted : Marking → Bool
is_muted normal = true
is_muted ignore = true
is_muted symptomatic = false
is_muted heartbeat = false
is_muted (other text) = false

abbrev pub is_heartbeat : Marking → Bool
is_heartbeat normal = false
is_heartbeat ignore = false
is_heartbeat symptomatic = false
is_heartbeat heartbeat = true
is_heartbeat (other text) = false

module _ {F : Type 0} ⦃fl : Floats F⦄ where
  -- The template has not been reported, and it has come back often enough to have an interval.
  unfoldable pub is_established : LogConfig F → TemplateStats F → Bool
  is_established c s =
      not s.missing_signaled
      && not (ltb_ℤ (pos s.count) c.disappearance_min_count)
      && not (fl.le s.mean_interval (fl.hundredths 0))

  -- The marking and the scope of the disappearances ask for the template.
  unfoldable pub is_asked_for : LogConfig F → Marking → Bool
  is_asked_for c marking =
      not (is_muted marking) && (is_heartbeat marking || same_bytes c.disappearance_scope scope_all)

  -- The intervals cluster around their mean.
  unfoldable pub is_regular : LogConfig F → TemplateStats F → Bool
  unfolding interval_cv
  is_regular c s =
      if fl.lt (fl.hundredths 0) c.disappearance_max_cv
      then elim (interval_cv s) [ none ↦ false | some cv ↦ not (fl.lt c.disappearance_max_cv cv) ]
      else true

  abbrev pub silence_of : Time → TemplateStats F → F
  silence_of at s = fl.seconds (sub at s.last_seen)

  -- The silence is longer than the factor, the floor and the distance of two scans allow.
  unfoldable pub is_overdue : LogConfig F → Time → TemplateStats F → Bool
  is_overdue c at s =
      let by_factor = fl.mul c.disappearance_factor s.mean_interval in
      let floor = fl.seconds c.disappearance_min_silence in
      let overdue = if fl.lt by_factor floor then floor else by_factor in
      fl.lt overdue (silence_of at s)
      && fl.lt (fl.seconds c.disappearance_scan_interval) (silence_of at s)

  -- the signal of a missing template
  unfoldable pub missing_signal : Bytes → Time → Marking → Bytes → TemplateStats F → Signal F
  unfolding interval_cv marking_text say_seconds
  missing_signal source at marking id s =
      let silence = silence_of at s in
      let cv : F = elim (interval_cv s) [ none ↦ fl.hundredths 0 | some v ↦ v ] in
      record {
        kind = codes "log.missing_template";
        modality = log;
        source = source;
        timestamp = at;
        score = if is_heartbeat marking then fl.hundredths 90 else fl.hundredths 60;
        summary =
            codes "expected log template not seen for "
            ++ say_seconds F silence
            ++ codes " (mean interval "
            ++ say_seconds F s.mean_interval
            ++ codes "): "
            ++ s.template;
        attributes =
            (codes "template_id", id)
            ∷ (codes "template", s.template)
            ∷ (codes "silence_s", fl.fixed 0 silence)
            ∷ (codes "mean_interval_s", fl.fixed 1 s.mean_interval)
            ∷ (codes "interval_cv", fl.fixed 2 cv)
            ∷ (codes "marking", marking_text marking)
            ∷ [];
      }

  module _ (hour_of : Time → ℕ) where
    -- The hour is not one at which the source is active and the template has never been seen.
    unfoldable pub is_in_season : LogConfig F → List ℕ → Time → TemplateStats F → Bool
    unfolding seasonal
    is_in_season c hourly_seen at s =
        if seasonal c
        then not (
            (get_or s.hourly_counts (hour_of at) 0 == 0)
            && leb_ℤ c.seasonal_min_observations (pos (get_or hourly_seen (hour_of at) 0)))
        else true

    -- whether the scan reports a template
    unfoldable pub is_missing : LogDetector F → List ℕ → Time → TemplateStats F → Bool
    unfolding is_established is_asked_for is_in_season is_regular is_overdue marking_for
    is_missing d hourly_seen at s =
        is_established d.config s
        && is_asked_for d.config (marking_for s.template d)
        && is_in_season d.config hourly_seen at s
        && is_regular d.config s
        && is_overdue d.config at s

    -- the loop of `scanMissing`: the templates after it, and the signals
    unfoldable pub scan_templates :
        LogDetector F
        → List ℕ
        → Time
        → Bytes
        → Map Bytes (TemplateStats F)
        → Map Bytes (TemplateStats F) × List (Signal F)
    unfolding is_missing missing_signal
    scan_templates d hourly_seen at source [] = ([], [])
    scan_templates d hourly_seen at source ((id, s) ∷ m) =
        let (rest, signals) = scan_templates d hourly_seen at source m in
        if is_missing d hourly_seen at s
        then (
          (id, record s { missing_signaled = true }) ∷ rest,
          missing_signal source at (marking_for s.template d) id s ∷ signals,
        )
        else ((id, s) ∷ rest, signals)

    -- `scanMissing`
    unfoldable pub scan_missing :
        LogDetector F → Time → Bytes → SourceState F → SourceState F × List (Signal F)
    unfolding scan_templates
    scan_missing d at source state =
        if fl.le d.config.disappearance_factor (fl.hundredths 0)
          || ltb_ℤ (sub at state.last_scan) d.config.disappearance_scan_interval
        then (state, [])
        else (let (templates, signals) =
              scan_templates d state.hourly_seen at source state.templates in
            (record state { last_scan = at; templates = templates }, signals))
