-- ===== src/Detect/Log/Detecting/Quiet.antt =====
-- internal/core/detect/log.go: when `Detect` learns without a signal.
use tezcatl.Base.{
  ℕ, ◌+◌, ◌≡◌, refl, sym, subst, ap, ◌∙◌, ◌⊎◌, inl, inr, Bool, true, false, Option-cases, some,
  some-cancel, List, [], ◌∷◌, Bytes, bytes_eq, codes, is_empty, ◌&&◌, ◌||◌, not, >>=-eq-some,
  either_branch, All, All-append,
}
use tezcatl.Base.Assoc.{Map, lookup, lookup-insert_self}
use tezcatl.Base.Ints.{Time, sub, ltb_ℤ}
use tezcatl.Model.{Floats, Signal, Observation, LogRecord}
use tezcatl.Detect.Log.{Marking, LogConfig, TemplateStats, SourceState, LogDetector}
use tezcatl.Detect.Log.Markings.{marking_for}
use tezcatl.Detect.Log.Scan.{is_muted, is_missing, missing_signal, scan_templates, scan_missing}
use tezcatl.Detect.Log.Shape.{informative}
use tezcatl.Detect.Log.Detecting.Learning.{StartsFrom, Relearned, learn-Relearned}
use tezcatl.Detect.Log.Detecting.{
  is_log, is_symptomatic, new_signal, learn_stats, learn_from, learn, enter, symptomatic_signals,
  shape_signals, is_spike, is_worth, spikes, mark_spike, spike_signals, report, settle,
  store_source, source_of, detect_record, detect,
}

-- a signal of neither the shape nor the frequency of a template
abbrev pub ShapeFree : {F : Type 0} → Signal F → Type 0
ShapeFree s = (s.kind ≡ codes "log.symptomatic_template") ⊎ (s.kind ≡ codes "log.missing_template")

-- where the guards of `Detect` let an observation pass
abbrev pub passes : {F : Type 0} → Observation F → LogRecord → Bool
passes obs r = is_log obs.modality && not (is_empty r.template_id)

module _ {F : Type 0} ⦃fl : Floats F⦄ where
  enter_keeps :
      (c : LogConfig F) (obs : Observation F) (r : LogRecord) (state : SourceState F)
      → ((enter c obs r state).0.first_seen ≡ state.first_seen)
        × ((enter c obs r state).0.total ≡ state.total)
  unfolding enter
  enter_keeps c obs r state = elim (Option-cases (lookup r.template_id state.templates)) [
    | inl absent ↦ rw (enter, absent) (refl, refl)
    | inr (s, there) ↦ rw (enter, there) (refl, refl)
  ]

  no_shape_signals :
      (c : LogConfig F) (obs : Observation F) (r : LogRecord) (total : ℕ) (s : TemplateStats F)
      → shape_signals c obs r false total s ≡ []
  unfolding shape_signals
  no_shape_signals c obs r total s = refl

  symptomatic_signals-ShapeFree :
      (obs : Observation F) (r : LogRecord) (marking : Marking)
      → All ShapeFree (symptomatic_signals obs r marking)
  unfolding symptomatic_signals new_signal
  symptomatic_signals-ShapeFree obs r marking =
      either_branch (All ShapeFree) (is_symptomatic marking) (inl refl, tt) tt

  module _ (hour_of : Time → ℕ) where
    learn_keeps :
        (c : LogConfig F) (obs : Observation F) (r : LogRecord) (state : SourceState F)
        (out : SourceState F × TemplateStats F)
        → learn hour_of c obs r state ≡ some out
        → (out.0.first_seen ≡ state.first_seen) × (out.0.total ≡ state.total + 1)
    unfolding learn learn_from
    learn_keeps c obs r state out run =
        let counted : SourceState F = record state { total = state.total + 1 } in
        let roomy = enter c obs r counted in
        let (s, learned, e) = >>=-eq-some (learn_stats hour_of c obs r roomy.1) _ run in
        subst
          (λ (o : SourceState F × TemplateStats F).
            (o.0.first_seen ≡ state.first_seen) × (o.0.total ≡ state.total + 1))
          (some-cancel e) (enter_keeps c obs r counted)

    scan_templates-ShapeFree :
        (d : LogDetector F) (h : List ℕ) (at : Time) (source : Bytes)
        (m : Map Bytes (TemplateStats F))
        → All ShapeFree (scan_templates hour_of d h at source m).1
    unfolding scan_templates missing_signal
    scan_templates-ShapeFree d h at source [] = tt
    scan_templates-ShapeFree d h at source ((id, s) ∷ m) =
        let rest = scan_templates-ShapeFree d h at source m in
        either_branch (λ (o : Map Bytes (TemplateStats F) × List (Signal F)). All ShapeFree o.1)
          (is_missing hour_of d h at s) (inr refl, rest) rest

    scan_missing-ShapeFree :
        (d : LogDetector F) (at : Time) (source : Bytes) (state : SourceState F)
        → All ShapeFree (scan_missing hour_of d at source state).1
    unfolding scan_missing
    scan_missing-ShapeFree d at source state =
        either_branch (λ (o : SourceState F × List (Signal F)). All ShapeFree o.1)
          (fl.le d.config.disappearance_factor (fl.hundredths 0)
            || ltb_ℤ (sub at state.last_scan) d.config.disappearance_scan_interval)
          tt (scan_templates-ShapeFree d state.hourly_seen at source state.templates)

    no_spike :
        (d : LogDetector F) (obs : Observation F) (r : LogRecord) (state : SourceState F)
        (s : TemplateStats F)
        → is_worth d obs r state ≡ false
        → spikes hour_of d obs r state s ≡ false
    unfolding spikes is_spike
    no_spike d obs r state s idle = rw (spikes, is_spike, idle) refl

    report-ShapeFree :
        (d : LogDetector F) (obs : Observation F) (r : LogRecord) (marking : Marking)
        (state : SourceState F) (s : TemplateStats F)
        → is_worth d obs r state ≡ false
        → All ShapeFree (report hour_of d obs r marking state s).1
    unfolding report spike_signals
    report-ShapeFree d obs r marking state s idle =
        All-append ShapeFree (symptomatic_signals obs r marking) _
          (symptomatic_signals-ShapeFree obs r marking)
          (All-append ShapeFree
            (shape_signals d.config obs r (is_worth d obs r state) state.total s) _
            (subst (λ b. All ShapeFree (shape_signals d.config obs r b state.total s)) (sym idle)
              (subst (All ShapeFree) (sym (no_shape_signals d.config obs r state.total s)) tt))
            (All-append ShapeFree (spike_signals hour_of d obs r (spikes hour_of d obs r state s) s)
              _
              (subst (λ b. All ShapeFree (spike_signals hour_of d obs r b s))
                (sym (no_spike d obs r state s idle)) tt)
              (scan_missing-ShapeFree d obs.timestamp obs.source
                (mark_spike (spikes hour_of d obs r state s) r s state))))

    pub detect_passed :
        (obs : Observation F) (r : LogRecord) (d : LogDetector F)
        (out : LogDetector F × List (Signal F))
        → obs.log ≡ some r
        → passes obs r ≡ true
        → detect hour_of obs d ≡ some out
        → (l : SourceState F × TemplateStats F) × (learn hour_of d.config obs r (source_of obs d)
            ≡ some l)
          × (store_source d obs (settle hour_of d obs r l) ≡ out)
    unfolding detect detect_record
    detect_passed obs r d out there past run =
        let (l, learned, e) =
          >>=-eq-some (learn hour_of d.config obs r (source_of obs d)) _
            (rw (detect, there, past) at run) in
        (l, learned, some-cancel e)

    -- A template marked normal or ignored gives no signal and is learned all the same: the source that
    -- is stored keeps when it was first seen and has one observation more, and holds the template with
    -- its text and its statistics one sighting further than they were, or than none for a template that
    -- was not there: the count is one higher, it was last seen now, it is no longer reported missing,
    -- and the interval since the last sighting is folded into the mean and the variance.
    pub detect-muted :
        (obs : Observation F) (r : LogRecord) (d : LogDetector F)
        (out : LogDetector F × List (Signal F))
        → obs.log ≡ some r
        → passes obs r ≡ true
        → is_muted (marking_for r.template d) ≡ true
        → detect hour_of obs d ≡ some out
        → (out.1 ≡ [])
          × (state : SourceState F) × (lookup obs.source out.0.sources ≡ some state)
          × (state.first_seen ≡ (source_of obs d).first_seen)
          × (state.total ≡ (source_of obs d).total + 1)
          × (start : TemplateStats F) × StartsFrom r (source_of obs d) start
          × (s : TemplateStats F) × (lookup r.template_id state.templates ≡ some s)
          × Relearned obs r start s
    unfolding store_source settle
    detect-muted obs r d out there past muted run =
        let (l, learned, e) = detect_passed obs r d out there past run in
        let quiet : settle hour_of d obs r l ≡ (l.0, []) = rw (settle, muted) refl in
        let stored : store_source d obs (l.0, []) ≡ out = ap (store_source d obs) (sym quiet) ∙ e in
        let kept = learn_keeps d.config obs r (source_of obs d) l learned in
        let (start, from, held, relearned) =
          learn-Relearned hour_of d.config obs r (source_of obs d) l learned in
        (
          sym (ap (λ (o : LogDetector F × List (Signal F)). o.1) stored),
          l.0,
          subst (λ (o : LogDetector F × List (Signal F)). lookup obs.source o.0.sources ≡ some l.0)
              stored (lookup-insert_self obs.source l.0 d.sources),
          kept.0,
          kept.1,
          start,
          from,
          l.1,
          held,
          relearned,
        )

    -- Within the learning period of its source, and for a template that says too little at any time,
    -- an observation never gives a signal of a new or rare template or of a frequency spike: only its
    -- marking or the silence of a template can.
    pub detect-learning :
        (obs : Observation F) (r : LogRecord) (d : LogDetector F)
        (out : LogDetector F × List (Signal F))
        → obs.log ≡ some r
        → passes obs r ≡ true
        → (ltb_ℤ (sub obs.timestamp (source_of obs d).first_seen) d.config.learning_period ≡ true)
          ⊎ (informative d.config r.template ≡ false)
        → detect hour_of obs d ≡ some out
        → All ShapeFree out.1
    unfolding store_source settle is_worth
    detect-learning obs r d out there past early run =
        let (l, learned, e) = detect_passed obs r d out there past run in
        let same = (learn_keeps d.config obs r (source_of obs d) l learned).0 in
        let idle : is_worth d obs r l.0 ≡ false = elim early [
          | inl learning ↦ rw (is_worth, same, learning) refl
          | inr vague ↦
              rw (is_worth, vague)
                (and_false
                  (not (ltb_ℤ (sub obs.timestamp l.0.first_seen) d.config.learning_period)))
        ] in
        subst (λ (o : LogDetector F × List (Signal F)). All ShapeFree o.1) e
          (either_branch (λ (o : SourceState F × List (Signal F)). All ShapeFree o.1)
            (is_muted (marking_for r.template d)) tt
            (report-ShapeFree d obs r (marking_for r.template d) l.0 l.1 idle))
      where
        and_false : (b : Bool) → (b && false) ≡ false
        and_false true = refl
        and_false false = refl
