-- ===== src/Detect/Log/Detecting/Cap.antt =====
-- internal/core/detect/log.go: the number of templates that the detector keeps.
use tezcatl.Base.{
  ℕ, suc, ◌+◌, ◌≤◌, ◌<◌, ◌≡◌, refl, sym, subst, ap, ◌∙◌, inl, inr, true, Bool-cases, Option,
  Option-cases, some, some-cancel, List, [], ◌∷◌, Bytes, bytes_eq, same_bytes, length, is_empty,
  ◌&&◌, ◌||◌, not, arith, All, either_branch, ◌>>=◌, >>=-eq-some,
}
use tezcatl.Base.Assoc.{
  Map, lookup, insert, has, Distinct, insert-Distinct, length-insert_old, length-insert_new,
  lookup-insert_self,
}
use tezcatl.Base.Ints.{ℤ, pos_part, Time, sub, ltb_ℤ}
use tezcatl.Correlate.Soundness.{All-insert, All-lookup}
use tezcatl.Model.{Floats, Signal, Observation, LogRecord}
use tezcatl.Detect.Log.{
  Marking, LogConfig, TemplateStats, SourceState, LogDetector, new_log_detector,
}
use tezcatl.Detect.Log.Markings.{marking_for}
use tezcatl.Detect.Room.{make_room}
use tezcatl.Detect.Room.Oldest.{make_room-Distinct, make_room-lt}
use tezcatl.Detect.Log.Scan.{is_muted, is_missing, scan_templates, scan_missing}
use tezcatl.Detect.Log.Detecting.{
  is_log, new_source, enter, learn_stats, learn_from, learn, mark_spike, spikes, report, settle,
  store_source, source_of, detect_record, detect,
}

-- the templates of a source are distinct, and no more than the cap where there is one
pub record Capped {F : Type 0} (cap : ℤ) (m : Map Bytes (TemplateStats F)) : Type 0 where
  pub distinct : Distinct m
  pub bounded : 0 < pos_part cap → length m ≤ pos_part cap

module _ {ℓ} {V : Type ℓ} where
  pub length-insert-le :
      (k : Bytes) (v : V) (m : Map Bytes V) → length (insert k v m) ≤ suc (length m)
  length-insert-le k v m = elim (Option-cases (lookup k m)) [
    | inl absent ↦ omega (arith, length-insert_new k v m absent)
    | inr (w, there) ↦ omega (arith, length-insert_old k v w m there)
  ]

module _ {F : Type 0} where
  Capped-insert_old :
      (cap : ℤ) (k : Bytes) (s u : TemplateStats F) (m : Map Bytes (TemplateStats F))
      → lookup k m ≡ some u
      → Capped cap m
      → Capped cap (insert k s m)
  Capped-insert_old cap k s u m there h = record {
    distinct = insert-Distinct k s m h.distinct;
    bounded = λ some_cap. rw (length-insert_old k s u m there) (h.bounded some_cap);
  }

  Capped-insert_new :
      (cap : ℤ) (k : Bytes) (s : TemplateStats F) (m : Map Bytes (TemplateStats F))
      → Distinct m
      → Capped cap (insert k s (make_room (λ s. s.last_seen) cap m))
  Capped-insert_new cap k s m d = record {
    distinct =
        insert-Distinct k s (make_room (λ s. s.last_seen) cap m)
          (make_room-Distinct (λ s. s.last_seen) cap m d);
    bounded = λ some_cap. omega (
      arith,
      make_room-lt (λ s. s.last_seen) cap m some_cap,
      length-insert-le k s (make_room (λ s. s.last_seen) cap m),
    );
  }

-- every source keeps its templates within the cap
abbrev pub AllCapped : {F : Type 0} → LogDetector F → Type 0
AllCapped d = All (λ e. Capped d.config.max_templates e.1.templates) d.sources

module _ {F : Type 0} ⦃fl : Floats F⦄ (hour_of : Time → ℕ) where
  -- a scan changes no key
  scan_templates-has :
      (d : LogDetector F) (h : List ℕ) (at : Time) (source k : Bytes)
      (m : Map Bytes (TemplateStats F))
      → has k (scan_templates hour_of d h at source m).0 ≡ has k m
  unfolding scan_templates lookup
  scan_templates-has d h at source k [] = refl
  scan_templates-has d h at source k ((id, s) ∷ m) =
      elim (Bool-cases (is_missing hour_of d h at s)) [
        | inl gone ↦ rw gone (elim (Bool-cases (same_bytes id k)) [
          | inl same ↦ rw same refl
          | inr differ ↦ rw differ (scan_templates-has d h at source k m)
        ])
        | inr fine ↦ rw fine (elim (Bool-cases (same_bytes id k)) [
          | inl same ↦ rw same refl
          | inr differ ↦ rw differ (scan_templates-has d h at source k m)
        ])
      ]

  scan_templates-length :
      (d : LogDetector F) (h : List ℕ) (at : Time) (source : Bytes)
      (m : Map Bytes (TemplateStats F))
      → length (scan_templates hour_of d h at source m).0 ≡ length m
  unfolding scan_templates
  scan_templates-length d h at source [] = refl
  scan_templates-length d h at source ((id, s) ∷ m) =
      elim (Bool-cases (is_missing hour_of d h at s)) [
        | inl gone ↦ rw gone (ap suc (scan_templates-length d h at source m))
        | inr fine ↦ rw fine (ap suc (scan_templates-length d h at source m))
      ]

  scan_templates-Distinct :
      (d : LogDetector F) (h : List ℕ) (at : Time) (source : Bytes)
      (m : Map Bytes (TemplateStats F))
      → Distinct m
      → Distinct (scan_templates hour_of d h at source m).0
  unfolding scan_templates
  scan_templates-Distinct d h at source [] dist = dist
  scan_templates-Distinct d h at source ((id, s) ∷ m) dist =
      elim (Bool-cases (is_missing hour_of d h at s)) [
        | inl gone ↦ rw gone (
          scan_templates-has d h at source id m ∙ dist.0,
          scan_templates-Distinct d h at source m dist.1,
        )
        | inr fine ↦ rw fine (
          scan_templates-has d h at source id m ∙ dist.0,
          scan_templates-Distinct d h at source m dist.1,
        )
      ]

  scan_missing-Capped :
      (cap : ℤ) (d : LogDetector F) (at : Time) (source : Bytes) (state : SourceState F)
      → Capped cap state.templates
      → Capped cap (scan_missing hour_of d at source state).0.templates
  unfolding scan_missing
  scan_missing-Capped cap d at source state h =
      either_branch (λ (r : SourceState F × List (Signal F)). Capped cap r.0.templates)
        (fl.le d.config.disappearance_factor (fl.hundredths 0)
          || ltb_ℤ (sub at state.last_scan) d.config.disappearance_scan_interval)
        h scanned
    where
      scanned : Capped cap (scan_templates hour_of d state.hourly_seen at source state.templates).0
      scanned = record {
        distinct = scan_templates-Distinct d state.hourly_seen at source state.templates h.distinct;
        bounded = λ some_cap.
            subst (λ n. n ≤ pos_part cap)
              (sym (scan_templates-length d state.hourly_seen at source state.templates))
              (h.bounded some_cap);
      }

  -- a source after it has learned an observation of a template
  record Learned (cap : ℤ) (id : Bytes) (r : SourceState F × TemplateStats F) : Type 0 where
    capped : Capped cap r.0.templates
    entered : lookup id r.0.templates ≡ some r.1

  enter-Capped :
      (c : LogConfig F) (obs : Observation F) (r : LogRecord) (state : SourceState F)
      (s : TemplateStats F)
      → Capped c.max_templates state.templates
      → Capped c.max_templates (insert r.template_id s (enter c obs r state).0.templates)
  unfolding enter
  enter-Capped c obs r state s h = elim (Option-cases (lookup r.template_id state.templates)) [
    | inl absent ↦
        rw (enter, absent)
          (Capped-insert_new c.max_templates r.template_id s state.templates h.distinct)
    | inr (old, there) ↦
        rw (enter, there)
          (Capped-insert_old c.max_templates r.template_id s old state.templates there h)
  ]

  learn-Learned :
      (c : LogConfig F) (obs : Observation F) (r : LogRecord) (state : SourceState F)
      → Capped c.max_templates state.templates
      → (out : SourceState F × TemplateStats F) → learn hour_of c obs r state ≡ some out
      → Learned c.max_templates r.template_id out
  unfolding learn learn_from
  learn-Learned c obs r state h out run =
      let counted : SourceState F = record state { total = state.total + 1 } in
      let roomy = enter c obs r counted in
      let (s, learned, e) = >>=-eq-some (learn_stats hour_of c obs r roomy.1) _ run in
      subst (Learned c.max_templates r.template_id) (some-cancel e) (record {
        capped = enter-Capped c obs r counted s h;
        entered = lookup-insert_self r.template_id s roomy.0.templates;
      })

  report-Capped :
      (d : LogDetector F) (obs : Observation F) (r : LogRecord) (marking : Marking)
      (state : SourceState F) (s : TemplateStats F)
      → Learned d.config.max_templates r.template_id (state, s)
      → Capped d.config.max_templates (report hour_of d obs r marking state s).0.templates
  unfolding report mark_spike
  report-Capped d obs r marking state s h =
      scan_missing-Capped d.config.max_templates d obs.timestamp obs.source
        (mark_spike (spikes hour_of d obs r state s) r s state)
        (either_branch (λ (x : SourceState F). Capped d.config.max_templates x.templates)
          (spikes hour_of d obs r state s)
          (Capped-insert_old d.config.max_templates r.template_id
            (record s { spike_signaled = true }) s state.templates h.entered h.capped)
          h.capped)

  settle-Capped :
      (d : LogDetector F) (obs : Observation F) (r : LogRecord)
      (l : SourceState F × TemplateStats F)
      → Learned d.config.max_templates r.template_id l
      → Capped d.config.max_templates (settle hour_of d obs r l).0.templates
  unfolding settle
  settle-Capped d obs r (state, s) h =
      either_branch
        (λ (out : SourceState F × List (Signal F)). Capped d.config.max_templates out.0.templates)
        (is_muted (marking_for r.template d)) h.capped
        (report-Capped d obs r (marking_for r.template d) state s h)

  source_of-Capped :
      (obs : Observation F) (d : LogDetector F)
      → AllCapped d
      → Capped d.config.max_templates (source_of obs d).templates
  unfolding source_of new_source
  source_of-Capped obs d h = elim (Option-cases (lookup obs.source d.sources)) [
    | inl absent ↦
        rw (source_of, absent) (record { distinct = tt; bounded = λ some_cap. omega arith })
    | inr (state, there) ↦
        rw (source_of, there)
          (All-lookup (λ e. Capped d.config.max_templates e.templates) obs.source state d.sources h
            there)
  ]

  detect_record-AllCapped :
      (obs : Observation F) (r : LogRecord) (d : LogDetector F)
      → AllCapped d
      → (out : LogDetector F × List (Signal F)) → detect_record hour_of obs r d ≡ some out
      → AllCapped out.0
  unfolding detect_record store_source
  detect_record-AllCapped obs r d h out run =
      let (l, learned, e) = >>=-eq-some (learn hour_of d.config obs r (source_of obs d)) _ run in
      subst (λ o. AllCapped o.0) (some-cancel e)
        (All-insert (λ e. Capped d.config.max_templates e.templates) obs.source
          (settle hour_of d obs r l).0 d.sources
          (settle-Capped d obs r l
            (learn-Learned d.config obs r (source_of obs d) (source_of-Capped obs d h) l learned))
          h)

  detect-AllCapped :
      (obs : Observation F) (d : LogDetector F)
      → AllCapped d
      → (out : LogDetector F × List (Signal F)) → detect hour_of obs d ≡ some out
      → AllCapped out.0
  unfolding detect
  detect-AllCapped obs d h out run = elim (Option-cases obs.log) [
    | inl absent ↦ subst (λ o. AllCapped o.0) (some-cancel (rw (detect, absent) at run)) h
    | inr (r, there) ↦ elim (Bool-cases (is_log obs.modality && not (is_empty r.template_id))) [
      | inl past ↦ detect_record-AllCapped obs r d h out (rw (detect, there, past) at run)
      | inr guarded ↦
          subst (λ o. AllCapped o.0) (some-cancel (rw (detect, there, guarded) at run)) h
    ]
  ]

  -- `Detect` on observation after observation; the signals are dropped
  unfoldable pub watch : List (Observation F) → LogDetector F → Option (LogDetector F)
  watch [] d = some d
  watch (obs ∷ rest) d = do out ← detect hour_of obs d; watch rest out.0

  watch-AllCapped :
      (os : List (Observation F)) (d : LogDetector F)
      → AllCapped d
      → (d' : LogDetector F) → watch os d ≡ some d'
      → AllCapped d'
  unfolding watch
  watch-AllCapped [] d h d' run = subst AllCapped (some-cancel run) h
  watch-AllCapped (obs ∷ rest) d h d' run =
      let (out, seen, more) = >>=-eq-some (detect hour_of obs d) _ run in
      watch-AllCapped rest out.0 (detect-AllCapped obs d h out seen) d' more

  -- From a new detector, after any observations on which `Detect` does not panic, no source holds a
  -- template twice, nor more templates than the positive cap of its configuration.
  pub watch-Capped :
      (given : Option (LogConfig F)) (os : List (Observation F)) (d : LogDetector F)
      → watch os (new_log_detector given) ≡ some d
      → AllCapped d
  unfolding new_log_detector
  watch-Capped given os d run = watch-AllCapped os (new_log_detector given) tt d run
