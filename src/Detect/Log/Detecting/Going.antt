-- ===== src/Detect/Log/Detecting/Going.antt =====
-- internal/core/detect/log.go: `Detect` and panics.
use tezcatl.Base.{
  ℕ, zero, suc, ◌-◌, ◌/◌, ◌≡◌, ◌≢◌, refl, sym, subst, ap, ◌∙◌, inl, inr, Option, Option-cases, some,
  List, [], ◌∷◌, bytes_eq, is_empty, ◌&&◌, not, ◌+◌, ◌>>=◌, >>=-some, either_branch,
}
use tezcatl.Base.Ints.{ℤ, pos, negsuc, Time, before}
use tezcatl.Model.{Floats, Signal, Observation, LogRecord}
use tezcatl.Detect.Log.{LogConfig, TemplateStats, SourceState, LogDetector, new_log_detector}
use tezcatl.Detect.Log.Stats.{truncate_time, next_bucket, bucket_over, roll_bucket}
use tezcatl.Detect.Log.Detecting.{
  is_log, count_in, learn_stats, learn_from, learn, enter, settle, store_source, source_of,
  detect_record, detect,
}
use tezcatl.Detect.Log.Detecting.Cap.{watch}

module _ {F : Type 0} ⦃fl : Floats F⦄ (hour_of : Time → ℕ) where
  bucket_over-some :
      (width : ℤ) (c : LogConfig F) (start : Time) (s : TemplateStats F)
      → width ≢ pos 0
      → (t : TemplateStats F) × (bucket_over hour_of width c start s ≡ some t)
  unfolding bucket_over
  bucket_over-some (pos zero) c start s wide = absurd (wide refl)
  bucket_over-some (pos (suc w)) c start s wide =
      (next_bucket hour_of c start ((start - s.bucket_start) / suc w) s, refl)
  bucket_over-some (negsuc w) c start s wide = (next_bucket hour_of c start 0 s, refl)

  Goes : Option (TemplateStats F) → Type 0
  Goes o = (t : TemplateStats F) × (o ≡ some t)

  roll_bucket-some :
      (c : LogConfig F) (at : Time) (s : TemplateStats F)
      → c.spike_bucket ≢ pos 0
      → (t : TemplateStats F) × (roll_bucket hour_of c at s ≡ some t)
  unfolding roll_bucket Goes
  roll_bucket-some c at s wide =
      either_branch Goes (before s.bucket_start (truncate_time at c.spike_bucket))
        (bucket_over-some c.spike_bucket c (truncate_time at c.spike_bucket) s wide) (s, refl)

  learn-some :
      (c : LogConfig F) (obs : Observation F) (r : LogRecord) (state : SourceState F)
      → c.spike_bucket ≢ pos 0
      → (out : SourceState F × TemplateStats F) × (learn hour_of c obs r state ≡ some out)
  unfolding learn learn_from learn_stats
  learn-some c obs r state wide =
      let roomy = enter c obs r (record state { total = state.total + 1 }) in
      >>=-some (learn_stats hour_of c obs r roomy.1) _
        (>>=-some (roll_bucket hour_of c obs.timestamp (count_in hour_of c obs r roomy.1)) _
          (roll_bucket-some c obs.timestamp (count_in hour_of c obs r roomy.1) wide)
          (λ t. (_, refl)))
        (λ t. (_, refl))

  -- a result with the configuration unchanged
  abbrev pub Kept : LogDetector F → Option (LogDetector F × List (Signal F)) → Type 0
  Kept d o = (out : LogDetector F × List (Signal F)) × (o ≡ some out) × (out.0.config ≡ d.config)

  detect_record-Kept :
      (obs : Observation F) (r : LogRecord) (d : LogDetector F)
      → d.config.spike_bucket ≢ pos 0
      → Kept d (detect_record hour_of obs r d)
  unfolding detect_record store_source
  detect_record-Kept obs r d wide =
      let (l, e) = learn-some d.config obs r (source_of obs d) wide in
      (
        store_source d obs (settle hour_of d obs r l),
        ap (λ o. o >>= λ learned. some (store_source d obs (settle hour_of d obs r learned))) e,
        refl,
      )

  pub detect-Kept :
      (obs : Observation F) (d : LogDetector F)
      → d.config.spike_bucket ≢ pos 0
      → Kept d (detect hour_of obs d)
  unfolding detect
  detect-Kept obs d wide = elim (Option-cases obs.log) [
    | inl absent ↦ rw (detect, absent) ((d, []), refl, refl)
    | inr (r, there) ↦
        rw (detect, there)
          (either_branch (Kept d) (is_log obs.modality && not (is_empty r.template_id))
            (detect_record-Kept obs r d wide) ((d, []), refl, refl))
  ]

  watch-some :
      (os : List (Observation F)) (d : LogDetector F)
      → d.config.spike_bucket ≢ pos 0
      → (d' : LogDetector F) × (watch hour_of os d ≡ some d')
  unfolding watch
  watch-some [] d wide = (d, refl)
  watch-some (obs ∷ rest) d wide =
      let (out, e, same) = detect-Kept obs d wide in
      let wide' = subst (λ (c : LogConfig F). c.spike_bucket ≢ pos 0) (sym same) wide in
      let (d', more) = watch-some rest out.0 wide' in
      (d', ap (λ o. o >>= λ (p : LogDetector F × List (Signal F)). watch hour_of rest p.0) e ∙ more)

  -- With a bucket width other than zero, `Detect` never panics, whatever observations a new detector
  -- is given and in whatever order: the division by the width is the only panic.
  pub watch-going :
      (c : LogConfig F) (os : List (Observation F))
      → c.spike_bucket ≢ pos 0
      → (d : LogDetector F) × (watch hour_of os (new_log_detector (some c)) ≡ some d)
  unfolding new_log_detector
  watch-going c os wide = watch-some os (new_log_detector (some c)) wide
