-- ===== src/Detect/Log/Detecting/Learning.antt =====
-- internal/core/detect/log.go: what `Detect` learns of a template.
use tezcatl.Base.{
  ℕ, ◌+◌, ◌≡◌, refl, inl, inr, false, Option, Option-cases, none, some, some-cancel, bytes_eq,
  >>=-eq-some, either_branch, ap, subst, zero, suc, ◌-◌, ◌/◌, ◌&&◌, ltb, min,
}
use tezcatl.Base.Assoc.{lookup, lookup-insert_self}
use tezcatl.Base.Ints.{pos, negsuc, Time, Duration, sub, before}
use tezcatl.Model.{Floats, Observation, LogRecord}
use tezcatl.Detect.Log.{LogConfig, TemplateStats, SourceState}
use tezcatl.Detect.Log.Stats.{
  fold_interval, truncate_time, next_bucket, bucket_over, roll_bucket, decay, fold_in, zero_float,
  seasonal,
}
use tezcatl.Detect.Log.Detecting.{new_stats, count_in, learn_stats, learn_from, learn, enter}

module _ {F : Type 0} ⦃fl : Floats F⦄ where
  -- `s` is `start` after one more sighting.
  pub record Relearned (obs : Observation F) (r : LogRecord) (start s : TemplateStats F)
      : Type 0 where
    pub text : s.template ≡ r.template
    pub counted : s.count ≡ start.count + 1
    pub seen : s.last_seen ≡ obs.timestamp
    pub heard : s.missing_signaled ≡ false
    pub mean :
        s.mean_interval
        ≡ (fold_interval obs.timestamp (record start { template = r.template })).mean_interval
    pub variance :
        s.interval_variance
        ≡ (fold_interval obs.timestamp (record start { template = r.template })).interval_variance
    pub samples :
        s.interval_samples
        ≡ (fold_interval obs.timestamp (record start { template = r.template })).interval_samples

  -- the statistics that a template had, or those of one never counted
  pub data StartsFrom (r : LogRecord) (state : SourceState F) (start : TemplateStats F)
      : Type 0 where
    known : lookup r.template_id state.templates ≡ some start → StartsFrom r state start
    unknown :
        lookup r.template_id state.templates ≡ none → start.count ≡ 0 → StartsFrom r state start

  fold_interval-kept :
      (at : Time) (s : TemplateStats F)
      → ((fold_interval at s).template ≡ s.template) × ((fold_interval at s).count ≡ s.count)
  unfolding fold_interval
  fold_interval-kept at s =
      either_branch Kept (ltb 0 s.count && fl.le zero_float (fl.seconds (sub at s.last_seen)))
        (either_branch Kept (fl.same s.mean_interval zero_float) (refl, refl) (refl, refl))
        (refl, refl)
    where
      Kept : TemplateStats F → Type 0
      Kept t = (t.template ≡ s.template) × (t.count ≡ s.count)

  enter-StartsFrom :
      (c : LogConfig F) (obs : Observation F) (r : LogRecord) (state : SourceState F)
      → StartsFrom r state (enter c obs r state).1
  unfolding enter new_stats
  enter-StartsFrom c obs r state = elim (Option-cases (lookup r.template_id state.templates)) [
    | inl absent ↦ rw (enter, absent) (unknown absent refl)
    | inr (s, there) ↦ rw (enter, there) (known there)
  ]

  module _ (hour_of : Time → ℕ) where
    count_in-Relearned :
        (c : LogConfig F) (obs : Observation F) (r : LogRecord) (s : TemplateStats F)
        → Relearned obs r s (count_in hour_of c obs r s)
    unfolding count_in
    count_in-Relearned c obs r s =
        let kept = fold_interval-kept obs.timestamp (record s { template = r.template }) in
        record {
          text = kept.0;
          counted = ap (λ n. n + 1) kept.1;
          seen = refl;
          heard = refl;
          mean = refl;
          variance = refl;
          samples = refl;
        }

    next_bucket-Relearned :
        (obs : Observation F) (r : LogRecord) (start : TemplateStats F) (c : LogConfig F)
        (at : Time) (elapsed : ℕ) (s : TemplateStats F)
        → Relearned obs r start s
        → Relearned obs r start (next_bucket hour_of c at elapsed s)
    unfolding next_bucket
    next_bucket-Relearned obs r start c at elapsed s h =
        let seen = fl.of_int (pos s.bucket_count) in
        let hour = hour_of s.bucket_start in
        either_branch
          (λ (o : TemplateStats F). Relearned obs r start (record o {
            bucket_baseline = decay (min (elapsed - 1) 60) (fold_in seen s.bucket_baseline);
            bucket_start = at;
            bucket_count = 0;
            spike_signaled = false;
          }))
          (seasonal c)
          (record {
            text = h.text;
            counted = h.counted;
            seen = h.seen;
            heard = h.heard;
            mean = h.mean;
            variance = h.variance;
            samples = h.samples;
          })
          (record {
            text = h.text;
            counted = h.counted;
            seen = h.seen;
            heard = h.heard;
            mean = h.mean;
            variance = h.variance;
            samples = h.samples;
          })

    bucket_over-Relearned :
        (obs : Observation F) (r : LogRecord) (start : TemplateStats F) (width : Duration)
        (c : LogConfig F) (at : Time) (s t : TemplateStats F)
        → Relearned obs r start s
        → bucket_over hour_of width c at s ≡ some t
        → Relearned obs r start t
    unfolding bucket_over
    bucket_over-Relearned obs r start (pos zero) c at s t h e = absurd (let g = e in cc)
    bucket_over-Relearned obs r start (pos (suc w)) c at s t h e =
        subst (Relearned obs r start) (some-cancel e)
          (next_bucket-Relearned obs r start c at ((at - s.bucket_start) / suc w) s h)
    bucket_over-Relearned obs r start (negsuc w) c at s t h e =
        subst (Relearned obs r start) (some-cancel e) (next_bucket-Relearned obs r start c at 0 s h)

    roll_bucket-Relearned :
        (obs : Observation F) (r : LogRecord) (start : TemplateStats F) (c : LogConfig F)
        (s t : TemplateStats F)
        → Relearned obs r start s
        → roll_bucket hour_of c obs.timestamp s ≡ some t
        → Relearned obs r start t
    unfolding roll_bucket
    roll_bucket-Relearned obs r start c s t h =
        either_branch (λ (o : Option (TemplateStats F)). o ≡ some t → Relearned obs r start t)
          (before s.bucket_start (truncate_time obs.timestamp c.spike_bucket))
          (bucket_over-Relearned obs r start c.spike_bucket c
            (truncate_time obs.timestamp c.spike_bucket) s t h)
          (λ e. subst (Relearned obs r start) (some-cancel e) h)

    learn_stats-Relearned :
        (c : LogConfig F) (obs : Observation F) (r : LogRecord) (start t : TemplateStats F)
        → learn_stats hour_of c obs r start ≡ some t
        → Relearned obs r start t
    unfolding learn_stats
    learn_stats-Relearned c obs r start t run =
        let (rolled, e, end) =
          >>=-eq-some (roll_bucket hour_of c obs.timestamp (count_in hour_of c obs r start)) _
            run in
        let h =
          roll_bucket-Relearned obs r start c (count_in hour_of c obs r start) rolled
            (count_in-Relearned c obs r start) e in
        subst (Relearned obs r start) (some-cancel end) (record {
          text = h.text;
          counted = h.counted;
          seen = h.seen;
          heard = h.heard;
          mean = h.mean;
          variance = h.variance;
          samples = h.samples;
        })

    -- After `learn` the template of the record is among those of the source, with its statistics one
    -- sighting further than where they started.
    pub learn-Relearned :
        (c : LogConfig F) (obs : Observation F) (r : LogRecord) (state : SourceState F)
        (out : SourceState F × TemplateStats F)
        → learn hour_of c obs r state ≡ some out
        → (start : TemplateStats F) × StartsFrom r state start
          × (lookup r.template_id out.0.templates ≡ some out.1)
          × Relearned obs r start out.1
    unfolding learn learn_from
    learn-Relearned c obs r state out run =
        let counted : SourceState F = record state { total = state.total + 1 } in
        let roomy = enter c obs r counted in
        let (s, learned, e) = >>=-eq-some (learn_stats hour_of c obs r roomy.1) _ run in
        let h = learn_stats-Relearned c obs r roomy.1 s learned in
        (
          roomy.1,
          (elim (enter-StartsFrom c obs r counted) [
            | known k ↦ known k
            | unknown n z ↦ unknown n z
          ]),
          subst
              (λ (o : SourceState F × TemplateStats F).
                lookup r.template_id o.0.templates ≡ some o.1)
              (some-cancel e) (lookup-insert_self r.template_id s roomy.0.templates),
          subst (λ (o : SourceState F × TemplateStats F). Relearned obs r roomy.1 o.1)
              (some-cancel e) h,
        )
