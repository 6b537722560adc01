-- ===== src/Detect/Log/Scan/Once.antt =====
-- internal/core/detect/log.go: `scanMissing` and what it has already reported.
use tezcatl.Base.{ℕ, ◌≡◌, refl, ap, inl, inr, Bool-cases, List, [], ◌∷◌, Bytes, keep, not}
use tezcatl.Base.Assoc.{Map}
use tezcatl.Base.Ints.{Time}
use tezcatl.Model.{Floats}
use tezcatl.Detect.Log.{TemplateStats, LogDetector}
use tezcatl.Detect.Log.Scan.{is_established, is_missing, missing_signal, scan_templates}
use tezcatl.Detect.Log.Markings.{marking_for}

module _ {F : Type 0} ⦃fl : Floats F⦄ (hour_of : Time → ℕ) where
  -- the templates that a scan leaves unreported
  unfoldable pub unreported :
      LogDetector F → List ℕ → Time → Map Bytes (TemplateStats F) → Map Bytes (TemplateStats F)
  unreported d h at m = keep (λ e. not (is_missing hour_of d h at e.1)) m

  -- After a scan, any later one, with other markings and of another hour even, reports what it would
  -- report if the templates of the first scan were not there: nothing is reported twice, and no other
  -- report is lost.
  pub scan_templates-once :
      (d d' : LogDetector F) (h h' : List ℕ) (at at' : Time) (source source' : Bytes)
      (m : Map Bytes (TemplateStats F))
      → (scan_templates hour_of d' h' at' source' (scan_templates hour_of d h at source m).0).1
        ≡ (scan_templates hour_of d' h' at' source' (unreported d h at m)).1
  unfolding scan_templates unreported is_missing is_established
  scan_templates-once d d' h h' at at' source source' [] = refl
  scan_templates-once d d' h h' at at' source source' ((id, s) ∷ m) =
      let rest = scan_templates-once d d' h h' at at' source source' m in
      elim (Bool-cases (is_missing hour_of d h at s)) [
        | inl gone ↦ rw gone rest
        | inr fine ↦ elim (Bool-cases (is_missing hour_of d' h' at' s)) [
          | inl later ↦
              rw (fine, later)
                (ap (λ l. missing_signal source' at' (marking_for s.template d') id s ∷ l) rest)
          | inr never ↦ rw (fine, never) rest
        ]
      ]
