-- ===== src/Detect/Glob/Language.antt =====
-- internal/core/detect/log.go: `globMatch` against the language of a pattern.
use tezcatl.Base.{
  ℕ, ◌≡◌, ◌≢◌, refl, sym, ap, ◌∙◌, subst, ◌↔◌, ◌⊎◌, inl, inr, true, Bool-cases, [], ◌∷◌, ◌++◌,
  append_assoc, Bytes, ◌==◌, ==_iff,
}
use tezcatl.Detect.Glob.{star_code, only_stars}

-- The values of a pattern: a star stands for any bytes, any other byte for itself.
pub data Matches : Bytes → Bytes → Type 0 where
  end : {v : Bytes} → v ≡ [] → Matches [] v
  any :
      {p v : Bytes} (c : ℕ) (xs ys : Bytes)
      → c ≡ star_code
      → v ≡ xs ++ ys
      → Matches p ys
      → Matches (c ∷ p) v
  literal :
      {p v : Bytes} (c : ℕ) (ys : Bytes)
      → c ≢ star_code
      → v ≡ c ∷ ys
      → Matches p ys
      → Matches (c ∷ p) v

append-eq-nil : (xs ys : Bytes) → [] ≡ xs ++ ys → ys ≡ []
append-eq-nil [] ys h = sym h
append-eq-nil (x ∷ xs) ys h = cc

pub only_stars_iff : (p : Bytes) → (only_stars p ≡ true) ↔ Matches p []
unfolding only_stars
only_stars_iff p = (sound p, complete p)
  where
    sound : (q : Bytes) → only_stars q ≡ true → Matches q []
    sound [] h = end refl
    sound (c ∷ q) h = elim (Bool-cases (c == star_code)) [
      | inl star ↦ any c [] [] ((==_iff c star_code).0 star) refl (sound q (rw star at h))
      | inr other ↦ absurd (let g = rw other at h in cc)
    ]

    complete : (q : Bytes) → Matches q [] → only_stars q ≡ true
    complete [] m = refl
    complete (d ∷ q) (any c xs ys e split m) =
        rw ((==_iff c star_code).1 e) (complete q (subst (Matches q) (append-eq-nil xs ys split) m))
    complete (d ∷ q) (literal c ys e split m) = absurd (let g = split in cc)

-- a star may swallow more
pub swallow : (p d v : Bytes) → Matches (star_code ∷ p) v → Matches (star_code ∷ p) (d ++ v)
swallow p d v (any c xs ys e split m) =
    any c (d ++ xs) ys e (ap (λ l. d ++ l) split ∙ sym (append_assoc d xs ys)) m
swallow p d v (literal c ys e split m) = absurd (e refl)

pub star_here : (p v : Bytes) → Matches p v → Matches (star_code ∷ p) v
star_here p v m = any star_code [] v refl refl m

pub star_split :
    (p : Bytes) (x : ℕ) (v : Bytes)
    → Matches (star_code ∷ p) (x ∷ v)
    → Matches p (x ∷ v) ⊎ Matches (star_code ∷ p) v
star_split p x v (any c [] ys e split m) = inl (subst (Matches p) (sym split) m)
star_split p x v (any c (y ∷ xs) ys e split m) = inr (any star_code xs ys refl (ap tail split) m)
  where
    tail : Bytes → Bytes
    tail [] = []
    tail (z ∷ zs) = zs
star_split p x v (literal c ys e split m) = absurd (e refl)
