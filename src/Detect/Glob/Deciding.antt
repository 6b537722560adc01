-- ===== src/Detect/Glob/Deciding.antt =====
-- internal/core/detect/log.go: what the loop of `globMatch` returns.
use tezcatl.Base.{
  ℕ, zero, suc, ◌≡◌, ◌≢◌, refl, sym, ◌∙◌, subst, ◌↔◌, inl, inr, Bool, true, false, Bool-cases,
  Option, none, some, some-cancel, [], ◌∷◌, ◌++◌, append_assoc, Bytes, ◌==◌, ==_iff, All-append,
}
use tezcatl.Detect.Glob.{star_code, Star, backtrack, scan}
use tezcatl.Detect.Glob.Language.{Matches, end, any, literal, only_stars_iff}
use tezcatl.Detect.Glob.Prefix.{NoStar, off_prefix, star_again, star_at_end, star_moves}

-- the question that a state of the loop still has to answer
abbrev pub Wanted : Star → Bytes → Bytes → Type 0
Wanted none p v = Matches p v
Wanted (some (ps, r)) p v = Matches (star_code ∷ ps) r

-- how far the loop is past its last star
abbrev pub Since : Star → Bytes → Bytes → Type 0
Since none p v = Unit
Since (some (ps, r)) p v = (w : Bytes) × NoStar w × (ps ≡ w ++ p) × (r ≡ w ++ v)

abbrev pub Says : Bool → Type 0 → Type 0
Says b P = (b ≡ true) ↔ P

both_ways : {b : Bool} {P Q : Type 0} → Q ↔ P → Says b P → Says b Q
both_ways (qp, pq) (sound, complete) = (λ h. pq (sound h), λ q. complete (qp q))

says_no : {P : Type 0} → (P → ⊥) → Says false P
says_no never = (λ h. absurd cc, λ p. absurd (never p))

false-ne-true : false ≡ true → ⊥
false-ne-true e = cc

stuck : (p v : Bytes) (x : ℕ) → (c : ℕ) → c ≢ star_code → c ≢ x → Matches (c ∷ p) (x ∷ v) → ⊥
stuck p v x c n e (any d xs ys star split m) = n star
stuck p v x c n e (literal d ys star split m) = e cc

used_up : (x : ℕ) (v : Bytes) → Matches [] (x ∷ v) → ⊥
used_up x v (end e) = cc

-- the loop's answer from every state that one more round of fuel reaches
abbrev pub Right : (Star → Bytes → Bytes → Option Bool) → Type 0
Right continue =
    (star : Star) (p v : Bytes) (b : Bool)
    → Since star p v
    → continue star p v ≡ some b
    → Says b (Wanted star p v)

backtrack-Right :
    (continue : Star → Bytes → Bytes → Option Bool)
    → Right continue
    → (star : Star) (p v : Bytes) (x : ℕ) (b : Bool) → Since star p (x ∷ v)
    → (Matches p (x ∷ v) → ⊥)
    → backtrack continue star ≡ some b
    → Says b (Wanted star p (x ∷ v))
unfolding backtrack
backtrack-Right continue right none p v x b since fails run =
    subst (λ c. Says c (Matches p (x ∷ v))) (some-cancel run) (says_no fails)
backtrack-Right continue right (some (ps, [])) p v x b ([], plain, q, e) fails run = absurd cc
backtrack-Right continue right (some (ps, [])) p v x b (c ∷ w, plain, q, e) fails run = absurd cc
backtrack-Right continue right (some (ps, y ∷ r)) p v x b (w, plain, q, e) fails run =
    both_ways (star_moves ps y r lost) (right (some (ps, r)) ps r b ([], tt, refl, refl) run)
  where
    lost : Matches ps (y ∷ r) → ⊥
    lost m = fails (
        off_prefix w p (x ∷ v) plain
          (subst (λ l. Matches l (w ++ x ∷ v)) q (subst (Matches ps) e m)))

grow : (w p : Bytes) (c : ℕ) → w ++ c ∷ p ≡ (w ++ c ∷ []) ++ p
grow w p c = sym (append_assoc w (c ∷ []) p)

-- one literal byte further
pub Since-literal :
    (star : Star) (p v : Bytes) (c : ℕ)
    → c ≢ star_code
    → Since star (c ∷ p) (c ∷ v)
    → Since star p v
Since-literal none p v c n since = tt
Since-literal (some (ps, r)) p v c n (w, plain, q, e) = (
  w ++ c ∷ [],
  All-append (λ d. d ≢ star_code) w (c ∷ []) plain (n, tt),
  q ∙ grow w p c,
  e ∙ grow w v c,
)

Wanted-literal :
    (star : Star) (p v : Bytes) (c : ℕ)
    → c ≢ star_code
    → Wanted star (c ∷ p) (c ∷ v) ↔ Wanted star p v
Wanted-literal (some (ps, r)) p v c n = (λ m. m, λ m. m)
Wanted-literal none p v c n = (off_prefix (c ∷ []) p v (n, tt), λ m. literal c v n refl m)

Wanted-star :
    (star : Star) (p v : Bytes)
    → Since star (star_code ∷ p) v
    → Wanted star (star_code ∷ p) v ↔ Wanted (some (p, v)) p v
Wanted-star none p v since = (λ m. m, λ m. m)
Wanted-star (some (ps, r)) p v (w, plain, q, e) = rw (q, e) (star_again w p v plain)

Wanted-end : (star : Star) (p : Bytes) → Since star p [] → Wanted star p [] ↔ Matches p []
Wanted-end none p since = (λ m. m, λ m. m)
Wanted-end (some (ps, r)) p (w, plain, q, e) = rw (q, e) (star_at_end w p plain)

literal-Right :
    (continue : Star → Bytes → Bytes → Option Bool)
    → Right continue
    → (star : Star) (c : ℕ) (p : Bytes) (x : ℕ) (v : Bytes) (b : Bool) → c ≢ star_code
    → Since star (c ∷ p) (x ∷ v)
    → (elim (c == x) [ true ↦ continue star p v | false ↦ backtrack continue star ]) ≡ some b
    → Says b (Wanted star (c ∷ p) (x ∷ v))
literal-Right continue right star c p x v b n since run = elim (Bool-cases (c == x)) [
  | inl same ↦
      let e : x ≡ c = sym ((==_iff c x).0 same) in
      let since' : Since star (c ∷ p) (c ∷ v) = subst (λ y. Since star (c ∷ p) (y ∷ v)) e since in
      subst (λ y. Says b (Wanted star (c ∷ p) (y ∷ v))) (sym e)
        (both_ways (Wanted-literal star p v c n)
          (right star p v b (Since-literal star p v c n since') (rw same at run)))
  | inr differ ↦
      backtrack-Right continue right star (c ∷ p) v x b since
        (stuck p v x c n (λ e. false-ne-true (sym differ ∙ (==_iff c x).1 e))) (rw differ at run)
]

star-Right :
    (continue : Star → Bytes → Bytes → Option Bool)
    → Right continue
    → (star : Star) (c : ℕ) (p v : Bytes) (b : Bool) → c ≡ star_code
    → Since star (c ∷ p) v
    → continue (some (p, v)) p v ≡ some b
    → Says b (Wanted star (c ∷ p) v)
star-Right continue right star c p v b e since run =
    subst (λ y. Says b (Wanted star (y ∷ p) v)) (sym e)
      (both_ways (Wanted-star star p v (subst (λ y. Since star (y ∷ p) v) e since))
        (right (some (p, v)) p v b ([], tt, refl, refl) run))

pub scan-Right : (fuel : ℕ) → Right (scan fuel)
unfolding scan
scan-Right zero star p v b since run = absurd cc
scan-Right (suc fuel) star p [] b since run =
    both_ways (Wanted-end star p since)
      (subst (λ c. Says c (Matches p [])) (some-cancel run) (only_stars_iff p))
scan-Right (suc fuel) star [] (x ∷ v) b since run =
    backtrack-Right (scan fuel) (scan-Right fuel) star [] v x b since (used_up x v) run
scan-Right (suc fuel) star (c ∷ p) (x ∷ v) b since run = elim (Bool-cases (c == star_code)) [
  | inl star_byte ↦
      star-Right (scan fuel) (scan-Right fuel) star c p (x ∷ v) b ((==_iff c star_code).0 star_byte)
        since (rw (scan, star_byte) at run)
  | inr other ↦
      literal-Right (scan fuel) (scan-Right fuel) star c p x v b
        (λ e. false-ne-true (sym other ∙ (==_iff c star_code).1 e)) since (rw (scan, other) at run)
]
