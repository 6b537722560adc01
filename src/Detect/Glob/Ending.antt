-- ===== src/Detect/Glob/Ending.antt =====
-- internal/core/detect/log.go: the loop of `globMatch` ends, and what it returns.
use tezcatl.Base.{
  ℕ, zero, suc, ◌+◌, ◌*◌, ◌<◌, ◌≤◌, ◌≡◌, ◌≢◌, refl, sym, ◌∙◌, subst, ◌↔◌, inl, inr, Bool, true,
  false, Bool-cases, Option, none, some, [], ◌∷◌, ◌++◌, Bytes, length, length-append, ◌==◌, ==_iff,
  arith,
}
use tezcatl.Detect.Glob.{star_code, only_stars, Star, backtrack, scan, enough_for, glob_match}
use tezcatl.Detect.Glob.Language.{Matches}
use tezcatl.Detect.Glob.Deciding.{Since, Since-literal, scan-Right}

-- pairs in the order of their first component, then of their second, which stays below `k`
pair : ℕ → ℕ → ℕ → ℕ
pair k a b = a * k + b

mul_step : (k a b : ℕ) → a < b → a * k + k ≤ b * k
mul_step k a b h = grind arith

pair_first : (k a b a' b' : ℕ) → a' < a → b' < k → pair k a' b' < pair k a b
unfolding pair
pair_first k a b a' b' h l = omega (arith, mul_step k a' a h)

pair_second : (k a b b' : ℕ) → b' < b → pair k a b' < pair k a b
unfolding pair
pair_second k a b b' h = omega arith

-- what is left to do in a state of the loop
left : ℕ → Star → Bytes → Bytes → ℕ
left k none p v = pair k (pair k (length p + 1) 0) (length v)
left k (some (ps, r)) p v = pair k (pair k (length ps) (length r)) (length v)

Short : ℕ → Star → Bytes → Type 0
Short k none v = length v < k
Short k (some (ps, r)) v = (length v < k) × (length r < k)

Answers : Option Bool → Type 0
Answers o = (b : Bool) × (o ≡ some b)

-- the rest of the loop answers from every state with less left to do
Ends : ℕ → ℕ → (Star → Bytes → Bytes → Option Bool) → Type 0
Ends k fuel continue =
    (star : Star) (p v : Bytes)
    → Since star p v
    → Short k star v
    → left k star p v < fuel
    → Answers (continue star p v)

since_longer : (ps w p : Bytes) (c : ℕ) → ps ≡ w ++ c ∷ p → length p < length ps
since_longer ps w p c e = rw e (omega (arith, length-append w (c ∷ p)))

left-star :
    (k : ℕ) (star : Star) (c : ℕ) (p v : Bytes)
    → Since star (c ∷ p) v
    → Short k star v
    → left k (some (p, v)) p v < left k star (c ∷ p) v
unfolding left Short
left-star k none c p v since short =
    pair_first k (pair k (suc (length p) + 1) 0) (length v) (pair k (length p) (length v))
      (length v) (pair_first k (suc (length p) + 1) 0 (length p) (length v) (omega arith) short)
      short
left-star k (some (ps, r)) c p v (w, plain, q, e) (short, other) =
    pair_first k (pair k (length ps) (length r)) (length v) (pair k (length p) (length v))
      (length v)
      (pair_first k (length ps) (length r) (length p) (length v) (since_longer ps w p c q) short)
      short

left-literal :
    (k : ℕ) (star : Star) (c : ℕ) (p : Bytes) (x : ℕ) (v : Bytes)
    → Short k star (x ∷ v)
    → left k star p v < left k star (c ∷ p) (x ∷ v)
unfolding left Short
left-literal k none c p x v short =
    pair_first k (pair k (suc (length p) + 1) 0) (suc (length v)) (pair k (length p + 1) 0)
      (length v) (pair_first k (suc (length p) + 1) 0 (length p + 1) 0 (omega arith) (omega arith))
      (omega arith)
left-literal k (some (ps, r)) c p x v short =
    pair_second k (pair k (length ps) (length r)) (suc (length v)) (length v) (omega arith)

Short-tail : (k : ℕ) (star : Star) (x : ℕ) (v : Bytes) → Short k star (x ∷ v) → Short k star v
unfolding Short
Short-tail k none x v short = omega arith
Short-tail k (some (ps, r)) x v (short, other) = (omega arith, other)

backtrack-Ends :
    (k fuel : ℕ) (continue : Star → Bytes → Bytes → Option Bool)
    → Ends k fuel continue
    → (star : Star) (p : Bytes) (v : Bytes) → Short k star v
    → left k star p v < suc fuel
    → Answers (backtrack continue star)
unfolding backtrack Ends Answers Short left
backtrack-Ends k fuel continue ends none p v short less = (false, refl)
backtrack-Ends k fuel continue ends (some (ps, [])) p v short less = (false, refl)
backtrack-Ends k fuel continue ends (some (ps, y ∷ r)) p v (short, other) less =
    let fits : length r < k = omega arith in
    let down : pair k (pair k (length ps) (length r)) (length r)
        < pair k (pair k (length ps) (suc (length r))) (length v) =
      pair_first k (pair k (length ps) (suc (length r))) (length v) (pair k (length ps) (length r))
        (length r) (pair_second k (length ps) (suc (length r)) (length r) (omega arith)) fits in
    ends (some (ps, r)) ps r ([], tt, refl, refl) (fits, fits) (omega arith)

literal-Ends :
    (k fuel : ℕ) (continue : Star → Bytes → Bytes → Option Bool)
    → Ends k fuel continue
    → (star : Star) (c : ℕ) (p : Bytes) (x : ℕ) (v : Bytes) → c ≢ star_code
    → Since star (c ∷ p) (x ∷ v)
    → Short k star (x ∷ v)
    → left k star (c ∷ p) (x ∷ v) < suc fuel
    → Answers (elim (c == x) [ true ↦ continue star p v | false ↦ backtrack continue star ])
unfolding Ends
literal-Ends k fuel continue ends star c p x v n since short less = elim (Bool-cases (c == x)) [
  | inl same ↦
      let e : c ≡ x = (==_iff c x).0 same in
      let on : Since star (c ∷ p) (c ∷ v) = subst (λ y. Since star (c ∷ p) (y ∷ v)) (sym e) since in
      rw same (
        ends star p v (Since-literal star p v c n on) (Short-tail k star x v short)
          (omega (arith, left-literal k star c p x v short)))
  | inr differ ↦ rw differ (backtrack-Ends k fuel continue ends star (c ∷ p) (x ∷ v) short less)
]

scan-Ends : (k fuel : ℕ) → Ends k fuel (scan fuel)
unfolding scan Ends Answers Short
scan-Ends k zero star p v since short less = absurd (omega arith)
scan-Ends k (suc fuel) star p [] since short less = (only_stars p, refl)
scan-Ends k (suc fuel) star [] (x ∷ v) since short less =
    backtrack-Ends k fuel (scan fuel) (scan-Ends k fuel) star [] (x ∷ v) short less
scan-Ends k (suc fuel) star (c ∷ p) (x ∷ v) since short less = elim (Bool-cases (c == star_code)) [
  | inl star_byte ↦
      rw (scan, star_byte)
        (scan-Ends k fuel (some (p, x ∷ v)) p (x ∷ v) ([], tt, refl, refl) (here, here)
          (omega (arith, left-star k star c p (x ∷ v) since short)))
  | inr other ↦
      rw (scan, other)
        (literal-Ends k fuel (scan fuel) (scan-Ends k fuel) star c p x v
          (λ e. apart (sym other ∙ (==_iff c star_code).1 e)) since short less)
]
  where
    apart : false ≡ true → ⊥
    apart e = cc

    value_short : (s : Star) → Short k s (x ∷ v) → suc (length v) < k
    value_short none h = h
    value_short (some (ps, r)) h = h.0

    here : suc (length v) < k
    here = value_short star short

-- The loop of `globMatch` ends on every pattern and value, and it returns true exactly when the
-- value belongs to the language of the pattern, in which a star stands for any bytes and any other
-- byte for itself: resuming from the last star alone misses no match.
pub glob_match_lem :
    (p v : Bytes) → (b : Bool) × (glob_match p v ≡ some b) × ((b ≡ true) ↔ Matches p v)
unfolding glob_match enough_for Answers Ends Short left pair
glob_match_lem p v =
    let k : ℕ = length v + 1 in
    let (b, run) = scan-Ends k (enough_for p v) none p v tt short less in
    (b, run, scan-Right (enough_for p v) none p v b tt run)
  where
    short : length v < length v + 1
    short = omega arith

    less : left (length v + 1) none p v < enough_for p v
    less = omega arith
