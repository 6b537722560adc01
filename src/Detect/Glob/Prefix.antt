-- ===== src/Detect/Glob/Prefix.antt =====
-- internal/core/detect/log.go: `globMatch`, the bytes matched since the last star.
use tezcatl.Base.{
  ℕ, ◌≤◌, ◌≡◌, ◌≢◌, refl, sym, ap, ◌∙◌, subst, ◌↔◌, inl, inr, [], ◌∷◌, ◌++◌, append_assoc, Bytes,
  length, length-append, arith, All,
}
use tezcatl.Detect.Glob.{star_code}
use tezcatl.Detect.Glob.Language.{Matches, any, literal, swallow, star_here, star_split}

abbrev pub NoStar : Bytes → Type 0
NoStar w = All (λ c. c ≢ star_code) w

-- Bytes that are not stars match themselves.
pub literal_prefix :
    (w p s : Bytes)
    → NoStar w
    → Matches (w ++ p) s
    → (rest : Bytes) × (s ≡ w ++ rest) × Matches p rest
literal_prefix [] p s plain m = (s, refl, m)
literal_prefix (c ∷ w) p s (n, plain) (any d xs ys e split m) = absurd (n e)
literal_prefix (c ∷ w) p s (n, plain) (literal d ys e split m) =
    let (rest, tail, m') = literal_prefix w p ys plain m in (rest, split ∙ ap (λ l. c ∷ l) tail, m')

pub literal_prefix_back : (w p s : Bytes) → NoStar w → Matches p s → Matches (w ++ p) (w ++ s)
literal_prefix_back [] p s plain m = m
literal_prefix_back (c ∷ w) p s (n, plain) m =
    literal c (w ++ s) n refl (literal_prefix_back w p s plain m)

same_front : (w u v : Bytes) → w ++ u ≡ w ++ v → u ≡ v
same_front [] u v e = e
same_front (c ∷ w) u v e = let rest : w ++ u ≡ w ++ v = cc in same_front w u v rest

pub off_prefix : (w p s : Bytes) → NoStar w → Matches (w ++ p) (w ++ s) → Matches p s
off_prefix w p s plain m =
    let (rest, split, m') = literal_prefix w p (w ++ s) plain m in
    subst (Matches p) (sym (same_front w s rest split)) m'

-- of two ways to cut a list, the later cut leaves a suffix of what the earlier one leaves
later_cut :
    (a b c d : Bytes) → a ++ b ≡ c ++ d → length a ≤ length c → (more : Bytes) × (b ≡ more ++ d)
later_cut [] b c d e short = (c, e)
later_cut (x ∷ a) b [] d e short = absurd (omega arith)
later_cut (x ∷ a) b (y ∷ c) d e short =
    let rest : a ++ b ≡ c ++ d = cc in later_cut a b c d rest (omega arith)

-- A later star makes where the earlier one stopped irrelevant.
pub star_again :
    (w p v : Bytes)
    → NoStar w
    → Matches (star_code ∷ (w ++ star_code ∷ p)) (w ++ v) ↔ Matches (star_code ∷ p) v
star_again w p v plain = (forth, back)
  where
    back : Matches (star_code ∷ p) v → Matches (star_code ∷ (w ++ star_code ∷ p)) (w ++ v)
    back m =
        star_here (w ++ star_code ∷ p) (w ++ v) (literal_prefix_back w (star_code ∷ p) v plain m)

    forth : Matches (star_code ∷ (w ++ star_code ∷ p)) (w ++ v) → Matches (star_code ∷ p) v
    forth (literal c ys e split m) = absurd (e refl)
    forth (any c xs ys e split m) =
        let (rest, tail, m') = literal_prefix w (star_code ∷ p) ys plain m in
        let cut : w ++ v ≡ (xs ++ w) ++ rest =
          split ∙ ap (λ l. xs ++ l) tail ∙ sym (append_assoc xs w rest) in
        let (more, whole) = later_cut w v (xs ++ w) rest cut (omega (arith, length-append xs w)) in
        subst (Matches (star_code ∷ p)) (sym whole) (swallow p more rest m')

-- when the value is used up, only what is left of the pattern counts
pub star_at_end : (w p : Bytes) → NoStar w → Matches (star_code ∷ (w ++ p)) (w ++ []) ↔ Matches p []
star_at_end w p plain = (forth, back)
  where
    back : Matches p [] → Matches (star_code ∷ (w ++ p)) (w ++ [])
    back m = star_here (w ++ p) (w ++ []) (literal_prefix_back w p [] plain m)

    empty_end : (more rest : Bytes) → [] ≡ more ++ rest → rest ≡ []
    empty_end [] rest e = sym e
    empty_end (x ∷ more) rest e = absurd cc

    forth : Matches (star_code ∷ (w ++ p)) (w ++ []) → Matches p []
    forth (literal c ys e split m) = absurd (e refl)
    forth (any c xs ys e split m) =
        let (rest, tail, m') = literal_prefix w p ys plain m in
        let cut : w ++ [] ≡ (xs ++ w) ++ rest =
          split ∙ ap (λ l. xs ++ l) tail ∙ sym (append_assoc xs w rest) in
        let (more, whole) = later_cut w [] (xs ++ w) rest cut (omega (arith, length-append xs w)) in
        subst (Matches p) (empty_end more rest whole) m'

-- a star moves on from a byte where what stands behind it does not match
pub star_moves :
    (p : Bytes) (x : ℕ) (v : Bytes)
    → (Matches p (x ∷ v) → ⊥)
    → Matches (star_code ∷ p) (x ∷ v) ↔ Matches (star_code ∷ p) v
star_moves p x v fails = (forth, swallow p (x ∷ []) v)
  where
    forth : Matches (star_code ∷ p) (x ∷ v) → Matches (star_code ∷ p) v
    forth m = elim (star_split p x v m) [ inl here ↦ absurd (fails here) | inr later ↦ later ]
