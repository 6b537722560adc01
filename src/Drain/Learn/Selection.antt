-- ===== src/Drain/Learn/Selection.antt =====
-- What drain's `fastMatch` can choose.
use tezcatl.Base.{
  ℕ, ◌≡◌, refl, ◌∙◌, ap, Bool, true, false, Bool-cases, inl, inr, ◌⊎◌, Option, none, some, List, [],
  ◌∷◌, arith, length, In, Bytes, ◌==◌, some-cancel,
}
use tezcatl.Base.Ints.{pos}
use tezcatl.Drain.Cache
use tezcatl.Drain.Cache.{Cluster, Cache}
use tezcatl.Drain.Learn.{Drain, Best, compare_with, consider, best_of, no_best, fast_match}
use tezcatl.Drain.Template.{seq_distance}
use tezcatl.Model.{Floats, Ordered}

module _ {F : Type 0} ⦃fl : Floats F⦄ where
  -- a cluster of the cache under a listed id, with its similarity
  pub record Chosen (cache : Cache) (param : Bytes) (tokens : List Bytes) (include_params : Bool)
      (ids : List ℕ) (c : Cluster) (sim : F) : Type 0 where
    pub id : ℕ
    pub listed : In id ids
    pub cached : Cache.get id cache ≡ some c
    pub measured : sim ≡ (seq_distance param c.template_tokens tokens include_params).0

  abbrev Sound : Cache → Bytes → List Bytes → Bool → List ℕ → Best F → Type 0
  Sound cache param tokens include_params ids b =
      (c : Cluster) → b.matched ≡ some c → Chosen cache param tokens include_params ids c b.max_sim

  module _ (cache : Cache) (param : Bytes) (tokens : List Bytes) (include_params : Bool) where
    widen :
        {all : List ℕ} (id : ℕ) (c : Cluster) (sim : F)
        → Chosen cache param tokens include_params all c sim
        → Chosen cache param tokens include_params (id ∷ all) c sim
    widen id c sim h = record {
      id = h.id;
      listed = inr h.listed;
      cached = h.cached;
      measured = h.measured;
    }

    measure : Cluster → F
    measure c = (seq_distance param c.template_tokens tokens include_params).0

    abbrev winner : Cluster → Best F
    winner c =
        let (sim, params) = seq_distance param c.template_tokens tokens include_params in
        record { matched = some c; max_sim = sim; max_param_count = pos params }

    compare_with-cases :
        (c : Cluster) (b : Best F)
        → (compare_with param tokens include_params c b ≡ winner c)
            × ((fl.lt b.max_sim (winner c).max_sim ≡ true)
                ⊎ (fl.same (winner c).max_sim b.max_sim ≡ true))
          ⊎ (compare_with param tokens include_params c b ≡ b)
            × (fl.lt b.max_sim (winner c).max_sim ≡ false)
    unfolding compare_with
    compare_with-cases c b = ground arith

    winner-Sound :
        {all : List ℕ} (id : ℕ) (c : Cluster)
        → In id all
        → Cache.get id cache ≡ some c
        → Sound cache param tokens include_params all (winner c)
    winner-Sound id c i e k m =
        let same : c ≡ k = some-cancel m in
        record {
          id = id;
          listed = i;
          cached = e ∙ ap some same;
          measured = ap (λ x. (seq_distance param x.template_tokens tokens include_params).0) same;
        }

    compare_with-Sound :
        {all : List ℕ} (id : ℕ) (c : Cluster) (b : Best F)
        → In id all
        → Cache.get id cache ≡ some c
        → Sound cache param tokens include_params all b
        → Sound cache param tokens include_params all (compare_with param tokens include_params c b)
    compare_with-Sound id c b i e h = elim (compare_with-cases c b) [
      | inl better ↦ rw better.0 (winner-Sound id c i e)
      | inr worse ↦ rw worse.0 h
    ]

    consider-Sound :
        {all : List ℕ} (id : ℕ) (o : Option Cluster) (b : Best F)
        → In id all
        → Cache.get id cache ≡ o
        → Sound cache param tokens include_params all b
        → Sound cache param tokens include_params all (consider param tokens include_params o b)
    unfolding consider
    consider-Sound id none b i e h = h
    consider-Sound id (some c) b i e h = compare_with-Sound id c b i e h

    best_of-Sound :
        (all ids : List ℕ) (b : Best F)
        → ((id : ℕ) → In id ids → In id all)
        → Sound cache param tokens include_params all b
        → Sound cache param tokens include_params all
            (best_of cache param tokens include_params ids b)
    unfolding best_of
    best_of-Sound all [] b sub h = h
    best_of-Sound all (id ∷ ids) b sub h =
        best_of-Sound all ids (consider param tokens include_params (Cache.get id cache) b)
          (λ j i. sub j (inr i))
          (consider-Sound id (Cache.get id cache) b (sub id (inl refl)) refl h)

    -- no cluster listed so far is more similar than the best one
    abbrev pub Maximal : List ℕ → F → Type 0
    Maximal ids most =
        (id : ℕ) (c : Cluster)
        → In id ids
        → Cache.get id cache ≡ some c
        → fl.lt most (seq_distance param c.template_tokens tokens include_params).0 ≡ false

    module _ (order : Ordered F fl) where
      beats :
          (c k : Cluster) (b : Best F)
          → (fl.lt b.max_sim (winner c).max_sim ≡ true)
            ⊎ (fl.same (winner c).max_sim b.max_sim ≡ true)
          → fl.lt b.max_sim (winner k).max_sim ≡ false
          → fl.lt (winner c).max_sim (winner k).max_sim ≡ false
      beats c k b (inl up) h = elim (Bool-cases (fl.lt (winner c).max_sim (winner k).max_sim)) [
        | inl more ↦ absurd (let g = order.lt_trans _ _ _ up more in cc)
        | inr less ↦ less
      ]
      beats c k b (inr level) h = order.same_lt _ _ (winner k).max_sim level ∙ h

      consider-Maximal :
          (seen : List ℕ) (id : ℕ) (o : Option Cluster) (b : Best F)
          → Cache.get id cache ≡ o
          → Maximal seen b.max_sim
          → Maximal (id ∷ seen) (consider param tokens include_params o b).max_sim
      unfolding consider
      consider-Maximal seen id none b e h j k (inl i) g =
          absurd (let q = ap (λ x. Cache.get x cache) i in cc)
      consider-Maximal seen id none b e h j k (inr i) g = h j k i g
      consider-Maximal seen id (some c) b e h j k (inl i) g =
          let same : c ≡ k = (let q = ap (λ x. Cache.get x cache) i in cc) in
          elim (compare_with-cases c b) [
            | inl (better, how) ↦ rw (better, ← same) (order.lt_irrefl _)
            | inr (worse, how) ↦ rw (worse, ← same) how
          ]
      consider-Maximal seen id (some c) b e h j k (inr i) g = elim (compare_with-cases c b) [
        | inl (better, how) ↦ rw better (beats c k b how (h j k i g))
        | inr (worse, how) ↦ rw worse (h j k i g)
      ]

      best_of-Maximal :
          (seen ids : List ℕ) (b : Best F)
          → Maximal seen b.max_sim
          → (id : ℕ) (c : Cluster) → In id seen ⊎ In id ids
          → Cache.get id cache ≡ some c
          → fl.lt (best_of cache param tokens include_params ids b).max_sim (winner c).max_sim
            ≡ false
      unfolding best_of
      best_of-Maximal seen [] b h j k (inl i) g = h j k i g
      best_of-Maximal seen [] b h j k (inr i) g = elim i [ ]
      best_of-Maximal seen (id ∷ ids) b h j k i g =
          best_of-Maximal (id ∷ seen) ids
            (consider param tokens include_params (Cache.get id cache) b)
            (consider-Maximal seen id (Cache.get id cache) b refl h) j k (move i) g
        where
          move : In j seen ⊎ In j (id ∷ ids) → In j (id ∷ seen) ⊎ In j ids
          move (inl x) = inl (inr x)
          move (inr (inl x)) = inl (inl x)
          move (inr (inr x)) = inr x

  -- What `fastMatch` returns is a cluster that is listed, has not been evicted, and is at least as
  -- similar to the message as the threshold asks.
  pub fast_match-Chosen :
      (d : Drain F) (ids : List ℕ) (tokens : List Bytes) (th : F) (include_params : Bool)
      (c : Cluster)
      → fast_match d ids tokens th include_params ≡ some c
      → (sim : F) × Chosen d.clusters d.settings.param_str tokens include_params ids c sim
        × (fl.lt sim th ≡ false)
  unfolding fast_match
  fast_match-Chosen d ids tokens th include_params c h =
      let b = best_of d.clusters d.settings.param_str tokens include_params ids no_best in
      elim (Bool-cases (fl.lt b.max_sim th)) [
        | inl below ↦ absurd (let g = rw below at h in cc)
        | inr enough ↦ (
          b.max_sim,
          best_of-Sound d.clusters d.settings.param_str tokens include_params ids ids no_best
              (λ j i. i) (λ k m. absurd (let g = m in cc)) c (rw enough at h),
          enough,
        )
      ]

  -- With comparisons ordered as those of `float64`, what `fastMatch` returns is a most similar cluster:
  -- of the listed clusters that are still in the cache none is more similar to the message, the
  -- returned one is as similar as the threshold asks, and stands in the list and the cache.
  pub fast_match-Maximal :
      (d : Drain F) (ids : List ℕ) (tokens : List Bytes) (th : F) (include_params : Bool)
      (c : Cluster)
      → Ordered F fl
      → fast_match d ids tokens th include_params ≡ some c
      → (sim : F) × Chosen d.clusters d.settings.param_str tokens include_params ids c sim
        × (fl.lt sim th ≡ false)
        × Maximal d.clusters d.settings.param_str tokens include_params ids sim
  unfolding fast_match
  fast_match-Maximal d ids tokens th include_params c order h =
      let b = best_of d.clusters d.settings.param_str tokens include_params ids no_best in
      elim (Bool-cases (fl.lt b.max_sim th)) [
        | inl below ↦ absurd (let g = rw below at h in cc)
        | inr enough ↦ (
          b.max_sim,
          best_of-Sound d.clusters d.settings.param_str tokens include_params ids ids no_best
              (λ j i. i) (λ k m. absurd (let g = m in cc)) c (rw enough at h),
          enough,
          λ j k i g.
              best_of-Maximal d.clusters d.settings.param_str tokens include_params order [] ids
                no_best (λ x y z w. elim z [ ]) j k (inr i) g,
        )
      ]

  -- A message that is not as long as the template has similarity 0.
  pub seq_distance_short :
      (param : Bytes) (template tokens : List Bytes) (include_params : Bool)
      → (length template == length tokens) ≡ false
      → (seq_distance param template tokens include_params).0 ≡ fl.hundredths 0
  unfolding seq_distance
  seq_distance_short param template tokens include_params h = rw h refl
