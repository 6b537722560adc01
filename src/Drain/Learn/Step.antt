-- ===== src/Drain/Learn/Step.antt =====
-- What one message teaches drain.
use tezcatl.Base.{
  ℕ, ◌+◌, ◌≤◌, ◌<◌, max, ◌≡◌, ◌≢◌, refl, sym, subst, ◌∙◌, true, false, not, Bool-cases, inl, inr,
  ◌⊎◌, none, some, Option-cases, >>=-eq-some, List, [], ◌∷◌, arith, length, Bytes, ◌==◌, ==_iff,
  some-cancel, if◌then◌else◌, is_some, number_eq, number_iff, same_bytes_iff, bytes_eq, beq_refl,
}
use tezcatl.Base.Ints.{pos_part}
use tezcatl.Drain.Cache
use tezcatl.Drain.Cache.{Cluster, Cache}
use tezcatl.Drain.Cache.Recency
use tezcatl.Drain.Cache.Recency.{Evicted}
use tezcatl.Drain.Cache.Validity
use tezcatl.Drain.Cache.Validity.{IsValid}
use tezcatl.Drain.Learn.{
  Drain, Mined, unchanged, cluster_created, cluster_template_changed, search, create, update,
  add_tokens,
}
use tezcatl.Drain.Learn.Selection.{fast_match-Chosen, seq_distance_short}
use tezcatl.Drain.Template.{equal_tokens}
use tezcatl.Drain.Template.Generality.{Covers, Covers-refl, Generalizes, create_template_lem}
use tezcatl.Drain.Tree.{tree_search}
use tezcatl.Drain.Tree.Shape.{RoomyAll, add_seq-Roomy}
use tezcatl.Model.{Floats}

equal_tokens→eq : (a b : List Bytes) → equal_tokens a b ≡ true → a ≡ b
unfolding equal_tokens
equal_tokens→eq [] [] h = refl
equal_tokens→eq [] (y ∷ b) h = cc
equal_tokens→eq (x ∷ a) [] h = cc
equal_tokens→eq (x ∷ a) (y ∷ b) h = ground (arith, same_bytes_iff x y, equal_tokens→eq a b)

equal_tokens_refl : (a : List Bytes) → equal_tokens a a ≡ true
unfolding equal_tokens
equal_tokens_refl [] = refl
equal_tokens_refl (x ∷ a) = rw (beq_refl x) (equal_tokens_refl a)

-- the template that `addTokens` keeps is the new one, also where it does not store it
kept_lem : (new old : List Bytes) → (if not (equal_tokens new old) then new else old) ≡ new
kept_lem new old = elim (Bool-cases (equal_tokens new old)) [
  | inl same ↦ rw same (sym (equal_tokens→eq new old same))
  | inr other ↦ rw other refl
]

told_lem :
    (new old : List Bytes)
    → let kind = if not (equal_tokens new old) then cluster_template_changed else unchanged in
      (kind ≡ unchanged) × (new ≡ old) ⊎ (kind ≡ cluster_template_changed) × (new ≢ old)
told_lem new old = elim (Bool-cases (equal_tokens new old)) [
  | inl same ↦ inl (rw same refl, equal_tokens→eq new old same)
  | inr other ↦ inr (
    rw other refl,
    λ e. absurd (let h : equal_tokens new old ≡ true = rw e (equal_tokens_refl old) in cc),
  )
]

module _ {F : Type 0} ⦃fl : Floats F⦄ where
  -- A miner between two messages: a positive threshold and room for children, a tree with no missing
  -- child, a valid cache, and clusters kept under their own ids, which the counter has passed.
  pub record Ready (d : Drain F) : Type 0 where
    pub threshold : fl.lt (fl.hundredths 0) d.sim_th ≡ true
    pub room : 0 < pos_part d.settings.max_children
    pub roomy : RoomyAll d.settings d.root
    pub valid : IsValid d.clusters
    pub keyed :
        (id : ℕ) (c : Cluster)
        → Cache.get id d.clusters ≡ some c
        → (c.id ≡ id) × (id ≤ d.clusters_counter)

  -- The message began a cluster of its own.
  pub record Created (tokens : List Bytes) (d : Drain F) (r : Mined F) : Type 0 where
    pub kind : r.change_type ≡ cluster_created
    pub new : Cache.get (d.clusters_counter + 1) d.clusters ≡ none
    pub numbered : r.cluster.id ≡ d.clusters_counter + 1
    pub template : r.cluster.template_tokens ≡ tokens
    pub once : r.cluster.size ≡ 1

  -- The message joined the cluster `m`.
  pub record Joined (tokens : List Bytes) (d : Drain F) (r : Mined F) (m : Cluster) : Type 0 where
    pub known : Cache.get m.id d.clusters ≡ some m
    pub same_id : r.cluster.id ≡ m.id
    pub counted : r.cluster.size ≡ m.size + 1
    pub wider : Generalizes d.settings.param_str r.cluster.template_tokens m.template_tokens
    pub told :
        (r.change_type ≡ unchanged) × (r.cluster.template_tokens ≡ m.template_tokens)
        ⊎ (r.change_type ≡ cluster_template_changed)
          × (r.cluster.template_tokens ≢ m.template_tokens)

  pub record Learned (tokens : List Bytes) (d : Drain F) (r : Mined F) : Type 0 where
    pub ready : Ready r.drain
    pub stored : Cache.get r.cluster.id r.drain.clusters ≡ some r.cluster
    pub covers : Covers d.settings.param_str r.cluster.template_tokens tokens
    pub how : Created tokens d r ⊎ (m : Cluster) × Joined tokens d r m

  fresh_id : (d : Drain F) → Ready d → Cache.get (d.clusters_counter + 1) d.clusters ≡ none
  fresh_id d h = elim (Option-cases (Cache.get (d.clusters_counter + 1) d.clusters)) [
    | inl missing ↦ missing
    | inr (c, found) ↦ absurd (omega (arith, (h.keyed (d.clusters_counter + 1) c found).1))
  ]

  put-keyed :
      (id : ℕ) (cluster : Cluster) (d : Drain F)
      → Ready d
      → cluster.id ≡ id
      → (j : ℕ) (c : Cluster) → Cache.get j (Cache.put id cluster d.clusters) ≡ some c
      → (c.id ≡ j) × (j ≤ max id d.clusters_counter)
  put-keyed id cluster d h own j c found =
      let (here, others) = Recency.get-put id j cluster d.clusters h.valid in
      elim (Bool-cases (number_eq.beq id j)) [
        | inl same ↦
            let e : id ≡ j = (number_iff id j).0 same in
            let moved =
              subst (λ k. Cache.get k (Cache.put id cluster d.clusters) ≡ some cluster) e here in
            let it : cluster ≡ c = some-cancel (sym moved ∙ found) in
            (rw (← it, own) e, omega arith)
        | inr other ↦ elim (others other) [
          | inl kept ↦ let (own_id, below) = h.keyed j c (sym kept ∙ found) in (own_id, omega arith)
          | inr gone ↦ absurd (let g = gone.gone in cc)
        ]
      ]

  create-Learned :
      (tokens : List Bytes) (d : Drain F)
      → Ready d
      → (r : Mined F) × (create tokens d ≡ some r) × Learned tokens d r
  unfolding create
  create-Learned tokens d h =
      let id = d.clusters_counter + 1 in
      let cluster : Cluster = record { id = id; template_tokens = tokens; size = 1 } in
      let clusters = Cache.put id cluster d.clusters in
      let (root, added, roomy) =
        add_seq-Roomy d.settings (λ j. is_some (Cache.get j clusters)) id tokens d.root h.room
          h.roomy in
      (
        record {
          drain = record d { root = root; clusters = clusters; clusters_counter = id };
          cluster = cluster;
          change_type = cluster_created;
        },
        rw added refl,
        record {
          ready = record {
            threshold = h.threshold;
            room = h.room;
            roomy = roomy;
            valid = Validity.put-IsValid id cluster d.clusters h.valid;
            keyed = λ j c found.
                let (own, below) = put-keyed id cluster d h refl j c found in (own, omega arith);
          };
          stored = (Recency.get-put id id cluster d.clusters h.valid).0;
          covers = Covers-refl d.settings.param_str tokens;
          how = inl (record {
            kind = refl;
            new = fresh_id d h;
            numbered = refl;
            template = refl;
            once = refl;
          });
        },
      )

  store-keyed :
      (m cluster : Cluster) (d : Drain F)
      → Ready d
      → Cache.get m.id d.clusters ≡ some m
      → cluster.id ≡ m.id
      → (j : ℕ) (c : Cluster)
      → Cache.get j (Cache.touch m.id (Cache.store m.id cluster d.clusters)) ≡ some c
      → (c.id ≡ j) × (j ≤ d.clusters_counter)
  store-keyed m cluster d h known own j c found =
      let touched =
        sym (Recency.get-touch_same m.id j (Cache.store m.id cluster d.clusters)) ∙ found in
      elim (Bool-cases (number_eq.beq m.id j)) [
        | inl same ↦
            let e : m.id ≡ j = (number_iff m.id j).0 same in
            let stored : Cache.get j (Cache.store m.id cluster d.clusters) ≡ some cluster =
              rw (← e) (Validity.get-store_self m.id cluster d.clusters) in
            let it : cluster ≡ c = some-cancel (sym stored ∙ touched) in
            (rw (← it) (own ∙ e), rw (← e) (h.keyed m.id m known).1)
        | inr other ↦
            h.keyed j c (sym (Validity.get-store_ne m.id j cluster d.clusters other) ∙ touched)
      ]

  update-Learned :
      (tokens : List Bytes) (m : Cluster) (d : Drain F)
      → Ready d
      → Cache.get m.id d.clusters ≡ some m
      → length tokens ≡ length m.template_tokens
      → (r : Mined F) × (update tokens m d ≡ some r) × Learned tokens d r
  unfolding update
  update-Learned tokens m d h known same =
      let (new, made, size, covers, wider, least) =
        create_template_lem d.settings.param_str tokens m.template_tokens same in
      let old = m.template_tokens in
      let changed = not (equal_tokens new old) in
      let cluster : Cluster = record m {
        template_tokens = if changed then new else old;
        size = m.size + 1;
      } in
      let clusters = Cache.touch m.id (Cache.store m.id cluster d.clusters) in
      (
        record {
          drain = record d { clusters = clusters };
          cluster = cluster;
          change_type = if changed then cluster_template_changed else unchanged;
        },
        rw made refl,
        record {
          ready = record {
            threshold = h.threshold;
            room = h.room;
            roomy = h.roomy;
            valid =
                Validity.touch-IsValid m.id (Cache.store m.id cluster d.clusters)
                  (Validity.store-IsValid m.id cluster m d.clusters known h.valid);
            keyed = store-keyed m cluster d h known refl;
          };
          stored =
              Recency.get-touch_same m.id m.id (Cache.store m.id cluster d.clusters)
              ∙ Validity.get-store_self m.id cluster d.clusters;
          covers = rw (kept_lem new old) covers;
          how = inr (
            m,
            record {
              known = known;
              same_id = refl;
              counted = refl;
              wider = rw (kept_lem new old) wider;
              told = rw (kept_lem new old) (told_lem new old);
            },
          );
        },
      )

  searched_lem :
      (tokens : List Bytes) (m : Cluster) (d : Drain F)
      → Ready d
      → search d tokens d.sim_th false ≡ some m
      → (Cache.get m.id d.clusters ≡ some m) × (length tokens ≡ length m.template_tokens)
  unfolding search
  searched_lem tokens m d h found =
      let (leaf, listed, matched) = >>=-eq-some (tree_search d.settings tokens d.root) _ found in
      let (sim, chosen, enough) = fast_match-Chosen d leaf tokens d.sim_th false m matched in
      let (own, below) = h.keyed chosen.id m chosen.cached in
      (
        subst (λ k. Cache.get k d.clusters ≡ some m) (sym own) chosen.cached,
        elim (Bool-cases (length m.template_tokens == length tokens)) [
          | inl same ↦ sym ((==_iff (length m.template_tokens) (length tokens)).0 same)
          | inr other ↦
              let zero_sim =
                chosen.measured
                ∙ seq_distance_short d.settings.param_str m.template_tokens tokens false other in
              let low : fl.lt sim d.sim_th ≡ true = rw zero_sim h.threshold in absurd (cc)
        ],
      )

  -- Learning a message never panics and never loses it: from a miner that is ready, `addTokens`
  -- returns a cluster that stands in the cache under its id and whose template covers the
  -- message; it is either a new one, under a new id, with the message as its template and size 1,
  -- or a known one, whose template covers all that it covered before, whose size is one more, and
  -- whose change is reported exactly when its template changed. The miner is ready again.
  pub add_tokens-Learned :
      (tokens : List Bytes) (d : Drain F)
      → Ready d
      → (r : Mined F) × (add_tokens tokens d ≡ some r) × Learned tokens d r
  unfolding add_tokens
  add_tokens-Learned tokens d h = elim (Option-cases (search d tokens d.sim_th false)) [
    | inl none_found ↦ rw (none_found, add_tokens) (create-Learned tokens d h)
    | inr (m, found) ↦
        let (known, same) = searched_lem tokens m d h found in
        rw (found, add_tokens) (update-Learned tokens m d h known same)
  ]
