-- ===== src/Drain/Snapshot/Restoring.antt =====
-- internal/core/drain/snapshot.go: what `Restore` makes of a snapshot.
use tezcatl.Base.{
  ℕ, ◌≤◌, ◌<◌, ◌≡◌, refl, sym, subst, ap, ◌∙◌, Bool, true, Bool-cases, inl, inr, Option, none, some,
  [], ◌∷◌, ◌++◌, append-nil, append_assoc, arith, length, length-append, Bytes, is_some, All, map,
  number_eq, number_iff, beq_refl, ◌>>=◌,
}
use tezcatl.Base.Assoc.{Map, lookup, has, Distinct}
use tezcatl.Base.Ints.{ℤ, pos, pos_part, ltb_ℤ}
use tezcatl.Drain.Cache
use tezcatl.Drain.Cache.{Cluster, Cache, make_room, values}
use tezcatl.Drain.Cache.Validity.{IsValid}
use tezcatl.Drain.Learn.{Drain}
use tezcatl.Drain.Learn.Step.{Ready}
use tezcatl.Drain.Settle.{Config, new_drain}
use tezcatl.Drain.Snapshot.{Snap, restored, take_snapshot, snapshot, put_back, or_panic, restore}
use tezcatl.Drain.Tree.{Settings}
use tezcatl.Drain.Tree.Shape.{RoomyAll, no_child, add_seq-Roomy}
use tezcatl.Model.{Floats}

-- a key of a later entry is not among the earlier ones
new_key :
    (p : Map ℕ Cluster) (k : ℕ) (v : Cluster) (rest : Map ℕ Cluster)
    → Distinct (p ++ (k, v) ∷ rest)
    → lookup k p ≡ none
unfolding lookup
new_key [] k v rest d = refl
new_key ((j, w) ∷ p) k v rest d = elim (Bool-cases (number_eq.beq j k)) [
  | inl same ↦ absurd (
      let e : j ≡ k = (number_iff j k).0 same in
      let there : has j (p ++ (k, v) ∷ rest) ≡ true = later p j k v rest (sym e) in
      let g = sym there ∙ d.0 in cc)
  | inr other ↦ rw other (new_key p k v rest d.1)
]
  where
    later :
        (q : Map ℕ Cluster) (i l : ℕ) (u : Cluster) (r : Map ℕ Cluster)
        → l ≡ i
        → has i (q ++ (l, u) ∷ r) ≡ true
    later [] i l u r e = rw ((number_iff l i).1 e) refl
    later ((a, b) ∷ q) i l u r e = elim (Bool-cases (number_eq.beq a i)) [
      | inl here ↦ rw here refl
      | inr there ↦ rw there (later q i l u r e)
    ]

-- a cache that holds all of them has room for the next
make_room_idle :
    (most : ℤ) (m : Map ℕ Cluster)
    → (ltb_ℤ (pos 0) most ≡ true → length m < pos_part most)
    → make_room most m ≡ m
unfolding make_room
make_room_idle most m fits = ground (arith, fits)

keyed_all :
    (m : Map ℕ Cluster)
    → Distinct m
    → ((id : ℕ) (c : Cluster) → lookup id m ≡ some c → c.id ≡ id)
    → All (λ e. e.1.id ≡ e.0) m
unfolding lookup
keyed_all [] d h = tt
keyed_all ((k, v) ∷ m) d h =
    (h k v (rw (beq_refl k) refl), keyed_all m d.1 (λ id c e. h id c (behind id c e)))
  where
    behind : (id : ℕ) (c : Cluster) → lookup id m ≡ some c → lookup id ((k, v) ∷ m) ≡ some c
    behind id c e = elim (Bool-cases (number_eq.beq k id)) [
      | inl same ↦ absurd (
          let q : k ≡ id = (number_iff k id).0 same in
          let there : has k m ≡ true = rw (q, e) refl in let g = sym there ∙ d.0 in cc)
      | inr other ↦ rw other e
    ]

put_order :
    (p : Map ℕ Cluster) (c : Cluster) (rest : Map ℕ Cluster) (k : Cache)
    → k.order ≡ p
    → Distinct (p ++ (c.id, c) ∷ rest)
    → (ltb_ℤ (pos 0) k.max_size ≡ true → length (p ++ (c.id, c) ∷ rest) ≤ pos_part k.max_size)
    → Cache.put c.id c k ≡ record { max_size = k.max_size; order = p ++ (c.id, c) ∷ [] }
unfolding Cache.put
put_order p c rest k e d fits =
    let new : lookup c.id k.order ≡ none =
      subst (λ o. lookup c.id o ≡ none) (sym e) (new_key p c.id c rest d) in
    let idle : make_room k.max_size k.order ≡ p =
      make_room_idle k.max_size k.order (λ bounded.
        subst (λ o. length o < pos_part k.max_size) (sym e)
          (omega (arith, fits bounded, length-append p ((c.id, c) ∷ rest))))
      ∙ e in
    rw (Cache.put, new, idle) refl

module _ {F : Type 0} where
  -- the clusters in place of the cache's, the rest of `d` but for the tree
  record PutBack (d : Drain F) (order : Map ℕ Cluster) (r : Option (Drain F)) : Type 0 where
    drain : Drain F
    is_drain : r ≡ some drain
    same_settings : drain.settings ≡ d.settings
    same_threshold : drain.sim_th ≡ d.sim_th
    same_counter : drain.clusters_counter ≡ d.clusters_counter
    in_place : drain.clusters ≡ record { max_size = d.clusters.max_size; order = order }
    roomy : RoomyAll drain.settings drain.root

  put_back-lem :
      (p rest : Map ℕ Cluster) (d : Drain F)
      → d.clusters.order ≡ p
      → Distinct (p ++ rest)
      → All (λ e. e.1.id ≡ e.0) rest
      → (ltb_ℤ (pos 0) d.clusters.max_size ≡ true
          → length (p ++ rest) ≤ pos_part d.clusters.max_size)
      → 0 < pos_part d.settings.max_children
      → RoomyAll d.settings d.root
      → PutBack d (p ++ rest) (put_back (map (λ e. e.1) rest) d)
  unfolding put_back
  put_back-lem p [] d e dist keyed fits room roomy = record {
    drain = d;
    is_drain = refl;
    same_settings = refl;
    same_threshold = refl;
    same_counter = refl;
    in_place =
        ap (λ o. record { max_size = d.clusters.max_size; order = o }) (e ∙ sym (append-nil p));
    roomy = roomy;
  }
  put_back-lem p ((k, c) ∷ rest) d e dist (own, keyed) fits room roomy =
      let split : (p ++ (c.id, c) ∷ []) ++ rest ≡ p ++ (k, c) ∷ rest =
        append_assoc p ((c.id, c) ∷ []) rest ∙ ap (λ i. p ++ (i, c) ∷ rest) own in
      let clusters : Cache = record {
        max_size = d.clusters.max_size;
        order = p ++ (c.id, c) ∷ [];
      } in
      let put : Cache.put c.id c d.clusters ≡ clusters =
        put_order p c rest d.clusters e (subst (λ i. Distinct (p ++ (i, c) ∷ rest)) (sym own) dist)
          (subst
            (λ i.
              ltb_ℤ (pos 0) d.clusters.max_size ≡ true
              → length (p ++ (i, c) ∷ rest) ≤ pos_part d.clusters.max_size)
            (sym own) fits) in
      let (root, added, rooted) =
        add_seq-Roomy d.settings (λ j. is_some (Cache.get j (Cache.put c.id c d.clusters))) c.id
          c.template_tokens d.root room roomy in
      let more =
        put_back-lem (p ++ (c.id, c) ∷ []) rest (record d { root = root; clusters = clusters }) refl
          (subst Distinct (sym split) dist) keyed
          (subst
            (λ m.
              ltb_ℤ (pos 0) d.clusters.max_size ≡ true → length m ≤ pos_part d.clusters.max_size)
            (sym split) fits)
          room rooted in
      record {
        drain = more.drain;
        is_drain =
            ap
              (λ r. r >>= λ t.
                put_back (map (λ e. e.1) rest)
                  (record d { root = t; clusters = Cache.put c.id c d.clusters }))
              added
            ∙ ap (λ l. put_back (map (λ e. e.1) rest) (record d { root = root; clusters = l })) put
            ∙ more.is_drain;
        same_settings = more.same_settings;
        same_threshold = more.same_threshold;
        same_counter = more.same_counter;
        in_place =
            more.in_place ∙ ap (λ o. record { max_size = d.clusters.max_size; order = o }) split;
        roomy = more.roomy;
      }

module _ {F : Type 0} ⦃fl : Floats F⦄ where
  -- A snapshot restores what was learned: a miner that is ready, of the same configuration, restored
  -- from its own snapshot by a codec that gives the snapshot back, has the same clusters, in the same
  -- order of use, the same counter and settings, no panic on the way, and is ready to go on.
  pub restore-snapshot :
      (encode : Snap → Bytes) (decode : Bytes → Option Snap) (has_numbers : Bytes → Bool)
      (config : Config F) (d : Drain F)
      → decode (encode (take_snapshot d)) ≡ some (take_snapshot d)
      → Ready d
      → d.settings ≡ (new_drain has_numbers config).settings
      → d.sim_th ≡ config.sim_th
      → d.clusters.max_size ≡ config.max_clusters
      → (d' : Drain F) × (restore decode has_numbers config (snapshot encode d) ≡ restored d')
        × (d'.clusters ≡ d.clusters)
        × (d'.clusters_counter ≡ d.clusters_counter)
        × (d'.settings ≡ d.settings)
        × Ready d'
  unfolding restore snapshot take_snapshot new_drain Cache.get lookup
  restore-snapshot encode decode has_numbers config d codec ready settings threshold most =
      let start : Drain F = record (new_drain has_numbers config) {
        clusters_counter = d.clusters_counter;
      } in
      let back =
        put_back-lem [] d.clusters.order start refl ready.valid.distinct
          (keyed_all d.clusters.order ready.valid.distinct (λ id c e. (ready.keyed id c e).0))
          (subst (λ n. ltb_ℤ (pos 0) n ≡ true → length d.clusters.order ≤ pos_part n) most
            ready.valid.bounded)
          (subst (λ (s : Settings). 0 < pos_part s.max_children) settings ready.room) no_child in
      let clusters : back.drain.clusters ≡ d.clusters =
        back.in_place ∙ ap (λ n. record { max_size = n; order = d.clusters.order }) (sym most) in
      let same : back.drain.settings ≡ d.settings = back.same_settings ∙ sym settings in
      (
        back.drain,
        rw (restore, codec) (ap or_panic back.is_drain),
        clusters,
        back.same_counter,
        same,
        record {
          threshold =
              subst (λ t. fl.lt (fl.hundredths 0) t ≡ true)
                (sym (back.same_threshold ∙ sym threshold)) ready.threshold;
          room = subst (λ (s : Settings). 0 < pos_part s.max_children) (sym same) ready.room;
          roomy = back.roomy;
          valid = subst IsValid (sym clusters) ready.valid;
          keyed = λ id c e.
              let h = ready.keyed id c (subst (λ k. Cache.get id k ≡ some c) clusters e) in
              (h.0, subst (λ n. id ≤ n) (sym back.same_counter) h.1);
        },
      )
