-- ===== src/Drain/Cache/Recency.antt =====
-- What an insertion into drain's cluster cache evicts, and the order of use.
use tezcatl.Base.{
  ℕ, ◌≤◌, ◌≡◌, refl, ap, ◌∙◌, true, false, Bool-cases, inl, inr, ◌⊎◌, ◌&&◌, Option, none, some,
  Option-cases, [], ◌∷◌, ◌++◌, arith, length, drop, number_eq, number_iff, beq_refl,
}
use tezcatl.Base.Assoc.{Map, lookup, delete, Distinct, lookup-delete_self, lookup-delete_ne}
use tezcatl.Base.Ints.{ℤ, pos, pos_part, ltb_ℤ, leb_ℤ}
use tezcatl.Drain.Cache.{Cluster, Cache, get, touch, put, make_room}
use tezcatl.Drain.Cache.Validity.{IsValid, lookup-snoc, make_room-none}

-- the id of the least recently used entry
abbrev pub oldest_id : Map ℕ Cluster → Option ℕ
oldest_id [] = none
oldest_id ((k, v) ∷ m) = some k

-- `Put` of `id` has removed the entry of `j`: the cache was full, `id` new, and `j` the oldest.
pub record Evicted (id j : ℕ) (cl : Cluster) (c : Cache) : Type 0 where
  pub new : get id c ≡ none
  pub on : ltb_ℤ (pos 0) c.max_size ≡ true
  pub full : pos_part c.max_size ≤ length c.order
  pub oldest : oldest_id c.order ≡ some j
  pub gone : get j (put id cl c) ≡ none

lookup-drop :
    (j : ℕ) (m : Map ℕ Cluster)
    → Distinct m
    → (lookup j (drop 1 m) ≡ lookup j m) ⊎ (oldest_id m ≡ some j) × (lookup j (drop 1 m) ≡ none)
unfolding lookup
lookup-drop j [] d = inl refl
lookup-drop j ((k, v) ∷ m) d = elim (Bool-cases (number_eq.beq k j)) [
  | inl same ↦
      let e : k ≡ j = (number_iff k j).0 same in inr (ap some e, rw (← e) (ground (arith, d.0)))
  | inr other ↦ inl (rw other refl)
]

lookup-make_room :
    (j : ℕ) (most : ℤ) (m : Map ℕ Cluster)
    → Distinct m
    → (lookup j (make_room most m) ≡ lookup j m)
      ⊎ (ltb_ℤ (pos 0) most ≡ true)
        × (pos_part most ≤ length m)
        × (oldest_id m ≡ some j)
        × (lookup j (make_room most m) ≡ none)
unfolding make_room
lookup-make_room j most m d =
    elim (Bool-cases (ltb_ℤ (pos 0) most && leb_ℤ most (pos (length m)))) [
      | inl full ↦ elim (lookup-drop j m d) [
        | inl same ↦ inl (rw full same)
        | inr (oldest, gone) ↦ inr (ground arith, ground arith, oldest, rw full gone)
      ]
      | inr room ↦ inl (rw room refl)
    ]

-- What `Put` makes of a valid cache: the entry is there, and every other entry is as it was, except
-- that a new id, put into a full cache, removes the least recently used entry.
pub get-put :
    (id j : ℕ) (cl : Cluster) (c : Cache)
    → IsValid c
    → (get id (put id cl c) ≡ some cl)
      × (number_eq.beq id j ≡ false → (get j (put id cl c) ≡ get j c) ⊎ Evicted id j cl c)
unfolding get put
get-put id j cl c v = elim (Option-cases (lookup id c.order)) [
  | inl missing ↦
      let fresh = make_room-none id c.max_size c.order missing in
      let found = lookup-snoc id id cl (make_room c.max_size c.order) fresh in
      let others = lookup-snoc id j cl (make_room c.max_size c.order) fresh in
      (
        rw (missing, put) (ground (arith, found, beq_refl id)),
        λ ne. elim (lookup-make_room j c.max_size c.order v.distinct) [
          | inl same ↦ inl (rw (missing, put) (ground (arith, others, same, ne)))
          | inr (on, full, oldest, gone) ↦ inr (record {
            new = missing;
            on = on;
            full = full;
            oldest = oldest;
            gone = rw (missing, put) (ground (arith, others, gone, ne));
          })
        ],
      )
  | inr (old, found) ↦
      let absent = lookup-delete_self id c.order in
      (
        rw (found, put)
            (ground (arith, lookup-snoc id id cl (delete id c.order) absent, beq_refl id)),
        λ ne. inl (
            rw (found, put)
              (ground (
                arith,
                lookup-snoc id j cl (delete id c.order) absent,
                lookup-delete_ne id j c.order ne,
                ne,
              ))),
      )
]

-- the id of the most recently used entry
abbrev pub newest_id : Map ℕ Cluster → Option ℕ
newest_id [] = none
newest_id ((k, v) ∷ []) = some k
newest_id (e ∷ f ∷ m) = newest_id (f ∷ m)

newest_id-snoc : (k : ℕ) (v : Cluster) (m : Map ℕ Cluster) → newest_id (m ++ (k, v) ∷ []) ≡ some k
newest_id-snoc k v [] = refl
newest_id-snoc k v (e ∷ []) = refl
newest_id-snoc k v (e ∷ f ∷ m) = newest_id-snoc k v (f ∷ m)

delete-none : (k : ℕ) (m : Map ℕ Cluster) → lookup k m ≡ none → delete k m ≡ m
unfolding lookup delete
delete-none k [] h = refl
delete-none k ((i, w) ∷ m) h = ground (arith, delete-none k m)

delete-snoc : (k : ℕ) (v : Cluster) (m : Map ℕ Cluster) → delete k (m ++ (k, v) ∷ []) ≡ delete k m
unfolding delete
delete-snoc k v [] = rw (beq_refl k) refl
delete-snoc k v ((i, w) ∷ m) = ground (arith, delete-snoc k v m)

-- what an entry holds does not depend on the order
pub get-touch_same : (id j : ℕ) (c : Cache) → get j (touch id c) ≡ get j c
unfolding get touch
get-touch_same id j c = elim (Option-cases (lookup id c.order)) [
  | inl missing ↦ rw (missing, touch) refl
  | inr (cl, found) ↦
      let absent = lookup-delete_self id c.order in
      elim (Bool-cases (number_eq.beq id j)) [
        | inl same ↦
            let e : id ≡ j = (number_iff id j).0 same in
            rw (found, touch)
              (rw (← e) (
                ground
                  (arith, lookup-snoc id id cl (delete id c.order) absent, beq_refl id, found)))
        | inr other ↦
            rw (found, touch)
              (ground (
                arith,
                lookup-snoc id j cl (delete id c.order) absent,
                lookup-delete_ne id j c.order other,
                other,
              ))
      ]
]

-- `Touch` makes an entry that is there the most recently used one, leaves the others in their order,
-- and changes nothing that `Get` returns; an id that is not there leaves the cache as it is.
pub get-touch :
    (id : ℕ) (c : Cache)
    → ((j : ℕ) → get j (touch id c) ≡ get j c)
      × (delete id (touch id c).order ≡ delete id c.order)
      × ((cl : Cluster) → get id c ≡ some cl → newest_id (touch id c).order ≡ some id)
      × (get id c ≡ none → touch id c ≡ c)
unfolding get touch
get-touch id c = (
  λ j. get-touch_same id j c,
  elim (Option-cases (lookup id c.order)) [
    | inl missing ↦ rw (missing, touch) refl
    | inr (cl, found) ↦
        rw (found, touch)
          (delete-snoc id cl (delete id c.order)
            ∙ delete-none id (delete id c.order) (lookup-delete_self id c.order))
  ],
  λ cl found. rw (found, touch) (newest_id-snoc id cl (delete id c.order)),
  λ missing. rw (missing, touch) refl,
)
