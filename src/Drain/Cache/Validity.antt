-- ===== src/Drain/Cache/Validity.antt =====
-- The invariant of drain's cluster cache, and the entries that are written in place.
use tezcatl.Base.{
  ℕ, ◌≤◌, ◌<◌, ◌≡◌, refl, true, false, Bool-cases, inl, inr, ◌&&◌, none, some, Option-cases, [],
  ◌∷◌, ◌++◌, arith, length, drop, length-append, length-drop, number_eq, number_iff, if◌then◌else◌,
}
use tezcatl.Base.Assoc.{
  Map, lookup, delete, Distinct, delete-Distinct, insert-Distinct, length-delete,
  lookup-delete_self, length-insert_old, lookup-insert_self, lookup-insert_ne,
}
use tezcatl.Base.Ints.{ℤ, pos, pos_part, ltb_ℤ, leb_ℤ}
use tezcatl.Drain.Cache.{Cluster, Cache, get, touch, put, store, make_room}

-- an entry appended for a key that is not there
pub lookup-snoc :
    (k j : ℕ) (v : Cluster) (m : Map ℕ Cluster)
    → lookup k m ≡ none
    → lookup j (m ++ (k, v) ∷ []) ≡ (if number_eq.beq k j then some v else lookup j m)
unfolding lookup
lookup-snoc k j v [] h = refl
lookup-snoc k j v ((i, w) ∷ m) h =
    ground (arith, number_iff i k, number_iff i j, number_iff k j, lookup-snoc k j v m)

snoc-Distinct :
    (k : ℕ) (v : Cluster) (m : Map ℕ Cluster)
    → Distinct m
    → lookup k m ≡ none
    → Distinct (m ++ (k, v) ∷ [])
unfolding lookup
snoc-Distinct k v [] d h = (refl, tt)
snoc-Distinct k v ((i, w) ∷ m) d h = (
  ground (arith, number_iff i k, number_iff k i, lookup-snoc k i v m),
  snoc-Distinct k v m d.1 (ground (arith)),
)

drop-Distinct : (m : Map ℕ Cluster) → Distinct m → Distinct (drop 1 m)
drop-Distinct [] d = tt
drop-Distinct (e ∷ m) d = d.1

lookup-drop-none : (k : ℕ) (m : Map ℕ Cluster) → lookup k m ≡ none → lookup k (drop 1 m) ≡ none
unfolding lookup
lookup-drop-none k [] h = refl
lookup-drop-none k ((i, w) ∷ m) h = ground arith

-- No id twice, and no more entries than a positive bound allows.
pub record IsValid (c : Cache) : Type 0 where
  pub distinct : Distinct c.order
  pub bounded : ltb_ℤ (pos 0) c.max_size ≡ true → length c.order ≤ pos_part c.max_size

pub touch-IsValid : (id : ℕ) (c : Cache) → IsValid c → IsValid (touch id c)
unfolding touch
touch-IsValid id c v = elim (Option-cases (lookup id c.order)) [
  | inl missing ↦ rw (missing, touch) v
  | inr (cl, found) ↦
      rw (found, touch)
        (record {
          distinct =
              snoc-Distinct id cl (delete id c.order) (delete-Distinct id c.order v.distinct)
                (lookup-delete_self id c.order);
          bounded = λ h. omega (
            arith,
            length-append (delete id c.order) ((id, cl) ∷ []),
            length-delete id cl c.order v.distinct found,
            v.bounded h,
          );
        })
]

make_room_lem :
    (most : ℤ) (m : Map ℕ Cluster)
    → ltb_ℤ (pos 0) most ≡ true
    → length m ≤ pos_part most
    → length (make_room most m) < pos_part most
unfolding make_room
make_room_lem most m h b = ground (arith, length-drop 1 m)

make_room-Distinct : (most : ℤ) (m : Map ℕ Cluster) → Distinct m → Distinct (make_room most m)
unfolding make_room
make_room-Distinct most m d =
    elim (Bool-cases (ltb_ℤ (pos 0) most && leb_ℤ most (pos (length m)))) [
      | inl full ↦ rw full (drop-Distinct m d)
      | inr room ↦ rw room d
    ]

pub make_room-none :
    (k : ℕ) (most : ℤ) (m : Map ℕ Cluster) → lookup k m ≡ none → lookup k (make_room most m) ≡ none
unfolding make_room
make_room-none k most m h = elim (Bool-cases (ltb_ℤ (pos 0) most && leb_ℤ most (pos (length m)))) [
  | inl full ↦ rw full (lookup-drop-none k m h)
  | inr room ↦ rw room h
]

pub put-IsValid : (id : ℕ) (cl : Cluster) (c : Cache) → IsValid c → IsValid (put id cl c)
unfolding put
put-IsValid id cl c v = elim (Option-cases (lookup id c.order)) [
  | inl missing ↦
      rw (missing, put)
        (record {
          distinct =
              snoc-Distinct id cl (make_room c.max_size c.order)
                (make_room-Distinct c.max_size c.order v.distinct)
                (make_room-none id c.max_size c.order missing);
          bounded = λ h. omega (
            arith,
            length-append (make_room c.max_size c.order) ((id, cl) ∷ []),
            make_room_lem c.max_size c.order h (v.bounded h),
          );
        })
  | inr (old, found) ↦
      rw (found, put)
        (record {
          distinct =
              snoc-Distinct id cl (delete id c.order) (delete-Distinct id c.order v.distinct)
                (lookup-delete_self id c.order);
          bounded = λ h. omega (
            arith,
            length-append (delete id c.order) ((id, cl) ∷ []),
            length-delete id old c.order v.distinct found,
            v.bounded h,
          );
        })
]

pub get-store_self : (id : ℕ) (cl : Cluster) (c : Cache) → get id (store id cl c) ≡ some cl
unfolding get store
get-store_self id cl c = lookup-insert_self id cl c.order

pub get-store_ne :
    (id j : ℕ) (cl : Cluster) (c : Cache)
    → number_eq.beq id j ≡ false
    → get j (store id cl c) ≡ get j c
unfolding get store
get-store_ne id j cl c h = lookup-insert_ne id j cl c.order h

pub store-IsValid :
    (id : ℕ) (cl old : Cluster) (c : Cache)
    → get id c ≡ some old
    → IsValid c
    → IsValid (store id cl c)
unfolding get store
store-IsValid id cl old c found v = record {
  distinct = insert-Distinct id cl c.order v.distinct;
  bounded = λ h. omega (arith, length-insert_old id cl old c.order found, v.bounded h);
}
