-- ===== src/Dampen/Eviction.antt =====
-- Which patterns dampen forgets when its memory is full.
use tezcatl.Base.{
  ℕ, ◌⊎◌, ◌∙◌, ◌+◌, ◌/◌, ◌≤◌, ◌≡◌, sym, true, false, Bool-cases, inl, inr, none, some, List, [],
  ◌∷◌, arith, length, take, drop, All, In, In-take, In-take-drop, All-In, Bytes, bytes_eq,
  same_bytes_iff, beq_refl, ltb→le,
}
use tezcatl.Base.Assoc.{Map, lookup, delete, has, Distinct, lookup-delete_self, lookup-delete_ne}
use tezcatl.Base.Ints.{ℤ, pos, Time, ltb_ℤ}
use tezcatl.Base.Sorting.{sort_by, All-sort_by, In-sort_by, sort_by-Sorted, Sorted-take-drop}
use tezcatl.Dampen.{Pattern, Aged, seen_before, aged, delete_all, make_room}
use tezcatl.Dampen.Memory.{Stands, aged-Stands}

before-asym : (x y : Aged) → seen_before x y ≡ true → seen_before y x ≡ false
before-asym x y h = ground arith

before-through :
    (x y z : Aged) → seen_before y x ≡ false → seen_before z y ≡ false → seen_before z x ≡ false
before-through x y z h k = ground arith

module _ {F : Type 0} where
  -- the entry shows when its pattern was last seen
  abbrev Dated : Map Bytes (Pattern F) → Aged → Type 0
  Dated m e = (p : Pattern F) → lookup e.0 m ≡ some p → e.1 ≡ p.last_seen

  Dated-cons :
      (j : Bytes) (q : Pattern F) (m : Map Bytes (Pattern F)) (es : List Aged)
      → has j m ≡ false
      → All (Stands m) es
      → All (Dated m) es
      → All (Dated ((j, q) ∷ m)) es
  unfolding lookup
  Dated-cons j q m [] n s h = tt
  Dated-cons j q m (e ∷ es) n s h =
      (λ p l. h.0 p (ground (arith, same_bytes_iff j e.0, s.0)), Dated-cons j q m es n s.1 h.1)

  aged-Dated : (m : Map Bytes (Pattern F)) → Distinct m → All (Dated m) (aged m)
  unfolding aged lookup
  aged-Dated [] d = tt
  aged-Dated ((k, p) ∷ m) d = (
    λ q l. ground (arith, same_bytes_iff k k),
    Dated-cons k p m (aged m) d.0 (aged-Stands m) (aged-Dated m d.1),
  )

  aged-lookup :
      (j : Bytes) (q : Pattern F) (m : Map Bytes (Pattern F))
      → lookup j m ≡ some q
      → In (j, q.last_seen) (aged m)
  unfolding aged lookup
  aged-lookup j q [] h = absurd (ground arith)
  aged-lookup j q ((k, p) ∷ m) h = elim (Bool-cases (bytes_eq.beq k j)) [
    | inl same ↦ inl (ground (arith, same_bytes_iff k j))
    | inr other ↦ inr (aged-lookup j q m (ground arith))
  ]

  -- what is deleted stood among the entries
  deleted-In :
      (k : Bytes) (p : Pattern F) (es : List Aged) (m : Map Bytes (Pattern F))
      → lookup k m ≡ some p
      → lookup k (delete_all es m) ≡ none
      → (t : Time) × In (k, t) es
  unfolding delete_all
  deleted-In k p [] m h g = absurd (ground arith)
  deleted-In k p ((j, t) ∷ es) m h g = elim (Bool-cases (bytes_eq.beq j k)) [
    | inl same ↦ (t, inl (ground (arith, same_bytes_iff j k)))
    | inr other ↦
        let (u, i) = deleted-In k p es (delete j m) (lookup-delete_ne j k m other ∙ h) g in
        (u, inr i)
  ]

  -- what stays was there before, and stood not among the entries
  kept-out :
      (j : Bytes) (q : Pattern F) (es : List Aged) (m : Map Bytes (Pattern F))
      → lookup j (delete_all es m) ≡ some q
      → (lookup j m ≡ some q) × All (λ e. bytes_eq.beq e.0 j ≡ false) es
  unfolding delete_all
  kept-out j q [] m h = (h, tt)
  kept-out j q ((k, t) ∷ es) m h =
      let (before_it, others) = kept-out j q es (delete k m) h in
      elim (Bool-cases (bytes_eq.beq k j)) [
        | inl same ↦
            let e : k ≡ j = (same_bytes_iff k j).0 same in
            absurd (ground (arith, e, lookup-delete_self j m))
        | inr other ↦ (sym (lookup-delete_ne k j m other) ∙ before_it, (other, others))
      ]

  -- Making room forgets the patterns seen longest ago: of a map with no key twice, a pattern that is
  -- dropped was last seen no later than any pattern that stays, and what stays is as it was.
  pub make_room-oldest :
      (most : ℤ) (m : Map Bytes (Pattern F)) (k j : Bytes) (p q : Pattern F)
      → Distinct m
      → lookup k m ≡ some p
      → lookup k (make_room most m) ≡ none
      → lookup j (make_room most m) ≡ some q
      → (lookup j m ≡ some q) × (p.last_seen ≤ q.last_seen)
  unfolding make_room
  make_room-oldest most m k j p q d present gone stays =
      elim (Bool-cases (ltb_ℤ (pos (length m)) most)) [
        | inl room ↦ absurd (let h = rw room at gone in ground arith)
        | inr full ↦ oldest (rw full at gone) (rw full at stays)
      ]
    where
      es : List Aged
      es = sort_by seen_before (aged m)

      n : ℕ
      n = length es / 10 + 1

      stays_outside :
          In (j, q.last_seen) (take n es) ⊎ In (j, q.last_seen) (drop n es)
          → All (λ e. bytes_eq.beq e.0 j ≡ false) (take n es)
          → In (j, q.last_seen) (drop n es)
      stays_outside (inl i) a = absurd (
          let h : bytes_eq.beq j j ≡ false =
            All-In (λ (e : Aged). bytes_eq.beq e.0 j ≡ false) (j, q.last_seen) (take n es) a i in
          ground (arith, beq_refl j))
      stays_outside (inr i) a = i

      oldest :
          lookup k (delete_all (take n es) m) ≡ none
          → lookup j (delete_all (take n es) m) ≡ some q
          → (lookup j m ≡ some q) × (p.last_seen ≤ q.last_seen)
      oldest gone_k stays_j =
          let (t, taken) = deleted-In k p (take n es) m present gone_k in
          let (here, outside) = kept-out j q (take n es) m stays_j in
          let dated : t ≡ p.last_seen =
            All-In (Dated m) (k, t) es (All-sort_by seen_before (Dated m) (aged m) (aged-Dated m d))
              (In-take (k, t) n es taken) p present in
          let late : In (j, q.last_seen) (drop n es) =
            stays_outside
              (In-take-drop (j, q.last_seen) n es
                (In-sort_by seen_before (j, q.last_seen) (aged m) (aged-lookup j q m here)))
              outside in
          (
            here,
            omega (
              arith,
              ltb→le q.last_seen t (
                  Sorted-take-drop seen_before (k, t) (j, q.last_seen) n es
                    (sort_by-Sorted seen_before before-asym before-through (aged m)) taken late),
            ),
          )
