-- ===== src/Dampen/Memory.antt =====
-- internal/core/dampen/dampen.go: how much a dampener remembers.
use tezcatl.Base.{
  ℕ, suc, add-one, ◌+◌, ◌/◌, ◌≤◌, ◌<◌, ◌≡◌, refl, ◌∙◌, ap, true, Bool-cases, inl, inr, none,
  Option-cases, List, [], ◌∷◌, arith, length, take, All, Bytes, bytes_eq, same_bytes_iff, ltb→le,
}
use tezcatl.Base.Assoc.{
  Map, lookup, delete, has, Distinct, length-insert_new, length-insert_old, length-delete,
  length-delete-le, insert-Distinct, delete-Distinct, lookup-delete-none,
}
use tezcatl.Base.Ints.{ℤ, pos, pos_part, neg_part, ltb_ℤ, leb_ℤ}
use tezcatl.Base.Sorting.{sort_by, length-sort_by, All-sort_by}
use tezcatl.Dampen.{
  Config, Pattern, Dampener, Aged, seen_before, aged, delete_all, make_room, admit, judge, tally,
  filter_one, filter_each, filter, key, hold, report, Verdict, with_defaults, new_dampener, tracked,
  fresh_pattern,
}
use tezcatl.Model.{Signal, Floats}

not_negative : (a : ℤ) → 0 < pos_part a → neg_part a ≡ 0
not_negative a h = ground arith

module _ {F : Type 0} where
  length-aged : (m : Map Bytes (Pattern F)) → length (aged m) ≡ length m
  unfolding aged
  length-aged [] = refl
  length-aged ((k, p) ∷ m) = ap suc (length-aged m)

  -- the entry stands for a pattern of the map
  abbrev pub Stands : Map Bytes (Pattern F) → Aged → Type 0
  Stands m e = has e.0 m ≡ true

  Stands-cons :
      (j : Bytes) (q : Pattern F) (m : Map Bytes (Pattern F)) (es : List Aged)
      → All (Stands m) es
      → All (Stands ((j, q) ∷ m)) es
  unfolding lookup
  Stands-cons j q m [] h = tt
  Stands-cons j q m (e ∷ es) h = (ground (arith, h.0), Stands-cons j q m es h.1)

  pub aged-Stands : (m : Map Bytes (Pattern F)) → All (Stands m) (aged m)
  unfolding aged lookup
  aged-Stands [] = tt
  aged-Stands ((k, p) ∷ m) =
      (ground (arith, same_bytes_iff k k), Stands-cons k p m (aged m) (aged-Stands m))

  length-delete_all-le :
      (es : List Aged) (m : Map Bytes (Pattern F)) → length (delete_all es m) ≤ length m
  unfolding delete_all
  length-delete_all-le [] m = omega arith
  length-delete_all-le ((k, t) ∷ es) m =
      omega (arith, length-delete_all-le es (delete k m), length-delete-le k m)

  delete_all-Distinct :
      (es : List Aged) (m : Map Bytes (Pattern F)) → Distinct m → Distinct (delete_all es m)
  unfolding delete_all
  delete_all-Distinct [] m d = d
  delete_all-Distinct ((k, t) ∷ es) m d =
      delete_all-Distinct es (delete k m) (delete-Distinct k m d)

  -- deleting entries that begin with one of the map makes it smaller
  length-delete_all-lt :
      (n : ℕ) (es : List Aged) (m : Map Bytes (Pattern F))
      → 0 < length es
      → All (Stands m) es
      → Distinct m
      → length (delete_all (take (n + 1) es) m) < length m
  unfolding delete_all
  length-delete_all-lt n [] m h a d = absurd (omega arith)
  length-delete_all-lt n ((k, t) ∷ es) m h a d = elim (Option-cases (lookup k m)) [
    | inl missing ↦ absurd (ground (arith, a.0))
    | inr (p, found) ↦
        rw add-one (
          omega (arith, length-delete_all-le (take n es) (delete k m), length-delete k p m d found))
  ]

  make_room-Distinct :
      (most : ℤ) (m : Map Bytes (Pattern F)) → Distinct m → Distinct (make_room most m)
  unfolding make_room
  make_room-Distinct most m d = elim (Bool-cases (ltb_ℤ (pos (length m)) most)) [
    | inl room ↦ rw room d
    | inr full ↦ rw full (delete_all-Distinct _ m d)
  ]

  length-make_room :
      (most : ℤ) (m : Map Bytes (Pattern F))
      → Distinct m
      → 0 < pos_part most
      → length m ≤ pos_part most
      → length (make_room most m) < pos_part most
  unfolding make_room
  length-make_room most m d h bound = elim (Bool-cases (ltb_ℤ (pos (length m)) most)) [
    | inl room ↦ rw room (ground arith)
    | inr full ↦
        let es : List Aged = sort_by seen_before (aged m) in
        rw full (
          omega (
            arith,
            length-delete_all-lt (length es / 10) es m
                (omega (
                  arith,
                  length-sort_by seen_before (aged m),
                  length-aged m,
                  ltb→le _ _ full,
                  not_negative most h,
                ))
                (All-sort_by seen_before (Stands m) (aged m) (aged-Stands m)) d,
          ))
  ]

  lookup-delete_all-none :
      (k : Bytes) (es : List Aged) (m : Map Bytes (Pattern F))
      → lookup k m ≡ none
      → lookup k (delete_all es m) ≡ none
  unfolding delete_all
  lookup-delete_all-none k [] m h = h
  lookup-delete_all-none k ((j, t) ∷ es) m h =
      lookup-delete_all-none k es (delete j m) (lookup-delete-none j k m h)

  lookup-make_room-none :
      (k : Bytes) (most : ℤ) (m : Map Bytes (Pattern F))
      → lookup k m ≡ none
      → lookup k (make_room most m) ≡ none
  unfolding make_room
  lookup-make_room-none k most m h = elim (Bool-cases (ltb_ℤ (pos (length m)) most)) [
    | inl room ↦ rw room h
    | inr full ↦ rw full (lookup-delete_all-none k _ m h)
  ]

  -- A dampener under a limit: no key twice, and no more patterns than the limit.
  pub record Bounded (limit : ℤ) (d : Dampener F) : Type 0 where
    pub limited : d.config.max_tracked ≡ limit
    pub positive : 0 < pos_part limit
    pub distinct : Distinct d.patterns
    pub small : length d.patterns ≤ pos_part limit

module _ {F : Type 0} ⦃fl : Floats F⦄ where
  admit-Bounded :
      (c : Config F) (s : Signal F) (m : Map Bytes (Pattern F))
      → 0 < pos_part c.max_tracked
      → Distinct m
      → length m ≤ pos_part c.max_tracked
      → Distinct (admit c s m).1 × (length (admit c s m).1 ≤ pos_part c.max_tracked)
  unfolding admit
  admit-Bounded c s m h d b = elim (Option-cases (lookup (key s) m)) [
    | inl missing ↦
        rw (missing, admit)
          (
            insert-Distinct (key s) _ _ (make_room-Distinct c.max_tracked m d),
            omega (
              arith,
              length-insert_new (key s) (fresh_pattern s) (make_room c.max_tracked m)
                  (lookup-make_room-none (key s) c.max_tracked m missing),
              length-make_room c.max_tracked m d h b,
            ),
          )
    | inr (p, found) ↦
        rw (found, admit)
          (
            insert-Distinct (key s) _ m d,
            omega (arith, length-insert_old (key s) (judge c s p).1 p m found),
          )
  ]

  tally-kept :
      (v : Verdict) (s : Signal F) (d : Dampener F)
      → ((tally v s d).0.config ≡ d.config) × ((tally v s d).0.patterns ≡ d.patterns)
  unfolding tally
  tally-kept hold s d = (refl, refl)
  tally-kept (report a) s d = (refl, refl)

  filter_one-Bounded :
      {limit : ℤ} {d : Dampener F} (s : Signal F)
      → Bounded limit d
      → Bounded limit (filter_one s d).0
  unfolding filter_one
  filter_one-Bounded {limit} {d} s b =
      let (v, m) = admit d.config s d.patterns in
      let (same_config, same_patterns) = tally-kept v s (record d { patterns = m }) in
      let (distinct, small) =
        admit-Bounded d.config s d.patterns (rw b.limited b.positive) b.distinct
          (rw b.limited b.small) in
      record {
        limited = ap (λ c. c.max_tracked) same_config ∙ b.limited;
        positive = b.positive;
        distinct = rw same_patterns distinct;
        small = rw (same_patterns, ← b.limited) small;
      }

  filter_each-Bounded :
      {limit : ℤ} (signals : List (Signal F)) {d : Dampener F}
      → Bounded limit d
      → Bounded limit (filter_each signals d).0
  unfolding filter_each
  filter_each-Bounded [] b = b
  filter_each-Bounded (s ∷ rest) b = filter_each-Bounded rest (filter_one-Bounded s b)

  filter-Bounded :
      {limit : ℤ} (signals : List (Signal F)) {d : Dampener F}
      → Bounded limit d
      → Bounded limit (filter signals d).0
  unfolding filter
  filter-Bounded signals {d} b = elim (Bool-cases (leb_ℤ d.config.cooldown (pos 0))) [
    | inl off ↦ rw off b
    | inr on ↦ rw on (filter_each-Bounded signals b)
  ]

  -- the dampener after a sequence of calls of `Filter`
  abbrev pub filter_batches : List (List (Signal F)) → Dampener F → Dampener F
  filter_batches [] d = d
  filter_batches (signals ∷ rest) d = filter_batches rest (filter signals d).0

  filter_batches-Bounded :
      {limit : ℤ} (batches : List (List (Signal F))) {d : Dampener F}
      → Bounded limit d
      → Bounded limit (filter_batches batches d)
  filter_batches-Bounded [] b = b
  filter_batches-Bounded (signals ∷ rest) b = filter_batches-Bounded rest (filter-Bounded signals b)

  new_dampener-Bounded : (c : Config F) → Bounded (with_defaults c).max_tracked (new_dampener c)
  unfolding new_dampener with_defaults
  new_dampener-Bounded c = record {
    limited = refl;
    positive = ground arith;
    distinct = tt;
    small = omega arith;
  }

  -- The memory is bounded: whatever a dampener made by `New` has filtered, it remembers at most
  -- `MaxTracked` patterns (its default where the configuration gives none), each key once.
  pub filter_batches-tracked :
      (c : Config F) (batches : List (List (Signal F)))
      → (tracked (filter_batches batches (new_dampener c)) ≤ pos_part (with_defaults c).max_tracked)
        × Distinct (filter_batches batches (new_dampener c)).patterns
  filter_batches-tracked c batches =
      let b = filter_batches-Bounded batches (new_dampener-Bounded c) in (b.small, b.distinct)
