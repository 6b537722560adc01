-- ===== src/Incident/Told.antt =====
-- internal/core/incident/incident.go: what it is for events to be one incident.
use tezcatl.Base.{
  ◌≤◌, ◌≡◌, refl, sym, Bool, true, false, Bool-cases, List, [], ◌∷◌, ◌++◌, Bytes, bytes_eq, In,
  In-append_left, In-append_right, ◌⊎◌, inl, inr, arith,
}
use tezcatl.Base.Assoc.{Map, lookup, insert, lookup-insert_ne}
use tezcatl.Base.Ints.{Time, ◌≤ℤ◌, sub}
use tezcatl.Incident.Grouping.{
  Options, OpenIncident, flag_at, any_flag, flag_all, related_to, can_take, add, opened_by,
}
use tezcatl.Incident.Report.{service_of, change_keys}
use tezcatl.Model.{Event}

module _ {F : Type 0} where
  -- one of the events is of the same service, or has a change in common
  abbrev pub Sharing : Event F → List (Event F) → Type 0
  Sharing e es =
      (f : Event F) × In f es
      × ((service_of f ≡ service_of e)
          ⊎ ((k : Bytes) × In k (change_keys f) × In k (change_keys e)))

  -- Events that are one story under the options, with the instants of the first and of the last.
  pub data Told (opts : Options) : List (Event F) → Time → Time → Type 0 where
    begun : (e : Event F) → Told opts (e ∷ []) e.timestamp e.timestamp
    joined :
        {es : List (Event F)} {start last : Time}
        → Told opts es start last
        → (e : Event F) → Sharing e es ⊎ (sub e.timestamp last ≤ℤ opts.co_occurrence)
        → sub e.timestamp last ≤ℤ opts.gap
        → sub e.timestamp start ≤ℤ opts.max_duration
        → last ≤ e.timestamp
        → Told opts (es ++ (e ∷ [])) start e.timestamp

  -- An open incident before an instant, whose maps name nothing but what its events have.
  pub record Faithful (opts : Options) (now : Time) (o : OpenIncident F) : Type 0 where
    pub told : Told opts o.events o.start o.last
    pub served :
        (s : Bytes)
        → flag_at s o.services ≡ true
        → (f : Event F) × In f o.events × (service_of f ≡ s)
    pub changed :
        (k : Bytes)
        → flag_at k o.changes ≡ true
        → (f : Event F) × In f o.events × In k (change_keys f)
    pub recent : o.last ≤ now

flag_at-none : (k : Bytes) → ¬ (flag_at k [] ≡ true)
unfolding flag_at lookup
flag_at-none k h = ground arith

flag_at-insert :
    (k l : Bytes) (m : Map Bytes Bool)
    → flag_at k (insert l true m) ≡ true
    → (l ≡ k) ⊎ (flag_at k m ≡ true)
unfolding flag_at
flag_at-insert k l m h = elim (Bool-cases (bytes_eq.beq l k)) [
  | inl same ↦ inl ((bytes_eq.beq_iff l k).0 same)
  | inr other ↦ inr (ground (arith, lookup-insert_ne l k true m other))
]

flag_at-flag_all :
    (k : Bytes) (ks : List Bytes) (m : Map Bytes Bool)
    → flag_at k (flag_all ks m) ≡ true
    → In k ks ⊎ (flag_at k m ≡ true)
unfolding flag_all
flag_at-flag_all k [] m h = inr h
flag_at-flag_all k (l ∷ ks) m h = elim (flag_at-flag_all k ks (insert l true m) h) [
  | inl i ↦ inl (inr i)
  | inr g ↦ elim (flag_at-insert k l m g) [ inl e ↦ inl (inl (sym e)) | inr old ↦ inr old ]
]

any_flag_lem :
    (ks : List Bytes) (m : Map Bytes Bool)
    → any_flag ks m ≡ true
    → (k : Bytes) × In k ks × (flag_at k m ≡ true)
unfolding any_flag
any_flag_lem [] m h = ground arith
any_flag_lem (k ∷ ks) m h = elim (Bool-cases (flag_at k m)) [
  | inl here ↦ (k, inl refl, here)
  | inr not_here ↦ let (j, i, there) = any_flag_lem ks m (later not_here) in (j, inr i, there)
]
  where
    later : flag_at k m ≡ false → any_flag ks m ≡ true
    later not_here = ground arith

module _ {F : Type 0} where
  related_to_lem :
      (opts : Options) (now : Time) (e : Event F) (o : OpenIncident F)
      → Faithful opts now o
      → related_to opts.co_occurrence e o ≡ true
      → Sharing e o.events ⊎ (sub e.timestamp o.last ≤ℤ opts.co_occurrence)
  unfolding related_to
  related_to_lem opts now e o f h = elim (Bool-cases (flag_at (service_of e) o.services)) [
    | inl known ↦ let (g, i, same) = f.served (service_of e) known in inl (g, i, inl same)
    | inr new ↦ elim (Bool-cases (any_flag (change_keys e) o.changes)) [
      | inl blamed ↦
          let (k, j, flagged) = any_flag_lem (change_keys e) o.changes blamed in
          let (g, i, has_it) = f.changed k flagged in inl (g, i, inr (k, has_it, j))
      | inr unblamed ↦ inr (ground arith)
    ]
  ]

  pub add-Faithful :
      (opts : Options) (now : Time) (e : Event F) (o : OpenIncident F)
      → Faithful opts now o
      → can_take opts e o ≡ true
      → sub e.timestamp o.last ≤ℤ opts.gap
      → now ≤ e.timestamp
      → Faithful opts e.timestamp (add e o)
  unfolding add can_take
  add-Faithful opts now e o f h g n = record {
    told =
        joined f.told e (related_to_lem opts now e o f (ground arith)) g (ground arith)
          (omega arith);
    served = λ s k. elim (flag_at-insert s (service_of e) o.services k) [
      | inl same ↦ (e, In-append_right e o.events (e ∷ []) (inl refl), same)
      | inr old ↦
          let (x, i, same) = f.served s old in (x, In-append_left x o.events (e ∷ []) i, same)
    ];
    changed = λ c k. elim (flag_at-flag_all c (change_keys e) o.changes k) [
      | inl its ↦ (e, In-append_right e o.events (e ∷ []) (inl refl), its)
      | inr old ↦
          let (x, i, has_it) = f.changed c old in (x, In-append_left x o.events (e ∷ []) i, has_it)
    ];
    recent = omega arith;
  }

  pub opened_by-Faithful : (opts : Options) (e : Event F) → Faithful opts e.timestamp (opened_by e)
  unfolding opened_by add
  opened_by-Faithful opts e = record {
    told = begun e;
    served = λ s k. elim (flag_at-insert s (service_of e) [] k) [
      | inl same ↦ (e, inl refl, same)
      | inr old ↦ absurd (flag_at-none s old)
    ];
    changed = λ c k. elim (flag_at-flag_all c (change_keys e) [] k) [
      | inl its ↦ (e, inl refl, its)
      | inr old ↦ absurd (flag_at-none c old)
    ];
    recent = omega arith;
  }
