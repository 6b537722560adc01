-- ===== src/Incident/Placement.antt =====
-- internal/core/incident/incident.go: `pick`, and where it places an event.
use mathlib.Core.List.Perm
use mathlib.Core.List.{Perm}
use mathlib.Core.Option.{none-ne-some}
use tezcatl.Base.{
  ℕ, zero, suc, ◌+◌, ◌≤◌, ◌≡◌, refl, sym, ap, ◌∙◌, subst, true, Bool-cases, Option-cases, Option,
  none, some, List, [], ◌∷◌, ◌++◌, All, All-append, inl, inr, arith, if◌then◌else◌, get_elem?, set,
  some-cancel,
}
use tezcatl.Base.Ints.{Time, ◌≤ℤ◌, sub, before}
use tezcatl.Base.Gather.{gather, gather-append, gather-one, gather-set}
use tezcatl.Incident.Grouping.{
  Options, OpenIncident, can_take, add, opened_by, preferred, pick_from, pick, seat, place,
}
use tezcatl.Incident.Told.{Faithful, add-Faithful, opened_by-Faithful}
use tezcatl.Model.{Event}

later_still : {a b c : ℕ} → a ≤ b → b ≤ c → a ≤ c
later_still h k = omega arith

module _ {F : Type 0} where
  -- a candidate stands where it says, and can take the event
  abbrev Fits : Options → Event F → List (OpenIncident F) → Option (ℕ × OpenIncident F) → Type 0
  Fits opts e opens none = Unit
  Fits opts e opens (some (i, o)) = (get_elem? opens i ≡ some o) × (can_take opts e o ≡ true)

  preferred-Fits :
      (opts : Options) (e : Event F) (opens : List (OpenIncident F)) (i : ℕ) (o : OpenIncident F)
      (best : Option (ℕ × OpenIncident F))
      → Fits opts e opens best
      → get_elem? opens i ≡ some o
      → Fits opts e opens (if can_take opts e o then some (preferred best (i, o)) else best)
  unfolding preferred
  preferred-Fits opts e opens i o best h at = elim (Bool-cases (can_take opts e o)) [
    | inl taken ↦ rw taken (chosen best h taken)
    | inr skipped ↦ rw skipped h
  ]
    where
      chosen :
          (b : Option (ℕ × OpenIncident F))
          → Fits opts e opens b
          → can_take opts e o ≡ true
          → Fits opts e opens (some (preferred b (i, o)))
      chosen none k taken = (at, taken)
      chosen (some (j, p)) k taken = elim (Bool-cases (before p.last o.last)) [
        | inl later ↦ rw later (at, taken)
        | inr not_later ↦ rw not_later k
      ]

  pick_from-Fits :
      (opts : Options) (e : Event F) (opens : List (OpenIncident F)) (i : ℕ)
      (rest : List (OpenIncident F)) (best : Option (ℕ × OpenIncident F))
      → ((j : ℕ) → get_elem? rest j ≡ get_elem? opens (i + j))
      → Fits opts e opens best
      → Fits opts e opens (pick_from opts e i rest best)
  unfolding pick_from
  pick_from-Fits opts e opens i [] best suffix h = h
  pick_from-Fits opts e opens i (o ∷ rest) best suffix h =
      pick_from-Fits opts e opens (suc i) rest
        (if can_take opts e o then some (preferred best (i, o)) else best)
        (λ j. suffix (suc j) ∙ ap (get_elem? opens) (omega arith))
        (preferred-Fits opts e opens i o best h
          (ap (get_elem? opens) (omega arith) ∙ sym (suffix 0)))

  -- An incident that `pick` returns is one of the open ones, and can take the event.
  pick_lem :
      (opts : Options) (e : Event F) (opens : List (OpenIncident F)) (i : ℕ) (o : OpenIncident F)
      → pick opts e opens ≡ some (i, o)
      → (get_elem? opens i ≡ some o) × (can_take opts e o ≡ true)
  unfolding pick
  pick_lem opts e opens i o h =
      subst (Fits opts e opens) h
        (pick_from-Fits opts e opens 0 opens none (λ j. ap (get_elem? opens) (omega arith)) tt)

  place-none :
      (opts : Options) (e : Event F) (opens : List (OpenIncident F))
      → pick opts e opens ≡ none
      → place opts e opens ≡ opens ++ (opened_by e ∷ [])
  unfolding place seat
  place-none opts e opens h = ap (seat e opens) h

  place-some :
      (opts : Options) (e : Event F) (opens : List (OpenIncident F)) (i : ℕ) (o : OpenIncident F)
      → pick opts e opens ≡ some (i, o)
      → place opts e opens ≡ set opens i (add e o)
  unfolding place seat
  place-some opts e opens i o h = ap (seat e opens) h

  abbrev pub held : List (OpenIncident F) → List (Event F)
  held opens = gather (λ o. o.events) opens

  opened_by-events : (e : Event F) → (opened_by e).events ≡ e ∷ []
  unfolding opened_by add
  opened_by-events e = refl

  -- `place` adds the event, and nothing else, to what the open incidents hold.
  pub place-gather :
      (opts : Options) (e : Event F) (opens : List (OpenIncident F))
      → Perm (held (place opts e opens)) (held opens ++ (e ∷ []))
  unfolding add
  place-gather opts e opens = elim (Option-cases (pick opts e opens)) [
    | inl nobody ↦
        subst (λ l. Perm l (held opens ++ (e ∷ [])))
          (sym (
            ap held (place-none opts e opens nobody)
            ∙ gather-append (λ o. o.events) opens (opened_by e ∷ [])
            ∙ ap (λ l. held opens ++ l)
                (gather-one (λ o. o.events) (opened_by e) ∙ opened_by-events e)))
          (Perm.refl (held opens ++ (e ∷ [])))
    | inr ((i, o), found) ↦
        subst (λ p. Perm (held p) (held opens ++ (e ∷ [])))
          (sym (place-some opts e opens i o found))
          (gather-set (λ o. o.events) opens i o (add e o) (e ∷ [])
            (pick_lem opts e opens i o found).0 refl)
  ]

  All-get_elem? :
      (P : OpenIncident F → Type 0) (opens : List (OpenIncident F)) (i : ℕ) (o : OpenIncident F)
      → All P opens
      → get_elem? opens i ≡ some o
      → P o
  All-get_elem? P [] i o a h = absurd (none-ne-some o h)
  All-get_elem? P (p ∷ rest) zero o a h = subst P (some-cancel h) a.0
  All-get_elem? P (p ∷ rest) (suc i) o a h = All-get_elem? P rest i o a.1 h

  All-set :
      (P : OpenIncident F → Type 0) (opens : List (OpenIncident F)) (i : ℕ) (o : OpenIncident F)
      → All P opens
      → P o
      → All P (set opens i o)
  All-set P [] i o a h = tt
  All-set P (p ∷ rest) zero o a h = (h, a.1)
  All-set P (p ∷ rest) (suc i) o a h = (a.0, All-set P rest i o a.1 h)

  aged :
      (opts : Options) (now later : Time) (opens : List (OpenIncident F))
      → now ≤ later
      → All (Faithful opts now) opens
      → All (Faithful opts later) opens
  aged opts now later [] n a = tt
  aged opts now later (o ∷ rest) n a = (
    record {
      told = a.0.told;
      served = a.0.served;
      changed = a.0.changed;
      recent = later_still a.0.recent n;
    },
    aged opts now later rest n a.1,
  )

  -- `place` keeps the open incidents faithful, when none of them is over.
  pub place-Faithful :
      (opts : Options) (now : Time) (e : Event F) (opens : List (OpenIncident F))
      → All (Faithful opts now) opens
      → All (λ o. sub e.timestamp o.last ≤ℤ opts.gap) opens
      → now ≤ e.timestamp
      → All (Faithful opts e.timestamp) (place opts e opens)
  place-Faithful opts now e opens a g n = elim (Option-cases (pick opts e opens)) [
    | inl nobody ↦ subst (All (Faithful opts e.timestamp)) (sym (place-none opts e opens nobody)) (
        All-append (Faithful opts e.timestamp) opens (opened_by e ∷ [])
          (aged opts now e.timestamp opens n a) (opened_by-Faithful opts e, tt))
    | inr ((i, o), found) ↦
        let (at, taken) = pick_lem opts e opens i o found in
        subst (All (Faithful opts e.timestamp)) (sym (place-some opts e opens i o found)) (
          All-set (Faithful opts e.timestamp) opens i (add e o)
            (aged opts now e.timestamp opens n a)
            (add-Faithful opts now e o (All-get_elem? (Faithful opts now) opens i o a at) taken
              (All-get_elem? (λ o. sub e.timestamp o.last ≤ℤ opts.gap) opens i o g at) n))
  ]
