-- ===== src/Incident/Story.antt =====
-- internal/core/incident/incident.go: `Group` as a whole.
use mathlib.Core.List.Perm
use mathlib.Core.List.{Perm}
use tezcatl.Base.{
  ◌≤◌, ◌≡◌, refl, sym, ap, ◌∙◌, subst, Bool, true, false, Bool-cases, some, List, [], ◌∷◌, ◌++◌,
  All, inl, inr, arith, append-nil, append_assoc, ltb→le,
}
use tezcatl.Base.Gather.{gather, gather-sort_by, exchange}
use tezcatl.Base.Ints.{Time, ◌≤ℤ◌, sub, before}
use tezcatl.Base.Sorting.{Sorted, sort_by, sort_by-perm, sort_by-Sorted, All-sort_by}
use tezcatl.Incident.Grouping.{
  Options, OpenIncident, Desk, with_defaults, place, is_over, close_all, retire, take_in, take_all,
  in_order, group,
}
use tezcatl.Incident.Placement.{held, place-gather, place-Faithful}
use tezcatl.Incident.Report.{Incident}
use tezcatl.Incident.Told.{Faithful}
use tezcatl.Model.{Event, Floats}
use tezcatl.Incident.Closing.{reported, IsStory, close_out_lem}

before-asym : (a b : Time) → before a b ≡ true → before b a ≡ false
before-asym a b h = ground arith

before-through : (a b c : Time) → before b a ≡ false → before c b ≡ false → before c a ≡ false
before-through a b c h k = ground arith

module _ {F : Type 0} where
  abbrev earlier : Event F → Event F → Bool
  earlier a b = before a.timestamp b.timestamp

  not_earlier :
      (e : Event F) (rest : List (Event F))
      → All (λ f. earlier f e ≡ false) rest
      → All (λ f. e.timestamp ≤ f.timestamp) rest
  not_earlier e [] h = tt
  not_earlier e (f ∷ rest) h = (ltb→le f.timestamp e.timestamp h.0, not_earlier e rest h.1)

  none_before : (events : List (Event F)) → All (λ e. 0 ≤ e.timestamp) events
  none_before [] = tt
  none_before (e ∷ rest) = (omega arith, none_before rest)

  in_order-Sorted : (events : List (Event F)) → Sorted earlier (in_order events)
  unfolding in_order
  in_order-Sorted events =
      sort_by-Sorted earlier (λ a b h. before-asym a.timestamp b.timestamp h)
        (λ a b c h k. before-through a.timestamp b.timestamp c.timestamp h k) events

module _ {F : Type 0} ⦃fl : Floats F⦄ where
  -- The loop of `Group` between two events: what it has seen is reported or held, in stories.
  record Sound (opts : Options) (now : Time) (seen : List (Event F)) (d : Desk F) : Type 0 where
    balance : Perm (reported d.closed ++ held d.opens) seen
    stories : All (IsStory opts) d.closed
    faithful : All (Faithful opts now) d.opens

  abbrev Recent : Options → Event F → OpenIncident F → Type 0
  Recent opts e o = sub e.timestamp o.last ≤ℤ opts.gap

  not_over :
      (opts : Options) (e : Event F) (o : OpenIncident F)
      → is_over opts e o ≡ false
      → Recent opts e o
  unfolding is_over
  not_over opts e o h = ground arith

  Sound-empty : (opts : Options) → Sound opts 0 [] record { closed = []; opens = [] }
  unfolding gather
  Sound-empty opts = record { balance = Perm.refl []; stories = tt; faithful = tt }

  retire_lem :
      (opts : Options) (now : Time) (e : Event F) (opens : List (OpenIncident F))
      (incidents : List (Incident F))
      → All (Faithful opts now) opens
      → All (IsStory opts) incidents
      → (d : Desk F) × (retire opts e opens incidents ≡ some d)
        × Sound opts now (reported incidents ++ held opens) d
        × All (Recent opts e) d.opens
  unfolding retire gather
  retire_lem opts now e [] incidents f s = (
    record { closed = incidents; opens = [] },
    refl,
    record { balance = Perm.refl (reported incidents ++ []); stories = s; faithful = tt },
    tt,
  )
  retire_lem opts now e (o ∷ rest) incidents f s = elim (Bool-cases (is_over opts e o)) [
    | inl over ↦
        let (more, closed, all, stories) = close_out_lem opts now o incidents f.0 s in
        let (d, run, sound, recent) = retire_lem opts now e rest more f.1 stories in
        (
          d,
          rw (over, closed) run,
          subst (λ seen. Sound opts now seen d)
              (ap (λ l. l ++ held rest) all
                ∙ append_assoc (reported incidents) o.events (held rest))
              sound,
          recent,
        )
    | inr going ↦
        let (d, run, sound, recent) = retire_lem opts now e rest incidents f.1 s in
        (
          record { closed = d.closed; opens = o ∷ d.opens },
          rw (going, run) refl,
          record {
            balance = Perm.trans (exchange (reported d.closed) o.events (held d.opens)) (
                Perm.trans (Perm.append_left o.events sound.balance)
                  (exchange o.events (reported incidents) (held rest)));
            stories = sound.stories;
            faithful = (f.0, sound.faithful);
          },
          (not_over opts e o going, recent),
        )
  ]

  take_in_lem :
      (opts : Options) (now : Time) (e : Event F) (seen : List (Event F)) (d : Desk F)
      → Sound opts now seen d
      → now ≤ e.timestamp
      → (next : Desk F) × (take_in opts e d ≡ some next)
        × Sound opts e.timestamp (seen ++ (e ∷ [])) next
  unfolding take_in
  take_in_lem opts now e seen d s n =
      let (r, run, sound, recent) = retire_lem opts now e d.opens d.closed s.faithful s.stories in
      (
        record { closed = r.closed; opens = place opts e r.opens },
        rw run refl,
        record {
          balance =
              Perm.trans (Perm.append_left (reported r.closed) (place-gather opts e r.opens)) (
                subst (λ l. Perm l (seen ++ (e ∷ [])))
                  (append_assoc (reported r.closed) (held r.opens) (e ∷ []))
                  (Perm.append_right (e ∷ []) (Perm.trans sound.balance s.balance)));
          stories = sound.stories;
          faithful = place-Faithful opts now e r.opens sound.faithful recent n;
        },
      )

  take_all_lem :
      (opts : Options) (now : Time) (events seen : List (Event F)) (d : Desk F)
      → Sound opts now seen d
      → All (λ e. now ≤ e.timestamp) events
      → Sorted earlier events
      → (later : Time) × (final : Desk F) × (take_all opts events d ≡ some final)
        × Sound opts later (seen ++ events) final
  unfolding take_all
  take_all_lem opts now [] seen d s n sorted =
      (now, d, refl, subst (λ l. Sound opts now l d) (sym (append-nil seen)) s)
  take_all_lem opts now (e ∷ rest) seen d s n sorted =
      let (next, run, sound) = take_in_lem opts now e seen d s n.0 in
      let (later, final, runs, end) =
        take_all_lem opts e.timestamp rest (seen ++ (e ∷ [])) next sound
          (not_earlier e rest sorted.0) sorted.1 in
      (
        later,
        final,
        rw run runs,
        subst (λ l. Sound opts later l final) (append_assoc seen (e ∷ []) rest) end,
      )

  close_all_lem :
      (opts : Options) (now : Time) (opens : List (OpenIncident F)) (incidents : List (Incident F))
      → All (Faithful opts now) opens
      → All (IsStory opts) incidents
      → (more : List (Incident F)) × (close_all opens incidents ≡ some more)
        × (reported more ≡ reported incidents ++ held opens)
        × All (IsStory opts) more
  unfolding close_all gather
  close_all_lem opts now [] incidents f s =
      (incidents, refl, sym (append-nil (reported incidents)), s)
  close_all_lem opts now (o ∷ rest) incidents f s =
      let (one, closed, its, stories) = close_out_lem opts now o incidents f.0 s in
      let (more, run, all, told) = close_all_lem opts now rest one f.1 stories in
      (
        more,
        rw closed run,
        all ∙ ap (λ l. l ++ held rest) its ∙ append_assoc (reported incidents) o.events (held rest),
        told,
      )

  -- `Group` never panics. Whatever the events and the options, every event is told in exactly one
  -- incident; each incident is one story: it begins with its first event, and each further event is
  -- in time order, shares a service or a change with one told before it or follows within the
  -- co-occurrence, and comes no later than the gap after the last and the maximum duration after the
  -- start; and the incidents come back with no start before an earlier one's.
  pub group-tells :
      (opts : Options) (events : List (Event F))
      → (incidents : List (Incident F)) × (group opts events ≡ some incidents)
        × Perm (reported incidents) events
        × All (IsStory (with_defaults opts)) incidents
        × Sorted (λ a b. before a.start b.start) incidents
  unfolding group in_order
  group-tells opts events =
      let (later, d, run, sound) =
        take_all_lem (with_defaults opts) 0 (in_order events) [] record { closed = []; opens = [] }
          (Sound-empty (with_defaults opts)) (none_before (in_order events))
          (in_order-Sorted events) in
      let (incidents, closed, all, stories) =
        close_all_lem (with_defaults opts) later d.opens d.closed sound.faithful sound.stories in
      (
        sort_by (λ a b. before a.start b.start) incidents,
        rw (run, closed) refl,
        Perm.trans (gather-sort_by (λ i. i.events) (λ a b. before a.start b.start) incidents) (
            subst (λ l. Perm l events) (sym all)
              (Perm.trans sound.balance (sort_by-perm earlier events))),
        All-sort_by (λ a b. before a.start b.start) (IsStory (with_defaults opts)) incidents
            stories,
        sort_by-Sorted (λ a b. before a.start b.start) (λ a b h. before-asym a.start b.start h)
            (λ a b c h k. before-through a.start b.start c.start h k) incidents,
      )
