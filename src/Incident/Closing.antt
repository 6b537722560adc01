-- ===== src/Incident/Closing.antt =====
-- internal/core/incident/incident.go: `closeOut` and what `build` reports.
use tezcatl.Base.{◌≡◌, refl, sym, ap, ◌∙◌, subst, some, List, [], ◌∷◌, ◌++◌, All, All-append}
use tezcatl.Base.Gather.{gather, gather-append, gather-one}
use tezcatl.Base.Ints.{Time}
use tezcatl.Incident.Grouping.{Options, OpenIncident, close_out}
use tezcatl.Incident.Report.{Incident, build, last_event}
use tezcatl.Incident.Told.{Told, begun, joined, Faithful}
use tezcatl.Model.{Event, Floats}

module _ {F : Type 0} where
  last_event-end : (e f : Event F) (rest : List (Event F)) → last_event e (rest ++ (f ∷ [])) ≡ f
  unfolding last_event
  last_event-end e f [] = refl
  last_event-end e f (g ∷ rest) = last_event-end g f rest

  -- the events of a story are some first one and others, and the instants are theirs
  Spans : List (Event F) → Time → Time → Type 0
  Spans es start last =
      (e : Event F) × (rest : List (Event F)) × (es ≡ e ∷ rest)
      × (e.timestamp ≡ start)
      × ((last_event e rest).timestamp ≡ last)

  Told-Spans :
      {opts : Options} (es : List (Event F)) (start last : Time)
      → Told opts es start last
      → Spans es start last
  unfolding Spans last_event
  Told-Spans es start last (begun e) = (e, [], refl, refl, refl)
  Told-Spans es start last (joined told f near gap cap after) =
      let (e, rest, eq, first, end) = Told-Spans _ _ _ told in
      (
        e,
        rest ++ (f ∷ []),
        ap (λ l. l ++ (f ∷ [])) eq,
        first,
        ap (λ l. l.timestamp) (last_event-end e f rest),
      )

module _ {F : Type 0} ⦃fl : Floats F⦄ where
  abbrev pub reported : List (Incident F) → List (Event F)
  reported incidents = gather (λ i. i.events) incidents

  -- An incident is one story from its start to its end.
  abbrev pub IsStory : Options → Incident F → Type 0
  IsStory opts i = Told opts i.events i.start i.end

  build-cons :
      (opts : Options) (e : Event F) (rest : List (Event F))
      → (i : Incident F) × (build (e ∷ rest) ≡ some i)
        × (i.events ≡ e ∷ rest)
        × (i.start ≡ e.timestamp)
        × (i.end ≡ (last_event e rest).timestamp)
  unfolding build
  build-cons opts e rest = (_, refl, refl, refl, refl)

  build_lem :
      (opts : Options) (es : List (Event F)) (start last : Time)
      → Told opts es start last
      → (i : Incident F) × (build es ≡ some i) × (i.events ≡ es) × IsStory opts i
  unfolding Spans
  build_lem opts es start last told =
      let (e, rest, eq, first, end) = Told-Spans es start last told in
      let (i, built, its, starts, ends) = build-cons opts e rest in
      (
        i,
        ap build eq ∙ built,
        its ∙ sym eq,
        subst (λ l. Told opts l i.start i.end) (eq ∙ sym its)
            (subst (λ s. Told opts es s i.end) (sym first ∙ sym starts)
              (subst (λ l. Told opts es start l) (sym end ∙ sym ends) told)),
      )

  -- Closing an open incident reports its events after those that are reported.
  pub close_out_lem :
      (opts : Options) (now : Time) (o : OpenIncident F) (incidents : List (Incident F))
      → Faithful opts now o
      → All (IsStory opts) incidents
      → (more : List (Incident F)) × (close_out o incidents ≡ some more)
        × (reported more ≡ reported incidents ++ o.events)
        × All (IsStory opts) more
  unfolding close_out
  close_out_lem opts now o incidents f s =
      let (i, built, its, story) = build_lem opts o.events o.start o.last f.told in
      (
        incidents ++ (i ∷ []),
        rw built,
        gather-append (λ i. i.events) incidents (i ∷ [])
            ∙ ap (λ l. reported incidents ++ l) (gather-one (λ i. i.events) i ∙ its),
        All-append (IsStory opts) incidents (i ∷ []) s (story, tt),
      )
