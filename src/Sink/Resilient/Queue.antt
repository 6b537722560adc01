-- ===== src/Sink/Resilient/Queue.antt =====
-- What the queue of sink.Resilient keeps and what it drops.
use tezcatl.Base.{
  ◌+◌, ◌-◌, ◌≤◌, ◌≡◌, refl, ◌∙◌, Bool-cases, true, false, inl, inr, List, [], ◌∷◌, ◌++◌, append-nil,
  arith, length, take, length-append, append_one-take, take_nothing, ltb, ltb→lt, ltb→le,
}
use tezcatl.Model.{Event}
use tezcatl.Sink.Resilient.{Resilient, offer, publish}

module _ {F : Type 0} where
  offer_room :
      (e : Event F) (r : Resilient F)
      → ltb (length r.queue) r.queue_size ≡ true
      → offer e r ≡ record r { queue = r.queue ++ e ∷ [] }
  unfolding offer
  offer_room e r h = rw h

  offer_full :
      (e : Event F) (r : Resilient F)
      → ltb (length r.queue) r.queue_size ≡ false
      → offer e r ≡ record r { dropped = r.dropped + 1 }
  unfolding offer
  offer_full e r h = rw h

  -- `Publish` never waits and never loses count: the queue takes the first events that fit, in order,
  -- each of the others is counted as dropped, and a queue within its size stays within it.
  pub publish-queue :
      (es : List (Event F)) (r : Resilient F)
      → length r.queue ≤ r.queue_size
      → ((publish es r).queue ≡ r.queue ++ take (r.queue_size - length r.queue) es)
        × ((publish es r).dropped + length (publish es r).queue
            ≡ r.dropped + length r.queue + length es)
        × (length (publish es r).queue ≤ r.queue_size)
        × ((publish es r).queue_size ≡ r.queue_size)
  unfolding publish
  publish-queue [] r h = (rw (take_nothing, append-nil) refl, omega arith, h, refl)
  publish-queue (e ∷ es) r h = elim (Bool-cases (ltb (length r.queue) r.queue_size)) [
    | inl room ↦
        let r' : Resilient F = record r { queue = r.queue ++ e ∷ [] } in
        let fits = ltb→lt (length r.queue) r.queue_size room in
        let grown = length-append r.queue (e ∷ []) in
        let (kept, counted, bounded, sized) = publish-queue es r' (omega arith) in
        rw (offer_room e r room, publish)
          (kept ∙ append_one-take e es r.queue r.queue_size fits, omega arith, bounded, sized)
    | inr full ↦
        let z : r.queue_size - length r.queue ≡ 0 =
          omega (arith, ltb→le (length r.queue) r.queue_size full) in
        let (kept, counted, bounded, sized) =
          publish-queue es (record r { dropped = r.dropped + 1 }) h in
        rw (offer_full e r full, publish) (kept ∙ rw z refl, omega arith, bounded, sized)
  ]
