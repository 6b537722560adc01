-- ===== src/Sink/Broadcast/Delivery.antt =====
-- What sink.Broadcast delivers to a subscriber.
use tezcatl.Base.{
  ℕ, ◌-◌, ◌≡◌, refl, ◌∙◌, ap, false, Bool-cases, inl, inr, List, [], ◌∷◌, ◌++◌, append-nil, arith,
  length, take, append_one-take, take_nothing, Option, none, some, number_eq, ltb, ltb→lt, ltb→le,
  sym,
}
use tezcatl.Base.Assoc.{Map, lookup}
use tezcatl.Model.{Event}
use tezcatl.Sink.Broadcast.{Channel, Broadcast, send, send_all, publish_one, publish_each, publish}

module _ {F : Type 0} where
  -- A channel after events were offered to it with no one reading: it takes what fits.
  abbrev pub filled_with : List (Event F) → Channel F → Channel F
  filled_with es ch = record ch { queue = ch.queue ++ take (ch.capacity - length ch.queue) es }

  abbrev pub on_option : (Channel F → Channel F) → Option (Channel F) → Option (Channel F)
  on_option f none = none
  on_option f (some ch) = some (f ch)

  lookup-send_all :
      (id : ℕ) (e : Event F) (m : Map ℕ (Channel F))
      → lookup id (send_all e m) ≡ on_option (send e) (lookup id m)
  unfolding lookup send_all
  lookup-send_all id e [] = refl
  lookup-send_all id e ((j, ch) ∷ m) = elim (Bool-cases (number_eq.beq j id)) [
    | inl same ↦ rw same refl
    | inr other ↦ rw other (lookup-send_all id e m)
  ]

  filled_with-send :
      (e : Event F) (es : List (Event F)) (ch : Channel F)
      → filled_with es (send e ch) ≡ filled_with (e ∷ es) ch
  unfolding send
  filled_with-send e es ch = elim (Bool-cases (ltb (length ch.queue) ch.capacity)) [
    | inl room ↦ rw room (
        ap (λ q. record ch { queue = q })
          (append_one-take e es ch.queue ch.capacity (ltb→lt (length ch.queue) ch.capacity room)))
    | inr full ↦
        let z : ch.capacity - length ch.queue ≡ 0 =
          omega (arith, ltb→le (length ch.queue) ch.capacity full) in
        rw (full, z)
  ]

  filled_with-none : (ch : Channel F) → filled_with [] ch ≡ ch
  filled_with-none ch = rw (take_nothing (ch.capacity - length ch.queue), append-nil)

  on_option-none : (o : Option (Channel F)) → o ≡ on_option (filled_with []) o
  on_option-none none = refl
  on_option-none (some ch) = ap some (sym (filled_with-none ch))

  on_option_lem :
      (e : Event F) (es : List (Event F)) (o : Option (Channel F))
      → on_option (filled_with es) (on_option (send e) o) ≡ on_option (filled_with (e ∷ es)) o
  on_option_lem e es none = refl
  on_option_lem e es (some ch) = ap some (filled_with-send e es ch)

  lookup-publish_each :
      (id : ℕ) (es : List (Event F)) (b : Broadcast F)
      → lookup id (publish_each es b).subscribers
        ≡ on_option (filled_with es) (lookup id b.subscribers)
  unfolding publish_one
  lookup-publish_each id [] b = on_option-none (lookup id b.subscribers)
  lookup-publish_each id (e ∷ es) b =
      lookup-publish_each id es (publish_one e b)
      ∙ ap (on_option (filled_with es)) (lookup-send_all id e b.subscribers)
      ∙ on_option_lem e es (lookup id b.subscribers)

  -- An open broadcast offers every event to every subscriber, in order, and never waits: a subscriber
  -- gets as many of the events as fit into its buffer, the first ones, and loses the rest, whoever
  -- else has subscribed.
  pub lookup-publish :
      (id : ℕ) (es : List (Event F)) (b : Broadcast F)
      → b.closed ≡ false
      → lookup id (publish es b).subscribers ≡ on_option (filled_with es) (lookup id b.subscribers)
  unfolding publish
  lookup-publish id es b h = simp h (lookup-publish_each id es b)
