-- ===== src/Sink/Broadcast.antt =====
-- internal/core/sink/broadcast.go: the history of recent events, and its live subscribers.
pub mod History
pub mod Delivery
use tezcatl.Base.{
  ℕ, zero, suc, ◌+◌, ◌-◌, ◌%◌, Bool, true, false, ◌||◌, Option, none, some, List, [], ◌∷◌, ◌++◌,
  length, set, replicate, ltb, ◌==◌, number_eq, map, if◌then◌else◌,
}
use tezcatl.Base.Assoc.{Map, lookup, insert, delete}
use tezcatl.Base.Cyclic.{cells}
use tezcatl.Base.Ints.{ℤ, pos, pos_part, ltb_ℤ, leb_ℤ}
use tezcatl.Model.{Event, Floats, unknown}

-- A buffered channel of events: its buffer, and whether it has been closed.
pub record Channel (F : Type 0) : Type 0 where
  pub capacity : ℕ
  pub queue : List (Event F)
  pub closed : Bool

pub record Broadcast (F : Type 0) : Type 0 where
  pub history : List (Event F)
  pub next : ℕ
  pub filled : Bool
  pub subscribers : Map ℕ (Channel F)
  pub next_id : ℕ
  pub closed : Bool

-- What a subscriber is handed: a place among the subscribers, or a channel closed from the start.
pub data Handle (F : Type 0) : Type 0 where
  live : ℕ → Handle F
  dead : Channel F → Handle F

abbrev pub default_history_size : ℕ
default_history_size = 500

module _ {F : Type 0} where
  abbrev pub close_channel : Channel F → Channel F
  close_channel ch = record ch { closed = true }

  -- `select { case subscriber <- event: default: }`
  unfoldable pub send : Event F → Channel F → Channel F
  send e ch =
      if ltb (length ch.queue) ch.capacity then record ch { queue = ch.queue ++ e ∷ [] } else ch

  -- the loop over the subscribers
  unfoldable pub send_all : Event F → Map ℕ (Channel F) → Map ℕ (Channel F)
  send_all e [] = []
  send_all e ((id, ch) ∷ m) = (id, send e ch) ∷ send_all e m

  -- one round of the loop of `Publish`
  unfoldable pub publish_one : Event F → Broadcast F → Broadcast F
  publish_one e b =
      let next = (b.next + 1) % length b.history in
      record b {
        history = set b.history b.next e;
        next = next;
        filled = if next == 0 then true else b.filled;
        subscribers = send_all e b.subscribers;
      }

  abbrev pub publish_each : List (Event F) → Broadcast F → Broadcast F
  publish_each [] b = b
  publish_each (e ∷ es) b = publish_each es (publish_one e b)

  -- `Publish`
  unfoldable pub publish : List (Event F) → Broadcast F → Broadcast F
  publish es b = if b.closed then b else publish_each es b

  -- the function that `Subscribe` returns; the channel that it closes is its second result
  unfoldable pub cancel : ℕ → Broadcast F → Broadcast F × Option (Channel F)
  cancel id b = elim (lookup id b.subscribers) [
    | none ↦ (b, none)
    | some ch ↦ (record b { subscribers = delete id b.subscribers }, some (close_channel ch))
  ]

  -- `Close`, with the channels that it closes
  unfoldable pub close : Broadcast F → Broadcast F × List (Channel F)
  close b = if b.closed then (b, []) else (
    record b { closed = true; subscribers = [] },
    map (λ s. close_channel s.1) b.subscribers,
  )

module _ {F : Type 0} ⦃fl : Floats F⦄ where
  abbrev pub zero_event : Event F
  zero_event = record {
    id = [];
    kind = [];
    source = [];
    service = [];
    environment = [];
    timestamp = 0;
    severity = unknown [];
    confidence = fl.hundredths 0;
    summary = [];
    signals = [];
    related_changes = [];
    before = [];
    after = [];
    attributes = [];
  }

  -- `NewBroadcast`
  unfoldable pub new_broadcast : ℤ → Broadcast F
  new_broadcast size = record {
    history =
        replicate (if leb_ℤ size (pos 0) then default_history_size else pos_part size) zero_event;
    next = 0;
    filled = false;
    subscribers = [];
    next_id = 0;
    closed = false;
  }

  -- `recent`. The loop runs from `total - size` to `total`, and forms its index in another order.
  unfoldable pub recent : Broadcast F → ℤ → List (Event F)
  recent b size =
      let total = if b.filled then length b.history else b.next in
      let size' = if leb_ℤ size (pos 0) || ltb_ℤ (pos total) size then total else pos_part size in
      cells zero_event b.history b.next total size' (total - size')

  -- `Subscribe`
  unfoldable pub subscribe : ℤ → ℤ → Broadcast F → Broadcast F × List (Event F) × Handle F
  subscribe history_size buffer_size b =
      let capacity = if leb_ℤ buffer_size (pos 0) then 64 else pos_part buffer_size in
      let events : Channel F = record { capacity = capacity; queue = []; closed = false } in
      if b.closed then (b, [], dead (close_channel events)) else (
        record b { next_id = b.next_id + 1; subscribers = insert b.next_id events b.subscribers },
        recent b history_size,
        live b.next_id,
      )
