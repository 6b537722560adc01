-- ===== src/Sink/Broadcast/History.antt =====
-- The history of sink.Broadcast through any sequence of calls.
use tezcatl.Base.{
  ℕ, ◌+◌, ◌-◌, ◌≤◌, min, ◌≡◌, refl, ◌∙◌, ap, false, Bool-cases, inl, inr, List, [], ◌∷◌, ◌++◌,
  append_assoc, append-nil, ◌||◌, arith, length, drop, length-set, length-replicate, Option-cases,
  number_eq, if◌then◌else◌,
}
use tezcatl.Base.Assoc.{lookup}
use tezcatl.Base.Cyclic.{Holds, Holds-replicate, Holds-set, cells-Holds, cells}
use tezcatl.Base.Ints.{ℤ, pos, pos_part, ltb_ℤ, leb_ℤ}
use tezcatl.Model.{Event, Floats}
use tezcatl.Sink.Broadcast.{
  Broadcast, zero_event, new_broadcast, publish_one, publish_each, publish, cancel, subscribe,
  recent, default_history_size,
}

-- The calls that other goroutines make between two looks at the history.
pub data Call (F : Type 0) : Type 0 where
  publishing : List (Event F) → Call F
  subscribing : ℤ → ℤ → Call F
  cancelling : ℕ → Call F

-- the history size that `NewBroadcast` settles on
abbrev pub size_of : ℤ → ℕ
size_of size = if leb_ℤ size (pos 0) then default_history_size else pos_part size

-- how many events a call for `n` gets where `total` are kept
abbrev pub wanted : ℤ → ℕ → ℕ
wanted n total = if leb_ℤ n (pos 0) then total else min (pos_part n) total

wanted-le : (n : ℤ) (total : ℕ) → wanted n total ≤ total
wanted-le n total = ground arith

wanted_lem :
    (n : ℤ) (total : ℕ)
    → (if leb_ℤ n (pos 0) || ltb_ℤ (pos total) n then total else pos_part n) ≡ wanted n total
wanted_lem n total = ground arith

module _ {F : Type 0} ⦃fl : Floats F⦄ where
  abbrev pub step : Call F → Broadcast F → Broadcast F
  step (publishing es) b = publish es b
  step (subscribing h n) b = (subscribe h n b).0
  step (cancelling id) b = (cancel id b).0

  abbrev pub run : List (Call F) → Broadcast F → Broadcast F
  run [] b = b
  run (c ∷ cs) b = run cs (step c b)

  -- all events of a sequence of calls, in order
  abbrev pub published : List (Call F) → List (Event F)
  published [] = []
  published (publishing es ∷ cs) = es ++ published cs
  published (subscribing h n ∷ cs) = published cs
  published (cancelling id ∷ cs) = published cs

  -- An open broadcast whose history, of `size` events, stands for `es`.
  pub record StandsFor (size : ℕ) (b : Broadcast F) (es : List (Event F)) : Type 0 where
    pub sized : length b.history ≡ size
    pub open_still : b.closed ≡ false
    pub holds : Holds zero_event b.history b.next b.filled es

  pub new_broadcast-StandsFor : (size : ℤ) → StandsFor (size_of size) (new_broadcast size) []
  unfolding new_broadcast
  new_broadcast-StandsFor size = record {
    sized = length-replicate (size_of size) zero_event;
    open_still = refl;
    holds = Holds-replicate zero_event (size_of size) (ground arith);
  }

  publish_one-StandsFor :
      {size : ℕ} {b : Broadcast F} {es : List (Event F)} (e : Event F)
      → StandsFor size b es
      → StandsFor size (publish_one e b) (es ++ e ∷ [])
  unfolding publish_one
  publish_one-StandsFor {b} e h = record {
    sized = length-set b.history b.next e ∙ h.sized;
    open_still = h.open_still;
    holds = Holds-set zero_event e h.holds;
  }

  publish_each-StandsFor :
      (new : List (Event F)) {size : ℕ} {b : Broadcast F} {es : List (Event F)}
      → StandsFor size b es
      → StandsFor size (publish_each new b) (es ++ new)
  publish_each-StandsFor [] h = rw append-nil h
  publish_each-StandsFor (e ∷ new) {es} h =
      rw (← append_assoc es (e ∷ []) new) (publish_each-StandsFor new (publish_one-StandsFor e h))

  subscribe-StandsFor :
      (n k : ℤ) {size : ℕ} {b : Broadcast F} {es : List (Event F)}
      → StandsFor size b es
      → StandsFor size (subscribe n k b).0 es
  unfolding subscribe
  subscribe-StandsFor n k h =
      simp h.open_still (record { sized = h.sized; open_still = refl; holds = h.holds })

  cancel-StandsFor :
      (id : ℕ) {size : ℕ} {b : Broadcast F} {es : List (Event F)}
      → StandsFor size b es
      → StandsFor size (cancel id b).0 es
  unfolding cancel
  cancel-StandsFor id {b} h = elim (Option-cases (lookup id b.subscribers)) [
    | inl missing ↦ rw (missing, cancel) h
    | inr (ch, found) ↦
        rw (found, cancel) (record { sized = h.sized; open_still = h.open_still; holds = h.holds })
  ]

  publish_open :
      (new : List (Event F)) (b : Broadcast F)
      → b.closed ≡ false
      → publish new b ≡ publish_each new b
  unfolding publish
  publish_open new b h = simp h

  pub run-StandsFor :
      (cs : List (Call F)) {size : ℕ} {b : Broadcast F} {es : List (Event F)}
      → StandsFor size b es
      → StandsFor size (run cs b) (es ++ published cs)
  run-StandsFor [] h = rw append-nil h
  run-StandsFor (publishing new ∷ cs) {b} {es} h =
      rw (publish_open new b h.open_still, ← append_assoc es new (published cs))
        (run-StandsFor cs (publish_each-StandsFor new h))
  run-StandsFor (subscribing n k ∷ cs) {b} h = run-StandsFor cs (subscribe-StandsFor n k h)
  run-StandsFor (cancelling id ∷ cs) {size} {b} {es} h = run-StandsFor cs (cancel-StandsFor id h)

  total_lem :
      {size : ℕ} {b : Broadcast F} {es : List (Event F)}
      → StandsFor size b es
      → (if b.filled then length b.history else b.next) ≡ min (length es) size
  total_lem {b} h = elim (Bool-cases b.filled) [
    | inl full ↦ rw full (omega (arith, h.holds.filled full, h.sized))
    | inr partial ↦ rw partial (omega (arith, h.holds.partial partial, h.holds.inside, h.sized))
  ]

  recent-StandsFor :
      {size : ℕ} {b : Broadcast F} {es : List (Event F)} (n : ℤ)
      → StandsFor size b es
      → recent b n ≡ drop (length es - wanted n (min (length es) size)) es
  unfolding recent
  recent-StandsFor {size} {b} {es} n h = rw (total_lem h, wanted_lem n (min (length es) size)) read
    where
      m : ℕ
      m = min (length es) size

      read :
          cells zero_event b.history b.next m (wanted n m) (m - wanted n m)
          ≡ drop (length es - wanted n m) es
      read =
          let e : length es + (m - wanted n m) - m ≡ length es - wanted n m =
            omega (arith, wanted-le n m) in
          cells-Holds zero_event m (wanted n m) (m - wanted n m) h.holds (omega (arith, h.sized))
            (omega arith) (omega (arith, wanted-le n m))
          ∙ ap (λ k. drop k es) e

  -- A subscriber is handed exactly the latest events: after any sequence of publications,
  -- subscriptions and cancellations on a new broadcast, `recent n` returns, in order, the last
  -- `min n size` of all events published so far, where `n` of 0 or less asks for all that are
  -- kept and a size of 0 or less is the default one.
  pub recent-run :
      (size n : ℤ) (cs : List (Call F))
      → recent (run cs (new_broadcast size)) n
        ≡ drop
            (length (published cs) - wanted n (min (length (published cs)) (size_of size)))
            (published cs)
  recent-run size n cs = recent-StandsFor n (run-StandsFor cs (new_broadcast-StandsFor size))
