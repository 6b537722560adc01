-- ===== src/Window.antt =====
-- internal/core/window/ring.go: the ring of the most recent observations of a partition.
pub mod Recent
use tezcatl.Base.{
  ℕ, zero, suc, ◌+◌, ◌-◌, ◌%◌, max, Bool, true, false, List, [], ◌∷◌, length, set, replicate, ◌==◌,
  if◌then◌else◌,
}
use tezcatl.Base.Cyclic.{cells}
use tezcatl.Base.Ints.{ℤ, pos, pos_part, ltb_ℤ, leb_ℤ}
use tezcatl.Model.{Observation, zero_observation}

pub record Ring (F : Type 0) : Type 0 where
  pub buf : List (Observation F)
  pub next : ℕ
  pub full : Bool

module _ {F : Type 0} where
  -- `NewRing`; `max(1, capacity)` of a negative capacity is 1
  unfoldable pub new_ring : ℤ → Ring F
  new_ring capacity = record {
    buf = replicate (max 1 (pos_part capacity)) zero_observation;
    next = 0;
    full = false;
  }

  -- `Add`
  unfoldable pub add : Ring F → Observation F → Ring F
  add r obs =
      let next = (r.next + 1) % length r.buf in
      record { buf = set r.buf r.next obs; next = next; full = if next == 0 then true else r.full }

  -- `Last`. The index `next - n + i + len` is formed in another order, which ends at the same number:
  -- `n` is at most `len`.
  unfoldable pub last : Ring F → ℤ → List (Observation F)
  last r n =
      let size = if r.full then length r.buf else r.next in
      let n' = if ltb_ℤ (pos size) n then pos size else n in
      if leb_ℤ n' (pos 0)
      then []
      else cells zero_observation r.buf r.next (pos_part n') (pos_part n') 0

  -- `Add` for each observation of a list
  abbrev pub add_all : Ring F → List (Observation F) → Ring F
  add_all r [] = r
  add_all r (o ∷ os) = add_all (add r o) os
