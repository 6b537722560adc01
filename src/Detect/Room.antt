-- ===== src/Detect/Room.antt =====
-- internal/core/detect/log.go and metric.go: `makeRoom`, of entries that tell when they were seen.
pub mod Oldest
use tezcatl.Base.{
  ℕ, zero, suc, Bool, true, false, List, [], ◌∷◌, Bytes, bytes_eq, length, ltb, is_empty,
  if◌then◌else◌, ◌||◌,
}
use tezcatl.Base.Assoc.{Map, delete}
use tezcatl.Base.Ints.{ℤ, pos, pos_part, leb_ℤ, ltb_ℤ, Time, before}

module _ {V : Type 0} (seen : V → Time) where
  -- the loop over the entries, from `oldestID` and `oldestSeen`
  unfoldable pub oldest : Bytes × Time → Map Bytes V → Bytes × Time
  oldest found [] = found
  oldest found ((k, s) ∷ m) =
      oldest (if is_empty found.0 || before (seen s) found.1 then (k, seen s) else found) m

  -- `for len(s.Templates) >= maxTemplates`; the fuel is the number of entries
  unfoldable pub evict : ℕ → ℕ → Map Bytes V → Map Bytes V
  unfolding oldest delete
  evict zero cap m = m
  evict (suc fuel) cap m =
      let rest = evict fuel cap (delete (oldest ([], 0) m).0 m) in
      if ltb (length m) cap then m else rest

  -- `makeRoom`
  unfoldable pub make_room : ℤ → Map Bytes V → Map Bytes V
  unfolding evict
  make_room cap m =
      if leb_ℤ cap (pos 0) || ltb_ℤ (pos (length m)) cap
      then m
      else evict (length m) (pos_part cap) m
