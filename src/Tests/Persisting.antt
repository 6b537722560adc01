-- ===== src/Tests/Persisting.antt =====
-- internal/core/state on a concrete store.
use tezcatl.Base.{◌≡◌, refl, Option, none, some, List, [], ◌∷◌, Bytes, bytes_eq, same_bytes, codes}
use tezcatl.Base.Assoc.{Map, lookup, insert}
use tezcatl.Persist.{Loaded, found, not_found, fine, could_not_snapshot, restore_all, save_all}

-- a store in memory
abbrev answer : Option Bytes → Loaded
answer none = not_found
answer (some v) = found v

abbrev fetch : Bytes → Map Bytes Bytes → Loaded
fetch k m = answer (lookup k m)

abbrev keep_in : Bytes → Bytes → Map Bytes Bytes → Option (Map Bytes Bytes)
keep_in k v m = some (insert k v m)

-- a snapshotter of one text under a key
abbrev Slot : Type 0
Slot = Bytes × Bytes

abbrev fill_slot : Bytes → Slot → Option Slot
fill_slot bytes s = some (s.0, bytes)

abbrev learned_slots : List Slot
learned_slots = (codes "drain", codes "templates") ∷ (codes "detect-log", codes "baselines") ∷ []

abbrev blank_slots : List Slot
blank_slots = (codes "drain", []) ∷ (codes "detect-log", []) ∷ []

-- what was saved
abbrev saved : Map Bytes Bytes
saved = (save_all (λ (s : Slot). s.0) (λ (s : Slot). some s.1) keep_in learned_slots []).0

restored_slots :
    restore_all (λ (s : Slot). s.0) fill_slot fetch blank_slots saved ≡ (learned_slots, fine)
unfolding restore_all save_all lookup insert same_bytes
restored_slots = refl

-- nothing was saved yet
first_start : restore_all (λ (s : Slot). s.0) fill_slot fetch blank_slots [] ≡ (blank_slots, fine)
unfolding restore_all lookup
first_start = refl

-- the first snapshot that fails ends the run
failed_snapshot :
    save_all (λ (s : Slot). s.0) (λ (s : Slot). none) keep_in learned_slots []
    ≡ ([], could_not_snapshot (codes "drain"))
unfolding save_all
failed_snapshot = refl
