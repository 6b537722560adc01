-- ===== src/Persist.antt =====
-- internal/core/state/manager.go: `RestoreAll` and `SaveAll`.
--
-- The snapshotters and the store are interfaces of the source, here the arguments of a section: a
-- snapshotter is a state `S` with its key, its `Snapshot` and its `Restore`, which leaves the state as it
-- is where it fails; a store is a state `T` with its `Load` and its `Save`. `none` is an error.
use tezcatl.Base.{Option, none, some, List, [], ◌∷◌, Bytes}

-- the answer of `Load`; `not_found` is `ErrStateNotFound`
pub data Loaded : Type 0 where
  found : Bytes → Loaded
  not_found load_failed : Loaded

-- how a run ends: without error, or with the error of a key
pub data Outcome : Type 0 where
  fine : Outcome
  could_not_load could_not_restore could_not_snapshot could_not_save : Bytes → Outcome

module _ {S : Type 0} where
  abbrev pub before_rest : S → List S × Outcome → List S × Outcome
  before_rest s out = (s ∷ out.0, out.1)

module _ {S : Type 0} {T : Type 0} (key : S → Bytes) (restore : Bytes → S → Option S)
    (load : Bytes → T → Loaded) where
  -- `RestoreAll`: the snapshotters after it
  unfoldable pub restore_all : List S → T → List S × Outcome
  restore_all [] t = ([], fine)
  restore_all (s ∷ rest) t =
      let others = restore_all rest t in
      elim (load (key s) t) [
        | found bytes ↦ elim (restore bytes s) [
          | none ↦ (s ∷ rest, could_not_restore (key s))
          | some s' ↦ before_rest s' others
        ]
        | not_found ↦ before_rest s others
        | load_failed ↦ (s ∷ rest, could_not_load (key s))
      ]

module _ {S : Type 0} {T : Type 0} (key : S → Bytes) (snap : S → Option Bytes)
    (save : Bytes → Bytes → T → Option T) where
  -- `SaveAll`: the store after it
  unfoldable pub save_all : List S → T → T × Outcome
  save_all [] t = (t, fine)
  save_all (s ∷ rest) t = elim (snap s) [
    | none ↦ (t, could_not_snapshot (key s))
    | some bytes ↦ elim (save (key s) bytes t) [
      | none ↦ (t, could_not_save (key s))
      | some t' ↦ save_all rest t'
    ]
  ]
