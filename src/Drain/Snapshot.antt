-- ===== src/Drain/Snapshot.antt =====
-- internal/core/drain/snapshot.go: `Snapshot` and `Restore`.
--
-- The codec, gzip around JSON, is an argument: `none` is the error of a text that does not decode, and
-- encoding into memory has no error.
pub mod Restoring
use tezcatl.Base.{
  ℕ, Bool, Option, none, some, List, [], ◌∷◌, Bytes, is_some, ◌==◌, ◌>>=◌, if◌then◌else◌,
}
use tezcatl.Drain.Cache
use tezcatl.Drain.Cache.{Cluster, values}
use tezcatl.Drain.Learn.{Drain}
use tezcatl.Drain.Settle.{Config, new_drain}
use tezcatl.Drain.Tree.{add_seq_to_prefix_tree}
use tezcatl.Model.{Floats}

abbrev pub snapshot_version : ℕ
snapshot_version = 1

-- `snapshot`; a `snapshotCluster` has the fields of a cluster
pub record Snap : Type 0 where
  pub version : ℕ
  pub counter : ℕ
  pub clusters : List Cluster

-- how `Restore` ends: the new drain, an error, or a panic
pub data Restored (F : Type 0) : Type 0 where
  restored : Drain F → Restored F
  undecodable : Restored F
  unsupported_version : ℕ → Restored F
  panicked : Restored F

module _ {F : Type 0} where
  -- what `Snapshot` writes
  unfoldable pub take_snapshot : Drain F → Snap
  take_snapshot d = record {
    version = snapshot_version;
    counter = d.clusters_counter;
    clusters = values d.clusters;
  }

  -- `Snapshot`
  unfoldable pub snapshot : (Snap → Bytes) → Drain F → Bytes
  unfolding take_snapshot
  snapshot encode d = encode (take_snapshot d)

  -- the loop over the clusters; `none` is a panic
  unfoldable pub put_back : List Cluster → Drain F → Option (Drain F)
  unfolding add_seq_to_prefix_tree
  put_back [] d = some d
  put_back (c ∷ rest) d = do
    root ←
        add_seq_to_prefix_tree d.settings (λ j. is_some (Cache.get j (Cache.put c.id c d.clusters)))
          c.id c.template_tokens d.root
    put_back rest (record d { root = root; clusters = Cache.put c.id c d.clusters })

  abbrev pub or_panic : Option (Drain F) → Restored F
  or_panic none = panicked
  or_panic (some d) = restored d

module _ {F : Type 0} ⦃fl : Floats F⦄ where
  -- `Restore`, with the configuration of the miner
  unfoldable pub restore : (Bytes → Option Snap) → (Bytes → Bool) → Config F → Bytes → Restored F
  unfolding put_back new_drain
  restore decode has_numbers config bytes = elim (decode bytes) [
    | none ↦ undecodable
    | some snap ↦
        if snap.version == snapshot_version
        then or_panic (
            put_back snap.clusters
              (record (new_drain has_numbers config) { clusters_counter = snap.counter }))
        else unsupported_version snap.version
  ]
