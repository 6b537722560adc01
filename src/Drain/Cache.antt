-- ===== src/Drain/Cache.antt =====
-- internal/core/drain/cluster.go: clusters by id, with least-recently-used eviction.
pub mod Validity
pub mod Recency
use tezcatl.Base.{
  ℕ, suc, ◌-◌, Bool, true, false, ◌&&◌, Option, none, some, List, [], ◌∷◌, ◌++◌, length, drop, leb,
  Bytes, number_eq, map, if◌then◌else◌,
}
use tezcatl.Base.Assoc.{Map, lookup, insert, delete}
use tezcatl.Base.Ints.{ℤ, pos, ltb_ℤ, leb_ℤ}

pub record Cluster : Type 0 where
  pub id : ℕ
  pub template_tokens : List Bytes
  pub size : ℕ

-- `clusterCache`. The list `order` holds the entries, the least recently used first; the map
-- `elements`, from an id to its element of that list, is the search for the id in the list.
pub record Cache : Type 0 where
  pub max_size : ℤ
  pub order : Map ℕ Cluster

abbrev pub new_cache : ℤ → Cache
new_cache max_size = record { max_size = max_size; order = [] }

-- `Get`: `none` is nil
unfoldable pub get : ℕ → Cache → Option Cluster
get id c = lookup id c.order

-- `MoveToBack`
abbrev pub to_back : ℕ → Cluster → Map ℕ Cluster → Map ℕ Cluster
to_back id cluster order = delete id order ++ (id, cluster) ∷ []

-- `Touch`
unfoldable pub touch : ℕ → Cache → Cache
touch id c = elim (lookup id c.order) [
  | none ↦ c
  | some cluster ↦ record c { order = to_back id cluster c.order }
]

-- the removal of the front element when the cache is full
unfoldable pub make_room : ℤ → Map ℕ Cluster → Map ℕ Cluster
make_room max_size order =
    if ltb_ℤ (pos 0) max_size && leb_ℤ max_size (pos (length order)) then drop 1 order else order

-- `Put`
unfoldable pub put : ℕ → Cluster → Cache → Cache
unfolding make_room
put id cluster c = elim (lookup id c.order) [
  | none ↦ record c { order = make_room c.max_size c.order ++ (id, cluster) ∷ [] }
  | some _ ↦ record c { order = to_back id cluster c.order }
]

-- A write through the pointer that `Get` returned: the entry keeps its place.
unfoldable pub store : ℕ → Cluster → Cache → Cache
store id cluster c = record c { order = insert id cluster c.order }

-- `Len`, `IDs`, `Values`
abbrev pub len : Cache → ℕ
len c = length c.order

abbrev pub ids : Cache → List ℕ
ids c = map (λ e. e.0) c.order

abbrev pub values : Cache → List Cluster
values c = map (λ e. e.1) c.order
