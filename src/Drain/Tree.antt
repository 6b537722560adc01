-- ===== src/Drain/Tree.antt =====
-- internal/core/drain/drain.go: the prefix tree that routes messages to clusters.
pub mod Shape
pub mod Routing
use tezcatl.Base.{
  ℕ, zero, suc, ◌+◌, Bool, true, false, ◌&&◌, ◌||◌, Option, none, some, List, [], ◌∷◌, ◌++◌, length,
  keep, leb, ◌==◌, Bytes, bytes_eq, itoa, is_some, ◌>>=◌, if◌then◌else◌,
}
use tezcatl.Base.Ints.{ℤ, pos, ltb_ℤ, leb_ℤ}
use tezcatl.Drain.Cache.{Cluster}

-- `node`: its children by key, and the ids of its clusters
mutual
  pub data Node : Type 0 where
    node : Children → List ℕ → Node

  pub data Children : Type 0 where
    nothing : Children
    child : Bytes → Node → Children → Children

-- The settings of `Drain` that route a message. `has_numbers` tells a token that holds a digit of
-- `unicode.IsDigit`, which is the standard library's.
pub record Settings : Type 0 where
  pub depth : ℕ
  pub max_children : ℤ
  pub param_str : Bytes
  pub parametrize_numeric_tokens : Bool
  pub has_numbers : Bytes → Bool

abbrev pub new_node : Node
new_node = node nothing []

abbrev pub children : Node → Children
children (node ch ids) = ch

abbrev pub cluster_ids : Node → List ℕ
cluster_ids (node ch ids) = ids

-- `keyToChild[key]`, `keyToChild[key] = child` and `len(keyToChild)`
unfoldable pub find : Bytes → Children → Option Node
find key nothing = none
find key (child k nd ch) = if bytes_eq.beq k key then some nd else find key ch

unfoldable pub assign : Bytes → Node → Children → Children
assign key new nothing = child key new nothing
assign key new (child k nd ch) =
    if bytes_eq.beq k key then child key new ch else child k nd (assign key new ch)

unfoldable pub count : Children → ℕ
count nothing = 0
count (child k nd ch) = suc (count ch)

abbrev pub child_or_new : Bytes → Children → Node
child_or_new key ch = elim (find key ch) [ none ↦ new_node | some nd ↦ nd ]

-- The key under which the loop of `addSeqToPrefixTree` goes on; `none` is the nil node that a read of a
-- missing wildcard gives, on which the next round panics.
unfoldable pub choose : Settings → Bytes → Children → Option Bytes
choose s token ch =
    let crowded =
      if ltb_ℤ (pos (count ch + 1)) s.max_children
      then some token
      else (if leb_ℤ (pos (count ch + 1)) s.max_children then some s.param_str else none) in
    if is_some (find token ch)
    then some token
    else if s.parametrize_numeric_tokens && s.has_numbers token
    then some s.param_str
    else if is_some (find s.param_str ch)
    then some (if ltb_ℤ (pos (count ch)) s.max_children then token else s.param_str)
    else crowded

-- The loop of `addSeqToPrefixTree` below the first level: `depth` counts the levels, `n` is the token
-- count, `alive` tells the clusters that are still in the cache. `none` is a panic.
unfoldable pub add_path : Settings → (ℕ → Bool) → ℕ → ℕ → ℕ → List Bytes → Node → Option Node
add_path s alive id n depth [] nd = some nd
add_path s alive id n depth (token ∷ tokens) nd =
    let descend : Option Node = (do
      key ← choose s token (children nd)
      below ← add_path s alive id n (depth + 1) tokens (child_or_new key (children nd))
      some (node (assign key below (children nd)) (cluster_ids nd))) in
    let leaf = some (node (children nd) (keep alive (cluster_ids nd) ++ id ∷ [])) in
    if leb s.depth depth || leb n depth then leaf else descend

-- `addSeqToPrefixTree`: the children of the root afterwards
unfoldable pub add_seq_to_prefix_tree :
    Settings → (ℕ → Bool) → ℕ → List Bytes → Children → Option Children
unfolding add_path choose
add_seq_to_prefix_tree s alive id tokens root =
    let key = itoa (length tokens) in
    let first = child_or_new key root in
    let added : Option Children = (do
      nd ← add_path s alive id (length tokens) 1 tokens first
      some (assign key nd root)) in
    if length tokens == 0 then some (assign key (node (children first) (id ∷ [])) root) else added

-- the child under which the search of a token goes on
unfoldable pub step_to : Settings → Bytes → Children → Option Node
step_to s token ch = if is_some (find token ch) then find token ch else find s.param_str ch

-- the loop of `treeSearch` below the first level
unfoldable pub search_path : Settings → ℕ → ℕ → List Bytes → Node → Option Node
search_path s n depth [] nd = some nd
search_path s n depth (token ∷ tokens) nd =
    let descend : Option Node = (do
      below ← step_to s token (children nd)
      search_path s n (depth + 1) tokens below) in
    if leb s.depth depth || leb n depth then some nd else descend

-- `treeSearch`, up to the choice among the clusters of the leaf
unfoldable pub tree_search : Settings → List Bytes → Children → Option (List ℕ)
unfolding search_path
tree_search s tokens root = do
  first ← find (itoa (length tokens)) root
  let leaf : Option (List ℕ) = (do
    nd ← search_path s (length tokens) 1 tokens first
    some (cluster_ids nd))
  if length tokens == 0 then some (cluster_ids first) else leaf
