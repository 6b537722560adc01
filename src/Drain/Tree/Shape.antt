-- ===== src/Drain/Tree/Shape.antt =====
-- internal/core/drain/drain.go: the children that `addSeqToPrefixTree` reads.
use tezcatl.Base.{
  ℕ, suc, ◌+◌, ◌<◌, ◌≡◌, refl, subst, some-cancel, ◌≢◌, Bool, true, ◌||◌, Bool-cases, inl, inr, ◌⊎◌,
  none, some, Option-cases, List, [], ◌∷◌, ◌++◌, arith, length, leb, ◌==◌, keep, is_some, Bytes,
  bytes_eq, same_bytes_iff, if◌then◌else◌, itoa,
}
use tezcatl.Base.Ints.{pos_part}
use tezcatl.Drain.Tree.{
  Node, node, Children, nothing, child, Settings, children, cluster_ids, find, assign, count,
  child_or_new, new_node, choose, add_path, add_seq_to_prefix_tree,
}
use tezcatl.Drain.Tree.Routing.{find-assign_self, find-assign_ne}

module _ (s : Settings) where
  -- Children among which there is a wildcard or room for one.
  abbrev pub HasRoom : Children → Type 0
  HasRoom ch = (is_some (find s.param_str ch) ≡ true) ⊎ (count ch < pos_part s.max_children)

  -- So at every node of a tree.
  mutual
    pub data Roomy : Node → Type 0 where
      at_node : {ch : Children} {ids : List ℕ} → HasRoom ch → RoomyAll ch → Roomy (node ch ids)

    pub data RoomyAll : Children → Type 0 where
      no_child : RoomyAll nothing
      and_child :
          {k : Bytes} {nd : Node} {ch : Children}
          → Roomy nd
          → RoomyAll ch
          → RoomyAll (child k nd ch)

  new_node-Roomy : 0 < pos_part s.max_children → Roomy new_node
  unfolding count find
  new_node-Roomy h = at_node (inr h) no_child

  find-Roomy :
      (key : Bytes) (ch : Children) (nd : Node) → RoomyAll ch → find key ch ≡ some nd → Roomy nd
  unfolding find
  find-Roomy key nothing nd r h = absurd (ground arith)
  find-Roomy key (child k old ch) nd (and_child r rs) h = elim (Bool-cases (bytes_eq.beq k key)) [
    | inl same ↦ subst Roomy (some-cancel (rw same at h)) r
    | inr other ↦ find-Roomy key ch nd rs (rw other at h)
  ]

  assign-Roomy :
      (key : Bytes) (nd : Node) (ch : Children)
      → Roomy nd
      → RoomyAll ch
      → RoomyAll (assign key nd ch)
  unfolding assign
  assign-Roomy key nd nothing r rs = and_child r no_child
  assign-Roomy key nd (child k old ch) r (and_child q rs) = elim (Bool-cases (bytes_eq.beq k key)) [
    | inl same ↦ rw same (and_child r rs)
    | inr other ↦ rw other (and_child q (assign-Roomy key nd ch r rs))
  ]

  count-assign :
      (key : Bytes) (nd : Node) (ch : Children)
      → count (assign key nd ch) ≡ (if is_some (find key ch) then count ch else suc (count ch))
  unfolding count assign find
  count-assign key nd nothing = refl
  count-assign key nd (child k old ch) = ground (arith, count-assign key nd ch)

  child_or_new-Roomy :
      (key : Bytes) (ch : Children)
      → 0 < pos_part s.max_children
      → RoomyAll ch
      → Roomy (child_or_new key ch)
  child_or_new-Roomy key ch h rs = elim (Option-cases (find key ch)) [
    | inl missing ↦ rw (missing, child_or_new) (new_node-Roomy h)
    | inr (nd, found) ↦ rw (found, child_or_new) (find-Roomy key ch nd rs found)
  ]

  room_after :
      (token key : Bytes) (ch : Children) (nd : Node)
      → HasRoom ch
      → choose s token ch ≡ some key
      → HasRoom (assign key nd ch)
  unfolding choose
  room_after token key ch nd h c = elim (Bool-cases (bytes_eq.beq key s.param_str)) [
    | inl same ↦
        inl (rw ((same_bytes_iff key s.param_str).0 same, find-assign_self s.param_str nd ch))
    | inr other ↦ ground (
      arith,
      h,
      find-assign_ne key s.param_str nd ch other,
      count-assign key nd ch,
      same_bytes_iff key s.param_str,
    )
  ]

  choose_some : (token : Bytes) (ch : Children) → HasRoom ch → choose s token ch ≢ none
  unfolding choose
  choose_some token ch h = ground (arith, h)

  -- With room there is always a key to go on with, and room again afterwards.
  choose_lem :
      (token : Bytes) (ch : Children)
      → HasRoom ch
      → (key : Bytes) × (choose s token ch ≡ some key) × ((nd : Node) → HasRoom (assign key nd ch))
  choose_lem token ch h = elim (Option-cases (choose s token ch)) [
    | inl stuck ↦ absurd (choose_some token ch h stuck)
    | inr (key, e) ↦ (key, e, λ nd. room_after token key ch nd h e)
  ]

  children-Roomy : (nd : Node) → Roomy nd → HasRoom (children nd) × RoomyAll (children nd)
  children-Roomy (node ch ids) (at_node h rs) = (h, rs)

  add_path-Roomy :
      (alive : ℕ → Bool) (id n depth : ℕ) (tokens : List Bytes) (nd : Node)
      → 0 < pos_part s.max_children
      → Roomy nd
      → (nd' : Node) × (add_path s alive id n depth tokens nd ≡ some nd') × Roomy nd'
  unfolding add_path
  add_path-Roomy alive id n depth [] nd h r = (nd, refl, r)
  add_path-Roomy alive id n depth (token ∷ tokens) nd h r =
      let (room, rooms) = children-Roomy nd r in
      elim (Bool-cases (leb s.depth depth || leb n depth)) [
        | inl at_leaf ↦ (
          node (children nd) (keep alive (cluster_ids nd) ++ id ∷ []),
          rw at_leaf refl,
          at_node room rooms,
        )
        | inr above ↦
            let (key, chosen, after) = choose_lem token (children nd) room in
            let (below, added, roomy) =
              add_path-Roomy alive id n (depth + 1) tokens (child_or_new key (children nd)) h
                (child_or_new-Roomy key (children nd) h rooms) in
            (
              node (assign key below (children nd)) (cluster_ids nd),
              rw (above, chosen, added) refl,
              at_node (after below) (assign-Roomy key below (children nd) roomy rooms),
            )
      ]

  -- Registering a cluster never reads a missing child: with a positive `MaxChildren`, in a tree whose
  -- nodes all have a wildcard child or room for one, `addSeqToPrefixTree` returns, and leaves such a
  -- tree. The empty tree is one.
  pub add_seq-Roomy :
      (alive : ℕ → Bool) (id : ℕ) (tokens : List Bytes) (root : Children)
      → 0 < pos_part s.max_children
      → RoomyAll root
      → (root' : Children) × (add_seq_to_prefix_tree s alive id tokens root ≡ some root')
        × RoomyAll root'
  unfolding add_seq_to_prefix_tree
  add_seq-Roomy alive id tokens root h rs =
      let key = itoa (length tokens) in
      let first = child_or_new-Roomy key root h rs in
      let (room, rooms) = children-Roomy (child_or_new key root) first in
      elim (Bool-cases (length tokens == 0)) [
        | inl empty ↦ (
          assign key (node (children (child_or_new key root)) (id ∷ [])) root,
          rw empty refl,
          assign-Roomy key _ root (at_node room rooms) rs,
        )
        | inr some_token ↦
            let (nd, added, roomy) =
              add_path-Roomy alive id (length tokens) 1 tokens (child_or_new key root) h first in
            (assign key nd root, rw (some_token, added) refl, assign-Roomy key nd root roomy rs)
      ]
