-- ===== src/Drain/Tree/Routing.antt =====
-- internal/core/drain/drain.go: `addSeqToPrefixTree` against `treeSearch`.
use tezcatl.Base.{
  ℕ, suc, ◌+◌, ◌<◌, ◌≡◌, refl, subst, Bool, false, ◌||◌, Bool-cases, inl, inr, ◌⊎◌, none, some,
  some-cancel, Option-cases, List, [], ◌∷◌, arith, length, leb, ◌==◌, keep, In, In-append_right,
  >>=-eq-some, Bytes, bytes_eq, same_bytes_iff, beq_refl, itoa,
}
use tezcatl.Drain.Tree.{
  Node, Children, nothing, child, Settings, children, cluster_ids, find, assign, child_or_new,
  choose, add_path, add_seq_to_prefix_tree, search_path, step_to, tree_search,
}

pub find-assign_self : (k : Bytes) (nd : Node) (ch : Children) → find k (assign k nd ch) ≡ some nd
unfolding find assign
find-assign_self k nd nothing = ground (arith, beq_refl k)
find-assign_self k nd (child j old ch) = ground (arith, beq_refl k, find-assign_self k nd ch)

pub find-assign_ne :
    (k j : Bytes) (nd : Node) (ch : Children)
    → bytes_eq.beq k j ≡ false
    → find j (assign k nd ch) ≡ find j ch
unfolding find assign
find-assign_ne k j nd nothing h = ground arith
find-assign_ne k j nd (child i old ch) h =
    ground (
      arith,
      same_bytes_iff i k,
      same_bytes_iff i j,
      same_bytes_iff k j,
      find-assign_ne k j nd ch h,
    )

-- The key chosen is the token, or the parameter where the token has no child.
pub choose-cases :
    (s : Settings) (token : Bytes) (ch : Children) (key : Bytes)
    → choose s token ch ≡ some key
    → (key ≡ token) ⊎ (key ≡ s.param_str) × (find token ch ≡ none)
unfolding choose
choose-cases s token ch key h = elim (Option-cases (find token ch)) [
  | inr (nd, found) ↦ inl (ground (arith))
  | inl missing ↦ ground (arith)
]

step_to-assign :
    (s : Settings) (token key : Bytes) (nd : Node) (ch : Children)
    → choose s token ch ≡ some key
    → step_to s token (assign key nd ch) ≡ some nd
unfolding step_to
step_to-assign s token key nd ch h = elim (choose-cases s token ch key h) [
  | inl e ↦ rw e (ground (arith, find-assign_self token nd ch))
  | inr (e, missing) ↦ elim (Bool-cases (bytes_eq.beq s.param_str token)) [
    | inl same ↦
        rw (e, (same_bytes_iff s.param_str token).0 same)
          (ground (arith, find-assign_self token nd ch))
    | inr other ↦ rw e (
        ground (
          arith,
          find-assign_ne s.param_str token nd ch other,
          missing,
          find-assign_self s.param_str nd ch,
        ))
  ]
]

path_lem :
    (s : Settings) (alive : ℕ → Bool) (id n depth : ℕ) (tokens : List Bytes) (nd nd' : Node)
    → depth + length tokens ≡ n + 1
    → 0 < length tokens
    → add_path s alive id n depth tokens nd ≡ some nd'
    → (leaf : Node) × (search_path s n depth tokens nd' ≡ some leaf) × In id (cluster_ids leaf)
unfolding add_path search_path
path_lem s alive id n depth [] nd nd' e h run = absurd (omega arith)
path_lem s alive id n depth (token ∷ tokens) nd nd' e h run =
    elim (Bool-cases (leb s.depth depth || leb n depth)) [
      | inl at_leaf ↦
          let made = rw at_leaf at run in
          (
            nd',
            rw at_leaf,
            subst (λ x. In id (cluster_ids x)) (some-cancel made)
                (In-append_right id (keep alive (cluster_ids nd)) (id ∷ []) (inl refl)),
          )
      | inr above ↦
          let (key, chosen, rest) =
            >>=-eq-some (choose s token (children nd)) _ (rw above at run) in
          let (below, added, made) =
            >>=-eq-some (add_path s alive id n (depth + 1) tokens (child_or_new key (children nd)))
              _ rest in
          let (leaf, found, here) =
            path_lem s alive id n (depth + 1) tokens (child_or_new key (children nd)) below
              (omega arith) (ground arith) added in
          (
            leaf,
            subst (λ x. search_path s n depth (token ∷ tokens) x ≡ some leaf) (some-cancel made)
                (rw (above, step_to-assign s token key below (children nd) chosen) found),
            here,
          )
    ]

suc-eq-zero : (n : ℕ) → (suc n == 0) ≡ false
suc-eq-zero n = ground arith

-- What is learned is found again: once `addSeqToPrefixTree` has registered a cluster, a search of the
-- tree for the cluster's own tokens ends at a leaf that lists it, whatever was in the tree.
pub tree_search-add_seq :
    (s : Settings) (alive : ℕ → Bool) (id : ℕ) (tokens : List Bytes) (root root' : Children)
    → add_seq_to_prefix_tree s alive id tokens root ≡ some root'
    → (ids : List ℕ) × (tree_search s tokens root' ≡ some ids) × In id ids
unfolding add_seq_to_prefix_tree tree_search
tree_search-add_seq s alive id [] root root' run = (
  id ∷ [],
  subst (λ r. tree_search s [] r ≡ some (id ∷ [])) (some-cancel run) (rw find-assign_self refl),
  inl refl,
)
tree_search-add_seq s alive id (token ∷ tokens) root root' run =
    let key = itoa (length (token ∷ tokens)) in
    let (nd, added, made) =
      >>=-eq-some
        (add_path s alive id (length (token ∷ tokens)) 1 (token ∷ tokens) (child_or_new key root)) _
        (rw (suc-eq-zero (length tokens)) at run) in
    let (leaf, found, here) =
      path_lem s alive id (length (token ∷ tokens)) 1 (token ∷ tokens) (child_or_new key root) nd
        (omega arith) (omega arith) added in
    (
      cluster_ids leaf,
      subst (λ r. tree_search s (token ∷ tokens) r ≡ some (cluster_ids leaf)) (some-cancel made)
          (rw (find-assign_self, suc-eq-zero (length tokens), found) refl),
      here,
    )
