-- ===== src/Process/Dispatch.antt =====
-- internal/core/engine/engine.go: the dispatch of observations to workers.
--
-- The hash `fnv.New32a` of the standard library is an argument: 32 bits of a text.
use tezcatl.Base.{
  ℕ, ◌%◌, ◌<◌, ◌≡◌, ◌≢◌, refl, sym, ◌∙◌, subst, inl, inr, Bool, Bool-cases, List, [], ◌∷◌, ◌++◌,
  append-nil, append_assoc, Bytes, bytes_eq, length, get_or, set, keep, ◌==◌, ==_iff,
  get_or-set_self, get_or-set_ne, length-set,
}
use tezcatl.Model.{Observation, partition_key}

-- `partitionIndex`, for a positive number of workers
unfoldable pub partition_index : (Bytes → ℕ) → Bytes → ℕ → ℕ
partition_index hash key total = hash key % total

module _ {F : Type 0} where
  -- `input <- obs`
  unfoldable pub send_to :
      ℕ → Observation F → List (List (Observation F)) → List (List (Observation F))
  send_to i o inputs = set inputs i (get_or inputs i [] ++ o ∷ [])

  -- the loop over the observations
  unfoldable pub dispatch :
      (Bytes → ℕ) → List (Observation F) → List (List (Observation F)) → List (List (Observation F))
  unfolding partition_index send_to partition_key
  dispatch hash [] inputs = inputs
  dispatch hash (o ∷ rest) inputs =
      dispatch hash rest (send_to (partition_index hash (partition_key o) (length inputs)) o inputs)

  length-send_to :
      (i : ℕ) (o : Observation F) (inputs : List (List (Observation F)))
      → length (send_to i o inputs) ≡ length inputs
  unfolding send_to
  length-send_to i o inputs = length-set inputs i (get_or inputs i [] ++ o ∷ [])

  sent :
      (j i : ℕ) (o : Observation F) (p : Observation F → Bool) (rest : List (Observation F))
      (inputs : List (List (Observation F)))
      → i < length inputs
      → p o ≡ (j == i)
      → get_or (send_to j o inputs) i [] ++ keep p rest ≡ get_or inputs i [] ++ keep p (o ∷ rest)
  unfolding send_to
  sent j i o p rest inputs h e = elim (Bool-cases (j == i)) [
    | inl here ↦
        (let same : j ≡ i = (==_iff j i).0 here in
          rw
            (
              e,
              same,
              get_or-set_self inputs i (get_or inputs i [] ++ o ∷ []) [] h,
              (==_iff i i).1 refl,
            )
            (append_assoc (get_or inputs i []) (o ∷ []) (keep p rest)))
    | inr there ↦
        (let apart : j ≢ i = λ q. absurd (let g = sym there ∙ (==_iff j i).1 q in cc) in
          rw (e, there, get_or-set_ne inputs j i (get_or inputs j [] ++ o ∷ []) [] apart) refl)
  ]

  -- Every worker gets exactly the observations of its partitions, in the order in which they were
  -- ingested, behind what it was sent before: two observations of one partition meet the same worker
  -- in their order, and none is lost or sent twice.
  pub dispatch_lem :
      (hash : Bytes → ℕ) (os : List (Observation F)) (inputs : List (List (Observation F))) (i : ℕ)
      → i < length inputs
      → get_or (dispatch hash os inputs) i []
        ≡ get_or inputs i []
          ++ keep (λ o. partition_index hash (partition_key o) (length inputs) == i) os
  unfolding dispatch
  dispatch_lem hash [] inputs i h = sym (append-nil (get_or inputs i []))
  dispatch_lem hash (o ∷ rest) inputs i h =
      let j = partition_index hash (partition_key o) (length inputs) in
      let same = length-send_to j o inputs in
      let later = dispatch_lem hash rest (send_to j o inputs) i (subst (λ n. i < n) (sym same) h) in
      subst
        (λ n.
          get_or (dispatch hash rest (send_to j o inputs)) i []
          ≡ get_or (send_to j o inputs) i []
            ++ keep (λ x. partition_index hash (partition_key x) n == i) rest)
        same later
      ∙ sent j i o (λ x. partition_index hash (partition_key x) (length inputs) == i) rest inputs h
          refl
