-- ===== src/Tests/Mining.antt =====
-- The properties of log mining at concrete inputs.
use tezcatl.Base.{
  ℕ, ◌≡◌, refl, true, false, ◌⊎◌, inl, inr, some, List, [], ◌∷◌, Bytes, codes, same_bytes, itoa,
  arith, length, number_eq, number_iff, Bool-cases, some-cancel, sym, ap, ◌∙◌, In, ◌==◌,
}
use tezcatl.Base.Ints.{pos, pos_part, ltb_ℤ}
use tezcatl.Drain.Cache.{Cluster, Cache, new_cache, get, put, touch}
use tezcatl.Drain.Cache.Validity.{IsValid}
use tezcatl.Drain.Cache.Recency.{Evicted, newest_id, get-put, get-touch}
use tezcatl.Base.Assoc.{lookup, delete}
use tezcatl.Drain.Learn.Selection.{Chosen, Maximal, fast_match-Maximal}
use tezcatl.Model.{Ordered}
use tezcatl.Drain.Learn.{fast_match, best_of, consider, compare_with, Drain, Mined, add_tokens}
use tezcatl.Drain.Learn.Step.{Ready, Learned, add_tokens-Learned}
use mathlib.Core.Option.{none, none-ne-some}
use tezcatl.Drain.Snapshot.{restored, take_snapshot, snapshot, restore}
use tezcatl.Drain.Snapshot.Restoring.{restore-snapshot}
use tezcatl.Drain.Settle.{ok, too_shallow, too_few_tokens, filled, normalized, new_drain, mine}
use tezcatl.Drain.Settle.Mining.{Accepted, new_drain-Ready, mine-new_drain, normalized_lem}
use tezcatl.Drain.Template.{seq_distance, count_tokens, create_template, align_parameters}
use tezcatl.Drain.Template.Generality.{Covers, Generalizes, create_template_lem}
use tezcatl.Drain.Template.Parameters.{fill, slots, align_parameters-fill}
use tezcatl.Drain.Tree.{
  Children, nothing, child, node, add_seq_to_prefix_tree, add_path, choose, assign, find, count,
  tree_search,
}
use tezcatl.Drain.Tree.Routing.{tree_search-add_seq}
use tezcatl.Drain.Tree.Shape.{RoomyAll, no_child, add_seq-Roomy}
use tezcatl.Tests.Samples.{nat_floats, started, restarted, drain_config}

abbrev fresh : Drain ℕ
fresh = new_drain (λ token. false) drain_config

add_tokens-Learned_example :
    (r : Mined ℕ) × (add_tokens started fresh ≡ some r) × Learned started fresh r
add_tokens-Learned_example =
    add_tokens-Learned started fresh
      (new_drain-Ready (λ token. false) drain_config refl (omega arith))

mine-new_drain_example : (d : Drain ℕ) × (mine (started ∷ restarted ∷ []) fresh ≡ some d) × Ready d
mine-new_drain_example =
    mine-new_drain (λ token. false) drain_config (started ∷ restarted ∷ []) refl (omega arith)

normalized_lem_example :
    ((normalized drain_config ≡ too_shallow) × (ltb_ℤ (filled drain_config).depth (pos 3) ≡ true))
    ⊎ ((normalized drain_config ≡ too_few_tokens)
        × ((pos_part (filled drain_config).max_tokens == 1) ≡ true))
    ⊎ ((normalized drain_config ≡ ok (filled drain_config)) × Accepted (filled drain_config))
normalized_lem_example = normalized_lem drain_config

abbrev general : List Bytes
general = codes "worker" ∷ codes "<*>" ∷ codes "started" ∷ []

create_template_lem_example :
    (new : List Bytes) × (create_template (codes "<*>") restarted started ≡ some new)
    × (length new ≡ length started)
    × Covers (codes "<*>") new restarted
    × Generalizes (codes "<*>") new started
    × ((wide : List Bytes)
        → Covers (codes "<*>") wide started
        → Covers (codes "<*>") wide restarted
        → Covers (codes "<*>") wide new)
create_template_lem_example = create_template_lem (codes "<*>") restarted started refl

align_parameters-fill_example :
    (values : List Bytes) × (align_parameters (codes "<*>") (λ token. false) general started
      ≡ some values)
    × (length values ≡ slots (codes "<*>") (λ token. false) general)
    × (fill (codes "<*>") (λ token. false) general values ≡ started)
align_parameters-fill_example =
    align_parameters-fill (codes "<*>") (λ token. false) general started
      (inr refl, (inl refl, (inr refl, tt)))

add_seq-Roomy_example :
    (root : Children) × (add_seq_to_prefix_tree fresh.settings (λ id. true) 1 started nothing
      ≡ some root)
    × RoomyAll fresh.settings root
unfolding new_drain
add_seq-Roomy_example =
    add_seq-Roomy fresh.settings (λ id. true) 1 started nothing (omega arith) no_child

abbrev worker : Cluster
worker = record { id = 1; template_tokens = started; size = 1 }

empty_cache-IsValid : IsValid (new_cache (pos 2))
empty_cache-IsValid = record { distinct = tt; bounded = λ h. omega arith }

get-put_example :
    (get 1 (put 1 worker (new_cache (pos 2))) ≡ some worker)
    × (number_eq.beq 1 2 ≡ false
        → (get 2 (put 1 worker (new_cache (pos 2))) ≡ get 2 (new_cache (pos 2)))
          ⊎ Evicted 1 2 worker (new_cache (pos 2)))
get-put_example = get-put 1 2 worker (new_cache (pos 2)) empty_cache-IsValid

abbrev one_worker : Cache
one_worker = record { max_size = pos 2; order = (1, worker) ∷ [] }

-- the entry of id 1 is the older one
abbrev two_workers : Cache
two_workers = record { max_size = pos 2; order = (1, worker) ∷ (2, worker) ∷ [] }

get-touch_example :
    ((j : ℕ) → get j (touch 1 two_workers) ≡ get j two_workers)
    × (delete 1 (touch 1 two_workers).order ≡ delete 1 two_workers.order)
    × ((cl : Cluster)
        → get 1 two_workers ≡ some cl
        → newest_id (touch 1 two_workers).order ≡ some 1)
    × (get 1 two_workers ≡ none → touch 1 two_workers ≡ two_workers)
get-touch_example = get-touch 1 two_workers

-- the tree that holds one cluster, of three tokens
abbrev learned : Children
learned =
    child (codes "3") (node (child (codes "worker") (node nothing (1 ∷ [])) nothing) []) nothing

tree_search-add_seq_example :
    (ids : List ℕ) × (tree_search fresh.settings started learned ≡ some ids) × In 1 ids
unfolding new_drain add_seq_to_prefix_tree add_path choose assign find count itoa
tree_search-add_seq_example =
    tree_search-add_seq fresh.settings (λ id. true) 1 started nothing learned refl

-- a miner that has learned one message
abbrev trained : Drain ℕ
trained = record fresh { clusters = one_worker; clusters_counter = 1 }

nat_floats-Ordered : Ordered ℕ nat_floats
nat_floats-Ordered = record {
  lt_irrefl = λ a. ground arith;
  lt_trans = λ a b c h k. ground arith;
  same_lt = λ a b c h. ground arith;
}

fast_match-Maximal_example :
    (sim : ℕ) × Chosen one_worker (codes "<*>") restarted false (1 ∷ []) worker sim
    × (nat_floats.lt sim 40 ≡ false)
    × Maximal one_worker (codes "<*>") restarted false (1 ∷ []) sim
unfolding new_drain fast_match best_of consider compare_with seq_distance count_tokens get lookup
    same_bytes
fast_match-Maximal_example =
    fast_match-Maximal trained (1 ∷ []) restarted 40 false worker nat_floats-Ordered refl

-- a miner with one cluster learned
abbrev kept_cluster : Cluster
kept_cluster = record { id = 4; template_tokens = started; size = 3 }

abbrev kept_drain : Drain ℕ
kept_drain = record (new_drain (λ t. false) drain_config) {
  clusters = record { max_size = pos 2; order = (4, kept_cluster) ∷ [] };
  clusters_counter = 6;
}

kept_drain-Ready : Ready kept_drain
unfolding new_drain get lookup
kept_drain-Ready = record {
  threshold = refl;
  room = omega arith;
  roomy = no_child;
  valid = record { distinct = (refl, tt); bounded = λ e. omega arith };
  keyed = λ id c found. elim (Bool-cases (number_eq.beq 4 id)) [
    | inl same ↦
        (let e : 4 ≡ id = (number_iff 4 id).0 same in
          let it : kept_cluster ≡ c = some-cancel (rw same at found) in
          (ap (λ x. x.id) (sym it) ∙ e, omega arith))
    | inr other ↦ absurd (none-ne-some c (rw other at found))
  ];
}

restore-snapshot_example :
    (d : Drain ℕ) × (restore
        (λ b. some (take_snapshot kept_drain))
        (λ t. false)
        drain_config
        (snapshot (λ s. codes "snapshot") kept_drain)
      ≡ restored d)
    × (d.clusters ≡ kept_drain.clusters)
    × (d.clusters_counter ≡ 6)
    × (d.settings ≡ kept_drain.settings)
    × Ready d
unfolding new_drain
restore-snapshot_example =
    restore-snapshot (λ s. codes "snapshot") (λ b. some (take_snapshot kept_drain)) (λ t. false)
      drain_config kept_drain refl kept_drain-Ready refl refl refl
