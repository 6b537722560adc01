-- ===== src/Drain/Learn.antt =====
-- internal/core/drain/drain.go: matching a message against the clusters, and learning from it.
pub mod Selection
pub mod Step
use tezcatl.Base.{
  ℕ, zero, suc, ◌+◌, Bool, true, false, ◌&&◌, ◌||◌, not, Option, none, some, ◌>>=◌, List, [], ◌∷◌,
  length, Bytes, is_some, if◌then◌else◌,
}
use tezcatl.Base.Ints.{ℤ, pos, negsuc, ltb_ℤ}
use tezcatl.Drain.Cache
use tezcatl.Drain.Cache.{Cluster, Cache, new_cache}
use tezcatl.Drain.Template.{create_template, equal_tokens, seq_distance}
use tezcatl.Drain.Tree.{Children, nothing, Settings, add_seq_to_prefix_tree, tree_search}
use tezcatl.Model.{Floats}

pub record Drain (F : Type 0) : Type 0 where
  pub settings : Settings
  pub sim_th : F
  pub root : Children
  pub clusters : Cache
  pub clusters_counter : ℕ

pub data ChangeType : Type 0 where
  unchanged cluster_created cluster_template_changed : ChangeType

pub data SearchStrategy : Type 0 where
  never fallback always : SearchStrategy

-- `matched`, `maxSim` and `maxParamCount`
pub record Best (F : Type 0) : Type 0 where
  pub matched : Option Cluster
  pub max_sim : F
  pub max_param_count : ℤ

-- What a mined message gives: `Cluster` and `ChangeType` of `Result`, beside the new state.
pub record Mined (F : Type 0) : Type 0 where
  pub drain : Drain F
  pub cluster : Cluster
  pub change_type : ChangeType

module _ {F : Type 0} ⦃fl : Floats F⦄ where
  -- one round of the loop of `fastMatch` for a cluster that is in the cache
  unfoldable pub compare_with : Bytes → List Bytes → Bool → Cluster → Best F → Best F
  compare_with param tokens include_params c b =
      let (sim, params) = seq_distance param c.template_tokens tokens include_params in
      if fl.lt b.max_sim sim || (fl.same sim b.max_sim && ltb_ℤ b.max_param_count (pos params))
      then record { matched = some c; max_sim = sim; max_param_count = pos params }
      else b

  -- one round, with the skip of evicted clusters
  unfoldable pub consider : Bytes → List Bytes → Bool → Option Cluster → Best F → Best F
  consider param tokens include_params none b = b
  consider param tokens include_params (some c) b = compare_with param tokens include_params c b

  unfoldable pub best_of : Cache → Bytes → List Bytes → Bool → List ℕ → Best F → Best F
  best_of cache param tokens include_params [] b = b
  best_of cache param tokens include_params (id ∷ ids) b =
      best_of cache param tokens include_params ids
        (consider param tokens include_params (Cache.get id cache) b)

  abbrev pub no_best : Best F
  no_best = record { matched = none; max_sim = fl.of_int (negsuc 0); max_param_count = negsuc 0 }

  -- `fastMatch`
  unfoldable pub fast_match : Drain F → List ℕ → List Bytes → F → Bool → Option Cluster
  fast_match d ids tokens sim_th include_params =
      let b = best_of d.clusters d.settings.param_str tokens include_params ids no_best in
      if fl.lt b.max_sim sim_th then none else b.matched

  -- `treeSearch`
  unfoldable pub search : Drain F → List Bytes → F → Bool → Option Cluster
  search d tokens sim_th include_params = do
    ids ← tree_search d.settings tokens d.root
    fast_match d ids tokens sim_th include_params

  -- `addTokens` where no cluster matches
  unfoldable pub create : List Bytes → Drain F → Option (Mined F)
  create tokens d =
      let id = d.clusters_counter + 1 in
      let cluster : Cluster = record { id = id; template_tokens = tokens; size = 1 } in
      let clusters = Cache.put id cluster d.clusters in
      do
        root ←
            add_seq_to_prefix_tree d.settings (λ j. is_some (Cache.get j clusters)) id tokens d.root
        some (record {
          drain = record d { root = root; clusters = clusters; clusters_counter = id };
          cluster = cluster;
          change_type = cluster_created;
        })

  -- `addTokens` where one does
  unfoldable pub update : List Bytes → Cluster → Drain F → Option (Mined F)
  update tokens matched d = do
    template ← create_template d.settings.param_str tokens matched.template_tokens
    let changed = not (equal_tokens template matched.template_tokens)
    let cluster : Cluster = record matched {
      template_tokens = if changed then template else matched.template_tokens;
      size = matched.size + 1;
    }
    some (record {
      drain = record d {
        clusters = Cache.touch matched.id (Cache.store matched.id cluster d.clusters);
      };
      cluster = cluster;
      change_type = if changed then cluster_template_changed else unchanged;
    })

  -- `addTokens`; `none` is a panic
  unfoldable pub add_tokens : List Bytes → Drain F → Option (Mined F)
  unfolding search
  add_tokens tokens d = elim (search d tokens d.sim_th false) [
    | none ↦ create tokens d
    | some matched ↦ update tokens matched d
  ]

  -- `Match`, on a tokenized message
  unfoldable pub match : List Bytes → SearchStrategy → Drain F → Option Cluster
  unfolding search
  match tokens strategy d =
      let whole = fl.hundredths 100 in
      let full = fast_match d (Cache.ids d.clusters) tokens whole true in
      elim strategy [
        | always ↦ full
        | never ↦ search d tokens whole true
        | fallback ↦
            if is_some (search d tokens whole true) then search d tokens whole true else full
      ]
