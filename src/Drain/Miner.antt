-- ===== src/Drain/Miner.antt =====
-- internal/core/drain: `tokenize`, the masker, `TemplateMiner` and `PartitionedMiner`.
--
-- A compiled regular expression is a value of `R`, and `replace` its `ReplaceAllString`; `compile` of a
-- pattern has `none` for an error. `path.Match` is an argument as well, `none` its error.
use tezcatl.Base.{
  ℕ, Bool, false, Option, none, some, List, [], ◌∷◌, ◌++◌, map, keep, not, Bytes, bytes_eq, codes,
  same_bytes, before_bytes, ◌>>=◌, ◌||◌,
}
use tezcatl.Base.Assoc.{Map, lookup, insert}
use tezcatl.Base.Ints.{pos_part}
use tezcatl.Base.Sorting.{sort_by}
use tezcatl.Base.Spaces.{fields, trim_space, replace_all}
use tezcatl.Drain.Cache.{Cluster}
use tezcatl.Drain.Learn.{Drain, ChangeType, SearchStrategy, add_tokens, match}
use tezcatl.Drain.Settle.{Config, ok, too_shallow, too_few_tokens, normalized, new_drain}
use tezcatl.Drain.Template.{truncate, align_parameters}
use tezcatl.Model.{Floats}

-- the replacements of the extra delimiters
unfoldable pub split_at : List Bytes → Bytes → Bytes
unfolding replace_all
split_at [] content = content
split_at (delimiter ∷ rest) content = split_at rest (replace_all delimiter (codes " ") content)

-- `tokenize`
unfoldable pub tokenize : List Bytes → ℕ → Bytes → List Bytes
unfolding split_at fields trim_space truncate
tokenize delimiters max_tokens content =
    truncate max_tokens (fields (split_at delimiters (trim_space content)))

-- `MaskingInstruction`
pub record Instruction : Type 0 where
  pub pattern_text : Bytes
  pub mask_with : Bytes

-- the part of `Config` that the other settings leave aside
pub record Masking : Type 0 where
  pub delimiters : List Bytes
  pub instructions : List Instruction

module _ {R : Type 0} (compile : Bytes → Option R) where
  -- `NewMasker`: the expressions and their replacements
  unfoldable pub new_masker : Bytes → Bytes → List Instruction → Option (List (R × Bytes))
  new_masker prefix suffix [] = some []
  new_masker prefix suffix (i ∷ rest) = do
    regex ← compile i.pattern_text
    others ← new_masker prefix suffix rest
    some ((regex, prefix ++ i.mask_with ++ suffix) ∷ others)

module _ {R : Type 0} (replace : R → Bytes → Bytes → Bytes) where
  -- `Mask`
  unfoldable pub mask : List (R × Bytes) → Bytes → Bytes
  mask [] content = content
  mask ((regex, replacement) ∷ rest) content = mask rest (replace regex content replacement)

-- `MaskNames`
abbrev pub mask_names : {R : Type 0} → List (R × Bytes) → List Bytes
mask_names masker = map (λ e. e.1) masker

-- a key of the set `maskNames`
unfoldable pub is_mask_name : List Bytes → Bytes → Bool
is_mask_name [] token = false
is_mask_name (name ∷ rest) token = same_bytes name token || is_mask_name rest token

-- `TemplateMiner`
pub record TemplateMiner (F : Type 0) (R : Type 0) : Type 0 where
  pub config : Config F
  pub delimiters : List Bytes
  pub masker : List (R × Bytes)
  pub drain : Drain F

-- `Result`
pub record MiningResult : Type 0 where
  pub cluster : Cluster
  pub change_type : ChangeType
  pub tokens : List Bytes

-- `PartitionedMiner`
pub record PartitionedMiner (F : Type 0) (R : Type 0) : Type 0 where
  pub config : Config F
  pub masking : Masking
  pub partitions : Map Bytes (TemplateMiner F R)

module _ {F : Type 0} ⦃fl : Floats F⦄ {R : Type 0} where
  -- `Parameters`
  unfoldable pub parameters : TemplateMiner F R → MiningResult → Option (List Bytes)
  unfolding align_parameters is_mask_name
  parameters m r =
      align_parameters m.config.param_str (is_mask_name (mask_names m.masker))
        r.cluster.template_tokens r.tokens

  -- `ExtractParameters`
  unfoldable pub extract_parameters :
      (R → Bytes → Bytes → Bytes) → Cluster → Bytes → TemplateMiner F R → Option (List Bytes)
  unfolding align_parameters is_mask_name tokenize mask
  extract_parameters replace cluster message m =
      align_parameters m.config.param_str (is_mask_name (mask_names m.masker))
        cluster.template_tokens
        (tokenize m.delimiters (pos_part m.config.max_tokens) (mask replace m.masker message))

  module _ (compile : Bytes → Option R) (has_numbers : Bytes → Bool) where
    -- `NewTemplateMiner`; `none` is an error
    unfoldable pub new_template_miner : Config F → Masking → Option (TemplateMiner F R)
    unfolding normalized new_masker new_drain
    new_template_miner config masking = elim (normalized config) [
      | too_shallow ↦ none
      | too_few_tokens ↦ none
      | ok c ↦ elim (new_masker compile c.mask_prefix c.mask_suffix masking.instructions) [
        | none ↦ none
        | some masker ↦ some (record {
          config = c;
          delimiters = masking.delimiters;
          masker = masker;
          drain = new_drain has_numbers c;
        })
      ]
    ]

    -- `NewPartitionedMiner`
    abbrev pub new_partitioned_miner : Config F → Masking → PartitionedMiner F R
    new_partitioned_miner config masking = record {
      config = config;
      masking = masking;
      partitions = [];
    }

    -- `Partition`; `none` is an error
    unfoldable pub partition :
        Bytes → PartitionedMiner F R → Option (PartitionedMiner F R × TemplateMiner F R)
    unfolding lookup insert new_template_miner
    partition name p = elim (lookup name p.partitions) [
      | some m ↦ some (p, m)
      | none ↦ elim (new_template_miner p.config p.masking) [
        | none ↦ none
        | some m ↦ some (record p { partitions = insert name m p.partitions }, m)
      ]
    ]

  module _ (replace : R → Bytes → Bytes → Bytes) where
    -- `TemplateMiner.AddLogMessage`; `none` is a panic
    unfoldable pub add_log_message :
        Bytes → TemplateMiner F R → Option (TemplateMiner F R × MiningResult)
    unfolding tokenize mask add_tokens
    add_log_message message m =
        let tokens =
          tokenize m.delimiters (pos_part m.config.max_tokens) (mask replace m.masker message) in
        do
          mined ← add_tokens tokens m.drain
          some (
            record m { drain = mined.drain },
            record { cluster = mined.cluster; change_type = mined.change_type; tokens = tokens },
          )

    -- `TemplateMiner.Match`
    unfoldable pub match_message : Bytes → SearchStrategy → TemplateMiner F R → Option Cluster
    unfolding tokenize mask match
    match_message message strategy m =
        match (tokenize m.delimiters (pos_part m.config.max_tokens) (mask replace m.masker message))
          strategy m.drain

  module _ (path_match : Bytes → Bytes → Option Bool) where
    abbrev is_named : Bytes → Bytes × TemplateMiner F R → Bool
    is_named pattern_text e = elim (path_match pattern_text e.0) [ none ↦ false | some b ↦ b ]

    -- `Forget`: the partitions left and the names dropped, sorted; `none` is an error
    unfoldable pub forget :
        Bytes → PartitionedMiner F R → Option (PartitionedMiner F R × List Bytes)
    unfolding sort_by
    forget pattern_text p = elim (path_match pattern_text []) [
      | none ↦ none
      | some _ ↦ some (
        record p { partitions = keep (λ e. not (is_named pattern_text e)) p.partitions },
        sort_by before_bytes (map (λ e. e.0) (keep (is_named pattern_text) p.partitions)),
      )
    ]

-- `Partitions`
unfoldable pub partition_names : {F R : Type 0} → PartitionedMiner F R → List Bytes
unfolding sort_by
partition_names p = sort_by before_bytes (map (λ e. e.0) p.partitions)
