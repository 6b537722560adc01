-- ===== src/Drain/Settle.antt =====
-- internal/core/drain/miner.go and drain.go: the configuration, and mining from an empty miner.
pub mod Mining
use tezcatl.Base.{
  ℕ, ◌+◌, ◌-◌, Bool, true, false, ◌==◌, Option, none, some, ◌>>=◌, List, [], ◌∷◌, Bytes, codes,
  is_empty, if◌then◌else◌,
}
use tezcatl.Base.Ints.{ℤ, pos, pos_part, ltb_ℤ, is_zero}
use tezcatl.Drain.Cache.{new_cache}
use tezcatl.Drain.Learn.{Drain, add_tokens}
use tezcatl.Drain.Tree.{nothing}
use tezcatl.Model.{Floats}

-- `Config`, but for the delimiters and the masking instructions; nil is `none`
pub record Config (F : Type 0) : Type 0 where
  pub depth : ℤ
  pub sim_th : F
  pub max_children : ℤ
  pub max_clusters : ℤ
  pub param_str : Bytes
  pub parametrize_numeric_tokens : Option Bool
  pub mask_prefix : Bytes
  pub mask_suffix : Bytes
  pub max_tokens : ℤ

pub data Normalized (F : Type 0) : Type 0 where
  ok : Config F → Normalized F
  too_shallow : Normalized F
  too_few_tokens : Normalized F

abbrev pub or_default : Bytes → Bytes → Bytes
or_default text default = if is_empty text then default else text

abbrev or_set : Option Bool → Option Bool
or_set none = some true
or_set (some b) = some b

abbrev is_on : Option Bool → Bool
is_on none = false
is_on (some b) = b

module _ {F : Type 0} ⦃fl : Floats F⦄ where
  -- the fields that `normalized` fills in without a check
  unfoldable pub filled : Config F → Config F
  filled c = record {
    depth = if is_zero c.depth then pos 4 else c.depth;
    sim_th = if fl.same c.sim_th (fl.hundredths 0) then fl.hundredths 40 else c.sim_th;
    max_children = if is_zero c.max_children then pos 100 else c.max_children;
    max_clusters = c.max_clusters;
    param_str = or_default c.param_str (codes "<*>");
    parametrize_numeric_tokens = or_set c.parametrize_numeric_tokens;
    mask_prefix = or_default c.mask_prefix (codes "<");
    mask_suffix = or_default c.mask_suffix (codes ">");
    max_tokens =
        let set = if is_zero c.max_tokens then pos 32 else c.max_tokens in
        if ltb_ℤ set (pos 0) then pos 0 else set;
  }

  -- `normalized`
  unfoldable pub normalized : Config F → Normalized F
  normalized c =
      if ltb_ℤ (filled c).depth (pos 3)
      then too_shallow
      else (if pos_part (filled c).max_tokens == 1 then too_few_tokens else ok (filled c))

  -- `NewDrain`, of a normalized configuration
  unfoldable pub new_drain : (Bytes → Bool) → Config F → Drain F
  new_drain has_numbers c = record {
    settings = record {
      depth = pos_part c.depth - 2;
      max_children = c.max_children;
      param_str = c.param_str;
      parametrize_numeric_tokens = is_on c.parametrize_numeric_tokens;
      has_numbers = has_numbers;
    };
    sim_th = c.sim_th;
    root = nothing;
    clusters = new_cache c.max_clusters;
    clusters_counter = 0;
  }

  -- `AddLogMessage` on each of the tokenized messages; `none` is a panic
  unfoldable pub mine : List (List Bytes) → Drain F → Option (Drain F)
  mine [] d = some d
  mine (tokens ∷ rest) d = do r ← add_tokens tokens d; mine rest r.drain
