-- ===== src/Model.antt =====
-- internal/core/model: observations, signals, events. Floating-point numbers are a parameter.
use tezcatl.Base.{
  ◌≡◌, true, false, ℕ, Bool, Option, none, some, List, [], ◌++◌, Bytes, bytes_eq, codes, is_empty,
  if◌then◌else◌,
}
use tezcatl.Base.Ints.{Time, ℤ}
use tezcatl.Base.Assoc.{Map, lookup}

-- What the code uses of `float64`, an instance of which every definition over scores takes.
pub record Floats (F : Type 0) : Type 0 where
  -- Go's `<`, `<=` and `==`: all three are false where an operand is not a number
  pub lt : F → F → Bool
  pub le : F → F → Bool
  pub same : F → F → Bool
  pub add : F → F → F
  pub minus : F → F → F
  pub mul : F → F → F
  pub div : F → F → F
  -- the constant n / 100
  pub hundredths : ℕ → F
  -- `float64(n)`
  pub of_int : ℤ → F
  -- `Duration.Seconds`
  pub seconds : ℤ → F
  -- `time.Duration(f)`
  pub to_duration : F → ℤ
  -- `math.Sqrt`, `math.Abs`, `math.Max` and `math.Min`
  pub sqrt : F → F
  pub abs : F → F
  pub larger : F → F → F
  pub smaller : F → F → F
  -- `strconv.FormatFloat(f, 'f', n, 64)`, and with `%.4g` and `-1` for the rest
  pub fixed : ℕ → F → Bytes
  pub general : ℕ → F → Bytes
  pub shortest : F → Bytes
  -- `%g`
  pub plain : F → Bytes

pub data Severity : Type 0 where
  info warning critical : Severity
  -- any other text, the empty one included
  unknown : Bytes → Severity

pub data Modality : Type 0 where
  log metric change trace : Modality
  unnamed : Bytes → Modality

pub record LogRecord : Type 0 where
  pub raw : Bytes
  pub message : Bytes
  pub level : Bytes
  pub template_id : Bytes
  pub template : Bytes
  pub parameters : List Bytes

pub record MetricSample (F : Type 0) : Type 0 where
  pub name : Bytes
  pub value : F
  pub labels : Map Bytes Bytes

pub record ChangeRecord : Type 0 where
  pub type : Bytes
  pub version : Bytes
  pub summary : Bytes

pub record Observation (F : Type 0) : Type 0 where
  pub id : Bytes
  pub source : Bytes
  pub service : Bytes
  pub environment : Bytes
  pub modality : Modality
  pub timestamp : Time
  pub ingested_at : Time
  pub attributes : Map Bytes Bytes
  pub log : Option LogRecord
  pub metric : Option (MetricSample F)
  pub change : Option ChangeRecord

-- the zero value that `make` fills a slice with
abbrev pub zero_observation : {F : Type 0} → Observation F
zero_observation = record {
  id = [];
  source = [];
  service = [];
  environment = [];
  modality = unnamed [];
  timestamp = 0;
  ingested_at = 0;
  attributes = [];
  log = none;
  metric = none;
  change = none;
}

-- `PartitionKey`
unfoldable pub partition_key : {F : Type 0} → Observation F → Bytes
partition_key o = if is_empty o.source then o.environment ++ (codes "/" ++ o.service) else o.source

-- `EffectiveMessage`
unfoldable pub effective_message : LogRecord → Bytes
effective_message r = if is_empty r.message then r.raw else r.message

pub record Signal (F : Type 0) : Type 0 where
  pub kind : Bytes
  pub modality : Modality
  pub source : Bytes
  pub timestamp : Time
  pub score : F
  pub summary : Bytes
  pub attributes : Map Bytes Bytes

pub record RelatedChange (F : Type 0) : Type 0 where
  pub source : Bytes
  pub change : ChangeRecord
  pub timestamp : Time
  pub offset_seconds : F

pub record Event (F : Type 0) : Type 0 where
  pub id : Bytes
  pub kind : Bytes
  pub source : Bytes
  pub service : Bytes
  pub environment : Bytes
  pub timestamp : Time
  pub severity : Severity
  pub confidence : F
  pub summary : Bytes
  pub signals : List (Signal F)
  pub related_changes : List (RelatedChange F)
  pub before : List (Observation F)
  pub after : List (Observation F)
  pub attributes : Map Bytes Bytes

-- a read of a missing key of a `map[string]string`
abbrev pub text_at : Bytes → Map Bytes Bytes → Bytes
text_at k m = elim (lookup k m) [ none ↦ [] | some v ↦ v ]

-- What the comparisons of `float64` satisfy, not-a-number included.
pub record Ordered (F : Type 0) (fl : Floats F) : Type 0 where
  pub lt_irrefl : (a : F) → fl.lt a a ≡ false
  pub lt_trans : (a b c : F) → fl.lt a b ≡ true → fl.lt b c ≡ true → fl.lt a c ≡ true
  pub same_lt : (a b c : F) → fl.same a b ≡ true → fl.lt a c ≡ fl.lt b c
