-- ===== src/Detect/Metric/Series.antt =====
-- internal/core/detect/metric.go: `seriesKey`, `isIgnored`, `SetIgnored`, `minDelta`, `makeRoom`, `sweep`.
--
-- `path.Match` of the standard library is an argument: `none` is its error of a malformed pattern.
use tezcatl.Base.{
  ◌+◌, ◌-◌, Bool, true, false, Option, none, some, [], ◌∷◌, ◌++◌, Bytes, bytes_eq, codes,
  before_bytes, is_empty, length, map, ◌==◌, ◌&&◌, ◌||◌, not, if◌then◌else◌,
}
use tezcatl.Base.Assoc.{Map, lookup, insert, delete, has}
use tezcatl.Base.Gather.{gather}
use tezcatl.Base.Ints.{pos, leb_ℤ, ltb_ℤ, Time, sub}
use tezcatl.Base.Sorting.{sort_by}
use tezcatl.Detect.Metric.{MetricConfig, MetricStats, MetricDetector, series_sweep_interval}
use tezcatl.Detect.Room.{make_room}
use tezcatl.Model.{Floats, MetricSample, text_at}

-- one label of a series
unfoldable pub label_text : Map Bytes Bytes → Bytes → Bytes
label_text labels key = codes "{" ++ key ++ codes "=" ++ text_at key labels ++ codes "}"

-- whether a pattern matches, an error taken as no
abbrev pub is_match : Option Bool → Bool
is_match none = false
is_match (some b) = b

-- the loop of `isIgnored`
unfoldable pub ignored_by : (Bytes → Bytes → Option Bool) → Bytes → Bytes → Map Bytes Bool → Bool
ignored_by path_match key metric [] = false
ignored_by path_match key metric ((p, b) ∷ rest) =
    is_match (path_match p key)
    || is_match (path_match p metric)
    || ignored_by path_match key metric rest

module _ {F : Type 0} where
  -- `seriesKey`
  unfoldable pub series_key : Bytes → MetricSample F → Bytes
  unfolding label_text gather sort_by
  series_key source m =
      source
      ++ codes "/"
      ++ m.name
      ++ gather (label_text m.labels) (sort_by before_bytes (map (λ l. l.0) m.labels))

  -- `makeRoom`; every round of its loop drops one series
  unfoldable pub make_series_room : MetricDetector F → MetricDetector F
  unfolding make_room
  make_series_room d =
      let kept = make_room (λ s. s.last_seen) d.config.max_series d.series in
      record d { series = kept; evicted = d.evicted + (length d.series - length kept) }

  -- what the loop of `sweep` leaves of the series
  unfoldable pub swept :
      MetricConfig F → Time → Map Bytes (MetricStats F) → Map Bytes (MetricStats F)
  swept c now [] = []
  swept c now ((k, s) ∷ m) =
      let rest = swept c now m in
      if s.last_seen == 0
      then (k, record s { last_seen = now }) ∷ rest
      else (if ltb_ℤ c.series_ttl (sub now s.last_seen) then rest else (k, s) ∷ rest)

  -- `sweep`
  unfoldable pub sweep : Time → MetricDetector F → MetricDetector F
  unfolding swept
  sweep now d =
      let left = swept d.config now d.series in
      if leb_ℤ d.config.series_ttl (pos 0)
        || not (d.last_sweep == 0) && ltb_ℤ (sub now d.last_sweep) (pos series_sweep_interval)
      then d
      else record d {
        series = left;
        expired = d.expired + (length d.series - length left);
        last_sweep = now;
      }

  module _ (path_match : Bytes → Bytes → Option Bool) where
    -- `isIgnored`
    unfoldable pub is_ignored : Bytes → Bytes → MetricDetector F → Bool
    unfolding lookup ignored_by
    is_ignored key metric d =
        has key d.ignored || has metric d.ignored || ignored_by path_match key metric d.ignored

    -- `SetIgnored`; `none` is an error
    unfoldable pub set_ignored : Bytes → Bool → MetricDetector F → Option (MetricDetector F)
    unfolding insert delete
    set_ignored pattern ignore d =
        if is_empty pattern then none else elim (path_match pattern (codes "x")) [
          | none ↦ none
          | some _ ↦ some (record d {
            ignored = if ignore then insert pattern true d.ignored else delete pattern d.ignored;
          })
        ]

module _ {F : Type 0} ⦃fl : Floats F⦄ (path_match : Bytes → Bytes → Option Bool) where
  -- the loop of `minDelta`
  unfoldable pub largest_delta : Bytes → F → Map Bytes F → F
  largest_delta metric most [] = most
  largest_delta metric most ((p, floor) ∷ rest) =
      largest_delta metric
        (if is_match (path_match p metric) && fl.lt most floor then floor else most) rest

  -- `minDelta`
  unfoldable pub min_delta : Bytes → MetricConfig F → F
  unfolding lookup largest_delta
  min_delta metric c = elim (lookup metric c.min_deltas) [
    | some floor ↦ floor
    | none ↦ largest_delta metric (fl.hundredths 0) c.min_deltas
  ]
