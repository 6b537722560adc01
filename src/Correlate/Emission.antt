-- ===== src/Correlate/Emission.antt =====
-- internal/core/correlate/correlator.go: `combine`, the severity of an event, and `Flush`.
--
-- The identifier of an event is a parameter: `ids n` is what the n-th call of `NewID` returns.
use tezcatl.Base.{
  ℕ, ◌+◌, Bool, true, false, not, Option, none, some, List, [], ◌∷◌, ◌++◌, Bytes, bytes_eq,
  before_bytes, codes, itoa, is_empty, ltb, if◌then◌else◌, length, map, ◌>>=◌,
}
use tezcatl.Base.Assoc.{insert}
use tezcatl.Base.Ints.{Time, neg_ℤ, ltb_ℤ, sub}
use tezcatl.Base.Sorting.{sort_by}
use tezcatl.Correlate.Intake.{intended}
use tezcatl.Correlate.State.{
  Config, Aggregated, PendingEvent, SourceState, EchoState, is_log, is_metric,
}
use tezcatl.Model.{
  Floats, Observation, Signal, RelatedChange, ChangeRecord, Event, Severity, info, warning,
  critical,
}

-- `strings.Join`
unfoldable pub join : Bytes → List Bytes → Bytes
join sep [] = []
join sep (x ∷ []) = x
join sep (x ∷ y ∷ rest) = x ++ (sep ++ join sep (y ∷ rest))

-- `strconv.FormatBool`
abbrev pub format_bool : Bool → Bytes
format_bool b = if b then codes "true" else codes "false"

unfoldable pub any_by {ℓ} : {A : Type ℓ} → (A → Bool) → List A → Bool
any_by p [] = false
any_by p (x ∷ xs) = let rest = any_by p xs in if p x then true else rest

pub record Combined (F : Type 0) : Type 0 where
  pub signals : List (Signal F)
  pub confidence : F
  pub multimodal : Bool
  pub instances : ℕ

module _ {F : Type 0} where
  -- an aggregate's signal, with the number of its occurrences
  unfoldable pub stamped : Aggregated F → Signal F
  stamped a = record {
    kind = a.signal.kind;
    modality = a.signal.modality;
    source = a.signal.source;
    timestamp = a.signal.timestamp;
    score = a.signal.score;
    summary = a.signal.summary;
    attributes = insert (codes "occurrences") (itoa a.count) a.signal.attributes;
  }

  unfoldable pub total_count : List (Aggregated F) → ℕ
  total_count [] = 0
  total_count (a ∷ rest) = a.count + total_count rest

  unfoldable pub seen_as : Bool → List (Signal F) → Bool
  seen_as true signals = any_by (λ s. is_log s.modality) signals
  seen_as false signals = any_by (λ s. is_metric s.modality) signals

module _ {F : Type 0} ⦃fl : Floats F⦄ where
  -- Go's `min`, of a number with a constant
  unfoldable pub at_most : F → F → F
  at_most x bound = if fl.lt bound x then bound else x

  unfoldable pub inverse : F → List (Aggregated F) → F
  inverse i [] = i
  inverse i (a ∷ rest) =
      inverse (fl.mul i (fl.minus (fl.hundredths 100) (at_most a.signal.score (fl.hundredths 99))))
        rest

  unfoldable pub stronger : Signal F → Signal F → Bool
  stronger a b =
      if fl.same a.score b.score then before_bytes a.kind b.kind else fl.lt b.score a.score

  -- `combine`
  unfoldable pub combine : List (Aggregated F) → Combined F
  combine aggregated =
      let signals = map stamped aggregated in
      record {
        signals = sort_by stronger signals;
        confidence =
            at_most (fl.minus (fl.hundredths 100) (inverse (fl.hundredths 100) aggregated))
              (fl.hundredths 99);
        multimodal = if seen_as true signals then seen_as false signals else false;
        instances = total_count aggregated;
      }

  -- `severityOf`
  unfoldable pub severity_of : F → List (Signal F) → Bool → Bool → Severity
  severity_of confidence signals multimodal near_change =
      let asked = any_by intended signals in
      let logged = any_by (λ s. is_log s.modality) signals in
      if fl.lt confidence (fl.hundredths 60)
      then info
      else (if fl.lt confidence (fl.hundredths 85)
          then warning
          else (if multimodal
              then critical
              else (if (if near_change then logged else false)
                  then critical
                  else (if asked then critical else warning))))

  -- a change as related to an instant; `none` is the dereference of a nil record
  unfoldable pub related : Time → Observation F → Option (RelatedChange F)
  related at o = do
    r ← o.change
    some record {
      source = o.source;
      change = r;
      timestamp = o.timestamp;
      offset_seconds = fl.seconds (sub o.timestamp at);
    }

  unfoldable pub all_related : Time → List (Observation F) → Option (List (RelatedChange F))
  all_related at [] = some []
  all_related at (o ∷ rest) = do r ← related at o; more ← all_related at rest; some (r ∷ more)

  unfoldable pub is_near : Config → Time → Observation F → Bool
  is_near c at o =
      if ltb_ℤ (sub o.timestamp at) (neg_ℤ c.change_horizon)
      then false
      else not (ltb_ℤ c.window (sub o.timestamp at))

  -- `relatedChanges`
  unfoldable pub related_changes :
      Config → Time → List (Observation F) → Option (List (RelatedChange F))
  related_changes c at [] = some []
  related_changes c at (o ∷ rest) = do
    more ← related_changes c at rest
    (if is_near c at o then (related at o >>= (λ r. some (r ∷ more))) else some more)

  unfoldable pub last_of : List (Observation F) → Option (Observation F)
  last_of [] = none
  last_of (o ∷ []) = some o
  last_of (o ∷ p ∷ rest) = last_of (p ∷ rest)

  -- the event that `buildEcho` returns, for the related changes and the latest change's record
  unfoldable pub echo_event :
      Bytes → Bytes → EchoState F → List (RelatedChange F) → ChangeRecord → Event F
  echo_event id source e changes declared =
      let all = combine (map (λ p. p.1) e.signals) in
      let sources = sort_by before_bytes (map (λ p. p.0) e.sources) in
      let subject = if is_empty e.service then source else e.service in
      record {
        id = id;
        kind = codes "anomaly.change_echo";
        source = source;
        service = e.service;
        environment = e.environment;
        timestamp = e.first_signal_at;
        severity = severity_of all.confidence all.signals false false;
        confidence = all.confidence;
        summary =
            itoa (length all.signals)
            ++ (codes " signals from "
                ++ (itoa (length sources)
                    ++ (codes " sources in the wake of "
                        ++ (declared.type
                            ++ (codes " "
                                ++ (subject ++ (codes ": " ++ join (codes ", ") sources)))))));
        signals = all.signals;
        related_changes = changes;
        before = [];
        after = [];
        attributes =
            (codes "signal_count", itoa (length all.signals))
            ∷ (codes "signal_instances", itoa all.instances)
            ∷ (codes "multimodal", format_bool all.multimodal)
            ∷ (codes "sources", join (codes ",") sources)
            ∷ [];
      }

  -- `buildEcho`; `none` is a panic
  unfoldable pub build_echo : Bytes → Bytes → EchoState F → Option (Event F)
  build_echo id source e = do
    latest ← last_of e.changes
    changes ← all_related e.first_signal_at e.changes
    declared ← latest.change
    some (echo_event id source e changes declared)

  unfoldable pub kind_of : Signal F → List (Signal F) → Bytes
  kind_of dominant [] = codes "anomaly." ++ dominant.kind
  kind_of dominant (s ∷ rest) = codes "anomaly.correlated"

  unfoldable pub summary_of : Signal F → List (Signal F) → Bytes
  summary_of dominant [] = dominant.summary
  summary_of dominant (s ∷ rest) =
      dominant.summary
      ++ (codes " (+" ++ (itoa (length (s ∷ rest)) ++ codes " correlated signals)"))

  unfoldable pub compose :
      Bytes
      → Bytes
      → PendingEvent F
      → Combined F
      → List (RelatedChange F)
      → List (Signal F)
      → Option (Event F)
  compose id source p all changes [] = none
  compose id source p all changes (dominant ∷ rest) = some record {
    id = id;
    kind = kind_of dominant rest;
    source = source;
    service = p.service;
    environment = p.environment;
    timestamp = p.first_signal_at;
    severity = severity_of all.confidence all.signals all.multimodal (ltb 0 (length changes));
    confidence = all.confidence;
    summary = summary_of dominant rest;
    signals = all.signals;
    related_changes = changes;
    before = p.before;
    after = p.after;
    attributes =
        (codes "signal_count", itoa (length all.signals))
        ∷ (codes "signal_instances", itoa all.instances)
        ∷ (codes "multimodal", format_bool all.multimodal)
        ∷ [];
  }

  -- `build`; `none` is a panic
  unfoldable pub build : Bytes → Config → Bytes → SourceState F → PendingEvent F → Option (Event F)
  build id c source s p = do
    changes ← related_changes c p.first_signal_at s.changes
    (let all = combine (map (λ q. q.1) p.signals) in compose id source p all changes all.signals)
