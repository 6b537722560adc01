-- ===== src/Correlate/Intake.antt =====
-- internal/core/correlate/correlator.go: `Add`, and what decides where a signal goes.
use tezcatl.Base.{
  ℕ, ◌+◌, Bool, true, false, Option, none, some, List, [], ◌∷◌, ◌++◌, Bytes, bytes_eq, same_bytes,
  codes, if◌then◌else◌, keep, length, ◌==◌,
}
use tezcatl.Base.Assoc.{Map, lookup, insert}
use tezcatl.Base.Ints.{Time, pos, ltb_ℤ, leb_ℤ, sub, before}
use tezcatl.Correlate.State.{
  Config, Aggregated, PendingEvent, SourceState, EchoState, Correlator, source, prune_changes,
  with_pending,
}
use tezcatl.Model.{Floats, Observation, Signal, text_at}
use tezcatl.Window

abbrev pub with_part : Option Bytes → Bytes → Bytes
with_part none key = key
with_part (some part) key = key ++ (codes "/" ++ part)

abbrev pub count_of : Option ℕ → ℕ
count_of none = 0
count_of (some n) = n

-- the switch of `intended`, on a kind and a marking
unfoldable pub is_intended : Bytes → Bytes → Bool
is_intended kind marking =
    if same_bytes kind (codes "log.symptomatic_template")
    then true
    else (if same_bytes kind (codes "metric.threshold")
        then true
        else (if same_bytes kind (codes "log.missing_template")
            then same_bytes marking (codes "heartbeat")
            else false))

module _ {F : Type 0} where
  -- `intended`
  unfoldable pub intended : Signal F → Bool
  intended s = is_intended s.kind (text_at (codes "marking") s.attributes)

  -- `signalKey`
  unfoldable pub signal_key : Signal F → Bytes
  signal_key s =
      with_part (lookup (codes "metric") s.attributes)
        (with_part (lookup (codes "template_id") s.attributes) s.kind)

  unfoldable pub later_of : Bytes → EchoState F → Option (Bytes × EchoState F) → Bytes × EchoState F
  later_of k x none = (k, x)
  later_of k x (some (j, best)) =
      if before best.last_change_at x.last_change_at then (k, x) else (j, best)

  -- the wake of which changes a signal may belong to, and the latest of them so far
  unfoldable pub wake :
      Config
      → Bytes
      → Time
      → Map Bytes (EchoState F)
      → Option (Bytes × EchoState F)
      → Option (Bytes × EchoState F)
  wake c name at [] found = found
  wake c name at ((changed, e) ∷ rest) found = wake c name at rest (
      if same_bytes changed name
      then found
      else (if ltb_ℤ (sub at e.last_change_at) (pos 0)
          then found
          else (if ltb_ℤ c.echo_window (sub at e.last_change_at)
              then found
              else some (later_of changed e found))))

  unfoldable pub unless_subject :
      Config
      → Bytes
      → Time
      → Map Bytes (EchoState F)
      → List (Observation F)
      → Option (Bytes × EchoState F)
  unless_subject c name at echoes (o ∷ own) = none
  unless_subject c name at echoes [] = wake c name at echoes none

  -- `echoFor`: the state that it prunes, and the echo with its name in the map
  unfoldable pub echo_for :
      Correlator F → SourceState F → Bytes → Time → SourceState F × Option (Bytes × EchoState F)
  echo_for c s name at =
      let pruned = prune_changes c.watermark c.config.change_horizon s in
      if leb_ℤ c.config.echo_window (pos 0)
      then (s, none)
      else (if length c.echoes == 0
          then (s, none)
          else (pruned, unless_subject c.config name at c.echoes pruned.changes))

module _ {F : Type 0} ⦃fl : Floats F⦄ where
  unfoldable pub merged : Signal F → Option (Aggregated F) → Aggregated F
  merged s none = record { signal = s; count = 1 }
  merged s (some a) = record {
    signal = if fl.lt a.signal.score s.score then s else a.signal;
    count = a.count + 1;
  }

  -- `merge`
  unfoldable pub merge : Bytes → Signal F → Map Bytes (Aggregated F) → Map Bytes (Aggregated F)
  merge key s into = insert key (merged s (lookup key into)) into

  unfoldable pub merge_all : List (Signal F) → Map Bytes (Aggregated F) → Map Bytes (Aggregated F)
  merge_all [] into = into
  merge_all (s ∷ rest) into = merge_all rest (merge (signal_key s) s into)

  -- a signal folded into an echo
  unfoldable pub fold_signal : Bytes → Signal F → EchoState F → EchoState F
  fold_signal name s e = record {
    changes = e.changes;
    service = e.service;
    environment = e.environment;
    last_change_at = e.last_change_at;
    last_received_at = e.last_received_at;
    first_signal_at =
        if e.first_signal_at == 0
        then s.timestamp
        else (if before s.timestamp e.first_signal_at then s.timestamp else e.first_signal_at);
    signals = merge (name ++ (0 ∷ signal_key s)) s e.signals;
    sources = insert name (count_of (lookup name e.sources) + 1) e.sources;
  }

  unfoldable pub fold_all : Bytes → List (Signal F) → EchoState F → EchoState F
  fold_all name [] e = e
  fold_all name (s ∷ rest) e = fold_all name rest (if intended s then e else fold_signal name s e)

  unfoldable pub or_new_pending :
      Config
      → Time
      → Observation F
      → Signal F
      → SourceState F
      → Option (PendingEvent F)
      → PendingEvent F
  or_new_pending c now o first s (some p) = p
  or_new_pending c now o first s none = record {
    first_received_at = now;
    first_signal_at = first.timestamp;
    service = o.service;
    environment = o.environment;
    signals = [];
    before = Window.last s.ring c.context_before;
    after = [];
  }

  abbrev pub with_signals : Map Bytes (Aggregated F) → PendingEvent F → PendingEvent F
  with_signals signals p = record {
    first_received_at = p.first_received_at;
    first_signal_at = p.first_signal_at;
    service = p.service;
    environment = p.environment;
    signals = signals;
    before = p.before;
    after = p.after;
  }

  -- the end of `Add`: the signals of the source's own event
  unfoldable pub into_pending :
      Config → Time → Observation F → List (Signal F) → SourceState F → SourceState F
  into_pending c now o [] s = s
  into_pending c now o (first ∷ rest) s =
      let p = or_new_pending c now o first s s.pending in
      with_pending (some (with_signals (merge_all (first ∷ rest) p.signals) p)) s

  unfoldable pub add_found :
      Time
      → Observation F
      → List (Signal F)
      → Correlator F
      → SourceState F
      → Option (Bytes × EchoState F)
      → Correlator F
  add_found now o signals c s none = record {
    config = c.config;
    watermark = c.watermark;
    sources = insert o.source (into_pending c.config now o signals s) c.sources;
    echoes = c.echoes;
  }
  add_found now o signals c s (some (changed, e)) = record {
    config = c.config;
    watermark = c.watermark;
    sources = insert o.source (into_pending c.config now o (keep intended signals) s) c.sources;
    echoes = insert changed (fold_all o.source signals e) c.echoes;
  }

  -- `Add`, at an instant of the wall clock
  unfoldable pub add : Time → Observation F → List (Signal F) → Correlator F → Correlator F
  add now o [] c = c
  add now o (first ∷ rest) c =
      let (s, found) = echo_for c (source o.source c) o.source first.timestamp in
      add_found now o (first ∷ rest) c s found
