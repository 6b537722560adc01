-- ===== src/Correlate/State.antt =====
-- internal/core/correlate/correlator.go: the state of a correlator, and `Observe`.
use tezcatl.Base.{
  ℕ, ◌-◌, ◌*◌, Bool, true, false, Option, none, some, is_some, List, [], ◌∷◌, ◌++◌, Bytes, bytes_eq,
  ltb, if◌then◌else◌, length, drop,
}
use tezcatl.Base.Assoc.{Map, lookup, insert}
use tezcatl.Base.Ints.{Time, Duration, ℤ, pos, ltb_ℤ, leb_ℤ, sub, before, minute, second}
use tezcatl.Model.{Observation, Modality, log, metric, change, Signal}
use tezcatl.Window.{Ring, new_ring}
use tezcatl.Window

pub data Clock : Type 0 where
  wall event : Clock
  unnamed : Bytes → Clock

pub record Config : Type 0 where
  pub window : Duration
  pub context_before : ℤ
  pub context_after : ℤ
  pub clock : Clock
  pub change_horizon : Duration
  pub echo_window : Duration

-- `DefaultConfig`
abbrev pub default_config : Config
default_config = record {
  window = pos (30 * second);
  context_before = pos 10;
  context_after = pos 10;
  clock = wall;
  change_horizon = pos (15 * minute);
  echo_window = pos (10 * minute);
}

-- `aggregatedSignal`
pub record Aggregated (F : Type 0) : Type 0 where
  pub signal : Signal F
  pub count : ℕ

-- `pendingEvent`
pub record PendingEvent (F : Type 0) : Type 0 where
  pub first_received_at : Time
  pub first_signal_at : Time
  pub service : Bytes
  pub environment : Bytes
  pub signals : Map Bytes (Aggregated F)
  pub before : List (Observation F)
  pub after : List (Observation F)

-- `sourceState`
pub record SourceState (F : Type 0) : Type 0 where
  pub ring : Ring F
  pub changes : List (Observation F)
  pub pending : Option (PendingEvent F)

-- `echoState`
pub record EchoState (F : Type 0) : Type 0 where
  pub changes : List (Observation F)
  pub service : Bytes
  pub environment : Bytes
  pub last_change_at : Time
  pub last_received_at : Time
  pub first_signal_at : Time
  pub signals : Map Bytes (Aggregated F)
  pub sources : Map Bytes ℕ

pub record Correlator (F : Type 0) : Type 0 where
  pub config : Config
  pub watermark : Time
  pub sources : Map Bytes (SourceState F)
  pub echoes : Map Bytes (EchoState F)

abbrev pub is_log : Modality → Bool
is_log log = true
is_log _ = false

abbrev pub is_metric : Modality → Bool
is_metric metric = true
is_metric _ = false

abbrev pub is_change : Modality → Bool
is_change change = true
is_change _ = false

abbrev pub max_tracked_changes : ℕ
max_tracked_changes = 64

module _ {F : Type 0} where
  abbrev pub with_changes : List (Observation F) → SourceState F → SourceState F
  with_changes changes s = record { ring = s.ring; changes = changes; pending = s.pending }

  abbrev pub with_pending : Option (PendingEvent F) → SourceState F → SourceState F
  with_pending pending s = record { ring = s.ring; changes = s.changes; pending = pending }

  abbrev pub with_after : List (Observation F) → PendingEvent F → PendingEvent F
  with_after after p = record {
    first_received_at = p.first_received_at;
    first_signal_at = p.first_signal_at;
    service = p.service;
    environment = p.environment;
    signals = p.signals;
    before = p.before;
    after = after;
  }

  -- `NewCorrelator`
  unfoldable pub new_correlator : Option Config → Correlator F
  new_correlator none = record { config = default_config; watermark = 0; sources = []; echoes = [] }
  new_correlator (some c) = record { config = c; watermark = 0; sources = []; echoes = [] }

  unfoldable pub or_fresh : Config → Option (SourceState F) → SourceState F
  or_fresh c (some s) = s
  or_fresh c none = record { ring = new_ring c.context_before; changes = []; pending = none }

  -- `source`; the operations put the state back under its name
  unfoldable pub source : Bytes → Correlator F → SourceState F
  source name c = or_fresh c.config (lookup name c.sources)

  -- the last 64 of the changes
  unfoldable pub capped : List (Observation F) → List (Observation F)
  capped changes =
      if ltb max_tracked_changes (length changes)
      then drop (length changes - max_tracked_changes) changes
      else changes

  -- the loop of `pruneChanges`
  unfoldable pub within : Time → Duration → List (Observation F) → List (Observation F)
  within watermark horizon [] = []
  within watermark horizon (o ∷ rest) =
      let shorter = within watermark horizon rest in
      if ltb_ℤ horizon (sub watermark o.timestamp) then shorter else o ∷ rest

  -- `pruneChanges`
  unfoldable pub prune_changes : Time → Duration → SourceState F → SourceState F
  prune_changes watermark horizon s = with_changes (capped (within watermark horizon s.changes)) s

  unfoldable pub or_new_echo : Observation F → Option (EchoState F) → EchoState F
  or_new_echo o (some e) = e
  or_new_echo o none = record {
    changes = [];
    service = o.service;
    environment = o.environment;
    last_change_at = 0;
    last_received_at = 0;
    first_signal_at = 0;
    signals = [];
    sources = [];
  }

  unfoldable pub extended : Time → Observation F → EchoState F → EchoState F
  extended now o e = record {
    changes = capped (e.changes ++ (o ∷ []));
    service = e.service;
    environment = e.environment;
    last_change_at = o.timestamp;
    last_received_at = now;
    first_signal_at = e.first_signal_at;
    signals = e.signals;
    sources = e.sources;
  }

  -- `openEcho`
  unfoldable pub open_echo :
      Config → Time → Observation F → Map Bytes (EchoState F) → Map Bytes (EchoState F)
  open_echo c now o echoes =
      if leb_ℤ c.echo_window (pos 0)
      then echoes
      else (if is_some o.change
          then insert o.source (extended now o (or_new_echo o (lookup o.source echoes))) echoes
          else echoes)

  unfoldable pub complete :
      Config → Observation F → Option (PendingEvent F) → Option (PendingEvent F)
  complete c o none = none
  complete c o (some p) =
      if ltb_ℤ (pos (length p.after)) c.context_after
      then some (with_after (p.after ++ (o ∷ [])) p)
      else some p

  -- `Observe`, at an instant of the wall clock
  unfoldable pub observe : Time → Observation F → Correlator F → Correlator F
  observe now o c =
      let watermark = if before c.watermark o.timestamp then o.timestamp else c.watermark in
      let s = source o.source c in
      let known : SourceState F = record {
        ring = Window.add s.ring o;
        changes = s.changes;
        pending = s.pending;
      } in
      let tracked =
        if is_change o.modality
        then prune_changes watermark c.config.change_horizon
            (with_changes (s.changes ++ (o ∷ [])) known)
        else known in
      record {
        config = c.config;
        watermark = watermark;
        sources = insert o.source (with_pending (complete c.config o s.pending) tracked) c.sources;
        echoes = if is_change o.modality then open_echo c.config now o c.echoes else c.echoes;
      }
