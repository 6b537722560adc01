-- ===== src/Correlate/Flushing.antt =====
-- internal/core/correlate/correlator.go: `Flush`, and a run of a correlator.
use tezcatl.Base.{
  ℕ, suc, ◌+◌, Bool, true, false, Option, none, some, List, [], ◌∷◌, ◌++◌, Bytes, if◌then◌else◌,
  ◌==◌, length, ◌>>=◌,
}
use tezcatl.Base.Assoc.{Map}
use tezcatl.Base.Ints.{Time, leb_ℤ, sub}
use tezcatl.Correlate.Emission.{build, build_echo}
use tezcatl.Correlate.Intake.{add}
use tezcatl.Correlate.State.{
  Clock, event, PendingEvent, SourceState, EchoState, Correlator, with_pending, observe,
}
use tezcatl.Model.{Floats, Observation, Signal, Event}

abbrev pub is_event : Clock → Bool
is_event event = true
is_event _ = false

-- what a part of a flush leaves of a map, and the events it emits
pub record Flushed (F : Type 0) (S : Type 0) : Type 0 where
  pub left : Map Bytes S
  pub emitted : List (Event F)

-- a call of the correlator, with what it reads of the clock and of `NewID`
pub data Call (F : Type 0) : Type 0 where
  observing : Time → Observation F → Call F
  adding : Time → Observation F → List (Signal F) → Call F
  flushing : (ℕ → Bytes) → Bool → Time → Call F

module _ {F : Type 0} where
  -- `echoExpired`
  unfoldable pub echo_expired : Correlator F → Time → EchoState F → Bool
  echo_expired c now e =
      if is_event c.config.clock
      then leb_ℤ c.config.echo_window (sub c.watermark e.last_change_at)
      else leb_ℤ c.config.echo_window (sub now e.last_received_at)

  -- `expired`
  unfoldable pub expired : Correlator F → Time → PendingEvent F → Bool
  expired c now p =
      if is_event c.config.clock
      then leb_ℤ c.config.window (sub c.watermark p.first_signal_at)
      else leb_ℤ c.config.window (sub now p.first_received_at)

  -- whether `Flush` emits an event of a source
  unfoldable pub is_due : Correlator F → Bool → Time → Option (PendingEvent F) → Bool
  is_due c force now none = false
  is_due c force now (some p) = if force then true else expired c now p

  unfoldable pub is_past : Correlator F → Bool → Time → EchoState F → Bool
  is_past c force now e = if force then true else echo_expired c now e

module _ {F : Type 0} ⦃fl : Floats F⦄ where
  -- the event of a source that is due, and the state that it leaves
  unfoldable pub flush_source :
      (ℕ → Bytes)
      → Correlator F
      → Bytes
      → SourceState F
      → Option (PendingEvent F)
      → Option (Event F)
  flush_source ids c name s none = none
  flush_source ids c name s (some p) = build (ids 0) c.config name s p

  -- the loop of `Flush` over the sources
  unfoldable pub flush_sources :
      (ℕ → Bytes)
      → Correlator F
      → Bool
      → Time
      → Map Bytes (SourceState F)
      → Option (Flushed F (SourceState F))
  flush_sources ids c force now [] = some record { left = []; emitted = [] }
  flush_sources ids c force now ((name, s) ∷ rest) =
      if is_due c force now s.pending
      then (do
        ev ← flush_source ids c name s s.pending
        f ← flush_sources (λ n. ids (suc n)) c force now rest
        some record { left = (name, with_pending none s) ∷ f.left; emitted = ev ∷ f.emitted })
      else (flush_sources ids c force now rest
          >>= (λ f. some record { left = (name, s) ∷ f.left; emitted = f.emitted }))

  -- the loop of `Flush` over the echoes; an echo without signals goes without an event
  unfoldable pub flush_echoes :
      (ℕ → Bytes)
      → Correlator F
      → Bool
      → Time
      → Map Bytes (EchoState F)
      → Option (Flushed F (EchoState F))
  flush_echoes ids c force now [] = some record { left = []; emitted = [] }
  flush_echoes ids c force now ((name, e) ∷ rest) =
      if is_past c force now e
      then (if length e.signals == 0 then flush_echoes ids c force now rest else (do
        ev ← build_echo (ids 0) name e
        f ← flush_echoes (λ n. ids (suc n)) c force now rest
        some record { left = f.left; emitted = ev ∷ f.emitted }))
      else (flush_echoes ids c force now rest
          >>= (λ f. some record { left = (name, e) ∷ f.left; emitted = f.emitted }))

  -- `Flush`, at an instant of the wall clock; `none` is a panic
  unfoldable pub flush :
      (ℕ → Bytes) → Bool → Time → Correlator F → Option (Correlator F × List (Event F))
  flush ids force now c = do
    own ← flush_sources ids c force now c.sources
    wakes ← flush_echoes (λ n. ids (length own.emitted + n)) c force now c.echoes
    some (
      record {
        config = c.config;
        watermark = c.watermark;
        sources = own.left;
        echoes = wakes.left;
      },
      own.emitted ++ wakes.emitted,
    )

  unfoldable pub serve : Call F → Correlator F → Option (Correlator F × List (Event F))
  serve (observing now o) c = some (observe now o c, [])
  serve (adding now o signals) c = some (add now o signals c, [])
  serve (flushing ids force now) c = flush ids force now c

  -- calls in their order, and every event that they emit
  unfoldable pub run : List (Call F) → Correlator F → Option (Correlator F × List (Event F))
  run [] c = some (c, [])
  run (call ∷ rest) c = do
    (next, events) ← serve call c
    (final, more) ← run rest next
    some (final, events ++ more)
