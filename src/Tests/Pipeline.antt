-- ===== src/Tests/Pipeline.antt =====
-- The properties of windows, sinks, incidents and correlation at concrete inputs.
use mathlib.Core.List.{Perm}
use tezcatl.Base.{
  ℕ, ◌+◌, ◌-◌, ◌≤◌, ◌≡◌, refl, false, true, none, some, List, [], ◌∷◌, ◌++◌, codes, arith, length,
  number_eq, map, min, max, take, drop, All,
}
use tezcatl.Base.Assoc.{lookup}
use tezcatl.Base.Ints.{pos, second, before}
use tezcatl.Base.Sorting.{Sorted}
use tezcatl.Correlate.Corroborated.{Corroborated}
use tezcatl.Correlate.Flushing.{Call, observing, adding, flushing, flush, run}
use tezcatl.Correlate.Adding.{add-Sound}
use tezcatl.Correlate.Intake
use tezcatl.Correlate.Running.{new_correlator-Sound, run-new_correlator}
use tezcatl.Correlate.Settling.{Settled, Fresh, flush-Settled}
use tezcatl.Correlate.Soundness.{Sound}
use tezcatl.Correlate.State.{Correlator, new_correlator}
use tezcatl.Incident.Closing.{reported, IsStory}
use tezcatl.Incident.Grouping.{Options, with_defaults, group}
use tezcatl.Incident.Report.{Incident}
use tezcatl.Incident.Story.{group-tells}
use tezcatl.Model.{Event}
use tezcatl.Sink.Broadcast
use tezcatl.Sink.Broadcast.{Broadcast, Channel, new_broadcast, recent}
use tezcatl.Sink.Broadcast.Delivery.{on_option, filled_with, lookup-publish}
use tezcatl.Sink.Broadcast.History.{publishing, published, wanted, size_of, recent-run}
use tezcatl.Sink.Broadcast.History
use tezcatl.Sink.Resilient
use tezcatl.Sink.Resilient.{Resilient, Outcome, publish_with_retries, retry_max_backoff}
use tezcatl.Sink.Resilient.Queue.{publish-queue}
use tezcatl.Sink.Resilient.Retries.{Promised, publish_with_retries-Promised}
use tezcatl.Tests.Samples.{nat_floats, observed, symptom, event_at}
use tezcatl.Window.{last, add_all, new_ring}
use tezcatl.Window.Recent.{last-add_all}

last-add_all_example :
    last (add_all (new_ring (pos 2)) (observed 1 ∷ observed 2 ∷ observed 3 ∷ [])) (pos 5)
    ≡ drop 1 (observed 1 ∷ observed 2 ∷ observed 3 ∷ [])
last-add_all_example = last-add_all (pos 2) (pos 5) (observed 1 ∷ observed 2 ∷ observed 3 ∷ [])

abbrev two_events : List (Event ℕ)
two_events = event_at (codes "db") 5 ∷ event_at (codes "app") 3 ∷ []

recent-run_example :
    recent (History.run (publishing two_events ∷ []) (new_broadcast (pos 1))) (pos 4)
    ≡ drop
        (length two_events - wanted (pos 4) (min (length two_events) (size_of (pos 1))))
        two_events
recent-run_example = recent-run (pos 1) (pos 4) (publishing two_events ∷ [])

abbrev listener : Channel ℕ
listener = record { capacity = 1; queue = []; closed = false }

abbrev heard : Broadcast ℕ
heard = record {
  history = event_at [] 0 ∷ [];
  next = 0;
  filled = false;
  subscribers = (1, listener) ∷ [];
  next_id = 2;
  closed = false;
}

lookup-publish_example :
    lookup 1 (Broadcast.publish two_events heard).subscribers
    ≡ on_option (filled_with two_events) (lookup 1 heard.subscribers)
lookup-publish_example = lookup-publish 1 two_events heard refl

abbrev small_queue : Resilient ℕ
small_queue = record {
  queue = [];
  queue_size = 1;
  max_attempts = 3;
  initial_backoff = second;
  dropped = 0;
}

publish-queue_example :
    ((Resilient.publish two_events small_queue).queue ≡ [] ++ take 1 two_events)
    × ((Resilient.publish two_events small_queue).dropped
          + length (Resilient.publish two_events small_queue).queue
        ≡ 0 + 0 + 2)
    × (length (Resilient.publish two_events small_queue).queue ≤ 1)
    × ((Resilient.publish two_events small_queue).queue_size ≡ 1)
publish-queue_example = publish-queue two_events small_queue (omega arith)

publish_with_retries-Promised_example :
    (o : Outcome) × (publish_with_retries (λ n. false) small_queue ≡ some o)
    × Promised (λ n. false) 3 1 (max second retry_max_backoff) o
publish_with_retries-Promised_example =
    publish_with_retries-Promised (λ n. false) small_queue (omega arith)

abbrev zero_options : Options
zero_options = record { gap = pos 0; max_duration = pos 0; co_occurrence = pos 0 }

group-tells_example :
    (incidents : List (Incident ℕ)) × (group zero_options two_events ≡ some incidents)
    × Perm (reported incidents) two_events
    × All (IsStory (with_defaults zero_options)) incidents
    × Sorted (λ a b. before a.start b.start) incidents
group-tells_example = group-tells zero_options two_events

abbrev three_calls : List (Call ℕ)
three_calls =
    observing 1 (observed 1)
    ∷ adding 1 (observed 1) (symptom 1 ∷ [])
    ∷ flushing (λ n. codes "id") true 2
    ∷ []

run-new_correlator_example :
    (final : Correlator ℕ) × (events : List (Event ℕ)) × (run three_calls (new_correlator none)
      ≡ some (final, events))
    × Sound final
    × All Corroborated events
run-new_correlator_example = run-new_correlator none three_calls (λ h. h, (tt, (tt, tt)))

abbrev alerted : Correlator ℕ
alerted = Intake.add 1 (observed 1) (symptom 1 ∷ []) (new_correlator none)

flush-Settled_example :
    (next : Correlator ℕ) × (events : List (Event ℕ)) × (flush (λ n. codes "id") true 2 alerted
      ≡ some (next, events))
    × Settled alerted true 2 next.sources
    × (map (λ p. p.0) next.sources ≡ map (λ p. p.0) alerted.sources)
    × Fresh alerted true 2 next.echoes
flush-Settled_example =
    flush-Settled (λ n. codes "id") true 2 alerted
      (add-Sound 1 (observed 1) (symptom 1 ∷ []) (new_correlator none) (new_correlator-Sound none))
