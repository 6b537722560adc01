-- ===== src/Lib.antt =====
-- The core of tezcatl, an anomaly detector for logs, metrics and changes: what is mined, correlated,
-- held back, delivered and told.
--
-- An observation enters the pipeline, is normalized, mined for a log template and run through the
-- detectors; the signals found go through the dampener to the correlator of their partition, which emits
-- events to the sinks; the events of a burst are later assembled into incidents.
--
-- - Base: lists, maps (association lists, in the order in which `range` visits them), byte texts, spaces,
--   integers, instants and sorting. An `int` is an integer without bounds, a `time.Time` a count of
--   nanoseconds since the zero time, a `time.Duration` such an integer; no value here comes near 2^63.
-- - Model: the records of internal/core/model. `float64` is a parameter, the record Floats of its
--   operations, of which nothing is assumed but, where a theorem asks for it, the laws in Ordered.
-- - Window: internal/core/window/ring.go, the ring of recent observations.
-- - Drain: internal/core/drain. Cache is cluster.go; Template and Tree are the templates and the prefix
--   tree of drain.go, and `alignParameters` of miner.go; Learn is `addTokens` and `Match`; Settle is
--   `normalized` and `NewDrain`; Snapshot is snapshot.go, its codec an argument;
--   Miner is `tokenize`, masking.go and the wrappers of miner.go and partitioned.go, over regular
--   expressions that are arguments. A panic of the source is `none`.
-- - Dampen: internal/core/dampen/dampen.go, the memory of what was reported.
-- - Correlate: internal/core/correlate/correlator.go. State is the data and `Observe`, Intake is `Add`,
--   Emission builds events, Flushing is `Flush` and the run of a sequence of calls.
-- - Incident: internal/core/incident/incident.go. Report is `build`, Grouping is `Group`.
-- - Sink: internal/core/sink. Broadcast is broadcast.go, Resilient is resilient.go.
-- - Detect: internal/core/detect. Glob is `globMatch`; Room is `makeRoom` of both detectors. Log is log.go:
--   Markings the markings and their choice, Stats the buckets and intervals, Shape what a template says,
--   Scan `scanMissing`, Detecting `Detect`. Metric is metric.go: Series the keys, the ignored ones and the
--   sweep, Baseline the statistics, Detecting `Detect`. The hour of an instant, which depends on its
--   location, and `path.Match` are arguments.
-- - Humanize: internal/core/humanize/duration.go.
-- - Process: internal/core/processor/normalize.go; Analysis is analysis.go; Worker and Dispatch are
--   `runWorker` and the dispatch of internal/core/engine/engine.go; Pipeline is the chain of both
--   processors in a worker.
-- - Persist: internal/core/state/manager.go, over a snapshotter and a store, which are arguments.
--
-- The locks of the source make each operation one step, so interleavings are sequences of steps. Loops
-- are structural recursion, but for four that have fuel: the retries of the resilient sink (the number of
-- attempts), the digits of a number (a bound above their number), the loop of `globMatch` (a bound on the
-- states it can pass through, which is proved to be enough) and `makeRoom` (the number of entries). The
-- clock and `NewID` are arguments.
-- Where the source sorts what it read from a map, the model takes one order of iteration.
--
-- Not modelled: the regular expressions of masking, the snapshots of the miner's partitions, the title and the Markdown of an incident, the JSON of the detectors' snapshots
-- and their listings, the parsers of internal/core/processor, the ticker of internal/core/state, internal/core/admin,
-- the channels and goroutines of internal/core/engine, and everything around the core: adapters, commands,
-- configuration, plugins, the web console and generated code, which are input, output and wiring.
pub mod Base
pub mod Model
pub mod Window
pub mod Sink
pub mod Dampen
pub mod Drain
pub mod Detect
pub mod Humanize
pub mod Process
pub mod Persist
pub mod Incident
pub mod Correlate
mod Tests
