-- ===== src/Incident/Report.antt =====
-- internal/core/incident/incident.go: an incident and `build`, but for its title.
--
-- The evidence and the changes pass through a Go map, whose iteration order the source leaves open;
-- here it is the order of insertion, and the sorts that follow it are stable.
use tezcatl.Base.{
  ℕ, ◌+◌, Bool, true, Option, none, some, List, [], ◌∷◌, ◌++◌, Bytes, bytes_eq, is_empty, ◌==◌,
  if◌then◌else◌, leb, map, before_bytes,
}
use tezcatl.Base.Assoc.{Map, lookup, insert, has}
use tezcatl.Base.Ints.{Time, Duration, sub, before, second, add_time, pos}
use tezcatl.Base.Sorting.{sort_by}
use tezcatl.Model.{
  Floats, Severity, info, warning, critical, unknown, ChangeRecord, Signal, RelatedChange, Event,
}

pub record Evidence (F : Type 0) : Type 0 where
  pub kind : Bytes
  pub source : Bytes
  pub count : ℕ
  pub summary : Bytes
  pub max_score : F
  pub first : Time
  pub last : Time

pub record Change : Type 0 where
  pub type : Bytes
  pub version : Bytes
  pub summary : Bytes
  pub timestamp : Time
  pub before_start : Duration

pub record Incident (F : Type 0) : Type 0 where
  pub severity : Severity
  pub confidence : F
  pub start : Time
  pub end : Time
  pub services : List Bytes
  pub trigger : Event F
  pub evidence : List (Evidence F)
  pub changes : List Change
  pub events : List (Event F)

-- `severityRank`
abbrev pub severity_rank : Severity → ℕ
severity_rank critical = 3
severity_rank warning = 2
severity_rank info = 1
severity_rank (unknown text) = 0

-- the key under which `build` and `changeKeys` know a change
unfoldable pub change_key : ChangeRecord → Bytes
change_key c = c.type ++ (0 ∷ (c.version ++ (0 ∷ c.summary)))

-- the severity after an event: the stronger one, the newer of two equals
unfoldable pub graver : Severity → Severity → Severity
graver old new = if leb (severity_rank old) (severity_rank new) then new else old

module _ {F : Type 0} where
  -- `serviceOf`
  unfoldable pub service_of : Event F → Bytes
  service_of e = if is_empty e.service then e.source else e.service

  -- `changeKeys`
  unfoldable pub change_keys : Event F → List Bytes
  change_keys e = map (λ r. change_key r.change) e.related_changes

  -- the last of the events, the given one when there are none
  unfoldable pub last_event : Event F → List (Event F) → Event F
  last_event e [] = e
  last_event e (f ∷ rest) = last_event f rest

  unfoldable pub listed : Map Bytes Bool → List (Event F) → List Bytes
  listed seen [] = []
  listed seen (e ∷ rest) =
      let later = listed (insert (service_of e) true seen) rest in
      if has (service_of e) seen then listed seen rest else service_of e ∷ later

  unfoldable pub gravest : Severity → List (Event F) → Severity
  gravest s [] = s
  gravest s (e ∷ rest) = gravest (graver s e.severity) rest

  unfoldable pub earlier_evidence : Evidence F → Evidence F → Bool
  earlier_evidence a b =
      if a.first == b.first then before_bytes a.kind b.kind else before a.first b.first

module _ {F : Type 0} ⦃fl : Floats F⦄ where
  unfoldable pub surer : F → F → F
  surer old new = if fl.lt old new then new else old

  unfoldable pub fresh_evidence : Signal F → Evidence F
  fresh_evidence s = record {
    kind = s.kind;
    source = s.source;
    count = 0;
    summary = [];
    max_score = fl.hundredths 0;
    first = s.timestamp;
    last = s.timestamp;
  }

  -- one more signal in an entry
  unfoldable pub counted : Signal F → Evidence F → Evidence F
  counted s e = record {
    kind = e.kind;
    source = e.source;
    count = e.count + 1;
    summary = if fl.le e.max_score s.score then s.summary else e.summary;
    max_score = if fl.le e.max_score s.score then s.score else e.max_score;
    first = if before s.timestamp e.first then s.timestamp else e.first;
    last = if before e.last s.timestamp then s.timestamp else e.last;
  }

  unfoldable pub entry_for : Signal F → Option (Evidence F) → Evidence F
  entry_for s none = fresh_evidence s
  entry_for s (some e) = e

  unfoldable pub note_signal : Signal F → Map Bytes (Evidence F) → Map Bytes (Evidence F)
  note_signal s ledger =
      let key = s.kind ++ (0 ∷ s.source) in
      insert key (counted s (entry_for s (lookup key ledger))) ledger

  unfoldable pub note_signals : List (Signal F) → Map Bytes (Evidence F) → Map Bytes (Evidence F)
  note_signals [] ledger = ledger
  note_signals (s ∷ rest) ledger = note_signals rest (note_signal s ledger)

  unfoldable pub note_events : List (Event F) → Map Bytes (Evidence F) → Map Bytes (Evidence F)
  note_events [] ledger = ledger
  note_events (e ∷ rest) ledger = note_events rest (note_signals e.signals ledger)

  -- a change placed on the incident's own clock
  unfoldable pub placed : Time → Event F → RelatedChange F → Change
  placed start e r =
      let at =
        add_time e.timestamp (fl.to_duration (fl.mul r.offset_seconds (fl.of_int (pos second)))) in
      record {
        type = r.change.type;
        version = r.change.version;
        summary = r.change.summary;
        timestamp = at;
        before_start = sub start at;
      }

  unfoldable pub note_changes :
      Time → Event F → List (RelatedChange F) → Map Bytes Change → Map Bytes Change
  note_changes start e [] noted = noted
  note_changes start e (r ∷ rest) noted =
      let key = change_key r.change in
      note_changes start e rest
        (if has key noted then noted else insert key (placed start e r) noted)

  unfoldable pub note_all_changes : Time → List (Event F) → Map Bytes Change → Map Bytes Change
  note_all_changes start [] noted = noted
  note_all_changes start (e ∷ rest) noted =
      note_all_changes start rest (note_changes start e e.related_changes noted)

  unfoldable pub surest : F → List (Event F) → F
  surest c [] = c
  surest c (e ∷ rest) = surest (surer c e.confidence) rest

  -- `build`; `none` is the panic of `events[0]`
  unfoldable pub build : List (Event F) → Option (Incident F)
  build [] = none
  build (e ∷ rest) = some record {
    severity = gravest (unknown []) (e ∷ rest);
    confidence = surest (fl.hundredths 0) (e ∷ rest);
    start = e.timestamp;
    end = (last_event e rest).timestamp;
    services = listed [] (e ∷ rest);
    trigger = e;
    evidence = sort_by earlier_evidence (map (λ p. p.1) (note_events (e ∷ rest) []));
    changes =
        sort_by (λ a b. before a.timestamp b.timestamp)
          (map (λ p. p.1) (note_all_changes e.timestamp (e ∷ rest) []));
    events = e ∷ rest;
  }
