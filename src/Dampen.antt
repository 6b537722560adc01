-- ===== src/Dampen.antt =====
-- internal/core/dampen/dampen.go: the memory that holds back repeated signals.
pub mod Silence
pub mod Admission
pub mod Repeat
pub mod Memory
pub mod Eviction
pub mod Identity
use tezcatl.Base.{
  ℕ, zero, suc, ◌+◌, ◌/◌, Bool, true, false, ◌||◌, Option, none, some, List, [], ◌∷◌, ◌++◌, length,
  take, ltb, leb, Bytes, bytes_eq, codes, itoa, is_empty, if◌then◌else◌, map,
}
use tezcatl.Base.Assoc.{Map, lookup, insert, delete}
use tezcatl.Base.Ints.{ℤ, pos, pos_part, Time, Duration, sub, before, double, ltb_ℤ, leb_ℤ, hour}
use tezcatl.Base.Sorting.{sort_by}
use tezcatl.Model.{Signal, Floats, text_at}

pub record Config (F : Type 0) : Type 0 where
  pub cooldown : Duration
  pub max_cooldown : Duration
  pub escalation : F
  pub max_tracked : ℤ

pub record Pattern (F : Type 0) : Type 0 where
  pub reported_at : Time
  pub last_seen : Time
  pub max_score : F
  pub suppressed : ℕ
  pub streak : ℕ

pub record Dampener (F : Type 0) : Type 0 where
  pub config : Config F
  pub reported : ℕ
  pub suppressed : ℕ
  pub patterns : Map Bytes (Pattern F)

abbrev pub default_max_cooldown : Duration
default_max_cooldown = pos 43_200_000_000_000

abbrev pub default_max_tracked : ℤ
default_max_tracked = pos 20000

abbrev pub Aged : Type 0
Aged = Bytes × Time

-- `entries[i].lastSeen.Before(entries[j].lastSeen)`
abbrev pub seen_before : Aged → Aged → Bool
seen_before a b = before a.1 b.1

-- the loop of `silence`: `rounds` are the repeats of the streak that are left
unfoldable pub silence_from : ℕ → Duration → Duration → Duration
silence_from zero required max_cooldown = required
silence_from (suc rounds) required max_cooldown =
    if leb_ℤ max_cooldown (double required)
    then max_cooldown
    else silence_from rounds (double required) max_cooldown

module _ {F : Type 0} where
  -- `silence`
  unfoldable pub silence : Pattern F → Config F → Duration
  silence p config = silence_from p.streak config.cooldown config.max_cooldown

  -- `Key`
  unfoldable pub identity : Signal F → Bytes
  identity s =
      let template = text_at (codes "template") s.attributes in
      let series = text_at (codes "series") s.attributes in
      let metric = text_at (codes "metric") s.attributes in
      let named = if is_empty template then series else template in
      let measured = if is_empty named then metric else named in
      if is_empty measured then s.summary else measured

  unfoldable pub key : Signal F → Bytes
  key s = s.kind ++ (0 ∷ s.source ++ (0 ∷ identity s))

  unfoldable pub aged : Map Bytes (Pattern F) → List Aged
  aged [] = []
  aged ((k, p) ∷ m) = (k, p.last_seen) ∷ aged m

  unfoldable pub delete_all : List Aged → Map Bytes (Pattern F) → Map Bytes (Pattern F)
  delete_all [] m = m
  delete_all ((k, _) ∷ entries) m = delete_all entries (delete k m)

  -- `makeRoom`: the slots before `len(entries)/10+1` always exist, as the map is not empty
  unfoldable pub make_room : ℤ → Map Bytes (Pattern F) → Map Bytes (Pattern F)
  make_room max_tracked patterns =
      if ltb_ℤ (pos (length patterns)) max_tracked
      then patterns
      else let entries = sort_by seen_before (aged patterns) in
        delete_all (take (length entries / 10 + 1) entries) patterns

-- the loop that writes a report's attributes into the signal
unfoldable pub merge_attributes : Map Bytes Bytes → Map Bytes Bytes → Map Bytes Bytes
merge_attributes [] into = into
merge_attributes ((k, v) ∷ new) into = merge_attributes new (insert k v into)

-- What `admit` decides: the attributes to add to a signal that is reported.
pub data Verdict : Type 0 where
  hold : Verdict
  report : Map Bytes Bytes → Verdict

module _ {F : Type 0} ⦃fl : Floats F⦄ where
  -- `withDefaults`
  unfoldable pub with_defaults : Config F → Config F
  with_defaults c =
      let raised = if leb_ℤ c.max_cooldown (pos 0) then default_max_cooldown else c.max_cooldown in
      record c {
        max_cooldown = if ltb_ℤ raised c.cooldown then c.cooldown else raised;
        escalation =
            if fl.le c.escalation (fl.hundredths 0) then fl.hundredths 10 else c.escalation;
        max_tracked = if leb_ℤ c.max_tracked (pos 0) then default_max_tracked else c.max_tracked;
      }

  -- `New`
  unfoldable pub new_dampener : Config F → Dampener F
  new_dampener c = record { config = with_defaults c; reported = 0; suppressed = 0; patterns = [] }

  -- the closure `report` of `admit`: the attributes of a report, and the entry after it
  unfoldable pub report_attributes : Pattern F → Map Bytes Bytes → Map Bytes Bytes
  report_attributes p attributes =
      let held =
        if ltb 0 p.suppressed
        then insert (codes "dampen.suppressed") (itoa p.suppressed) attributes
        else attributes in
      if ltb 0 p.streak then insert (codes "dampen.repeats") (itoa p.streak) held else held

  abbrev pub after_report : Pattern F → Time → Pattern F
  after_report p at = record p { reported_at = at; suppressed = 0 }

  -- The three cases of the `switch` of `admit`, on an entry whose streak and last sighting are
  -- up to date: it got worse, its silence is over, or it is held back.
  unfoldable pub escalate : Signal F → Pattern F → Verdict × Pattern F
  escalate s entry =
      let attributes = insert (codes "dampen.escalated_from") (fl.fixed 2 entry.max_score) [] in
      let raised = record entry { max_score = s.score; streak = 0 } in
      (report (report_attributes raised attributes), after_report raised s.timestamp)

  unfoldable pub repeat_report : Bool → Signal F → Pattern F → Verdict × Pattern F
  repeat_report returning s entry =
      let again = record entry {
        streak = if returning then entry.streak else entry.streak + 1;
        max_score = s.score;
      } in
      (report (report_attributes again []), after_report again s.timestamp)

  unfoldable pub hold_back : Pattern F → Verdict × Pattern F
  hold_back entry = (hold, record entry { suppressed = entry.suppressed + 1 })

  -- `signal.Timestamp.Sub(entry.lastSeen) > entry.silence(d.config)`
  abbrev pub is_returning : Config F → Signal F → Pattern F → Bool
  is_returning config s entry = ltb_ℤ (silence entry config) (sub s.timestamp entry.last_seen)

  abbrev pub sighted : Config F → Signal F → Pattern F → Pattern F
  sighted config s entry = record entry {
    streak = if is_returning config s entry then 0 else entry.streak;
    last_seen = s.timestamp;
  }

  -- the tests of the `switch`
  abbrev pub is_worse : Config F → Signal F → Pattern F → Bool
  is_worse config s entry = fl.le (fl.add entry.max_score config.escalation) s.score

  abbrev pub is_quiet_enough : Config F → Signal F → Pattern F → Bool
  is_quiet_enough config s entry =
      leb_ℤ (silence (sighted config s entry) config) (sub s.timestamp entry.reported_at)

  -- the part of `admit` for a known pattern
  unfoldable pub judge : Config F → Signal F → Pattern F → Verdict × Pattern F
  unfolding escalate repeat_report hold_back
  judge config s entry =
      let again = repeat_report (is_returning config s entry) s (sighted config s entry) in
      let held = hold_back (sighted config s entry) in
      if is_worse config s entry
      then escalate s (sighted config s entry)
      else (if is_quiet_enough config s entry then again else held)

  abbrev pub fresh_pattern : Signal F → Pattern F
  fresh_pattern s = record {
    reported_at = s.timestamp;
    last_seen = s.timestamp;
    max_score = s.score;
    suppressed = 0;
    streak = 0;
  }

  -- `admit`
  unfoldable pub admit :
      Config F → Signal F → Map Bytes (Pattern F) → Verdict × Map Bytes (Pattern F)
  admit config s patterns = elim (lookup (key s) patterns) [
    | none ↦ (report [], insert (key s) (fresh_pattern s) (make_room config.max_tracked patterns))
    | some entry ↦
        let (verdict, entry') = judge config s entry in (verdict, insert (key s) entry' patterns)
  ]

  -- one round of the loop of `Filter`
  unfoldable pub tally : Verdict → Signal F → Dampener F → Dampener F × List (Signal F)
  tally hold s d = (record d { suppressed = d.suppressed + 1 }, [])
  tally (report attributes) s d = (
    record d { reported = d.reported + 1 },
    record s { attributes = merge_attributes attributes s.attributes } ∷ [],
  )

  unfoldable pub filter_one : Signal F → Dampener F → Dampener F × List (Signal F)
  filter_one s d =
      let (verdict, patterns) = admit d.config s d.patterns in
      tally verdict s (record d { patterns = patterns })

  unfoldable pub filter_each : List (Signal F) → Dampener F → Dampener F × List (Signal F)
  filter_each [] d = (d, [])
  filter_each (s ∷ rest) d =
      let (d', kept) = filter_one s d in
      let (d'', more) = filter_each rest d' in (d'', kept ++ more)

  -- `Filter`
  unfoldable pub filter : List (Signal F) → Dampener F → Dampener F × List (Signal F)
  filter signals d = if leb_ℤ d.config.cooldown (pos 0) then (d, signals) else filter_each signals d

  -- `Tracked`
  abbrev pub tracked : Dampener F → ℕ
  tracked d = length d.patterns
