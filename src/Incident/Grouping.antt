-- ===== src/Incident/Grouping.antt =====
-- internal/core/incident/incident.go: the options, open incidents and `Group`.
use tezcatl.Base.{
  ℕ, suc, ◌*◌, Bool, true, false, Option, none, some, List, [], ◌∷◌, ◌++◌, Bytes, bytes_eq,
  if◌then◌else◌, set, ◌>>=◌,
}
use tezcatl.Base.Assoc.{Map, lookup, insert}
use tezcatl.Base.Ints.{Time, Duration, pos, sub, before, second, minute, hour, leb_ℤ, ltb_ℤ}
use tezcatl.Base.Sorting.{sort_by}
use tezcatl.Incident.Report.{Incident, service_of, change_keys, build}
use tezcatl.Model.{Floats, Event}

pub record Options : Type 0 where
  pub gap : Duration
  pub max_duration : Duration
  pub co_occurrence : Duration

abbrev positive_or : Duration → Duration → Duration
positive_or d default = if leb_ℤ d (pos 0) then default else d

-- `withDefaults`
unfoldable pub with_defaults : Options → Options
with_defaults o = record {
  gap = positive_or o.gap (pos (30 * minute));
  max_duration = positive_or o.max_duration (pos hour);
  co_occurrence = positive_or o.co_occurrence (pos (30 * second));
}

-- `openIncident`
pub record OpenIncident (F : Type 0) : Type 0 where
  pub events : List (Event F)
  pub services : Map Bytes Bool
  pub changes : Map Bytes Bool
  pub start : Time
  pub last : Time

-- a read of a missing key of a `map[string]bool`
unfoldable pub flag_at : Bytes → Map Bytes Bool → Bool
flag_at k m = elim (lookup k m) [ none ↦ false | some b ↦ b ]

unfoldable pub any_flag : List Bytes → Map Bytes Bool → Bool
any_flag [] m = false
any_flag (k ∷ ks) m = let rest = any_flag ks m in if flag_at k m then true else rest

unfoldable pub flag_all : List Bytes → Map Bytes Bool → Map Bytes Bool
flag_all [] m = m
flag_all (k ∷ ks) m = flag_all ks (insert k true m)

-- what the loop of `Group` keeps
pub record Desk (F : Type 0) : Type 0 where
  pub closed : List (Incident F)
  pub opens : List (OpenIncident F)

module _ {F : Type 0} where
  -- `relatedTo`
  unfoldable pub related_to : Duration → Event F → OpenIncident F → Bool
  related_to co_occurrence e o =
      if flag_at (service_of e) o.services
      then true
      else (if any_flag (change_keys e) o.changes
          then true
          else leb_ℤ (sub e.timestamp o.last) co_occurrence)

  -- `add`
  unfoldable pub add : Event F → OpenIncident F → OpenIncident F
  add e o = record {
    events = o.events ++ (e ∷ []);
    services = insert (service_of e) true o.services;
    changes = flag_all (change_keys e) o.changes;
    start = o.start;
    last = e.timestamp;
  }

  -- the incident an event begins
  unfoldable pub opened_by : Event F → OpenIncident F
  opened_by e =
      add e record { events = []; services = []; changes = []; start = e.timestamp; last = 0 }

  -- the two tests with which `pick` skips an open incident
  unfoldable pub can_take : Options → Event F → OpenIncident F → Bool
  can_take opts e o =
      if ltb_ℤ opts.max_duration (sub e.timestamp o.start)
      then false
      else related_to opts.co_occurrence e o

  unfoldable pub preferred : Option (ℕ × OpenIncident F) → ℕ × OpenIncident F → ℕ × OpenIncident F
  preferred none c = c
  preferred (some best) c = if before best.1.last c.1.last then c else best

  -- `pick`, from a position on
  unfoldable pub pick_from :
      Options
      → Event F
      → ℕ
      → List (OpenIncident F)
      → Option (ℕ × OpenIncident F)
      → Option (ℕ × OpenIncident F)
  pick_from opts e i [] best = best
  pick_from opts e i (o ∷ rest) best =
      pick_from opts e (suc i) rest
        (if can_take opts e o then some (preferred best (i, o)) else best)

  unfoldable pub pick : Options → Event F → List (OpenIncident F) → Option (ℕ × OpenIncident F)
  pick opts e opens = pick_from opts e 0 opens none

  -- the event joins its host, or opens an incident of its own
  unfoldable pub seat :
      Event F → List (OpenIncident F) → Option (ℕ × OpenIncident F) → List (OpenIncident F)
  seat e opens (some (i, host)) = set opens i (add e host)
  seat e opens none = opens ++ (opened_by e ∷ [])

  unfoldable pub place : Options → Event F → List (OpenIncident F) → List (OpenIncident F)
  place opts e opens = seat e opens (pick opts e opens)

  unfoldable pub in_order : List (Event F) → List (Event F)
  in_order events = sort_by (λ a b. before a.timestamp b.timestamp) events

module _ {F : Type 0} ⦃fl : Floats F⦄ where
  -- `closeOut`
  unfoldable pub close_out : OpenIncident F → List (Incident F) → Option (List (Incident F))
  close_out o incidents = do i ← build o.events; some (incidents ++ (i ∷ []))

  unfoldable pub close_all : List (OpenIncident F) → List (Incident F) → Option (List (Incident F))
  close_all [] incidents = some incidents
  close_all (o ∷ rest) incidents = do more ← close_out o incidents; close_all rest more

  unfoldable pub is_over : Options → Event F → OpenIncident F → Bool
  is_over opts e o = ltb_ℤ opts.gap (sub e.timestamp o.last)

  -- the inner loop of `Group`: the incidents that the event can no longer join are closed
  unfoldable pub retire :
      Options → Event F → List (OpenIncident F) → List (Incident F) → Option (Desk F)
  retire opts e [] incidents = some record { closed = incidents; opens = [] }
  retire opts e (o ∷ rest) incidents =
      if is_over opts e o
      then close_out o incidents >>= (λ more. retire opts e rest more)
      else (retire opts e rest incidents
          >>= (λ d. some record { closed = d.closed; opens = o ∷ d.opens }))

  unfoldable pub take_in : Options → Event F → Desk F → Option (Desk F)
  take_in opts e d = do
    r ← retire opts e d.opens d.closed
    some record { closed = r.closed; opens = place opts e r.opens }

  unfoldable pub take_all : Options → List (Event F) → Desk F → Option (Desk F)
  take_all opts [] d = some d
  take_all opts (e ∷ rest) d = do next ← take_in opts e d; take_all opts rest next

  -- `Group`; `none` is a panic
  unfoldable pub group : Options → List (Event F) → Option (List (Incident F))
  group opts events = do
    d ← take_all (with_defaults opts) (in_order events) record { closed = []; opens = [] }
    incidents ← close_all d.opens d.closed
    some (sort_by (λ a b. before a.start b.start) incidents)
