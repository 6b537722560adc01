-- ===== src/Detect/Log/Markings.antt =====
-- internal/core/detect/log.go: `ValidMarking`, `SetMarking`, `SetMarkingPattern`, `markingFor`.
pub mod Choice
use tezcatl.Base.{
  ℕ, Bool, true, false, Option, none, some, List, [], ◌∷◌, Bytes, bytes_eq, length, ltb, ◌==◌, ◌&&◌,
  ◌||◌, not, before_bytes, is_empty, if◌then◌else◌,
}
use tezcatl.Base.Assoc.{Map, lookup, insert, delete}
use tezcatl.Detect.Glob.{glob_match}
use tezcatl.Detect.Log.{Marking, normal, ignore, symptomatic, heartbeat, other, LogDetector}

-- `ValidMarking`
unfoldable pub valid_marking : Marking → Bool
valid_marking normal = true
valid_marking ignore = true
valid_marking symptomatic = true
valid_marking heartbeat = true
valid_marking (other text) = false

-- `marking == ""`
abbrev pub is_unset : Marking → Bool
is_unset normal = false
is_unset ignore = false
is_unset symptomatic = false
is_unset heartbeat = false
is_unset (other text) = is_empty text

-- What both setters do to their map; `none` is the error of an unsupported marking.
unfoldable pub set_in : Bytes → Marking → Map Bytes Marking → Option (Map Bytes Marking)
unfolding insert delete valid_marking
set_in key marking m =
    if not (is_unset marking) && not (valid_marking marking)
    then none
    else (if is_unset marking then some (delete key m) else some (insert key marking m))

-- the longest pattern so far and its marking; `none` while `found` is false
abbrev pub Best : Type 0
Best = Option (Bytes × Marking)

-- `len(pattern) > len(best) || (len(pattern) == len(best) && pattern < best)`
unfoldable pub more_specific : Bytes → Bytes → Bool
more_specific p best =
    ltb (length best) (length p) || ((length p == length best) && before_bytes p best)

-- whether `globMatch` says so
unfoldable pub matches : Bytes → Bytes → Bool
unfolding glob_match
matches pattern template = elim (glob_match pattern template) [ none ↦ false | some b ↦ b ]

-- one round of the loop of `markingFor`
unfoldable pub better : Bytes → Bytes × Marking → Best → Best
better template (pattern, candidate) best =
    if matches pattern template
    then elim best [
      | none ↦ some (pattern, candidate)
      | some (p, m) ↦ if more_specific pattern p then some (pattern, candidate) else some (p, m)
    ]
    else best

unfoldable pub best_pattern : Bytes → Best → Map Bytes Marking → Best
best_pattern template best [] = best
best_pattern template best (entry ∷ rest) = best_pattern template (better template entry best) rest

-- the zero `Marking` when nothing was found
abbrev pub marking_of : Best → Marking
marking_of none = other []
marking_of (some (p, m)) = m

module _ {F : Type 0} where
  -- `SetMarking`
  unfoldable pub set_marking : Bytes → Marking → LogDetector F → Option (LogDetector F)
  set_marking template marking d = elim (set_in template marking d.markings) [
    | none ↦ none
    | some m ↦ some (record d { markings = m })
  ]

  -- `SetMarkingPattern`
  unfoldable pub set_marking_pattern : Bytes → Marking → LogDetector F → Option (LogDetector F)
  set_marking_pattern pattern marking d = elim (set_in pattern marking d.patterns) [
    | none ↦ none
    | some m ↦ some (record d { patterns = m })
  ]

  -- `markingFor`
  unfoldable pub marking_for : Bytes → LogDetector F → Marking
  unfolding lookup best_pattern
  marking_for template d = elim (lookup template d.markings) [
    | some marking ↦ marking
    | none ↦ marking_of (best_pattern template none d.patterns)
  ]
