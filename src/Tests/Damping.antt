-- ===== src/Tests/Damping.antt =====
-- The properties of dampening at concrete inputs.
use tezcatl.Base.{
  ℕ, ◌+◌, ◌*◌, ◌^◌, ◌≤◌, ◌≡◌, ◌↔◌, ◌||◌, refl, false, true, none, some, [], ◌∷◌, Bytes, bytes_eq,
  codes, same_bytes, arith, length, min,
}
use tezcatl.Base.Assoc.{Map, lookup, delete, Distinct}
use tezcatl.Base.Sorting.{insert_by, sort_by}
use tezcatl.Base.Ints.{pos, pos_part, hour, sub, leb_ℤ, ltb_ℤ}
use tezcatl.Dampen.Repeat.{admit-repeat}
use tezcatl.Dampen.{
  make_room, aged, delete_all, Config, Pattern, Dampener, with_defaults, new_dampener, silence, key,
  identity, admit, filter, tracked,
}
use tezcatl.Dampen.Admission.{
  is_report, remembered, asked, admit-reports, admit-remembers, filter-counts,
}
use tezcatl.Dampen.Eviction.{make_room-oldest}
use tezcatl.Dampen.Identity.{NulFree, FirstNamed, naming_texts, key-injective}
use tezcatl.Dampen.Memory.{filter_batches, filter_batches-tracked}
use tezcatl.Dampen.Silence.{silence-closed}
use tezcatl.Tests.Samples.{nat_floats, symptom}

abbrev hourly : Config ℕ
hourly = record { cooldown = pos hour; max_cooldown = pos 0; escalation = 20; max_tracked = pos 0 }

abbrev repeated : Pattern ℕ
repeated = record { reported_at = 1; last_seen = 2; max_score = 50; suppressed = 1; streak = 3 }

silence-closed_example :
    (most : ℕ) × ((with_defaults hourly).max_cooldown ≡ pos most)
    × (hour ≤ most)
    × (silence repeated (with_defaults hourly) ≡ pos (min most (hour * 2 ^ 3)))
silence-closed_example = silence-closed hourly repeated hour refl (omega arith)

abbrev memory : Map Bytes (Pattern ℕ)
memory = (key (symptom 1), repeated) ∷ []

admit-reports_example :
    (most : ℕ) × ((with_defaults hourly).max_cooldown ≡ pos most)
    × (hour ≤ most)
    × (remembered (symptom 5) memory ≡ none
        → is_report (admit (with_defaults hourly) (symptom 5) memory).0 ≡ true)
    × ((p : Pattern ℕ)
        → remembered (symptom 5) memory ≡ some p
        → is_report (admit (with_defaults hourly) (symptom 5) memory).0 ≡ (
            nat_floats.le (nat_floats.add p.max_score (with_defaults hourly).escalation) 90
            || leb_ℤ (pos (asked most hour p 5)) (sub 5 p.reported_at)))
admit-reports_example = admit-reports hourly (symptom 5) memory hour refl

admit-repeat_example :
    (nat_floats.le (nat_floats.add 90 (with_defaults hourly).escalation) 90 ≡ false
      → ltb_ℤ (sub 6 5) (pos hour) ≡ true
      → is_report
          (admit
            (with_defaults hourly)
            (symptom 6)
            (admit (with_defaults hourly) (symptom 5) []).1).0
        ≡ false)
    × (leb_ℤ (with_defaults hourly).max_cooldown (sub 6 5) ≡ true
        → is_report
            (admit
              (with_defaults hourly)
              (symptom 6)
              (admit (with_defaults hourly) (symptom 5) []).1).0
          ≡ true)
unfolding key identity lookup
admit-repeat_example =
    admit-repeat hourly (symptom 5) (symptom 6) [] hour refl refl
      ((admit-reports hourly (symptom 5) [] hour refl).3 refl)

admit-remembers_example :
    (q : Pattern ℕ) × (remembered (symptom 5) (admit hourly (symptom 5) memory).1 ≡ some q)
    × (q.last_seen ≡ 5)
    × (is_report (admit hourly (symptom 5) memory).0 ≡ true
        → (q.reported_at ≡ 5) × (q.suppressed ≡ 0) × (q.max_score ≡ 90))
    × (is_report (admit hourly (symptom 5) memory).0 ≡ false
        → (q.reported_at ≡ 1) × (q.suppressed ≡ 1 + 1) × (q.max_score ≡ 50))
unfolding lookup key identity same_bytes
admit-remembers_example = admit-remembers hourly (symptom 5) memory repeated refl

abbrev dampener : Dampener ℕ
dampener = record { config = hourly; reported = 0; suppressed = 0; patterns = memory }

filter-counts_example :
    ((filter (symptom 5 ∷ symptom 6 ∷ []) dampener).0.reported
      ≡ 0 + length (filter (symptom 5 ∷ symptom 6 ∷ []) dampener).1)
    × ((filter (symptom 5 ∷ symptom 6 ∷ []) dampener).0.reported
          + (filter (symptom 5 ∷ symptom 6 ∷ []) dampener).0.suppressed
        ≡ 0 + 0 + 2)
filter-counts_example = filter-counts (symptom 5 ∷ symptom 6 ∷ []) dampener refl

filter_batches-tracked_example :
    (tracked (filter_batches ((symptom 5 ∷ []) ∷ (symptom 6 ∷ []) ∷ []) (new_dampener hourly))
      ≤ pos_part (with_defaults hourly).max_tracked)
    × Distinct
        (filter_batches ((symptom 5 ∷ []) ∷ (symptom 6 ∷ []) ∷ []) (new_dampener hourly)).patterns
filter_batches-tracked_example =
    filter_batches-tracked hourly ((symptom 5 ∷ []) ∷ (symptom 6 ∷ []) ∷ [])

-- a kind and a source without a NUL byte
symptom_kind-NulFree : NulFree (codes "log.symptomatic_template")
symptom_kind-NulFree = ground arith

symptom_source-NulFree : NulFree (codes "app")
symptom_source-NulFree = ground arith

key-injective_example :
    (x : Bytes) × FirstNamed (naming_texts (symptom 1)) (symptom 1).summary x
    × (y : Bytes) × FirstNamed (naming_texts (symptom 2)) (symptom 2).summary y
    × ((key (symptom 1) ≡ key (symptom 2))
        ↔ ((symptom 1).kind ≡ (symptom 2).kind)
          × ((symptom 1).source ≡ (symptom 2).source)
          × (x ≡ y))
key-injective_example =
    key-injective (symptom 1) (symptom 2) symptom_kind-NulFree symptom_kind-NulFree
      symptom_source-NulFree symptom_source-NulFree

abbrev younger : Pattern ℕ
younger = record { reported_at = 1; last_seen = 7; max_score = 50; suppressed = 0; streak = 0 }

abbrev two_patterns : Map Bytes (Pattern ℕ)
two_patterns = (codes "old", repeated) ∷ (codes "new", younger) ∷ []

two_patterns-Distinct : Distinct two_patterns
unfolding lookup same_bytes
two_patterns-Distinct = (refl, (refl, tt))

make_room-oldest_example : (lookup (codes "new") two_patterns ≡ some younger) × (2 ≤ 7)
unfolding make_room aged delete_all delete lookup same_bytes sort_by insert_by
make_room-oldest_example =
    make_room-oldest (pos 1) two_patterns (codes "old") (codes "new") repeated younger
      two_patterns-Distinct refl refl refl
