-- ===== src/Humanize.antt =====
-- internal/core/humanize/duration.go: durations in the words of a person.
pub mod Reading
pub mod Units
use tezcatl.Base.{
  ℕ, zero, suc, ◌+◌, ◌-◌, ◌*◌, ◌/◌, ◌%◌, Bool, true, false, List, [], ◌∷◌, ◌++◌, Bytes, codes, itoa,
  ltb, leb, ◌==◌, same_bytes, length, take, drop, if◌then◌else◌,
}
use tezcatl.Base.Ints.{ℤ, pos, negsuc, pos_part, neg_part, Duration, second, minute, hour, leb_ℤ}
use tezcatl.Model.{Floats}

-- `d.Round(m)` of a duration that is not negative
unfoldable pub round_to : ℕ → ℕ → ℕ
round_to d m = let r = d % m in if ltb (r + r) m then d - r else d + m - r

-- the unit that `roundToScale` rounds to
unfoldable pub scale_of : ℕ → ℕ
scale_of d =
    if ltb d (10 * second)
    then 100_000_000
    else (if ltb d hour then second else (if ltb d (24 * hour) then minute else hour))

-- `roundToScale`
unfoldable pub round_to_scale : ℕ → ℕ
unfolding round_to scale_of
round_to_scale d = round_to d (scale_of d)

-- `twoUnits`
unfoldable pub two_units : ℕ → Bytes → ℕ → Bytes → Bytes
unfolding itoa
two_units major major_unit minor minor_unit =
    if minor == 0
    then itoa major ++ major_unit
    else itoa major ++ major_unit ++ codes " " ++ itoa minor ++ minor_unit

-- `strings.TrimSuffix(s, ".0")`
unfoldable pub trim_tenth : Bytes → Bytes
trim_tenth s =
    let front = length s - 2 in if same_bytes (drop front s) (codes ".0") then take front s else s

module _ (F : Type 0) ⦃fl : Floats F⦄ where
  -- the `switch` of `Duration`, for a rounded duration that is not zero
  unfoldable pub spoken : ℕ → Bytes
  unfolding two_units trim_tenth itoa
  spoken d =
      if ltb d (10 * second)
      then trim_tenth (fl.fixed 1 (fl.seconds (pos d))) ++ codes "s"
      else (if ltb d minute
          then itoa (d / second) ++ codes "s"
          else (if ltb d hour
              then two_units (d / minute) (codes "m") (d % minute / second) (codes "s")
              else (if ltb d (24 * hour)
                  then two_units (d / hour) (codes "h") (d % hour / minute) (codes "m")
                  else two_units (d / (24 * hour)) (codes "d") (d % (24 * hour) / hour)
                      (codes "h"))))

  -- `Duration` behind the sign
  unfoldable pub say_magnitude : ℕ → Bytes
  unfolding spoken round_to_scale
  say_magnitude d =
      let rounded = round_to_scale d in if rounded == 0 then codes "<0.1s" else spoken rounded

  -- `Duration`
  unfoldable pub say_duration : Duration → Bytes
  unfolding say_magnitude
  say_duration (pos zero) = codes "0s"
  say_duration (pos (suc d)) = say_magnitude (suc d)
  say_duration (negsuc d) = codes "-" ++ say_magnitude (suc d)

  -- `Seconds`
  unfoldable pub say_seconds : F → Bytes
  unfolding say_duration
  say_seconds s = say_duration (fl.to_duration (fl.mul s (fl.of_int (pos second))))

  -- `SignedDuration`
  unfoldable pub say_signed : Duration → Bytes
  unfolding say_duration
  say_signed d = if leb_ℤ (pos 0) d then codes "+" ++ say_duration d else say_duration d
