-- ===== src/Humanize/Units.antt =====
-- internal/core/humanize/duration.go: the two units of a text.
use native.Mathlib.Nat.{mod-lt, div-add-mod}
use tezcatl.Base.{
  ℕ, ◌+◌, ◌*◌, ◌/◌, ◌%◌, ◌≤◌, ◌<◌, ◌≡◌, refl, false, sym, ap, ◌∙◌, zero, suc, [], ◌∷◌, inl, inr,
  Bool-cases, ◌==◌, ltb, ltb→lt, ltb→le, lt→ltb, le→ltb, arith,
}
use tezcatl.Base.Ints.{pos, second, minute, hour}
use tezcatl.Model.{Floats}
use tezcatl.Humanize.Reading.{
  Units, in_minutes, in_hours, in_days, big_letter, small_letter, big, small, read_text,
  read_text-two_units,
}
use tezcatl.Humanize.{
  say_duration, say_magnitude, round_to, scale_of, round_to_scale, two_units, spoken,
}

-- `r` is `d` rounded to a multiple of `m`
pub record Rounded (d m r : ℕ) : Type 0 where
  pub times : ℕ
  pub multiple : r ≡ times * m
  pub not_below : d + d ≤ r + r + m
  pub not_above : r + r ≤ d + d + m

round_to-Rounded : (d m : ℕ) → 0 < m → Rounded d m (round_to d m)
unfolding round_to
round_to-Rounded d m h = elim (Bool-cases (ltb (d % m + d % m) m)) [
  | inl low ↦ rw low (record {
    times = d / m;
    multiple = omega (arith, div-add-mod d m);
    not_below = omega (arith, ltb→lt (d % m + d % m) m low, div-add-mod d m);
    not_above = omega (arith, div-add-mod d m);
  })
  | inr high ↦ rw high (record {
    times = d / m + 1;
    multiple = omega (arith, div-add-mod d m, mod-lt d h);
    not_below = omega (arith, div-add-mod d m, mod-lt d h);
    not_above = omega (arith, ltb→le (d % m + d % m) m high, div-add-mod d m, mod-lt d h);
  })
]

module _ (F : Type 0) ⦃fl : Floats F⦄ where
  -- The text of `r` in two units: their numbers, of which the smaller unit does not fill the bigger one.
  pub record Says (r : ℕ) (u : Units) : Type 0 where
    pub major : ℕ
    pub minor : ℕ
    pub text : spoken F r ≡ two_units major (big_letter u ∷ []) minor (small_letter u ∷ [])
    pub exact : r ≡ major * big u + minor * small u
    pub less : minor * small u < big u

  says_minutes : (r k : ℕ) → r ≡ k * second → minute ≤ r → r < hour → Says r in_minutes
  unfolding spoken
  says_minutes r k e low high = record {
    major = r / minute;
    minor = r % minute / second;
    text =
        rw (spoken, le→ltb r (10 * second) (omega arith), le→ltb r minute low, lt→ltb r hour high)
          refl;
    exact = omega (arith, e);
    less = omega (arith, e);
  }

  says_hours : (r k : ℕ) → r ≡ k * minute → hour ≤ r → r < 24 * hour → Says r in_hours
  unfolding spoken
  says_hours r k e low high = record {
    major = r / hour;
    minor = r % hour / minute;
    text =
        rw
          (
            spoken,
            le→ltb r (10 * second) (omega arith),
            le→ltb r minute (omega arith),
            le→ltb r hour low,
            lt→ltb r (24 * hour) high,
          )
          refl;
    exact = omega (arith, e);
    less = omega (arith, e);
  }

  says_days : (r k : ℕ) → r ≡ k * hour → 24 * hour ≤ r → Says r in_days
  unfolding spoken
  says_days r k e low = record {
    major = r / (24 * hour);
    minor = r % (24 * hour) / hour;
    text =
        rw
          (
            spoken,
            le→ltb r (10 * second) (omega arith),
            le→ltb r minute (omega arith),
            le→ltb r hour (omega arith),
            le→ltb r (24 * hour) low,
          )
          refl;
    exact = omega (arith, e);
    less = omega (arith, e);
  }

  Spells : ℕ → ℕ → ℕ → Type 0
  Spells d m r = (u : Units) × Says r u × (m ≤ small u) × Rounded d m r

  -- a duration below an hour, which is rounded to a second and may become an hour
  spelled_minutes : (d : ℕ) (r : ℕ) → d < hour → Rounded d second r → minute ≤ r → Spells d second r
  unfolding Spells
  spelled_minutes d r below h long = elim (Bool-cases (ltb r hour)) [
    | inl short ↦
        (in_minutes, says_minutes r h.times h.multiple long (ltb→lt r hour short), omega arith, h)
    | inr full ↦
        (let low : hour ≤ r = ltb→le r hour full in
          let whole : r ≡ 60 * minute = omega (arith, h.not_above, h.multiple) in
          (in_hours, says_hours r 60 whole low (omega (arith, whole)), omega arith, h))
  ]

  -- a duration below a day, which is rounded to a minute and may become a day
  spelled_hours :
      (d : ℕ) (r : ℕ) → hour ≤ d → d < 24 * hour → Rounded d minute r → Spells d minute r
  unfolding Spells
  spelled_hours d r above below h = elim (Bool-cases (ltb r (24 * hour))) [
    | inl short ↦
        (let low : hour ≤ r = omega (arith, h.not_below, h.multiple) in
          (
            in_hours,
            says_hours r h.times h.multiple low (ltb→lt r (24 * hour) short),
            omega arith,
            h,
          ))
    | inr full ↦
        (let low : 24 * hour ≤ r = ltb→le r (24 * hour) full in
          let whole : r ≡ 24 * hour = omega (arith, h.not_above, h.multiple) in
          (in_days, says_days r 24 whole low, omega arith, h))
  ]

  spelled_days : (d : ℕ) (r : ℕ) → 24 * hour ≤ d → Rounded d hour r → Spells d hour r
  unfolding Spells
  spelled_days d r above h =
      let low : 24 * hour ≤ r = omega (arith, h.not_below, h.multiple) in
      (in_days, says_days r h.times h.multiple low, omega arith, h)

  spells :
      (d : ℕ)
      → minute ≤ round_to_scale d
      → (u : Units) × Says (round_to_scale d) u
        × (scale_of d ≤ small u)
        × Rounded d (scale_of d) (round_to_scale d)
  unfolding round_to_scale scale_of Spells
  spells d long = elim (Bool-cases (ltb d (10 * second))) [
    | inl tiny ↦ absurd (
        let h = round_to-Rounded d 100_000_000 (omega arith) in
        let low : minute ≤ round_to d 100_000_000 = rw (round_to_scale, scale_of, tiny) at long in
        omega (arith, h.not_above, ltb→lt d (10 * second) tiny))
    | inr more ↦ elim (Bool-cases (ltb d hour)) [
      | inl minutes ↦
          (let low : minute ≤ round_to d second =
              rw (round_to_scale, scale_of, more, minutes) at long in
            rw (round_to_scale, scale_of, more, minutes)
              (spelled_minutes d (round_to d second) (ltb→lt d hour minutes)
                (round_to-Rounded d second (omega arith)) low))
      | inr longer ↦ elim (Bool-cases (ltb d (24 * hour))) [
        | inl hours ↦
            rw (round_to_scale, scale_of, more, longer, hours)
              (spelled_hours d (round_to d minute) (ltb→le d hour longer)
                (ltb→lt d (24 * hour) hours) (round_to-Rounded d minute (omega arith)))
        | inr days ↦
            rw (round_to_scale, scale_of, more, longer, days)
              (spelled_days d (round_to d hour) (ltb→le d (24 * hour) days)
                (round_to-Rounded d hour (omega arith)))
      ]
    ]
  ]

  said : (d : ℕ) → minute ≤ round_to_scale d → say_duration F (pos d) ≡ spoken F (round_to_scale d)
  unfolding say_duration say_magnitude
  said zero long = absurd (omega arith)
  said (suc d) long = rw (say_magnitude, positive) refl
    where
      positive : (round_to_scale (suc d) == 0) ≡ false
      positive = ground arith

  -- The text of a duration whose rounded value is a minute or more, read number by number and unit by
  -- unit, is exactly the rounded value. It names two units, of which the smaller one never fills the
  -- bigger one, so that no text reads 59m 60s, and the rounded value is off by at most half of a
  -- step that is at most the smaller unit.
  pub spoken_lem :
      (d : ℕ)
      → minute ≤ round_to_scale d
      → (read_text (say_duration F (pos d)) ≡ round_to_scale d)
        × (u : Units) × (major : ℕ) × (minor : ℕ) × (say_duration F (pos d)
            ≡ two_units major (big_letter u ∷ []) minor (small_letter u ∷ []))
        × (minor * small u < big u)
        × (scale_of d ≤ small u)
        × Rounded d (scale_of d) (round_to_scale d)
  spoken_lem d long =
      let (u, says, fine_enough, rounded) = spells d long in
      let text = said d long ∙ says.text in
      (
        ap read_text text ∙ read_text-two_units u says.major says.minor ∙ sym says.exact,
        u,
        says.major,
        says.minor,
        text,
        says.less,
        fine_enough,
        rounded,
      )
