-- ===== src/Dampen/Silence.antt =====
-- How long dampen's silence of a pattern lasts.
use native.Mathlib.Nat.{pow-suc}
use tezcatl.Base.{
  ℕ, zero, suc, ◌+◌, ◌*◌, ◌^◌, ◌≤◌, ◌<◌, min, ◌≡◌, refl, ◌∙◌, Bool-cases, inl, inr, arith, false,
  leb, leb→le, ap, max, if◌then◌else◌,
}
use tezcatl.Base.Ints.{Duration, pos, negsuc, double, leb_ℤ, ltb_ℤ}
use tezcatl.Dampen.{default_max_cooldown, Config, Pattern, silence_from, silence, with_defaults}
use tezcatl.Model.{Floats}

pub pow_pos : (n : ℕ) → 0 < 2 ^ n
pow_pos zero = omega arith
pow_pos (suc n) = omega (arith, pow-suc 2 n, pow_pos n)

leb→lt : (a b : ℕ) → leb a b ≡ false → b < a
leb→lt a b h = ground arith

doubled : (n required : ℕ) → (required + required) * 2 ^ n ≡ required * 2 ^ suc n
doubled n required = rw (pow-suc 2 n) (omega arith)

min_lem :
    (n required most : ℕ)
    → min most ((required + required) * 2 ^ n) ≡ min most (required * 2 ^ suc n)
min_lem n required most = ap (λ k. min most k) (doubled n required)

-- The loop, over durations that are not negative.
silence_from-closed :
    (streak required most : ℕ)
    → required ≤ most
    → silence_from streak (pos required) (pos most) ≡ pos (min most (required * 2 ^ streak))
unfolding silence_from
silence_from-closed zero required most h = ap pos (omega arith)
silence_from-closed (suc streak) required most h =
    elim (Bool-cases (leb_ℤ (pos most) (double (pos required)))) [
      | inl long ↦ rw long (
          ap pos (
            grind (
              arith,
              pow-suc 2 streak,
              pow_pos streak,
              leb→le (most + 0) (required + required + 0) long,
            )))
      | inr short ↦ rw short (
          silence_from-closed streak (required + required) most
            (omega (arith, leb→lt (most + 0) (required + required + 0) short))
          ∙ ap pos (min_lem streak required most))
    ]

-- the maximum that `withDefaults` settles on
capped : Duration → Duration → Duration
capped most cooldown =
    let raised = if leb_ℤ most (pos 0) then default_max_cooldown else most in
    if ltb_ℤ raised cooldown then cooldown else raised

capped_lem :
    (m : Duration) (cooldown : ℕ)
    → (most : ℕ) × (capped m (pos cooldown) ≡ pos most) × (cooldown ≤ most)
unfolding capped
capped_lem (negsuc k) cooldown = (max 43_200_000_000_000 cooldown, ground arith, omega arith)
capped_lem (pos zero) cooldown = (max 43_200_000_000_000 cooldown, ground arith, omega arith)
capped_lem (pos (suc k)) cooldown = (max (suc k) cooldown, ground arith, omega arith)

module _ {F : Type 0} ⦃fl : Floats F⦄ where
  with_defaults-max :
      (c : Config F) → (with_defaults c).max_cooldown ≡ capped c.max_cooldown c.cooldown
  unfolding with_defaults capped
  with_defaults-max c = refl

  with_defaults-cooldown : (c : Config F) → (with_defaults c).cooldown ≡ c.cooldown
  unfolding with_defaults
  with_defaults-cooldown c = refl

  -- the maximum after `withDefaults`
  pub with_defaults-most :
      (c : Config F) (cooldown : ℕ)
      → c.cooldown ≡ pos cooldown
      → (most : ℕ) × ((with_defaults c).max_cooldown ≡ pos most) × (cooldown ≤ most)
  with_defaults-most c cooldown e =
      let (most, settled, above) = capped_lem c.max_cooldown cooldown in
      (most, rw (with_defaults-max c, e) settled, above)

  pub silence-most :
      (c : Config F) (cooldown most : ℕ)
      → c.cooldown ≡ pos cooldown
      → (with_defaults c).max_cooldown ≡ pos most
      → cooldown ≤ most
      → (p : Pattern F) → silence p (with_defaults c) ≡ pos (min most (cooldown * 2 ^ p.streak))
  unfolding silence
  silence-most c cooldown most e settled above p =
      rw (settled, with_defaults-cooldown c, e) (silence_from-closed p.streak cooldown most above)

  -- Under a configuration with its defaults applied, and a cooldown that is on, the silence of a pattern
  -- is exactly the cooldown doubled once for each report of its streak, cut off at the maximum.
  pub silence-closed :
      (c : Config F) (p : Pattern F) (cooldown : ℕ)
      → c.cooldown ≡ pos cooldown
      → 0 < cooldown
      → (most : ℕ) × ((with_defaults c).max_cooldown ≡ pos most)
        × (cooldown ≤ most)
        × (silence p (with_defaults c) ≡ pos (min most (cooldown * 2 ^ p.streak)))
  silence-closed c p cooldown e h =
      let (most, settled, above) = with_defaults-most c cooldown e in
      (most, settled, above, silence-most c cooldown most e settled above p)
