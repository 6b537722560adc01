-- ===== src/Dampen/Repeat.antt =====
-- What dampen makes of a repeat of what it has just reported.
use native.Mathlib.Nat.{mul-suc}
use tezcatl.Base.{
  ℕ, zero, suc, ◌*◌, ◌^◌, ◌≤◌, ◌<◌, min, ◌≡◌, refl, subst, ap, ◌∙◌, inl, inr, Bool, true, false,
  Bool-cases, ◌||◌, Option-cases, some, arith, Bytes, bytes_eq,
}
use tezcatl.Base.Assoc.{Map, lookup, lookup-insert_self}
use tezcatl.Base.Ints.{ℤ, pos, negsuc, Time, sub, leb_ℤ, ltb_ℤ}
use tezcatl.Dampen.{Config, Pattern, key, admit, with_defaults, fresh_pattern, make_room}
use tezcatl.Dampen.Admission.{is_report, remembered, asked, admit-reports, admit-remembers}
use tezcatl.Dampen.Silence.{pow_pos}
use tezcatl.Model.{Signal, Floats}

or_true : (a b : Bool) → b ≡ true → (a || b) ≡ true
or_true a b h = ground arith

too_early :
    (n cooldown : ℕ) (z : ℤ)
    → cooldown ≤ n
    → ltb_ℤ z (pos cooldown) ≡ true
    → leb_ℤ (pos n) z ≡ false
too_early n cooldown (pos k) above h = ground arith
too_early n cooldown (negsuc k) above h = ground arith

late_enough : (n most : ℕ) (z : ℤ) → n ≤ most → leb_ℤ (pos most) z ≡ true → leb_ℤ (pos n) z ≡ true
late_enough n most (pos k) below h = ground arith
late_enough n most (negsuc k) below h = ground arith

stretched-bounds :
    (most cooldown k : ℕ)
    → cooldown ≤ most
    → 0 < k
    → (cooldown ≤ min most (cooldown * k)) × (min most (cooldown * k) ≤ most)
stretched-bounds most cooldown zero above h = absurd (omega arith)
stretched-bounds most cooldown (suc k) above h = (omega (arith, mul-suc cooldown k), omega arith)

module _ {F : Type 0} ⦃fl : Floats F⦄ where
  asked-bounds :
      (most cooldown : ℕ) (p : Pattern F) (at : Time)
      → cooldown ≤ most
      → (cooldown ≤ asked most cooldown p at) × (asked most cooldown p at ≤ most)
  asked-bounds most cooldown p at above =
      let stretched = stretched-bounds most cooldown (2 ^ p.streak) above (pow_pos p.streak) in
      elim (Bool-cases (ltb_ℤ (pos (min most (cooldown * 2 ^ p.streak))) (sub at p.last_seen))) [
        | inl gone ↦ rw gone (omega arith, above)
        | inr here ↦ rw here stretched
      ]

  -- what is remembered right after a report: its instant, its score, and an instant last seen
  reported_entry :
      (c : Config F) (s : Signal F) (m : Map Bytes (Pattern F))
      → is_report (admit c s m).0 ≡ true
      → (q : Pattern F) × (remembered s (admit c s m).1 ≡ some q)
        × (q.reported_at ≡ s.timestamp)
        × (q.max_score ≡ s.score)
        × (q.last_seen ≡ s.timestamp)
  unfolding admit
  reported_entry c s m told = elim (Option-cases (remembered s m)) [
    | inl fresh ↦
        rw (fresh, admit)
          (
            fresh_pattern s,
            lookup-insert_self (key s) (fresh_pattern s) (make_room c.max_tracked m),
            refl,
            refl,
            refl,
          )
    | inr (p, known) ↦
        (let (q, there, seen, reported, held) = admit-remembers c s m p known in
          let (at, none_held, score) = reported told in (q, there, at, score, seen))
  ]

  -- Under a cooldown that is not negative, after a signal was reported, whatever was remembered before
  -- it: a next signal of the same key that does not reach the reported score plus the escalation is
  -- held back while the time since the report is below the cooldown, and a next signal of the same
  -- key is always reported once that time has reached the maximum.
  pub admit-repeat :
      (c : Config F) (s t : Signal F) (m : Map Bytes (Pattern F)) (cooldown : ℕ)
      → c.cooldown ≡ pos cooldown
      → key t ≡ key s
      → is_report (admit (with_defaults c) s m).0 ≡ true
      → let d = with_defaults c in
        (fl.le (fl.add s.score d.escalation) t.score ≡ false
          → ltb_ℤ (sub t.timestamp s.timestamp) (pos cooldown) ≡ true
          → is_report (admit d t (admit d s m).1).0 ≡ false)
        × (leb_ℤ d.max_cooldown (sub t.timestamp s.timestamp) ≡ true
            → is_report (admit d t (admit d s m).1).0 ≡ true)
  admit-repeat c s t m cooldown e same told =
      let (q, there, at, score, seen) = reported_entry (with_defaults c) s m told in
      let (most, settled, above, fresh, known) =
        admit-reports c t (admit (with_defaults c) s m).1 cooldown e in
      let there' : remembered t (admit (with_defaults c) s m).1 ≡ some q =
        ap (λ k. lookup k (admit (with_defaults c) s m).1) same ∙ there in
      let bounds = asked-bounds most cooldown q t.timestamp above in
      let decided = known q there' in
      (
        λ weak early. decided ∙ rw (score, weak, at) (too_early _ cooldown _ bounds.0 early),
        λ late.
            decided
            ∙ rw (score, at)
                (or_true _ _ (
                  late_enough _ most _ bounds.1
                    (subst (λ w. leb_ℤ w (sub t.timestamp s.timestamp) ≡ true) settled late))),
      )
