-- ===== src/Drain/Settle/Mining.antt =====
-- internal/core/drain: `normalized`, and messages mined from a fresh drain.
use tezcatl.Base.{
  ℕ, ◌≤◌, ◌<◌, ◌≡◌, ◌≢◌, refl, Bool, true, false, Bool-cases, codes, inl, inr, ◌⊎◌, some, List, [],
  ◌∷◌, arith, Bytes, is_empty, ◌==◌, if◌then◌else◌,
}
use tezcatl.Base.Ints.{ℤ, pos, pos_part, ◌≤ℤ◌, ltb_ℤ, is_zero}
use mathlib.Core.Option.{none-ne-some}
use tezcatl.Base.Assoc.{lookup}
use tezcatl.Drain.Cache
use tezcatl.Drain.Learn.{Drain}
use tezcatl.Drain.Learn.Step.{Ready, add_tokens-Learned}
use tezcatl.Drain.Settle.{
  Config, ok, too_shallow, too_few_tokens, or_default, filled, normalized, new_drain, mine,
}
use tezcatl.Drain.Tree.Shape.{no_child}
use tezcatl.Model.{Floats}

or_default-filled : (t d : Bytes) → is_empty d ≡ false → is_empty (or_default t d) ≡ false
or_default-filled [] d h = h
or_default-filled (x ∷ t) d h = refl

or_default-cap :
    (t : ℤ)
    → pos 0
      ≤ℤ (let set = if is_zero t then pos 32 else t in if ltb_ℤ set (pos 0) then pos 0 else set)
or_default-cap t = ground arith

or_default-children : (t : ℤ) → (if is_zero t then pos 100 else t) ≢ pos 0
or_default-children t = ground arith

not_one : (n : ℕ) → (n == 1) ≡ false → n ≢ 1
not_one n h e = ground arith

deep_enough : (d : ℤ) → ltb_ℤ d (pos 3) ≡ false → 3 ≤ pos_part d
deep_enough d h = ground arith

module _ {F : Type 0} ⦃fl : Floats F⦄ where
  -- What `normalized` requires of a configuration.
  pub record Accepted (d : Config F) : Type 0 where
    pub deep : 3 ≤ pos_part d.depth
    pub wildcard : is_empty d.param_str ≡ false
    pub opening : is_empty d.mask_prefix ≡ false
    pub closing : is_empty d.mask_suffix ≡ false
    pub cap : pos 0 ≤ℤ d.max_tokens
    pub not_one : pos_part d.max_tokens ≢ 1
    pub children : d.max_children ≢ pos 0

  filled-Accepted :
      (c : Config F)
      → ltb_ℤ (filled c).depth (pos 3) ≡ false
      → (pos_part (filled c).max_tokens == 1) ≡ false
      → Accepted (filled c)
  unfolding filled
  filled-Accepted c h k = record {
    deep = deep_enough (filled c).depth h;
    wildcard = or_default-filled c.param_str (codes "<*>") refl;
    opening = or_default-filled c.mask_prefix (codes "<") refl;
    closing = or_default-filled c.mask_suffix (codes ">") refl;
    cap = or_default-cap c.max_tokens;
    not_one = not_one (pos_part (filled c).max_tokens) k;
    children = or_default-children c.max_children;
  }

  -- What `normalized` makes of a configuration: it refuses a depth that is, or defaults to, less
  -- than 3, and of the rest a cap of one token; any other it fills in, and then the depth is at
  -- least 3, no text is empty, the cap is neither negative nor 1, and `MaxChildren` is not 0.
  pub normalized_lem :
      (c : Config F)
      → ((normalized c ≡ too_shallow) × (ltb_ℤ (filled c).depth (pos 3) ≡ true))
        ⊎ ((normalized c ≡ too_few_tokens) × ((pos_part (filled c).max_tokens == 1) ≡ true))
        ⊎ ((normalized c ≡ ok (filled c)) × Accepted (filled c))
  unfolding normalized
  normalized_lem c = elim (Bool-cases (ltb_ℤ (filled c).depth (pos 3))) [
    | inl shallow ↦ inl (rw shallow, shallow)
    | inr deep ↦ elim (Bool-cases (pos_part (filled c).max_tokens == 1)) [
      | inl one ↦ inr (inl (rw (deep, one), one))
      | inr more ↦ inr (inr (rw (deep, more), filled-Accepted c deep more))
    ]
  ]

  pub new_drain-Ready :
      (has_numbers : Bytes → Bool) (c : Config F)
      → fl.lt (fl.hundredths 0) c.sim_th ≡ true
      → 0 < pos_part c.max_children
      → Ready (new_drain has_numbers c)
  unfolding new_drain Cache.get lookup
  new_drain-Ready has_numbers c h k = record {
    threshold = h;
    room = k;
    roomy = no_child;
    valid = record { distinct = tt; bounded = λ _. omega arith };
    keyed = λ id cl found. absurd (none-ne-some cl found);
  }

  mine-Ready :
      (messages : List (List Bytes)) (d : Drain F)
      → Ready d
      → (d' : Drain F) × (mine messages d ≡ some d') × Ready d'
  unfolding mine
  mine-Ready [] d h = (d, refl, h)
  mine-Ready (tokens ∷ rest) d h =
      let (r, run, learned) = add_tokens-Learned tokens d h in
      let (d', more, ready) = mine-Ready rest r.drain learned.ready in (d', rw run more, ready)

  -- Mining never panics: with a positive threshold and a positive `MaxChildren`, a fresh drain takes any
  -- messages one after the other, keeps within its bound on clusters, and is ready for the next.
  pub mine-new_drain :
      (has_numbers : Bytes → Bool) (c : Config F) (messages : List (List Bytes))
      → fl.lt (fl.hundredths 0) c.sim_th ≡ true
      → 0 < pos_part c.max_children
      → (d : Drain F) × (mine messages (new_drain has_numbers c) ≡ some d) × Ready d
  mine-new_drain has_numbers c messages h k =
      mine-Ready messages (new_drain has_numbers c) (new_drain-Ready has_numbers c h k)
