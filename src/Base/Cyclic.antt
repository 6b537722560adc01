-- ===== src/Base/Cyclic.antt =====
-- A buffer written round and round: what it holds of the sequence of values written to it.
use native.Mathlib.Nat.{mod-eq_of_lt, mod-eq-sub-mod}
use tezcatl.Base.{
  ℕ, zero, suc, ◌+◌, ◌-◌, ◌%◌, ◌≤◌, ◌<◌, ◌≡◌, refl, ◌≢◌, Bool, true, false, List, [], ◌∷◌, ◌++◌,
  inl, inr, arith, ltb, ◌==◌, if◌then◌else◌, Bool-cases, ltb→lt, ltb→le, length, get_or, set,
  replicate, drop, length-append, length-set, length-replicate, get_or-set_self, get_or-set_ne, ◌∙◌,
  sym, ap, ap₂,
}

-- One trip round the buffer at most.
pub mod_wrap : (a c : ℕ) → a < c + c → a % c ≡ (if ltb a c then a else a - c)
mod_wrap a c h = elim (Bool-cases (ltb a c)) [
  | inl below ↦ rw below (mod-eq_of_lt (ltb→lt a c below))
  | inr above ↦ rw above (
      mod-eq-sub-mod {n = a} {m = c} (ltb→le a c above)
      ∙ mod-eq_of_lt {n = a - c} {m = c} (omega (arith, ltb→le a c above)))
]

mod_next : (next c : ℕ) → next < c → (next + 1) % c ≡ (if ltb (next + 1) c then next + 1 else 0)
mod_next next c h = ground (arith, mod_wrap (next + 1) c)

-- The cell written last, and the ones before it, seen from the new position.
index_last : (next c n : ℕ) → next < c → ((next + 1) % c + c + n - (n + 1)) % c ≡ next
index_last next c n h =
    ground (arith, mod_next next c, mod_wrap ((next + 1) % c + c + n - (n + 1)) c)

index_before :
    (next c n j : ℕ)
    → next < c
    → j < n
    → n + 1 ≤ j + c
    → ((next + 1) % c + c + j - (n + 1)) % c ≡ (next + c + j - n) % c
index_before next c n j h below near = ground (
  arith,
  mod_next next c,
  mod_wrap ((next + 1) % c + c + j - (n + 1)) c,
  mod_wrap (next + c + j - n) c,
)

index_ne : (next c n j : ℕ) → next < c → j < n → n + 1 ≤ j + c → next ≢ (next + c + j - n) % c
index_ne next c n j h below near = ground (arith, mod_wrap (next + c + j - n) c)

module _ {ℓ} {A : Type ℓ} (d : A) where
  pub get_or-append_left :
      (xs ys : List A) (i : ℕ) → i < length xs → get_or (xs ++ ys) i d ≡ get_or xs i d
  get_or-append_left [] ys i h = elim h [ ]
  get_or-append_left (x ∷ xs) ys zero h = refl
  get_or-append_left (x ∷ xs) ys (suc i) h = get_or-append_left xs ys i (omega arith)

  pub get_or-append_last :
      (xs : List A) (x : A) (i : ℕ) → i ≡ length xs → get_or (xs ++ x ∷ []) i d ≡ x
  get_or-append_last [] x zero h = refl
  get_or-append_last [] x (suc i) h = absurd (omega arith)
  get_or-append_last (y ∷ xs) x zero h = absurd (omega arith)
  get_or-append_last (y ∷ xs) x (suc i) h = get_or-append_last xs x i (omega arith)

  pub drop-get_or :
      (xs : List A) (j : ℕ) → j < length xs → drop j xs ≡ get_or xs j d ∷ drop (suc j) xs
  drop-get_or [] j h = elim h [ ]
  drop-get_or (x ∷ xs) zero h = refl
  drop-get_or (x ∷ xs) (suc j) h = drop-get_or xs j (omega arith)

  pub drop_all : (xs : List A) (j : ℕ) → length xs ≤ j → drop j xs ≡ []
  drop_all [] zero h = refl
  drop_all [] (suc j) h = refl
  drop_all (x ∷ xs) zero h = absurd (omega arith)
  drop_all (x ∷ xs) (suc j) h = drop_all xs j (omega arith)

  -- `buf`, written at `next`, holds the latest values of `written`. `full` is set when the buffer
  -- has been filled once.
  pub record Holds (buf : List A) (next : ℕ) (full : Bool) (written : List A) : Type ℓ where
    pub inside : next < length buf
    pub partial : full ≡ false → length written ≡ next
    pub filled : full ≡ true → length buf ≤ length written
    pub cell :
        (j : ℕ)
        → j < length written
        → length written ≤ j + length buf
        → get_or buf ((next + length buf + j - length written) % length buf) d ≡ get_or written j d

  pub Holds-replicate : (n : ℕ) → 0 < n → Holds (replicate n d) 0 false []
  Holds-replicate n h = record {
    inside = omega (arith, length-replicate n d);
    partial = λ _. refl;
    filled = λ e. ground arith;
    cell = λ j below _. absurd (omega arith);
  }

  module _ {buf : List A} {next : ℕ} {full : Bool} {written : List A} (x : A) where
    pub Holds-set :
        Holds buf next full written
        → Holds
            (set buf next x)
            ((next + 1) % length buf)
            (if (next + 1) % length buf == 0 then true else full)
            (written ++ x ∷ [])
    Holds-set h = record {
      inside = ground (arith, length-set buf next x, mod_next next (length buf));
      partial =
          ground (arith, mod_next next (length buf), length-append written (x ∷ []), h.partial);
      filled = ground (
        arith,
        mod_next next (length buf),
        length-append written (x ∷ []),
        length-set buf next x,
        h.filled,
        h.partial,
      );
      cell = rw (length-set, length-append) cell;
    }
      where
        cell :
            (j : ℕ)
            → j < length written + 1
            → length written + 1 ≤ j + length buf
            → get_or
                (set buf next x)
                (((next + 1) % length buf + length buf + j - (length written + 1)) % length buf)
                d
              ≡ get_or (written ++ x ∷ []) j d
        cell j below near = elim (Bool-cases (ltb j (length written))) [
          | inl old ↦ rw (
            index_before next (length buf) (length written) j h.inside
                (ltb→lt j (length written) old) near,
            get_or-set_ne buf next ((next + length buf + j - length written) % length buf) x d (
                index_ne next (length buf) (length written) j h.inside
                  (ltb→lt j (length written) old) near),
            h.cell j (ltb→lt j (length written) old) (omega arith),
            get_or-append_left written (x ∷ []) j (ltb→lt j (length written) old),
          )
          | inr new ↦
              let e : j ≡ length written = omega (arith, ltb→le j (length written) new) in
              rw
                (
                  e,
                  index_last next (length buf) (length written) h.inside,
                  get_or-set_self buf next x d h.inside,
                )
                (sym (get_or-append_last written x (length written) refl))
        ]

  -- the loop that appends `rounds` cells from the `i`th of the latest `n` on
  abbrev pub cells : List A → ℕ → ℕ → ℕ → ℕ → List A
  cells buf next n zero i = []
  cells buf next n (suc rounds) i =
      get_or buf ((next + length buf + i - n) % length buf) d ∷ cells buf next n rounds (suc i)

  -- Read to the end, the cells are the end of what was written.
  pub cells-Holds :
      {buf : List A} {next : ℕ} {full : Bool} {written : List A} (n rounds i : ℕ)
      → Holds buf next full written
      → n ≤ length buf
      → n ≤ length written
      → i + rounds ≡ n
      → cells buf next n rounds i ≡ drop (length written + i - n) written
  cells-Holds {written} n zero i h small short e =
      sym (drop_all written (length written + i - n) (omega arith))
  cells-Holds {buf} {next} {written} n (suc rounds) i h small short e =
      ap₂ ◌∷◌ first (cells-Holds n rounds (suc i) h small short (omega arith) ∙ shift)
      ∙ sym (drop-get_or written (length written + i - n) (omega arith))
    where
      position :
          next + length buf + (length written + i - n) - length written ≡ next + length buf + i - n
      position = omega arith

      first :
          get_or buf ((next + length buf + i - n) % length buf) d
          ≡ get_or written (length written + i - n) d
      first = rw (← position) (h.cell (length written + i - n) (omega arith) (omega arith))

      shift :
          drop (length written + suc i - n) written ≡ drop (suc (length written + i - n)) written
      shift =
          let e : length written + suc i - n ≡ suc (length written + i - n) = omega arith in
          ap (λ k. drop k written) e
