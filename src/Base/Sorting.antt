-- ===== src/Base/Sorting.antt =====
-- Stable sorting by a comparison: what `sort.SliceStable` does, and one run of `sort.Slice`.
use mathlib.Core.List.Perm
use mathlib.Core.List.{Perm}
use tezcatl.Base.{
  ℕ, suc, ◌≡◌, refl, ap, ◌∙◌, Bool, true, false, List, [], ◌∷◌, if◌then◌else◌, length, All,
  Bool-cases, inl, inr, In, take, drop, zero, All-In, In-drop,
}

module _ {ℓ} {A : Type ℓ} (less : A → A → Bool) where
  unfoldable pub insert_by : A → List A → List A
  insert_by x [] = x ∷ []
  insert_by x (y ∷ ys) = if less y x then y ∷ insert_by x ys else x ∷ y ∷ ys

  unfoldable pub sort_by : List A → List A
  unfolding insert_by
  sort_by [] = []
  sort_by (x ∷ xs) = insert_by x (sort_by xs)

  insert_by-perm : (x : A) (ys : List A) → Perm (insert_by x ys) (x ∷ ys)
  unfolding insert_by
  insert_by-perm x [] = Perm.refl (x ∷ [])
  insert_by-perm x (y ∷ ys) = elim (Bool-cases (less y x)) [
    | inl less_y ↦ rw less_y (Perm.trans (Perm.cons y (insert_by-perm x ys)) (Perm.swap x y ys))
    | inr not_less ↦ rw not_less (Perm.refl (x ∷ y ∷ ys))
  ]

  pub sort_by-perm : (xs : List A) → Perm (sort_by xs) xs
  unfolding sort_by
  sort_by-perm [] = Perm.refl []
  sort_by-perm (x ∷ xs) = Perm.trans (insert_by-perm x (sort_by xs)) (Perm.cons x (sort_by-perm xs))

  length-insert_by : (x : A) (ys : List A) → length (insert_by x ys) ≡ suc (length ys)
  unfolding insert_by
  length-insert_by x [] = refl
  length-insert_by x (y ∷ ys) = elim (Bool-cases (less y x)) [
    | inl less_y ↦ rw less_y (ap suc (length-insert_by x ys))
    | inr not_less ↦ rw not_less
  ]

  pub length-sort_by : (xs : List A) → length (sort_by xs) ≡ length xs
  unfolding sort_by
  length-sort_by [] = refl
  length-sort_by (x ∷ xs) = length-insert_by x (sort_by xs) ∙ ap suc (length-sort_by xs)

  All-insert_by {κ} :
      (P : A → Type κ) (x : A) (ys : List A) → P x → All P ys → All P (insert_by x ys)
  unfolding insert_by
  All-insert_by P x [] p h = (p, tt)
  All-insert_by P x (y ∷ ys) p h = elim (Bool-cases (less y x)) [
    | inl less_y ↦ rw less_y (h.0, All-insert_by P x ys p h.1)
    | inr not_less ↦ rw not_less (p, h)
  ]

  pub All-sort_by {κ} : (P : A → Type κ) (xs : List A) → All P xs → All P (sort_by xs)
  unfolding sort_by
  All-sort_by P [] h = tt
  All-sort_by P (x ∷ xs) h = All-insert_by P x (sort_by xs) h.0 (All-sort_by P xs h.1)

  In-insert_by_self : (x : A) (ys : List A) → In x (insert_by x ys)
  unfolding insert_by
  In-insert_by_self x [] = inl refl
  In-insert_by_self x (y ∷ ys) = elim (Bool-cases (less y x)) [
    | inl less_y ↦ rw less_y (inr (In-insert_by_self x ys))
    | inr not_less ↦ rw not_less (inl refl)
  ]

  In-insert_by_other : (z x : A) (ys : List A) → In z ys → In z (insert_by x ys)
  unfolding insert_by
  In-insert_by_other z x [] i = elim i [ ]
  In-insert_by_other z x (y ∷ ys) i = elim (Bool-cases (less y x)) [
    | inl less_y ↦ rw less_y (moved (In-insert_by_other z x ys) i)
    | inr not_less ↦ rw not_less (inr i)
  ]
    where
      moved : (In z ys → In z (insert_by x ys)) → In z (y ∷ ys) → In z (y ∷ insert_by x ys)
      moved rec (inl e) = inl e
      moved rec (inr j) = inr (rec j)

  pub In-sort_by : (x : A) (xs : List A) → In x xs → In x (sort_by xs)
  unfolding sort_by
  In-sort_by x [] i = elim i [ ]
  In-sort_by x (y ∷ ys) (inl e) = rw e (In-insert_by_self y (sort_by ys))
  In-sort_by x (y ∷ ys) (inr i) = In-insert_by_other x y (sort_by ys) (In-sort_by x ys i)

  -- no element is less than one before it
  abbrev pub Sorted : List A → Type ℓ
  Sorted [] = Unit
  Sorted (x ∷ xs) = All (λ y. less y x ≡ false) xs × Sorted xs

  module _ (asym : (x y : A) → less x y ≡ true → less y x ≡ false)
      (through : (x y z : A) → less y x ≡ false → less z y ≡ false → less z x ≡ false) where
    All-through :
        (x y : A) (zs : List A)
        → less y x ≡ false
        → All (λ z. less z y ≡ false) zs
        → All (λ z. less z x ≡ false) zs
    All-through x y [] h a = tt
    All-through x y (z ∷ zs) h a = (through x y z h a.0, All-through x y zs h a.1)

    insert_by-Sorted : (x : A) (ys : List A) → Sorted ys → Sorted (insert_by x ys)
    unfolding insert_by
    insert_by-Sorted x [] s = (tt, tt)
    insert_by-Sorted x (y ∷ ys) s = elim (Bool-cases (less y x)) [
      | inl less_y ↦ rw less_y (
        All-insert_by (λ z. less z y ≡ false) x ys (asym y x less_y) s.0,
        insert_by-Sorted x ys s.1,
      )
      | inr not_less ↦ rw not_less ((not_less, All-through x y ys not_less s.0), s)
    ]

    pub sort_by-Sorted : (xs : List A) → Sorted (sort_by xs)
    unfolding sort_by
    sort_by-Sorted [] = tt
    sort_by-Sorted (x ∷ xs) = insert_by-Sorted x (sort_by xs) (sort_by-Sorted xs)

  -- In a sorted list nothing in the front part is preceded by something of the rest.
  pub Sorted-take-drop :
      (x y : A) (n : ℕ) (xs : List A)
      → Sorted xs
      → In x (take n xs)
      → In y (drop n xs)
      → less y x ≡ false
  Sorted-take-drop x y zero xs s i j = elim i [ ]
  Sorted-take-drop x y (suc n) [] s i j = elim i [ ]
  Sorted-take-drop x y (suc n) (z ∷ zs) s (inl e) j =
      rw e (All-In (λ w. less w z ≡ false) y zs s.0 (In-drop y n zs j))
  Sorted-take-drop x y (suc n) (z ∷ zs) s (inr i) j = Sorted-take-drop x y n zs s.1 i j
