-- ===== src/Base/Gather.antt =====
-- The lists that a function makes of a list's elements, put together, up to their order.
use mathlib.Core.List.Perm
use mathlib.Core.List.{Perm, perm_append_comm}
use mathlib.Core.Option.{none-ne-some}
use tezcatl.Base.{
  ℕ, zero, suc, ◌≡◌, refl, sym, ap, ◌∙◌, subst, Bool, some, List, [], ◌∷◌, ◌++◌, append-nil,
  append_assoc, Bool-cases, inl, inr, get_elem?, set, some-cancel,
}
use tezcatl.Base.Sorting.{insert_by, sort_by}

module _ {κ} {B : Type κ} where
  -- two parts change places in front of a third
  pub exchange : (xs ys zs : List B) → Perm (xs ++ (ys ++ zs)) (ys ++ (xs ++ zs))
  exchange xs ys zs =
      subst (λ l. Perm l (ys ++ (xs ++ zs))) (append_assoc xs ys zs)
        (subst (λ r. Perm ((xs ++ ys) ++ zs) r) (append_assoc ys xs zs)
          (Perm.append_right zs (perm_append_comm xs ys)))

  last_apart : (xs ys zs : List B) → Perm ((xs ++ zs) ++ ys) ((xs ++ ys) ++ zs)
  last_apart xs ys zs =
      subst (λ l. Perm l ((xs ++ ys) ++ zs)) (sym (append_assoc xs zs ys))
        (subst (λ r. Perm (xs ++ (zs ++ ys)) r) (sym (append_assoc xs ys zs))
          (Perm.append_left xs (perm_append_comm zs ys)))

module _ {ℓ κ} {A : Type ℓ} {B : Type κ} (f : A → List B) where
  unfoldable pub gather : List A → List B
  gather [] = []
  gather (x ∷ xs) = f x ++ gather xs

  pub gather-append : (xs ys : List A) → gather (xs ++ ys) ≡ gather xs ++ gather ys
  unfolding gather
  gather-append [] ys = refl
  gather-append (x ∷ xs) ys =
      ap (λ r. f x ++ r) (gather-append xs ys) ∙ sym (append_assoc (f x) (gather xs) (gather ys))

  pub gather-one : (x : A) → gather (x ∷ []) ≡ f x
  unfolding gather
  gather-one x = append-nil (f x)

  gather-insert_by :
      (less : A → A → Bool) (x : A) (ys : List A)
      → Perm (gather (insert_by less x ys)) (f x ++ gather ys)
  unfolding gather insert_by
  gather-insert_by less x [] = Perm.refl (f x ++ [])
  gather-insert_by less x (y ∷ ys) = elim (Bool-cases (less y x)) [
    | inl less_y ↦ rw less_y (
        Perm.trans (Perm.append_left (f y) (gather-insert_by less x ys))
          (exchange (f y) (f x) (gather ys)))
    | inr not_less ↦ rw not_less (Perm.refl (f x ++ (f y ++ gather ys)))
  ]

  pub gather-sort_by :
      (less : A → A → Bool) (xs : List A) → Perm (gather (sort_by less xs)) (gather xs)
  unfolding gather sort_by
  gather-sort_by less [] = Perm.refl []
  gather-sort_by less (x ∷ xs) =
      Perm.trans (gather-insert_by less x (sort_by less xs))
        (Perm.append_left (f x) (gather-sort_by less xs))

  -- one element's list grows at its end
  pub gather-set :
      (xs : List A) (i : ℕ) (x x' : A) (more : List B)
      → get_elem? xs i ≡ some x
      → f x' ≡ f x ++ more
      → Perm (gather (set xs i x')) (gather xs ++ more)
  unfolding gather
  gather-set [] i x x' more h e = absurd (none-ne-some x h)
  gather-set (y ∷ ys) zero x x' more h e =
      subst (λ z. Perm (z ++ gather ys) ((f y ++ gather ys) ++ more)) (sym e)
        (subst (λ z. Perm ((f z ++ more) ++ gather ys) ((f y ++ gather ys) ++ more)) (some-cancel h)
          (last_apart (f y) (gather ys) more))
  gather-set (y ∷ ys) (suc i) x x' more h e =
      subst (λ r. Perm (f y ++ gather (set ys i x')) r) (sym (append_assoc (f y) (gather ys) more))
        (Perm.append_left (f y) (gather-set ys i x x' more h e))
