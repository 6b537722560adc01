-- ===== src/Detect/Room/Oldest.antt =====
-- internal/core/detect: what `makeRoom` drops.
use tezcatl.Base.{
  ℕ, zero, suc, ◌≤◌, ◌<◌, ◌≡◌, refl, sym, subst, ap, ◌∙◌, ◌⊎◌, inl, inr, Bool, true, false,
  Bool-cases, some, [], ◌∷◌, Bytes, bytes_eq, same_bytes, same_bytes_iff, length, ltb, ltb→lt,
  is_empty, All, either_branch, if◌then◌else◌, ◌||◌, arith,
}
use mathlib.Core.Option.{none-ne-some}
use tezcatl.Base.Assoc.{
  Map, lookup, delete, Distinct, length-delete-le, lookup-delete_ne, lookup-delete_self,
  delete-Distinct,
}
use tezcatl.Base.Ints.{ℤ, pos, negsuc, pos_part, leb_ℤ, ltb_ℤ, Time, before}
use tezcatl.Detect.Room.{oldest, evict, make_room}

module _ {ℓ} {V : Type ℓ} where
  pub delete_shorter :
      (k : Bytes) (v : V) (m : Map Bytes V) → lookup k m ≡ some v → length (delete k m) < length m
  unfolding lookup delete
  delete_shorter k v [] h = ground arith
  delete_shorter k v ((j, w) ∷ m) h = ground (arith, length-delete-le k m, delete_shorter k v m)

  lookup-delete-some :
      (k j : Bytes) (v : V) (m : Map Bytes V) → lookup j (delete k m) ≡ some v → lookup j m ≡ some v
  lookup-delete-some k j v m h = elim (Bool-cases (same_bytes k j)) [
    | inl same ↦
        let e : k ≡ j = (same_bytes_iff k j).0 same in
        absurd (
          none-ne-some v
            (sym (lookup-delete_self k m) ∙ subst (λ i. lookup i (delete k m) ≡ some v) (sym e) h))
    | inr differ ↦ sym (lookup-delete_ne k j m differ) ∙ h
  ]

module _ {V : Type 0} (seen : V → Time) where
  lookup_behind :
      (id k : Bytes) (s : V) (m : Map Bytes V)
      → (id ≡ k) ⊎ ((u : V) × (lookup id m ≡ some u))
      → (u : V) × (lookup id ((k, s) ∷ m) ≡ some u)
  unfolding lookup
  lookup_behind id k s m (inl e) = (s, rw ((same_bytes_iff k id).1 (sym e)) refl)
  lookup_behind id k s m (inr (u, h)) = elim (Bool-cases (same_bytes k id)) [
    | inl same ↦ (s, rw same refl)
    | inr differ ↦ (u, rw differ h)
  ]

  oldest_step :
      (found : Bytes × Time) (k : Bytes) (s : V) (m : Map Bytes V) (b : Bool)
      → (is_empty found.0 || before (seen s) found.1) ≡ b
      → oldest seen found ((k, s) ∷ m) ≡ oldest seen (if b then (k, seen s) else found) m
  unfolding oldest
  oldest_step found k s m b h = ap (λ c. oldest seen (if c then (k, seen s) else found) m) h

  -- the entry that the loop starts from, or one of the map
  oldest_entry :
      (found : Bytes × Time) (m : Map Bytes V)
      → ((oldest seen found m).0 ≡ found.0)
        ⊎ ((s : V) × (lookup (oldest seen found m).0 m ≡ some s))
  unfolding oldest
  oldest_entry found [] = inl refl
  oldest_entry found ((k, s) ∷ m) =
      elim (Bool-cases (is_empty found.0 || before (seen s) found.1)) [
        | inl older ↦
            rw (oldest_step found k s m true older)
              (inr (lookup_behind (oldest seen (k, seen s) m).0 k s m (oldest_entry (k, seen s) m)))
        | inr newer ↦ rw (oldest_step found k s m false newer) (elim (oldest_entry found m) [
          | inl here ↦ inl here
          | inr there ↦ inr (lookup_behind (oldest seen found m).0 k s m (inr there))
        ])
      ]

  -- a map that is not empty has the entry that is dropped
  pub oldest_found :
      (k : Bytes) (s : V) (m : Map Bytes V)
      → (u : V) × (lookup (oldest seen ([], 0) ((k, s) ∷ m)).0 ((k, s) ∷ m) ≡ some u)
  unfolding oldest
  oldest_found k s m =
      lookup_behind (oldest seen (k, seen s) m).0 k s m (oldest_entry (k, seen s) m)

  pub evict-lt :
      (fuel cap : ℕ) (m : Map Bytes V)
      → length m ≤ fuel
      → 0 < cap
      → length (evict seen fuel cap m) < cap
  unfolding evict
  evict-lt zero cap [] fits h = h
  evict-lt zero cap ((k, s) ∷ m) fits h = absurd (omega arith)
  evict-lt (suc fuel) cap [] fits h = elim (Bool-cases (ltb 0 cap)) [
    | inl below ↦ rw below (ltb→lt 0 cap below)
    | inr full ↦ absurd (ground arith)
  ]
  evict-lt (suc fuel) cap ((k, s) ∷ m) fits h =
      let (u, there) = oldest_found k s m in
      let id = (oldest seen ([], 0) ((k, s) ∷ m)).0 in
      let less : length (delete id ((k, s) ∷ m)) < suc (length m) =
        delete_shorter id u ((k, s) ∷ m) there in
      elim (Bool-cases (ltb (suc (length m)) cap)) [
        | inl below ↦ rw below (ltb→lt (suc (length m)) cap below)
        | inr full ↦ rw full (evict-lt fuel cap (delete id ((k, s) ∷ m)) (omega arith) h)
      ]

  evict-Distinct : (fuel cap : ℕ) (m : Map Bytes V) → Distinct m → Distinct (evict seen fuel cap m)
  unfolding evict
  evict-Distinct zero cap m d = d
  evict-Distinct (suc fuel) cap m d = elim (Bool-cases (ltb (length m) cap)) [
    | inl below ↦ rw below d
    | inr full ↦ rw full (
        evict-Distinct fuel cap (delete (oldest seen ([], 0) m).0 m)
          (delete-Distinct (oldest seen ([], 0) m).0 m d))
  ]

  pub make_room-Distinct :
      (cap : ℤ) (m : Map Bytes V) → Distinct m → Distinct (make_room seen cap m)
  unfolding make_room
  make_room-Distinct cap m d = elim (Bool-cases (leb_ℤ cap (pos 0) || ltb_ℤ (pos (length m)) cap)) [
    | inl room ↦ rw room d
    | inr full ↦ rw full (evict-Distinct (length m) (pos_part cap) m d)
  ]

  -- room for one more
  pub make_room-lt :
      (cap : ℤ) (m : Map Bytes V) → 0 < pos_part cap → length (make_room seen cap m) < pos_part cap
  unfolding make_room
  make_room-lt (pos cap) m h =
      elim (Bool-cases (leb_ℤ (pos cap) (pos 0) || ltb_ℤ (pos (length m)) (pos cap))) [
        | inl room ↦ rw room (ground arith)
        | inr full ↦ rw full (evict-lt (length m) cap m (omega arith) h)
      ]
  make_room-lt (negsuc n) m h = absurd (omega arith)

module _ {ℓ} {V : Type ℓ} (P : V → Type 0) where
  All-delete : (k : Bytes) (m : Map Bytes V) → All (λ e. P e.1) m → All (λ e. P e.1) (delete k m)
  unfolding delete
  All-delete k [] h = tt
  All-delete k ((j, w) ∷ m) h =
      either_branch (All (λ e. P e.1)) (same_bytes j k) (All-delete k m h.1)
        (h.0, All-delete k m h.1)

module _ {V : Type 0} (seen : V → Time) (P : V → Type 0) where
  All-evict :
      (fuel cap : ℕ) (m : Map Bytes V)
      → All (λ e. P e.1) m
      → All (λ e. P e.1) (evict seen fuel cap m)
  unfolding evict
  All-evict zero cap m h = h
  All-evict (suc fuel) cap m h = either_branch (All (λ e. P e.1)) (ltb (length m) cap) h (
      All-evict fuel cap (delete (oldest seen ([], 0) m).0 m)
        (All-delete P (oldest seen ([], 0) m).0 m h))

  pub All-make_room :
      (cap : ℤ) (m : Map Bytes V) → All (λ e. P e.1) m → All (λ e. P e.1) (make_room seen cap m)
  unfolding make_room
  All-make_room cap m h =
      either_branch (All (λ e. P e.1)) (leb_ℤ cap (pos 0) || ltb_ℤ (pos (length m)) cap) h
        (All-evict (length m) (pos_part cap) m h)
