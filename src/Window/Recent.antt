-- ===== src/Window/Recent.antt =====
-- internal/core/window/ring.go: `Last` after any sequence of `Add`.
use tezcatl.Base.{
  ℕ, zero, suc, ◌+◌, ◌-◌, min, max, ◌≡◌, refl, ◌∙◌, ap, List, [], ◌∷◌, ◌++◌, append_assoc,
  append-nil, arith, Bool-cases, inl, inr, length, drop, length-set, length-replicate,
  if◌then◌else◌,
}
use tezcatl.Base.Cyclic.{Holds, Holds-replicate, Holds-set, cells-Holds, cells}
use tezcatl.Base.Ints.{ℤ, pos, negsuc, pos_part, ltb_ℤ, leb_ℤ}
use tezcatl.Model.{Observation, zero_observation}
use tezcatl.Window.{Ring, new_ring, add, last, add_all}

-- the bound that `Last` puts on its argument
bounded_lem :
    {A : Type 0} (size : ℕ) (n : ℤ) (f : ℕ → List A)
    → f 0 ≡ []
    → (let n' = if ltb_ℤ (pos size) n then pos size else n in
        if leb_ℤ n' (pos 0) then [] else f (pos_part n'))
      ≡ f (min (pos_part n) size)
bounded_lem size (negsuc k) f e = ground (arith)
bounded_lem zero (pos k) f e = ground (arith)
bounded_lem (suc s) (pos k) f e = ground (arith)

module _ {F : Type 0} where
  -- The ring stands for the observations added so far, oldest first.
  abbrev pub StandsFor : Ring F → List (Observation F) → Type 0
  StandsFor r os = Holds zero_observation r.buf r.next r.full os

  pub new_ring-StandsFor : (capacity : ℤ) → StandsFor (new_ring capacity) []
  unfolding new_ring
  new_ring-StandsFor capacity =
      Holds-replicate zero_observation (max 1 (pos_part capacity)) (omega arith)

  pub add-StandsFor :
      {r : Ring F} {os : List (Observation F)} (o : Observation F)
      → StandsFor r os
      → StandsFor (add r o) (os ++ o ∷ [])
  unfolding add
  add-StandsFor o h = Holds-set zero_observation o h

  pub length-add : (r : Ring F) (o : Observation F) → length (add r o).buf ≡ length r.buf
  unfolding add
  length-add r o = length-set r.buf r.next o

  pub add_all-StandsFor :
      (os : List (Observation F)) {r : Ring F} {old : List (Observation F)}
      → StandsFor r old
      → StandsFor (add_all r os) (old ++ os)
  add_all-StandsFor [] {old} h = rw append-nil h
  add_all-StandsFor (o ∷ os) {r} {old} h =
      rw (← append_assoc old (o ∷ []) os) (add_all-StandsFor os (add-StandsFor o h))

  pub length-add_all :
      (os : List (Observation F)) (r : Ring F) → length (add_all r os).buf ≡ length r.buf
  length-add_all [] r = refl
  length-add_all (o ∷ os) r = length-add_all os (add r o) ∙ length-add r o

  size_lem :
      {r : Ring F} {os : List (Observation F)}
      → StandsFor r os
      → (if r.full then length r.buf else r.next) ≡ min (length os) (length r.buf)
  size_lem {r} {os} h = elim (Bool-cases r.full) [
    | inl full ↦ rw full (omega (arith, h.filled full))
    | inr partial ↦ rw partial (omega (arith, h.partial partial))
  ]

  -- `Last n` is the end of what the ring stands for.
  pub last-StandsFor :
      {r : Ring F} {os : List (Observation F)} (n : ℤ)
      → StandsFor r os
      → last r n ≡ drop (length os - min (pos_part n) (length r.buf)) os
  unfolding last
  last-StandsFor {r} {os} n h =
      bounded_lem (if r.full then length r.buf else r.next) n
        (λ k. cells zero_observation r.buf r.next k k 0) refl
      ∙ (rw (size_lem h) read)
    where
      m : ℕ
      m = min (pos_part n) (min (length os) (length r.buf))

      read :
          cells zero_observation r.buf r.next m m 0
          ≡ drop (length os - min (pos_part n) (length r.buf)) os
      read =
          let e : length os + 0 - m ≡ length os - min (pos_part n) (length r.buf) = omega arith in
          cells-Holds zero_observation m m 0 h (omega arith) (omega arith) (omega arith)
          ∙ ap (λ k. drop k os) e

  -- A ring made by `NewRing` holds exactly the latest observations: after any sequence of `Add`,
  -- `Last n` returns the last `min n capacity` of them, oldest first (all, if fewer were added), where
  -- a capacity below 1 counts as 1 and a negative `n` as 0.
  pub last-add_all :
      (capacity n : ℤ) (os : List (Observation F))
      → last (add_all (new_ring capacity) os) n
        ≡ drop (length os - min (pos_part n) (max 1 (pos_part capacity))) os
  unfolding new_ring
  last-add_all capacity n os =
      last-StandsFor n (add_all-StandsFor os (new_ring-StandsFor capacity))
      ∙ ap (λ c. drop (length os - min (pos_part n) c) os)
          (length-add_all os (new_ring capacity) ∙ length-new_ring)
    where
      length-new_ring : length (new_ring {F = F} capacity).buf ≡ max 1 (pos_part capacity)
      length-new_ring = length-replicate (max 1 (pos_part capacity)) zero_observation
