-- ===== src/Correlate/Adding.antt =====
-- internal/core/correlate/correlator.go: `Add` and the state between two calls.
use tezcatl.Base.{
  ◌<◌, ◌≡◌, refl, Bool, true, false, Bool-cases, Option, none, some, List, [], ◌∷◌, Bytes, bytes_eq,
  same_bytes, All, inl, inr, arith, if◌then◌else◌, length, keep, ◌==◌,
}
use tezcatl.Base.Assoc.{Map, lookup, insert}
use tezcatl.Base.Ints.{pos, leb_ℤ, Time, ltb_ℤ, sub, before}
use tezcatl.Correlate.Intake.{
  intended, merged, merge, merge_all, fold_signal, fold_all, into_pending, add_found, add, echo_for,
  wake, unless_subject, later_of,
}
use tezcatl.Correlate.State.{Config, Aggregated, SourceState, EchoState, Correlator, source}
use tezcatl.Model.{Floats, Observation, Signal}
use tezcatl.Correlate.Soundness.{
  SoundSource, SoundEcho, Sound, All-insert, All-lookup, prune_changes-Sound, source-Sound,
  with_pending-Sound,
}

if-both {ℓ κ} :
    {A : Type ℓ} (P : A → Type κ) (b : Bool) {x y : A} → P x → P y → P (if b then x else y)
if-both P true p q = p
if-both P false p q = q

length-insert-pos {ℓ} :
    {V : Type ℓ} (k : Bytes) (v : V) (m : Map Bytes V) → 0 < length (insert k v m)
unfolding insert
length-insert-pos k v [] = omega arith
length-insert-pos k v ((j, w) ∷ m) = elim (Bool-cases (bytes_eq.beq j k)) [
  | inl same ↦ rw same (omega arith)
  | inr other ↦ rw other (omega arith)
]

module _ {F : Type 0} where
  unfoldable WakeOk : Option (Bytes × EchoState F) → Type 0
  WakeOk none = Unit
  WakeOk (some (k, e)) = SoundEcho e

  later_of-Ok :
      (k : Bytes) (e : EchoState F) (found : Option (Bytes × EchoState F))
      → SoundEcho e
      → WakeOk found
      → WakeOk (some (later_of k e found))
  unfolding later_of WakeOk
  later_of-Ok k e none h f = h
  later_of-Ok k e (some (j, best)) h f =
      elim (Bool-cases (before best.last_change_at e.last_change_at)) [
        | inl newer ↦ rw newer h
        | inr older ↦ rw older f
      ]

  wake-Ok :
      (c : Config) (name : Bytes) (at : Time) (m : Map Bytes (EchoState F))
      (found : Option (Bytes × EchoState F))
      → All (λ p. SoundEcho p.1) m
      → WakeOk found
      → WakeOk (wake c name at m found)
  unfolding wake
  wake-Ok c name at [] found h f = f
  wake-Ok c name at ((k, e) ∷ m) found h f = wake-Ok c name at m _ h.1 (
      if-both WakeOk (same_bytes k name) f (
        if-both WakeOk (ltb_ℤ (sub at e.last_change_at) (pos 0)) f (
          if-both WakeOk (ltb_ℤ c.echo_window (sub at e.last_change_at)) f
            (later_of-Ok k e found h.0 f))))

  unless_subject-Ok :
      (c : Config) (name : Bytes) (at : Time) (m : Map Bytes (EchoState F))
      (own : List (Observation F))
      → All (λ p. SoundEcho p.1) m
      → WakeOk (unless_subject c name at m own)
  unfolding unless_subject WakeOk
  unless_subject-Ok c name at m (o ∷ own) h = tt
  unless_subject-Ok c name at m [] h = wake-Ok c name at m none h tt

  echo_for-Ok :
      (c : Correlator F) (s : SourceState F) (name : Bytes) (at : Time)
      → Sound c
      → SoundSource s
      → SoundSource (echo_for c s name at).0 × WakeOk (echo_for c s name at).1
  unfolding echo_for WakeOk
  echo_for-Ok c s name at k h = elim (Bool-cases (leb_ℤ c.config.echo_window (pos 0))) [
    | inl off ↦ rw off (h, tt)
    | inr on ↦ elim (Bool-cases (length c.echoes == 0)) [
      | inl none_open ↦ rw (on, none_open) (h, tt)
      | inr some_open ↦
          rw (on, some_open)
            (prune_changes-Sound _ _ s h, unless_subject-Ok c.config name at c.echoes _ k.echoes)
    ]
  ]

module _ {F : Type 0} ⦃fl : Floats F⦄ where
  merged-unasked :
      (s : Signal F) (o : Option (Aggregated F))
      → intended s ≡ false
      → ((a : Aggregated F) → o ≡ some a → intended a.signal ≡ false)
      → intended (merged s o).signal ≡ false
  unfolding merged
  merged-unasked s none h f = h
  merged-unasked s (some a) h f = elim (Bool-cases (fl.lt a.signal.score s.score)) [
    | inl higher ↦ rw higher h
    | inr lower ↦ rw lower (f a refl)
  ]

  merge-unasked :
      (key : Bytes) (s : Signal F) (m : Map Bytes (Aggregated F))
      → intended s ≡ false
      → All (λ p. intended p.1.signal ≡ false) m
      → All (λ p. intended p.1.signal ≡ false) (merge key s m)
  unfolding merge
  merge-unasked key s m h k =
      All-insert (λ a. intended a.signal ≡ false) key (merged s (lookup key m)) m
        (merged-unasked s (lookup key m) h
          (λ a e. All-lookup (λ a. intended a.signal ≡ false) key a m k e))
        k

  fold_all-Sound :
      (name : Bytes) (signals : List (Signal F)) (e : EchoState F)
      → SoundEcho e
      → SoundEcho (fold_all name signals e)
  unfolding fold_all fold_signal
  fold_all-Sound name [] e h = h
  fold_all-Sound name (s ∷ rest) e h = elim (Bool-cases (intended s)) [
    | inl asked ↦ rw asked (fold_all-Sound name rest e h)
    | inr unasked ↦ rw unasked (
        fold_all-Sound name rest _ record {
          declared = h.declared;
          some_change = h.some_change;
          unasked = merge-unasked _ s e.signals unasked h.unasked;
        })
  ]

  length-merge_all :
      (signals : List (Signal F)) (m : Map Bytes (Aggregated F))
      → 0 < length m
      → 0 < length (merge_all signals m)
  unfolding merge_all merge
  length-merge_all [] m h = h
  length-merge_all (s ∷ rest) m h = length-merge_all rest _ (length-insert-pos _ _ m)

  into_pending-Sound :
      (c : Config) (now : Time) (o : Observation F) (signals : List (Signal F)) (s : SourceState F)
      → SoundSource s
      → SoundSource (into_pending c now o signals s)
  unfolding into_pending merge_all merge
  into_pending-Sound c now o [] s h = h
  into_pending-Sound c now o (first ∷ rest) s h =
      with_pending-Sound _ s h (length-merge_all rest _ (length-insert-pos _ _ _))

  add_found-Sound :
      (now : Time) (o : Observation F) (signals : List (Signal F)) (c : Correlator F)
      (s : SourceState F) (found : Option (Bytes × EchoState F))
      → Sound c
      → SoundSource s
      → WakeOk found
      → Sound (add_found now o signals c s found)
  unfolding add_found WakeOk
  add_found-Sound now o signals c s none k h f = record {
    sources =
        All-insert SoundSource o.source _ c.sources (into_pending-Sound c.config now o signals s h)
          k.sources;
    echoes = k.echoes;
  }
  add_found-Sound now o signals c s (some (j, e)) k h f = record {
    sources =
        All-insert SoundSource o.source _ c.sources
          (into_pending-Sound c.config now o (keep intended signals) s h) k.sources;
    echoes = All-insert SoundEcho j _ c.echoes (fold_all-Sound o.source signals e f) k.echoes;
  }

  pub add-Sound :
      (now : Time) (o : Observation F) (signals : List (Signal F)) (c : Correlator F)
      → Sound c
      → Sound (add now o signals c)
  unfolding add
  add-Sound now o [] c k = k
  add-Sound now o (first ∷ rest) c k =
      let (h, f) =
        echo_for-Ok c (source o.source c) o.source first.timestamp k (source-Sound o.source c k) in
      add_found-Sound now o (first ∷ rest) c _ _ k h f
