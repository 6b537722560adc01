-- ===== src/Correlate/Soundness.antt =====
-- internal/core/correlate/correlator.go: the state between two calls, and `Observe`.
use mathlib.Core.Option.{none-ne-some}
use tezcatl.Base.{
  ℕ, zero, suc, ◌-◌, ◌<◌, ◌≡◌, subst, true, false, Bool-cases, Option-cases, Option, none, some,
  is_some, List, [], ◌∷◌, ◌++◌, Bytes, bytes_eq, All, All-append, inl, inr, arith, ltb, ltb→lt,
  length, drop, length-drop, length-append, some-cancel,
}
use tezcatl.Base.Assoc.{Map, lookup, insert}
use tezcatl.Base.Ints.{pos, leb_ℤ, Time, Duration, ltb_ℤ, sub}
use tezcatl.Correlate.Flushing.{Call, observing, adding, flushing}
use tezcatl.Correlate.Intake.{intended}
use tezcatl.Correlate.State.{
  Config, PendingEvent, SourceState, EchoState, Correlator, is_change, with_pending, or_fresh,
  source, capped, within, prune_changes, or_new_echo, extended, open_echo, complete, observe,
}
use tezcatl.Model.{Observation}

All-drop {ℓ κ} : {A : Type ℓ} (P : A → Type κ) (n : ℕ) (xs : List A) → All P xs → All P (drop n xs)
All-drop P zero xs h = h
All-drop P (suc n) [] h = tt
All-drop P (suc n) (x ∷ xs) h = All-drop P n xs h.1

pub All-insert {ℓ} :
    {V : Type ℓ} (P : V → Type 0) (k : Bytes) (v : V) (m : Map Bytes V)
    → P v
    → All (λ e. P e.1) m
    → All (λ e. P e.1) (insert k v m)
unfolding insert
All-insert P k v [] p h = (p, tt)
All-insert P k v ((j, w) ∷ m) p h = elim (Bool-cases (bytes_eq.beq j k)) [
  | inl same ↦ rw same (p, h.1)
  | inr other ↦ rw other (h.0, All-insert P k v m p h.1)
]

pub All-lookup {ℓ} :
    {V : Type ℓ} (P : V → Type 0) (k : Bytes) (v : V) (m : Map Bytes V)
    → All (λ e. P e.1) m
    → lookup k m ≡ some v
    → P v
unfolding lookup
All-lookup P k v [] h e = absurd (none-ne-some v e)
All-lookup P k v ((j, w) ∷ m) h e = elim (Bool-cases (bytes_eq.beq j k)) [
  | inl same ↦ subst P (some-cancel (rw same at e)) h.0
  | inr other ↦ All-lookup P k v m h.1 (rw other at e)
]

module _ {F : Type 0} where
  abbrev pub Declared : Observation F → Type 0
  Declared o = is_some o.change ≡ true

  abbrev pub PendingOk : Option (PendingEvent F) → Type 0
  PendingOk none = Unit
  PendingOk (some p) = 0 < length p.signals

  -- the changes of a source have their records, and a pending event has a signal
  pub record SoundSource (s : SourceState F) : Type 0 where
    pub declared : All Declared s.changes
    pub pending : PendingOk s.pending

  -- an echo has a change, and no signal that a person asked for
  pub record SoundEcho (e : EchoState F) : Type 0 where
    pub declared : All Declared e.changes
    pub some_change : 0 < length e.changes
    pub unasked : All (λ p. intended p.1.signal ≡ false) e.signals

  pub record Sound (c : Correlator F) : Type 0 where
    pub sources : All (λ p. SoundSource p.1) c.sources
    pub echoes : All (λ p. SoundEcho p.1) c.echoes

  capped-Declared : (os : List (Observation F)) → All Declared os → All Declared (capped os)
  unfolding capped
  capped-Declared os h = elim (Bool-cases (ltb 64 (length os))) [
    | inl over ↦ rw over (All-drop Declared (length os - 64) os h)
    | inr fits ↦ rw fits h
  ]

  grown : (os : List (Observation F)) (o : Observation F) → 0 < length (os ++ (o ∷ []))
  grown os o = rw (length-append os (o ∷ [])) (omega arith)

  length-capped : (os : List (Observation F)) → 0 < length os → 0 < length (capped os)
  unfolding capped
  length-capped os h = elim (Bool-cases (ltb 64 (length os))) [
    | inl over ↦
        rw over (ground (arith, length-drop (length os - 64) os, ltb→lt 64 (length os) over))
    | inr fits ↦ rw fits h
  ]

  within-Declared :
      (w : Time) (h : Duration) (os : List (Observation F))
      → All Declared os
      → All Declared (within w h os)
  unfolding within
  within-Declared w h [] d = tt
  within-Declared w h (o ∷ os) d = elim (Bool-cases (ltb_ℤ h (sub w o.timestamp))) [
    | inl old ↦ rw old (within-Declared w h os d.1)
    | inr recent ↦ rw recent d
  ]

  pub prune_changes-Sound :
      (w : Time) (h : Duration) (s : SourceState F)
      → SoundSource s
      → SoundSource (prune_changes w h s)
  unfolding prune_changes
  prune_changes-Sound w h s k = record {
    declared = capped-Declared (within w h s.changes) (within-Declared w h s.changes k.declared);
    pending = k.pending;
  }

  pub source-Sound : (name : Bytes) (c : Correlator F) → Sound c → SoundSource (source name c)
  unfolding source or_fresh
  source-Sound name c k = elim (Option-cases (lookup name c.sources)) [
    | inl absent ↦ rw absent record { declared = tt; pending = tt }
    | inr (s, found) ↦ rw found (All-lookup SoundSource name s c.sources k.sources found)
  ]

  pub with_pending-Sound :
      (p : Option (PendingEvent F)) (s : SourceState F)
      → SoundSource s
      → PendingOk p
      → SoundSource (with_pending p s)
  with_pending-Sound p s k h = record { declared = k.declared; pending = h }

  complete-Ok :
      (c : Config) (o : Observation F) (p : Option (PendingEvent F))
      → PendingOk p
      → PendingOk (complete c o p)
  unfolding complete
  complete-Ok c o none k = tt
  complete-Ok c o (some p) k = elim (Bool-cases (ltb_ℤ (pos (length p.after)) c.context_after)) [
    | inl room ↦ rw room k
    | inr full ↦ rw full k
  ]

  or_new_echo-Declared :
      (o : Observation F) (name : Bytes) (m : Map Bytes (EchoState F))
      → All (λ p. SoundEcho p.1) m
      → let e = or_new_echo o (lookup name m) in
        All Declared e.changes × All (λ p. intended p.1.signal ≡ false) e.signals
  unfolding or_new_echo
  or_new_echo-Declared o name m h = elim (Option-cases (lookup name m)) [
    | inl absent ↦ rw absent (tt, tt)
    | inr (e, found) ↦
        let k = All-lookup SoundEcho name e m h found in rw found (k.declared, k.unasked)
  ]

  extended-Sound :
      (now : Time) (o : Observation F) (m : Map Bytes (EchoState F))
      → Declared o
      → All (λ p. SoundEcho p.1) m
      → SoundEcho (extended now o (or_new_echo o (lookup o.source m)))
  unfolding extended
  extended-Sound now o m d h =
      let e = or_new_echo o (lookup o.source m) in
      let (declared, unasked) = or_new_echo-Declared o o.source m h in
      record {
        declared =
            capped-Declared (e.changes ++ (o ∷ []))
              (All-append Declared e.changes (o ∷ []) declared (d, tt));
        some_change = length-capped (e.changes ++ (o ∷ [])) (grown e.changes o);
        unasked = unasked;
      }

  open_echo-Sound :
      (c : Config) (now : Time) (o : Observation F) (m : Map Bytes (EchoState F))
      → Declared o
      → All (λ p. SoundEcho p.1) m
      → All (λ p. SoundEcho p.1) (open_echo c now o m)
  unfolding open_echo
  open_echo-Sound c now o m d h = elim (Bool-cases (leb_ℤ c.echo_window (pos 0))) [
    | inl off ↦ rw off h
    | inr on ↦
        rw (on, d)
          (All-insert SoundEcho o.source (extended now o (or_new_echo o (lookup o.source m))) m
            (extended-Sound now o m d h) h)
  ]

  -- what a caller owes: a change comes with its record
  abbrev pub WellFormed : Call F → Type 0
  WellFormed (observing now o) = is_change o.modality ≡ true → Declared o
  WellFormed (adding now o signals) = Unit
  WellFormed (flushing ids force now) = Unit

  pub observe-Sound :
      (now : Time) (o : Observation F) (c : Correlator F)
      → WellFormed (observing now o)
      → Sound c
      → Sound (observe now o c)
  unfolding observe
  observe-Sound now o c w k =
      let before_it = source-Sound o.source c k in
      elim (Bool-cases (is_change o.modality)) [
        | inl changing ↦ rw changing record {
          sources =
              All-insert SoundSource o.source _ c.sources
                (with_pending-Sound _ _
                  (prune_changes-Sound _ _ _ record {
                    declared = All-append Declared _ (o ∷ []) before_it.declared (w changing, tt);
                    pending = before_it.pending;
                  })
                  (complete-Ok c.config o _ before_it.pending))
                k.sources;
          echoes = open_echo-Sound c.config now o c.echoes (w changing) k.echoes;
        }
        | inr not_changing ↦ rw not_changing record {
          sources =
              All-insert SoundSource o.source _ c.sources
                (record {
                  declared = before_it.declared;
                  pending = complete-Ok c.config o _ before_it.pending;
                })
                k.sources;
          echoes = k.echoes;
        }
      ]
