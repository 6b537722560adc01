-- ===== src/Dampen/Identity.antt =====
-- The key under which dampen remembers a signal.
use tezcatl.Base.{
  ℕ, ◌≡◌, ◌≢◌, ◌↔◌, ap₂, List, [], ◌∷◌, ◌++◌, All, arith, Bytes, codes, is_empty, if◌then◌else◌,
}
use tezcatl.Dampen.{identity, key}
use tezcatl.Model.{Signal, text_at}

abbrev pub NulFree : Bytes → Type 0
NulFree = All (λ c. c ≢ 0)

-- A separator that does not occur in front of it can be found again.
pub split_at-nul :
    (s t x y : Bytes) → NulFree s → NulFree t → s ++ (0 ∷ x) ≡ t ++ (0 ∷ y) → (s ≡ t) × (x ≡ y)
split_at-nul [] [] x y hs ht e = ground arith
split_at-nul [] (d ∷ t) x y hs ht e = ground (arith, ht.0)
split_at-nul (c ∷ s) [] x y hs ht e = ground (arith, hs.0)
split_at-nul (c ∷ s) (d ∷ t) x y hs ht e =
    let same : c ≡ d = ground arith in
    let (front, back) = split_at-nul s t x y hs.1 ht.1 (ground arith) in (ap₂ ◌∷◌ same front, back)

-- The first text of a list that is not empty, or the last resort where all of them are.
pub data FirstNamed : List Bytes → Bytes → Bytes → Type 0 where
  here :
      (c : ℕ) (x : Bytes) (rest : List Bytes) (resort : Bytes)
      → FirstNamed ((c ∷ x) ∷ rest) resort (c ∷ x)
  later :
      (rest : List Bytes) (resort y : Bytes)
      → FirstNamed rest resort y
      → FirstNamed ([] ∷ rest) resort y
  resorted : (resort : Bytes) → FirstNamed [] resort resort

-- a text, or another one where it is empty
named_or : Bytes → Bytes → Bytes
named_or x y = if is_empty x then y else x

FirstNamed-lem :
    (template series metric summary : Bytes)
    → FirstNamed
        (template ∷ series ∷ metric ∷ [])
        summary
        (named_or (named_or (named_or template series) metric) summary)
unfolding named_or
FirstNamed-lem (c ∷ x) series metric summary = here c x (series ∷ metric ∷ []) summary
FirstNamed-lem [] (c ∷ x) metric summary = later _ _ _ (here c x (metric ∷ []) summary)
FirstNamed-lem [] [] (c ∷ x) summary = later _ _ _ (later _ _ _ (here c x [] summary))
FirstNamed-lem [] [] [] summary = later _ _ _ (later _ _ _ (later _ _ _ (resorted summary)))

module _ {F : Type 0} where
  -- the texts that can name what recurs, the most telling one first
  abbrev pub naming_texts : Signal F → List Bytes
  naming_texts s =
      text_at (codes "template") s.attributes
      ∷ text_at (codes "series") s.attributes
      ∷ text_at (codes "metric") s.attributes
      ∷ []

  identity-FirstNamed : (s : Signal F) → FirstNamed (naming_texts s) s.summary (identity s)
  unfolding identity named_or
  identity-FirstNamed s =
      FirstNamed-lem (text_at (codes "template") s.attributes)
        (text_at (codes "series") s.attributes) (text_at (codes "metric") s.attributes) s.summary

  -- What recurs in a signal is named by the first of its attributes template, series and metric that
  -- is not empty, or else by its summary; and two signals whose kinds and sources hold no NUL byte
  -- share a key exactly when their kinds, their sources and these names are the same.
  pub key-injective :
      (s t : Signal F)
      → NulFree s.kind
      → NulFree t.kind
      → NulFree s.source
      → NulFree t.source
      → (x : Bytes) × FirstNamed (naming_texts s) s.summary x
        × (y : Bytes) × FirstNamed (naming_texts t) t.summary y
        × ((key s ≡ key t) ↔ (s.kind ≡ t.kind) × (s.source ≡ t.source) × (x ≡ y))
  unfolding key
  key-injective s t sk tk ss ts = (
    identity s,
    identity-FirstNamed s,
    identity t,
    identity-FirstNamed t,
    (
      λ e.
          let (kinds, rest) = split_at-nul s.kind t.kind _ _ sk tk e in
          let (sources, names) = split_at-nul s.source t.source _ _ ss ts rest in
          (kinds, sources, names),
      λ (kinds, sources, names).
          ap₂ (λ k r. k ++ (0 ∷ r)) kinds (ap₂ (λ o n. o ++ (0 ∷ n)) sources names),
    ),
  )
