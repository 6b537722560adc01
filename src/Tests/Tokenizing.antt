-- ===== src/Tests/Tokenizing.antt =====
-- Tests of `tokenize` in internal/core/drain/drain.go.
use tezcatl.Base.{◌≡◌, refl, [], ◌∷◌, codes}
use tezcatl.Drain.Miner.{tokenize}

-- the delimiters become spaces, and a line past the cap ends with the marker
delimited_line :
    tokenize (codes "=" ∷ []) 3 (codes " a=1  b=2 ")
    ≡ (codes "a" ∷ codes "1" ∷ codes "<TRUNCATED>" ∷ [])
unfolding tokenize
delimited_line = refl

-- an empty delimiter sets every character apart
empty_delimiter : tokenize ([] ∷ []) 9 (codes "ab") ≡ (codes "a" ∷ codes "b" ∷ [])
unfolding tokenize
empty_delimiter = refl

blank_line : tokenize [] 9 (codes "   ") ≡ []
unfolding tokenize
blank_line = refl
