-- ===== src/Base/Spaces.antt =====
-- Go's `unicode.IsSpace` on UTF-8, `strings.Fields`, `strings.TrimSpace` and `strings.ReplaceAll`.
--
-- The lead byte of a character is never read as a later byte of another, so that a space of several
-- bytes is found wherever its bytes stand.
use tezcatl.Base.{
  ℕ, zero, Bool, true, false, suc, ◌-◌, List, [], ◌∷◌, ◌++◌, Bytes, is_empty, length, leb, ◌==◌,
  ◌&&◌, ◌||◌, if◌then◌else◌,
}

-- the number of bytes of the white space that a text starts with, 0 where it starts with none
unfoldable pub space_width : Bytes → ℕ
space_width [] = 0
space_width (a ∷ []) = if (leb 9 a && leb a 13) || (a == 32) then 1 else 0
space_width (a ∷ b ∷ []) =
    if (leb 9 a && leb a 13) || (a == 32)
    then 1
    else (if (a == 0xc2) && ((b == 0x85) || (b == 0xa0)) then 2 else 0)
space_width (a ∷ b ∷ c ∷ s) =
    if (leb 9 a && leb a 13) || (a == 32)
    then 1
    else (if (a == 0xc2) && ((b == 0x85) || (b == 0xa0))
        then 2
        else (if ((a == 0xe1) && (b == 0x9a) && (c == 0x80))
              || ((a == 0xe2)
                  && (b == 0x80)
                  && ((leb 0x80 c && leb c 0x8a) || (c == 0xa8) || (c == 0xa9) || (c == 0xaf)))
              || ((a == 0xe2) && (b == 0x81) && (c == 0x9f))
              || ((a == 0xe3) && (b == 0x80) && (c == 0x80))
            then 3
            else 0))

-- a finished field, if there is one, before the others
unfoldable pub emit_field : Bytes → List Bytes → List Bytes
emit_field field rest = if is_empty field then rest else field ∷ rest

-- the fields from here on, inside the last `skip` bytes of a space or behind `field`
unfoldable pub fields_from : ℕ → Bytes → Bytes → List Bytes
unfolding space_width emit_field
fields_from skip field [] = emit_field field []
fields_from (suc skip) field (c ∷ s) = fields_from skip field s
fields_from zero field (c ∷ s) =
    let width = space_width (c ∷ s) in
    let inside = fields_from zero (field ++ c ∷ []) s in
    let behind = fields_from (width - 1) [] s in
    if width == 0 then inside else emit_field field behind

-- `strings.Fields`
unfoldable pub fields : Bytes → List Bytes
unfolding fields_from
fields s = fields_from 0 [] s

-- the text behind its first white space, inside the last `skip` bytes of a space
unfoldable pub trimmed_left : ℕ → Bytes → Bytes
unfolding space_width
trimmed_left skip [] = []
trimmed_left (suc skip) (c ∷ s) = trimmed_left skip s
trimmed_left zero (c ∷ s) =
    let width = space_width (c ∷ s) in
    let behind = trimmed_left (width - 1) s in if width == 0 then c ∷ s else behind

-- a byte of a space, which stays where something is left behind it
abbrev pub unless_last : ℕ → Bytes → Bytes
unless_last c [] = []
unless_last c (d ∷ rest) = c ∷ d ∷ rest

unfoldable pub trimmed_right : ℕ → Bytes → Bytes
unfolding space_width
trimmed_right skip [] = []
trimmed_right (suc skip) (c ∷ s) = unless_last c (trimmed_right skip s)
trimmed_right zero (c ∷ s) =
    let width = space_width (c ∷ s) in
    let inside = trimmed_right zero s in
    let behind = trimmed_right (width - 1) s in
    if width == 0 then c ∷ inside else unless_last c behind

-- `strings.TrimSpace`
unfoldable pub trim_space : Bytes → Bytes
unfolding trimmed_left trimmed_right
trim_space s = trimmed_right 0 (trimmed_left 0 s)

-- `strings.HasPrefix(s, p)`
unfoldable pub has_prefix : Bytes → Bytes → Bool
has_prefix [] s = true
has_prefix (c ∷ p) [] = false
has_prefix (c ∷ p) (d ∷ s) = (c == d) && has_prefix p s

-- every occurrence of a text that is not empty, from the left, replaced
unfoldable pub replaced : ℕ → Bytes → Bytes → Bytes → Bytes
unfolding has_prefix
replaced skip old new [] = []
replaced (suc skip) old new (c ∷ s) = replaced skip old new s
replaced zero old new (c ∷ s) =
    let on = replaced zero old new s in
    let behind = replaced (length old - 1) old new s in
    if has_prefix old (c ∷ s) then new ++ behind else c ∷ on

-- a text before every character and at the end, of UTF-8 that is valid
unfoldable pub interleaved : Bytes → Bytes → Bytes
interleaved new [] = new
interleaved new (c ∷ s) =
    let rest = interleaved new s in if leb 0x80 c && leb c 0xbf then c ∷ rest else new ++ c ∷ rest

-- `strings.ReplaceAll`
unfoldable pub replace_all : Bytes → Bytes → Bytes → Bytes
unfolding replaced interleaved
replace_all old new s = if is_empty old then interleaved new s else replaced 0 old new s
