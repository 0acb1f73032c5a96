-- ===== src/Text/Space.antt =====
-- `TrimSpace` and `Fields` of bytes and strings. White space is what `unicode.IsSpace` says, in
-- UTF-8: a lead byte is never a continuation byte, so a space is found wherever its bytes stand.
pub mod Fields
use go_tumbler.Base.{
  ℕ, zero, suc, ◌-◌, Bool, true, false, not, ◌&&◌, ◌||◌, List, [], ◌∷◌, ◌++◌, map, Bytes, leb, ◌==◌,
  if◌then◌else◌,
}

-- '\t', '\n', '\v', '\f', '\r' and ' '
abbrev pub is_ascii_space : ℕ → Bool
is_ascii_space b = (leb 9 b && leb b 13) || b == 32

-- The second byte of U+0085 and U+00A0 behind 0xC2.
abbrev pub is_latin_space : ℕ → Bool
is_latin_space b = b == 0x85 || b == 0xA0

-- The three bytes of U+1680, U+2000 to U+200A, U+2028, U+2029, U+202F, U+205F and U+3000.
abbrev pub is_wide_space : ℕ → ℕ → ℕ → Bool
is_wide_space a b c =
    (a == 0xE1 && b == 0x9A && c == 0x80)
    || (a == 0xE2
        && b == 0x80
        && ((leb 0x80 c && leb c 0x8A) || c == 0xA8 || c == 0xA9 || c == 0xAF))
    || (a == 0xE2 && b == 0x81 && c == 0x9F)
    || (a == 0xE3 && b == 0x80 && c == 0x80)

-- The number of bytes of the space that stands at the front, or 0.
abbrev pub space_width : ℕ → Bytes → ℕ
space_width a [] = if is_ascii_space a then 1 else 0
space_width a (b ∷ []) =
    if is_ascii_space a then 1 else if a == 0xC2 && is_latin_space b then 2 else 0
space_width a (b ∷ c ∷ _) =
    if is_ascii_space a
    then 1
    else if a == 0xC2 && is_latin_space b
    then 2
    else if is_wide_space a b c
    then 3
    else 0

-- Each byte, and whether it belongs to a space; `left` bytes of a space are still to come.
unfoldable pub marked : ℕ → Bytes → List (ℕ × Bool)
marked left [] = []
marked zero (b ∷ s) = let w = space_width b s in (b, not (w == 0)) ∷ marked (w - 1) s
marked (suc left) (b ∷ s) = (b, true) ∷ marked left s

abbrev pub all_space : List (ℕ × Bool) → Bool
all_space [] = true
all_space ((b, space) ∷ s) = space && all_space s

unfoldable pub drop_front : List (ℕ × Bool) → List (ℕ × Bool)
drop_front [] = []
drop_front ((b, true) ∷ s) = drop_front s
drop_front ((b, false) ∷ s) = (b, false) ∷ s

unfoldable pub drop_back : List (ℕ × Bool) → Bytes
drop_back [] = []
drop_back ((b, space) ∷ s) = let rest = drop_back s in if space && all_space s then [] else b ∷ rest

unfoldable pub trim_space : Bytes → Bytes
unfolding marked drop_front drop_back
trim_space s = drop_back (drop_front (marked 0 s))

-- The current field, if it has a byte.
abbrev pub flush : Bytes → List Bytes → List Bytes
flush [] fs = fs
flush (b ∷ cur) fs = (b ∷ cur) ∷ fs

-- The fields of the bytes that are left, behind those of `cur`.
unfoldable pub fields_from : Bytes → List (ℕ × Bool) → List Bytes
fields_from cur [] = flush cur []
fields_from cur ((b, true) ∷ s) = flush cur (fields_from [] s)
fields_from cur ((b, false) ∷ s) = fields_from (cur ++ b ∷ []) s

unfoldable pub fields : Bytes → List Bytes
unfolding marked fields_from
fields s = fields_from [] (marked 0 s)
