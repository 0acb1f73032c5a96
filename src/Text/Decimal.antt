-- ===== src/Text/Decimal.antt =====
-- `Atoi` on a text without a sign, `FieldsFunc` and `Split`.
pub mod Parts
use go_tumbler.Base.{
  ℕ, ◌+◌, ◌-◌, ◌*◌, ◌^◌, Bool, true, false, not, ◌&&◌, ◌||◌, Option, none, some, List, [], ◌∷◌,
  ◌++◌, map, Bytes, ltb, leb, ◌==◌, if◌then◌else◌,
}
use go_tumbler.Text.Space.{flush, fields_from}

abbrev pub is_digit : ℕ → Bool
is_digit c = leb b'0' c && leb c b'9'

abbrev pub all_digits : Bytes → Bool
all_digits [] = true
all_digits (c ∷ s) = is_digit c && all_digits s

-- The number that digits spell behind `n`.
abbrev pub spelled : ℕ → Bytes → ℕ
spelled n [] = n
spelled n (c ∷ s) = spelled (n * 10 + (c - b'0')) s

-- The largest `int` of 64 bits.
abbrev pub max_int : ℕ
max_int = 2 ^ 63 - 1

unfoldable pub atoi : Bytes → Option ℕ
atoi [] = none
atoi (c ∷ s) =
    if all_digits (c ∷ s) && leb (spelled 0 (c ∷ s)) max_int then some (spelled 0 (c ∷ s)) else none

abbrev pub tagged : (ℕ → Bool) → Bytes → List (ℕ × Bool)
tagged f [] = []
tagged f (b ∷ s) = (b, f b) ∷ tagged f s

-- The maximal runs of bytes on which the test fails.
unfoldable pub fields_func : (ℕ → Bool) → Bytes → List Bytes
unfolding fields_from
fields_func f s = fields_from [] (tagged f s)

-- The parts between the separators, the first behind `cur`.
unfoldable pub split_from : ℕ → Bytes → Bytes → List Bytes
split_from sep cur [] = cur ∷ []
split_from sep cur (c ∷ s) =
    let cut = split_from sep [] s in
    let longer = split_from sep (cur ++ c ∷ []) s in if c == sep then cur ∷ cut else longer

unfoldable pub split : Bytes → ℕ → List Bytes
unfolding split_from
split s sep = split_from sep [] s
