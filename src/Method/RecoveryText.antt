-- ===== src/Method/RecoveryText.antt =====
-- recovery.go: a recovery code as text. A string is the list of its code points; the grouping, which
-- counts bytes, is used on ASCII alone. encoding/base32 is a parameter.
use go_tumbler.Base.{
  ℕ, ◌+◌, ◌%◌, ◌-◌, ◌≤◌, ◌<◌, ◌≡◌, refl, ap, ◌∙◌, false, ◌&&◌, ◌||◌, Option, none, some, [], ◌∷◌,
  Bytes, IsByte, All, arith, length, ltb, leb, ◌==◌, if◌then◌else◌, Bool-cases, inl, inr, ==_refl,
  ◌⊎◌,
}
use go_tumbler.Errors.{invalid_recovery_code, ok}
use go_tumbler.Method.RecoveryCode.{recovery_code_len}
use go_tumbler.Secure.Container.{borrow, new, new_slice}
use go_tumbler.Secure.World.{World, System, M, pure, fail}

-- `recoveryEncoding`: base32 of the standard alphabet, without padding.
pub record Encoding : Type 0 where
  pub encode : Bytes → Bytes
  pub decode : Bytes → Option Bytes

-- The loop of `groupString`, at index `i`.
unfoldable pub group_from : ℕ → ℕ → Bytes → Bytes
group_from n i [] = []
group_from n i (r ∷ s) =
    let rest = group_from n (i + 1) s in if ltb 0 i && i % n == 0 then b'-' ∷ r ∷ rest else r ∷ rest

unfoldable pub group_string : Bytes → ℕ → Bytes
unfolding group_from
group_string s n = if n == 0 || leb (length s) n then s else group_from n 0 s

-- The callback of `strings.Map`: a rune to keep, or none.
abbrev pub clean_rune : ℕ → Option ℕ
clean_rune r =
    if leb b'A' r && leb r b'Z'
    then some r
    else if leb b'a' r && leb r b'z'
    then some (r - 32)
    else if leb b'0' r && leb r b'9'
    then some r
    else none

abbrev keep : Option ℕ → Bytes → Bytes
keep none s = s
keep (some r) s = r ∷ s

unfoldable pub cleaned : Bytes → Bytes
cleaned [] = []
cleaned (r ∷ s) = keep (clean_rune r) (cleaned s)

module _ (os : System) (x : Encoding) where
  unfoldable pub format_recovery_code : ℕ → M Bytes
  unfolding group_string
  format_recovery_code code = borrow code (λ b. pure (group_string (x.encode b) 4))

  abbrev pub decoded : Option Bytes → M ℕ
  decoded none = fail invalid_recovery_code
  decoded (some raw) =
      if length raw == recovery_code_len then new os raw else fail invalid_recovery_code

  unfoldable pub parse_recovery_code : Bytes → M ℕ
  unfolding cleaned
  parse_recovery_code s = decoded (x.decode (cleaned s))

-- An upper-case letter or a digit.
abbrev pub IsCodeChar : ℕ → Type 0
IsCodeChar r = ((b'A' ≤ r) × (r ≤ b'Z')) ⊎ ((b'0' ≤ r) × (r ≤ b'9'))

clean_rune-IsCodeChar : (r : ℕ) → IsCodeChar r → clean_rune r ≡ some r
clean_rune-IsCodeChar r h = ground arith

-- Neither a letter nor a digit.
abbrev pub IsSeparator : ℕ → Type 0
IsSeparator r = (r < b'0') ⊎ ((b'9' < r) × (r < b'A')) ⊎ ((b'Z' < r) × (r < b'a')) ⊎ (b'z' < r)

-- A text as a user may type it: some letters in lower case, and separators anywhere.
pub data Typed : Bytes → Bytes → Type 0 where
  nothing_left : Typed [] []
  as_it_is : (r : ℕ) {s t : Bytes} → Typed s t → Typed (r ∷ s) (r ∷ t)
  in_lower_case :
      (r : ℕ) {s t : Bytes} → b'A' ≤ r → r ≤ b'Z' → Typed s t → Typed (r ∷ s) ((r + 32) ∷ t)
  separated : (r : ℕ) {s t : Bytes} → IsSeparator r → Typed s t → Typed s (r ∷ t)

clean_rune-lower : (r : ℕ) → b'A' ≤ r → r ≤ b'Z' → clean_rune (r + 32) ≡ some r
clean_rune-lower r lo hi = ground arith

clean_rune-IsSeparator : (r : ℕ) → IsSeparator r → clean_rune r ≡ none
clean_rune-IsSeparator r h = ground arith

-- What is typed is cleaned to the code.
Typed-cleaned : {s t : Bytes} → Typed s t → All IsCodeChar s → cleaned t ≡ s
unfolding cleaned
Typed-cleaned nothing_left h = refl
Typed-cleaned (as_it_is r p) (k, ks) = rw (clean_rune-IsCodeChar r k, Typed-cleaned p ks)
Typed-cleaned (in_lower_case r lo hi p) (k, ks) = rw (clean_rune-lower r lo hi, Typed-cleaned p ks)
Typed-cleaned (separated r k p) h = rw (clean_rune-IsSeparator r k, Typed-cleaned p h)

pub Typed-refl : (s : Bytes) → Typed s s
Typed-refl [] = nothing_left
Typed-refl (r ∷ s) = as_it_is r (Typed-refl s)

Typed-group_from : (n i : ℕ) (s : Bytes) → Typed s (group_from n i s)
unfolding group_from
Typed-group_from n i [] = nothing_left
Typed-group_from n i (r ∷ s) = elim (Bool-cases (ltb 0 i && i % n == 0)) [
  | inl hyphen ↦
      rw hyphen (separated b'-' (ground arith) (as_it_is r (Typed-group_from n (i + 1) s)))
  | inr plain ↦ rw plain (as_it_is r (Typed-group_from n (i + 1) s))
]

Typed-group_string : (s : Bytes) (n : ℕ) → Typed s (group_string s n)
unfolding group_string
Typed-group_string s n = elim (Bool-cases (n == 0 || leb (length s) n)) [
  | inl short ↦ rw short (Typed-refl s)
  | inr long ↦ rw long (Typed-group_from n 0 s)
]

-- A live code of 32 bytes is formatted as the letters and digits of its base32, with hyphens between
-- groups. From that text, and from any other in which the same letters and digits are typed in the
-- same order, a letter capital or not, with separators anywhere, `parse_recovery_code` makes a new
-- live container of the same bytes; where memory can be locked, and base32 writes capital letters
-- and digits and decodes what it encoded.
pub parse_recovery_code-format_recovery_code :
    (os : System) (x : Encoding) (code : ℕ) (w u : World) (t : Bytes)
    → ((b : Bytes) → All IsByte b → x.decode (x.encode b) ≡ some b)
    → ((b : Bytes) → All IsByte b → All IsCodeChar (x.encode b))
    → os.mlock u.tick ≡ none
    → (w.cell code).destroyed ≡ false
    → All IsByte (w.cell code).buf
    → length (w.cell code).buf ≡ 32
    → Typed (x.encode (w.cell code).buf) t
    → (format_recovery_code os x code w ≡ (ok (group_string (x.encode (w.cell code).buf) 4), w))
      × Typed (x.encode (w.cell code).buf) (group_string (x.encode (w.cell code).buf) 4)
      × ((parse_recovery_code os x t u).0 ≡ ok u.next)
      × ((parse_recovery_code os x t u).1.cell u.next
          ≡ record { buf = (w.cell code).buf; destroyed = false })
unfolding format_recovery_code parse_recovery_code borrow new new_slice
parse_recovery_code-format_recovery_code os x code w u t decodes letters locks live bytes long
      typed =
    let b = (w.cell code).buf in
    let read : cleaned t ≡ x.encode b = Typed-cleaned typed (letters b bytes) in
    let back : x.decode (cleaned t) ≡ some b = ap x.decode read ∙ decodes b bytes in
    (
      rw live,
      Typed-group_string (x.encode b) 4,
      rw (back, long, locks),
      rw (back, long, locks, ==_refl u.next),
    )
