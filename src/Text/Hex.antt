-- ===== src/Text/Hex.antt =====
-- encoding/hex, in lower case.
use go_tumbler.Base.{
  ℕ, zero, suc, ◌+◌, ◌-◌, ◌*◌, ◌/◌, ◌%◌, ◌≤◌, ◌<◌, ◌≡◌, ◌⊎◌, refl, ap, ◌∙◌, ◌&&◌, [], ◌∷◌, Bytes,
  IsByte, All, length, ltb, leb, if◌then◌else◌, arith,
}

abbrev pub hex_digit : ℕ → ℕ
hex_digit d = if ltb d 10 then b'0' + d else b'a' + (d - 10)

-- `EncodeToString`
unfoldable pub hex_encode : Bytes → Bytes
hex_encode [] = []
hex_encode (b ∷ s) = hex_digit (b / 16) ∷ (hex_digit (b % 16) ∷ hex_encode s)

-- The value of a digit in either case.
abbrev pub hex_value : ℕ → ℕ
hex_value c =
    if leb b'0' c && leb c b'9'
    then c - b'0'
    else if leb b'a' c
    then (c - b'a') + 10
    else (c - b'A') + 10

-- `Decode` on digits alone; of an odd last digit Go makes an error.
unfoldable pub hex_decode : Bytes → Bytes
hex_decode (a ∷ b ∷ s) = (hex_value a * 16 + hex_value b) ∷ hex_decode s
hex_decode _ = []

abbrev pub IsLowerHex : ℕ → Type 0
IsLowerHex c = ((b'0' ≤ c) × (c ≤ b'9')) ⊎ ((b'a' ≤ c) × (c ≤ b'f'))

hex_value-lt : (c : ℕ) → IsLowerHex c → hex_value c < 16
hex_value-lt c h = ground arith

hex_digit-hex_value : (c : ℕ) → IsLowerHex c → hex_digit (hex_value c) ≡ c
hex_digit-hex_value c h = ground arith

hex_value-hex_digit : (d : ℕ) → d < 16 → hex_value (hex_digit d) ≡ d
hex_value-hex_digit d h = ground arith

hex_digit-IsLowerHex : (d : ℕ) → d < 16 → IsLowerHex (hex_digit d)
hex_digit-IsLowerHex d h = ground arith

pub hex_encode-IsLowerHex : (b : Bytes) → All IsByte b → All IsLowerHex (hex_encode b)
unfolding hex_encode
hex_encode-IsLowerHex [] h = tt
hex_encode-IsLowerHex (x ∷ xs) (k, ks) = (
  hex_digit-IsLowerHex (x / 16) (omega arith),
  (hex_digit-IsLowerHex (x % 16) (omega arith), hex_encode-IsLowerHex xs ks),
)

pub length-hex_encode : (b : Bytes) → length (hex_encode b) ≡ 2 * length b
unfolding hex_encode
length-hex_encode [] = refl
length-hex_encode (x ∷ xs) = omega (arith, length-hex_encode xs)

pub hex_decode-hex_encode : (b : Bytes) → All IsByte b → hex_decode (hex_encode b) ≡ b
unfolding hex_decode hex_encode
hex_decode-hex_encode [] h = refl
hex_decode-hex_encode (x ∷ xs) (k, ks) =
    let hi = hex_value-hex_digit (x / 16) (omega arith) in
    let lo = hex_value-hex_digit (x % 16) (omega arith) in
    let whole : hex_value (hex_digit (x / 16)) * 16 + hex_value (hex_digit (x % 16)) ≡ x =
      omega (arith, hi, lo) in
    ap (λ y. y ∷ hex_decode (hex_encode xs)) whole ∙ ap (◌∷◌ x) (hex_decode-hex_encode xs ks)

-- Of an even number of digits.
pub hex_encode-hex_decode :
    (s : Bytes) (n : ℕ)
    → length s ≡ 2 * n
    → All IsLowerHex s
    → (hex_encode (hex_decode s) ≡ s) × All IsByte (hex_decode s) × (length (hex_decode s) ≡ n)
unfolding hex_decode hex_encode
hex_encode-hex_decode [] n e h = (refl, tt, omega arith)
hex_encode-hex_decode (a ∷ []) n e h = absurd (omega arith)
hex_encode-hex_decode (a ∷ b ∷ s) zero e h = absurd (omega arith)
hex_encode-hex_decode (a ∷ b ∷ s) (suc n) e (ha, (hb, hs)) =
    let (same, bytes, long) = hex_encode-hex_decode s n (omega arith) hs in
    let x = hex_value a in
    let y = hex_value b in
    let la : x < 16 = hex_value-lt a ha in
    let lb : y < 16 = hex_value-lt b hb in
    let hi : (x * 16 + y) / 16 ≡ x = omega (arith, la, lb) in
    let lo : (x * 16 + y) % 16 ≡ y = omega (arith, la, lb) in
    let first : hex_digit ((x * 16 + y) / 16) ≡ a = ap hex_digit hi ∙ hex_digit-hex_value a ha in
    let second : hex_digit ((x * 16 + y) % 16) ≡ b = ap hex_digit lo ∙ hex_digit-hex_value b hb in
    (λ i. first i ∷ (second i ∷ same i), (omega (arith, la, lb), bytes), omega (arith, long))
