-- ===== src/Tests/Codes.antt =====
-- Data keys and the text of a recovery code, on samples.
use go_tumbler.Base.{
  ℕ, pos, sym, length, length-replicate, ◌+◌, ◌-◌, ◌*◌, ◌/◌, ◌%◌, ◌≡◌, ◌⊎◌, inl, refl, ap, ◌∙◌,
  false, some, [], ◌∷◌, ◌++◌, Bytes, IsByte, All, arith, replicate,
}
use go_tumbler.Base.Text.{codes}
use go_tumbler.DataKey.{IsDekSize, IsDrawn, IsSystemError, generate_dek, generate_dek_cases}
use go_tumbler.Errors.{Error, dek_size, ok, err}
use go_tumbler.Method.RecoveryText.{
  Encoding, IsCodeChar, Typed, in_lower_case, separated, Typed-refl, group_string,
  format_recovery_code, parse_recovery_code, parse_recovery_code-format_recovery_code,
}
use go_tumbler.Secure.Frame.{YieldsAt}
use go_tumbler.Tests.Samples.{all_bytes-All, calm, start}

calm-draws : (t n : ℕ) (b : Bytes) → calm.rand t n ≡ ok b → length b ≡ n
calm-draws t n b h =
    let same : replicate n (t + 1) ≡ b = cc in ap length (sym same) ∙ length-replicate n (t + 1)

generate_dek_cases_example :
    ((¬ IsDekSize (pos 32)) × (generate_dek calm (pos 32) start ≡ (err dek_size, start)))
    ⊎ (IsDekSize (pos 32)
        × YieldsAt start (generate_dek calm (pos 32) start)
        × (((e : Error) × IsSystemError calm (pos 32) start e
              × ((generate_dek calm (pos 32) start).0 ≡ err e))
            ⊎ IsDrawn calm (pos 32) start (generate_dek calm (pos 32) start)))
generate_dek_cases_example = generate_dek_cases calm (pos 32) start calm-draws

-- Two letters for a byte, in place of base32.
abbrev letters : Bytes → Bytes
letters [] = []
letters (x ∷ xs) = (x / 16 + 65) ∷ ((x % 16 + 65) ∷ letters xs)

abbrev numbers : Bytes → Bytes
numbers (a ∷ b ∷ xs) = ((a - 65) * 16 + (b - 65)) ∷ numbers xs
numbers _ = []

abbrev pairs : Encoding
pairs = record { encode = letters; decode = λ s. some (numbers s) }

numbers-letters : (b : Bytes) → All IsByte b → numbers (letters b) ≡ b
numbers-letters [] h = refl
numbers-letters (x ∷ xs) (k, ks) =
    let same : (x / 16 + 65 - 65) * 16 + (x % 16 + 65 - 65) ≡ x = omega arith in
    ap (λ y. y ∷ numbers (letters xs)) same ∙ ap (◌∷◌ x) (numbers-letters xs ks)

letters-IsCodeChar : (b : Bytes) → All IsByte b → All IsCodeChar (letters b)
letters-IsCodeChar [] h = tt
letters-IsCodeChar (x ∷ xs) (k, ks) =
    (inl (omega arith, omega arith), (inl (omega arith, omega arith), letters-IsCodeChar xs ks))

-- Typed in lower case, with a space.
abbrev in_lower : Bytes
in_lower = codes "aj aj" ++ letters (replicate 30 9)

in_lower-Typed : Typed (letters (replicate 32 9)) in_lower
in_lower-Typed = in_lower_case 65 (omega arith) (omega arith) (
    in_lower_case 74 (omega arith) (omega arith) (
      separated 32 (ground arith) (
        in_lower_case 65 (omega arith) (omega arith)
          (in_lower_case 74 (omega arith) (omega arith) (Typed-refl _)))))

parse_recovery_code-format_recovery_code_example :
    (format_recovery_code calm pairs 2 start
      ≡ (ok (group_string (letters (replicate 32 9)) 4), start))
    × Typed (letters (replicate 32 9)) (group_string (letters (replicate 32 9)) 4)
    × ((parse_recovery_code calm pairs in_lower start).0 ≡ ok 3)
    × ((parse_recovery_code calm pairs in_lower start).1.cell 3
        ≡ record { buf = replicate 32 9; destroyed = false })
parse_recovery_code-format_recovery_code_example =
    parse_recovery_code-format_recovery_code calm pairs 2 start start in_lower
      (λ b h. ap some (numbers-letters b h)) letters-IsCodeChar refl refl
      (all_bytes-All (replicate 32 9) refl) refl in_lower-Typed
