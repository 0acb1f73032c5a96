-- ===== src/Secure/Mutex/Bytewise.antt =====
-- Loops over a buffer, one byte at a time.
use go_tumbler.Base.{
  ℕ, zero, suc, ◌≤◌, ◌<◌, ◌≡◌, ◌⊎◌, inl, inr, refl, ap, ◌∙◌, [], ◌∷◌, ◌++◌, Bytes, length, take,
  replicate, get_or, arith, length-append,
}
use go_tumbler.Secure.Container.{copy_into}
use go_tumbler.Secure.Mutex.{set_at}

pub take-next : (n : ℕ) (b : Bytes) → n < length b → take n b ++ get_or b n 0 ∷ [] ≡ take (suc n) b
take-next n [] h = absurd (omega arith)
take-next zero (x ∷ b) h = refl
take-next (suc n) (x ∷ b) h = ap (◌∷◌ x) (take-next n b (omega arith))

pub take-whole : (n : ℕ) (b : Bytes) → length b ≤ n → take n b ≡ b
take-whole zero [] h = refl
take-whole (suc n) [] h = refl
take-whole zero (x ∷ b) h = absurd (omega arith)
take-whole (suc n) (x ∷ b) h = ap (◌∷◌ x) (take-whole n b (omega arith))

pub read-next :
    (acc b : Bytes)
    → acc ≡ take (length acc) b
    → length acc < length b
    → acc ++ get_or b (length acc) 0 ∷ [] ≡ take (length (acc ++ get_or b (length acc) 0 ∷ [])) b
read-next acc b sofar more =
    let x = get_or b (length acc) 0 in
    let longer : suc (length acc) ≡ length (acc ++ x ∷ []) =
      omega (arith, length-append acc (x ∷ [])) in
    ap (λ a. a ++ x ∷ []) sofar ∙ take-next (length acc) b more ∙ ap (λ n. take n b) longer

pub copy_into-nil : (b : Bytes) → copy_into b [] ≡ b
copy_into-nil b = take-whole (length b) b (omega arith)

pub copy_into-next :
    (n : ℕ) (b src : Bytes)
    → n < length src
    → n < length b
    → set_at n (get_or src n 0) (copy_into b (take n src)) ≡ copy_into b (take (suc n) src)
copy_into-next n [] src h k = absurd (omega arith)
copy_into-next n (x ∷ b) [] h k = absurd (omega arith)
copy_into-next zero (x ∷ b) (y ∷ src) h k = refl
copy_into-next (suc n) (x ∷ b) (y ∷ src) h k =
    ap (◌∷◌ y) (copy_into-next n b src (omega arith) (omega arith))

pub length-copy_into : (b src : Bytes) → length (copy_into b src) ≡ length b
length-copy_into b [] = ap length (copy_into-nil b)
length-copy_into [] (y ∷ src) = refl
length-copy_into (x ∷ b) (y ∷ src) = ap suc (length-copy_into b src)

-- Bytes that do not fit are left out.
pub copy_into-fits :
    (n : ℕ) (b src : Bytes) → length b ≤ n → copy_into b (take n src) ≡ copy_into b src
copy_into-fits n [] src h = refl
copy_into-fits zero (x ∷ b) src h = absurd (omega arith)
copy_into-fits (suc n) (x ∷ b) [] h = refl
copy_into-fits (suc n) (x ∷ b) (y ∷ src) h = ap (◌∷◌ y) (copy_into-fits n b src (omega arith))

pub copied :
    (n : ℕ) (b src : Bytes)
    → (length src ≤ n) ⊎ (length b ≤ n)
    → copy_into b (take n src) ≡ copy_into b src
copied n b src (inl short) = ap (copy_into b) (take-whole n src short)
copied n b src (inr full) = copy_into-fits n b src full

-- A buffer of which the first `n` bytes were zeroed.
abbrev pub zeroed : ℕ → Bytes → Bytes
zeroed n b = copy_into b (replicate n 0)

pub zeroed-next : (n : ℕ) (b : Bytes) → n < length b → set_at n 0 (zeroed n b) ≡ zeroed (suc n) b
zeroed-next n [] h = absurd (omega arith)
zeroed-next zero (x ∷ b) h = refl
zeroed-next (suc n) (x ∷ b) h = ap (◌∷◌ 0) (zeroed-next n b (omega arith))

pub zeroed-all : (n : ℕ) (b : Bytes) → length b ≤ n → zeroed n b ≡ replicate (length b) 0
zeroed-all n [] h = refl
zeroed-all zero (x ∷ b) h = absurd (omega arith)
zeroed-all (suc n) (x ∷ b) h = ap (◌∷◌ 0) (zeroed-all n b (omega arith))
