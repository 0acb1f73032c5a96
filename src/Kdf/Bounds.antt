-- ===== src/Kdf/Bounds.antt =====
-- What `parse_kdf` lets through, as plain bounds on the parameters.
use go_tumbler.Base.{
  ℕ, ◌*◌, ◌^◌, ◌≤◌, ◌<◌, ◌≡◌, ◌⊎◌, some, arith, ◌∷◌, Bytes, IsByte, All, ◌%◌, get_or, take, drop,
}
use go_tumbler.Base.Binary.{uint32}
use native.Mathlib.Nat.{pow-le-pow_right, mul-le-mul}
use go_tumbler.Errors.{Error, kdf_params, unsupported_kdf, ok, err}
use go_tumbler.Kdf.{
  Kdf, argon2id, scrypt, kdf_id, argon2_memory, scrypt_memory, parse_kdf, parse_argon2id,
  parse_scrypt,
}

-- The work that one derivation may cost.
abbrev pub WithinBounds : Kdf → Type 0
WithinBounds (argon2id time memory_kib threads) =
    (1 ≤ time)
    × (time ≤ 32)
    × (8 ≤ memory_kib)
    × (memory_kib * 1024 ≤ 2147483648)
    × (1 ≤ threads)
    × (threads ≤ 16)
WithinBounds (scrypt log_n r p) =
    (1 ≤ log_n)
    × (log_n ≤ 22)
    × (1 ≤ r)
    × (r ≤ 32)
    × (1 ≤ p)
    × (p ≤ 16)
    × (128 * 2 ^ log_n * r ≤ 2147483648)

-- A product of words that is below 2^64 does not wrap.
argon2_memory_exact : (m : ℕ) → m < 4294967296 → argon2_memory m ≡ m * 1024
argon2_memory_exact m h = omega arith

pub scrypt_memory_exact : (n r : ℕ) → n ≤ 22 → r ≤ 32 → scrypt_memory n r ≡ 128 * 2 ^ n * r
scrypt_memory_exact n r h k =
    let power : 2 ^ n ≤ 4194304 = pow-le-pow_right (omega arith) h in
    let first : 2 ^ n % 2 ^ 64 ≡ 2 ^ n = omega arith in
    let second : 128 * 2 ^ n % 2 ^ 64 ≡ 128 * 2 ^ n = omega arith in
    let whole : 128 * 2 ^ n * r ≤ 536870912 * 32 = mul-le-mul {n₂ = 536870912} (omega arith) k in
    let third : 128 * 2 ^ n * r % 2 ^ 64 ≡ 128 * 2 ^ n * r = omega arith in rw (first, second) third

parse_argon2id-WithinBounds :
    (params : Bytes) (k : Kdf)
    → uint32 (take 4 (drop 4 params)) < 4294967296
    → parse_argon2id params ≡ ok (some k)
    → (kdf_id k ≡ 1) × WithinBounds k
unfolding parse_argon2id kdf_id
parse_argon2id-WithinBounds params (argon2id t m p) bytes h =
    ground (arith, argon2_memory_exact (uint32 (take 4 (drop 4 params))) bytes)
parse_argon2id-WithinBounds params (scrypt n r p) bytes h = ground arith

parse_scrypt-WithinBounds :
    (params : Bytes) (k : Kdf) → parse_scrypt params ≡ ok (some k) → (kdf_id k ≡ 2) × WithinBounds k
unfolding parse_scrypt kdf_id
parse_scrypt-WithinBounds params (argon2id t m p) h = ground arith
parse_scrypt-WithinBounds params (scrypt n r p) h =
    ground (arith, scrypt_memory_exact (get_or params 0 0) (uint32 (take 4 (drop 1 params))))

memory_word : (params : Bytes) → All IsByte params → uint32 (take 4 (drop 4 params)) < 4294967296
memory_word (_ ∷ _ ∷ _ ∷ _ ∷ e ∷ f ∷ g ∷ h ∷ _) (_, (_, (_, (_, (he, (hf, (hg, (hh, _)))))))) =
    omega arith
memory_word _ h = omega arith

-- A KDF that `parse_kdf` lets through has the id that was asked for, and what it costs is bounded
-- in exact arithmetic, though the memory is computed in words of 64 bits: at most 2 GiB of memory,
-- 32 passes and 16 threads for Argon2id, and for scrypt at most 2 GiB, a block size of 32 and a
-- parallelization of 16. It takes that the parameters are bytes.
pub parse_kdf-WithinBounds :
    (id : ℕ) (params : Bytes) (k : Kdf)
    → All IsByte params
    → parse_kdf id params ≡ ok (some k)
    → (kdf_id k ≡ id) × WithinBounds k
unfolding parse_kdf
parse_kdf-WithinBounds id params k bytes h = ground (
  arith,
  parse_argon2id-WithinBounds params k (memory_word params bytes),
  parse_scrypt-WithinBounds params k,
)

-- Why `parse_kdf` refuses: an id above 2 is unsupported, and any other refusal is of the parameters.
pub parse_kdf_error :
    (id : ℕ) (params : Bytes) (e : Error)
    → parse_kdf id params ≡ err e
    → ((e ≡ unsupported_kdf) × (2 < id)) ⊎ ((e ≡ kdf_params) × (id ≤ 2))
unfolding parse_kdf
parse_kdf_error id params e h = ground arith
