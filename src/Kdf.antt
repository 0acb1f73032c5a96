-- ===== src/Kdf.antt =====
-- kdf.go: the two built-in KDFs as their parameters, the serialization of the parameters and
-- `parseKDF` with its safety bounds.
pub mod Bounds
pub mod RoundTrip
pub mod Derive
use go_tumbler.Base.{
  ℕ, ◌+◌, ◌*◌, ◌/◌, ◌%◌, ◌^◌, Bool, not, ◌&&◌, ◌||◌, Option, none, some, List, [], ◌∷◌, ◌++◌, Bytes,
  length, take, drop, get_or, ltb, leb, ◌==◌, if◌then◌else◌,
}
use go_tumbler.Base.Binary.{be32, uint32}
use go_tumbler.Errors.{Error, kdf_params, unsupported_kdf, Result, ok, err, ◌>>=◌, ◌>>◌, guard}
use go_tumbler.Types.{kdf_none, kdf_argon2id, kdf_scrypt}

abbrev pub pk_len : ℕ
pk_len = 32

abbrev pub default_salt_len : ℕ
default_salt_len = 16

-- 2 GiB
abbrev pub max_kdf_mem_bytes : ℕ
max_kdf_mem_bytes = 2147483648

abbrev pub max_argon_time_param : ℕ
max_argon_time_param = 32

abbrev pub max_argon_threads_param : ℕ
max_argon_threads_param = 16

abbrev pub min_argon_mem_kib : ℕ
min_argon_mem_kib = 8

abbrev pub min_scrypt_log_n : ℕ
min_scrypt_log_n = 1

abbrev pub max_scrypt_log_n : ℕ
max_scrypt_log_n = 22

abbrev pub max_scrypt_r : ℕ
max_scrypt_r = 32

abbrev pub max_scrypt_p : ℕ
max_scrypt_p = 16

abbrev pub kdf_params_len_argon2 : ℕ
kdf_params_len_argon2 = 9

abbrev pub kdf_params_len_scrypt : ℕ
kdf_params_len_scrypt = 9

-- `Argon2idKDF` (time, memory in KiB, threads) and `ScryptKDF` (log2 N, r, p): the two
-- implementations of the interface `KDF` in the package.
pub data Kdf : Type 0 where
  argon2id : ℕ → ℕ → ℕ → Kdf
  scrypt : ℕ → ℕ → ℕ → Kdf

-- `ID`
unfoldable pub kdf_id : Kdf → ℕ
kdf_id (argon2id _ _ _) = kdf_argon2id
kdf_id (scrypt _ _ _) = kdf_scrypt

-- `MarshalParams`: time(4) || memoryKiB(4) || threads(1), and logN(1) || r(4) || p(4).
unfoldable pub marshal_params : Kdf → Bytes
marshal_params (argon2id time memory_kib threads) = be32 time ++ be32 memory_kib ++ threads ∷ []
marshal_params (scrypt log_n r p) = log_n ∷ be32 r ++ be32 p

-- `uint64(memoryKiB)*1024`
abbrev pub argon2_memory : ℕ → ℕ
argon2_memory memory_kib = memory_kib * 1024 % 2 ^ 64

-- `uint64(128) * (uint64(1) << logN) * uint64(r)`
abbrev pub scrypt_memory : ℕ → ℕ → ℕ
scrypt_memory log_n r = 128 * (2 ^ log_n % 2 ^ 64) % 2 ^ 64 * r % 2 ^ 64

parse_argon2id : Bytes → Result (Option Kdf)
parse_argon2id params = do
  guard (length params == kdf_params_len_argon2) kdf_params
  let time = uint32 (take 4 params)
  let memory_kib = uint32 (take 4 (drop 4 params))
  let threads = get_or params 8 0
  guard (not (ltb time 1 || ltb max_argon_time_param time)) kdf_params
  guard (not (ltb memory_kib min_argon_mem_kib || ltb max_kdf_mem_bytes (argon2_memory memory_kib)))
      kdf_params
  guard (not (ltb threads 1 || ltb max_argon_threads_param threads)) kdf_params
  ok (some (argon2id time memory_kib threads))

parse_scrypt : Bytes → Result (Option Kdf)
parse_scrypt params = do
  guard (length params == kdf_params_len_scrypt) kdf_params
  let log_n = get_or params 0 0
  let r = uint32 (take 4 (drop 1 params))
  let p = uint32 (take 4 (drop 5 params))
  guard (not (ltb log_n min_scrypt_log_n || ltb max_scrypt_log_n log_n)) kdf_params
  guard (not (ltb r 1 || ltb max_scrypt_r r)) kdf_params
  guard (not (ltb p 1 || ltb max_scrypt_p p)) kdf_params
  guard (not (ltb max_kdf_mem_bytes (scrypt_memory log_n r))) kdf_params
  ok (some (scrypt log_n r p))

-- `none` is the nil KDF of `KDFNone`.
unfoldable pub parse_kdf : ℕ → Bytes → Result (Option Kdf)
unfolding parse_argon2id parse_scrypt
parse_kdf id params =
    if id == kdf_none
    then (if length params == 0 then ok none else err kdf_params)
    else if id == kdf_argon2id
    then parse_argon2id params
    else if id == kdf_scrypt
    then parse_scrypt params
    else err unsupported_kdf
