-- ===== src/Kdf/Derive.antt =====
-- `Derive` of the two KDFs of kdf.go, with their shared body `deriveWithStretch`.
use go_tumbler.Base.{ℕ, ◌%◌, ◌^◌, Bytes}
use go_tumbler.Combine.{Crypto}
use go_tumbler.Errors.{Result, ok}
use go_tumbler.Kdf.{Kdf, argon2id, scrypt, pk_len}
use go_tumbler.Secure.Container.{new, borrow}
use go_tumbler.Secure.Frame.{Yields, Clean-refl, bind-Yields, borrow-Yields, new-Yields}
use go_tumbler.Secure.World.{System, M, lift, ◌>>=◌}

-- The password-stretching function of the KDF: password, salt. The cost of scrypt is `1<<logN` in an
-- `int`, kept as its 64 bits: from `logN` = 64 on it is 0.
unfoldable pub stretch : Crypto → Kdf → Bytes → Bytes → Result Bytes
stretch c (argon2id time memory_kib threads) pw salt =
    ok (c.argon2_id_key pw salt time memory_kib threads pk_len)
stretch c (scrypt log_n r p) pw salt = c.scrypt_key pw salt (2 ^ log_n % 2 ^ 64) r p pk_len

-- KDF, password, salt
unfoldable pub derive : System → Crypto → Kdf → ℕ → Bytes → M ℕ
unfolding stretch
derive os c k password salt = borrow password λ pw. do raw ← lift (stretch c k pw salt); new os raw

pub derive-Yields :
    (os : System) (c : Crypto) (k : Kdf) (password : ℕ) (salt : Bytes)
    → Yields (derive os c k password salt)
unfolding derive
derive-Yields os c k password salt =
    borrow-Yields password _ λ pw. bind-Yields (lift _) _ Clean-refl λ raw. new-Yields os raw
