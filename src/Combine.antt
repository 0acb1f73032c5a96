-- ===== src/Combine.antt =====
-- combine.go: the input keying material, the key-encryption key, and sealing and opening the data
-- key. HKDF-SHA256 and ChaCha20-Poly1305 are parameters.
pub mod Frame
pub mod Ikm
pub mod Kek
use go_tumbler.Base.{ℕ, ◌+◌, Option, none, some, List, [], ◌∷◌, ◌++◌, Bytes, length}
use go_tumbler.Base.Binary.{be16}
use go_tumbler.Base.Text.{codes}
use go_tumbler.Errors.{Error, auth_failed, Result, ok, err}
use go_tumbler.Errors
use go_tumbler.Secure.World.{World, System, M, pure, fail, lift, and_then, ◌>>=◌, ◌>>◌}
use go_tumbler.Secure.Container.{new, len, borrow, defer_destroy, new_filled}

-- The functions of crypto/hkdf, golang.org/x/crypto/chacha20poly1305, argon2 and scrypt.
pub record Crypto : Type 0 where
  -- hash fixed to SHA-256: input keying material, salt
  pub hkdf_extract : Bytes → Bytes → Result Bytes
  -- pseudorandom key, info, length
  pub hkdf_expand : Bytes → Bytes → ℕ → Result Bytes
  -- the error of `chacha20poly1305.New` on a key
  pub aead_new : Bytes → Option Error
  -- key, nonce, plaintext or ciphertext, associated data
  pub aead_seal : Bytes → Bytes → Bytes → Bytes → Bytes
  pub aead_open : Bytes → Bytes → Bytes → Bytes → Result Bytes
  -- password, salt, time, memory, threads, key length
  pub argon2_id_key : Bytes → Bytes → ℕ → ℕ → ℕ → ℕ → Bytes
  -- password, salt, N, r, p, key length
  pub scrypt_key : Bytes → Bytes → ℕ → ℕ → ℕ → ℕ → Result Bytes

abbrev pub label_ikm : Bytes
label_ikm = codes "tumbler/v1 ikm"

abbrev pub label_kek : Bytes
label_kek = codes "tumbler/v1 kek"

abbrev pub label_challenge : Bytes
label_challenge = codes "tumbler/v1 challenge"

-- The key size of ChaCha20-Poly1305.
abbrev pub key_size : ℕ
key_size = 32

-- `ikmInputs`: the handles of the factors, or nil.
pub record IkmInputs : Type 0 where
  pub password : Option ℕ
  pub yubi_resp : Option ℕ
  pub recovery : Option ℕ

abbrev pub roles : IkmInputs → List (Option ℕ)
roles i = i.password ∷ i.yubi_resp ∷ i.recovery ∷ []

-- The size of the roles: a presence byte, a length and the secret each.
unfoldable pub roles_size : List (Option ℕ) → World → ℕ
roles_size [] w = 0
roles_size (none ∷ rs) w = 1 + 2 + roles_size rs w
roles_size (some h ∷ rs) w = 1 + 2 + len h w + roles_size rs w

-- What the callback of `buildIKM` writes for the roles, one behind the other.
unfoldable pub write_roles : List (Option ℕ) → M Bytes
write_roles [] = pure []
write_roles (none ∷ rs) = do later ← write_roles rs; pure (0 ∷ be16 0 ++ later)
write_roles (some h ∷ rs) = do
  s ← borrow h pure
  later ← write_roles rs
  pure (1 ∷ be16 (length s) ++ (s ++ later))

module _ (os : System) (c : Crypto) where
  unfoldable pub build_ikm : IkmInputs → M ℕ
  unfolding write_roles roles_size
  build_ikm i w =
      new_filled os (length label_ikm + roles_size (roles i) w)
        (do written ← write_roles (roles i); pure (label_ikm ++ written)) w

  -- `hkdfSHA256ExtractExpand`
  unfoldable pub hkdf_sha256_extract_expand : Bytes → Bytes → Bytes → ℕ → Result Bytes
  hkdf_sha256_extract_expand ikm salt info n =
      Errors.◌>>=◌ (c.hkdf_extract ikm salt) (λ prk. c.hkdf_expand prk info n)

  abbrev pub kek_info : ℕ → ℕ → Bytes → Bytes
  kek_info version mt slot_id = label_kek ++ version ∷ mt ∷ [] ++ slot_id

  -- inputs, HKDF salt, version, method type, slot id
  unfoldable pub derive_kek : IkmInputs → Bytes → ℕ → ℕ → Bytes → M ℕ
  unfolding build_ikm hkdf_sha256_extract_expand
  derive_kek i hkdf_salt version mt slot_id = do
    ikm ← build_ikm i
    defer_destroy os ikm (
        borrow ikm (λ b. do
          raw ← lift (hkdf_sha256_extract_expand b hkdf_salt (kek_info version mt slot_id) key_size)
          new os raw))

  -- `aead, e := chacha20poly1305.New(key); if e != nil { return e }`
  abbrev pub with_aead {ℓ} : {A : Type ℓ} → Option Error → M A → M A
  with_aead (some e) k = fail e
  with_aead none k = k

  -- key, data key, nonce, associated data
  unfoldable pub seal : ℕ → ℕ → Bytes → Bytes → M Bytes
  seal kek dek nonce aad =
      borrow kek
        λ key. with_aead (c.aead_new key) (borrow dek (λ pt. pure (c.aead_seal key nonce pt aad)))

  -- Any error of the cipher is `ErrAuthFailed`.
  abbrev pub opened : Result Bytes → M ℕ
  opened (ok pt) = new os pt
  opened (err e) = fail auth_failed

  -- key, nonce, ciphertext, associated data
  unfoldable pub open_wrapped : ℕ → Bytes → Bytes → Bytes → M ℕ
  open_wrapped kek nonce ciphertext aad =
      borrow kek λ key. with_aead (c.aead_new key) (opened (c.aead_open key nonce ciphertext aad))
