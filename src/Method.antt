-- ===== src/Method.antt =====
-- method.go: the shape of a slot, and wrapping and unwrapping the data key.
pub mod Frame
pub mod Password
pub mod RecoveryCode
pub mod RecoveryText
pub mod YubiKey
pub mod Contract
pub mod RoundTrip
pub mod Tamper
pub mod WrongSecret
pub mod Discerns
pub mod Reopens
pub mod Sealed
pub mod Options
use go_tumbler.Base.{ℕ, ◌+◌, Option, none, some, List, [], ◌∷◌, ◌++◌, Bytes}
use go_tumbler.Combine.{Crypto, IkmInputs, derive_kek, seal, open_wrapped}
use go_tumbler.Errors.{Done, done, Error, Result, ok, err}
use go_tumbler.Secure.World.{World, System, M, pure, fail, lift, ◌>>=◌, ticked}
use go_tumbler.Secure.Container.{defer_destroy}
use go_tumbler.Slot.{Slot, slot_id_len, hkdf_salt_len, nonce_len}
use go_tumbler.Types.{aead_chacha20poly1305, format_version}
use go_tumbler.Wire.{marshal_meta, slot_meta}

-- The interface `Method` of envelope.go. The context is that of the system.
pub record Method : Type 0 where
  pub type : ℕ
  pub enroll : ℕ → M Slot
  pub unlock : Slot → M ℕ

-- `slotShape`
pub record SlotShape : Type 0 where
  pub mt : ℕ
  pub kdf_id : ℕ
  pub kdf_params : Bytes
  pub kdf_salt : Bytes
  pub chal_salt : Bytes
  pub challenge : Bytes
  pub yk_slot : ℕ
  pub label : Bytes

-- A slot with its random fields, before it is sealed.
abbrev pub shaped : SlotShape → Bytes → Bytes → Bytes → Slot
shaped sh id hkdf_salt nonce = record {
  type = sh.mt;
  id = id;
  flags = 0;
  aead_id = aead_chacha20poly1305;
  kdf_id = sh.kdf_id;
  yk_slot = sh.yk_slot;
  kdf_params = sh.kdf_params;
  kdf_salt = sh.kdf_salt;
  chal_salt = sh.chal_salt;
  hkdf_salt = hkdf_salt;
  challenge = sh.challenge;
  label = sh.label;
  nonce = nonce;
  wrapped = [];
  meta = none;
}

-- `if err := ctx.Err(); err != nil { return err }`
abbrev pub checked : Option Error → M Done
checked (some e) = fail e
checked none = pure done

module _ (os : System) where
  unfoldable pub check_ctx : M Done
  check_ctx w = checked (os.ctx_err w.tick) (ticked w)

  -- `randBytes`, and `randFill` of an array of `n` bytes
  unfoldable pub rand_bytes : ℕ → M Bytes
  rand_bytes n w = (os.rand w.tick n, ticked w)

module _ (os : System) (c : Crypto) where
  -- data key, inputs, shape
  unfoldable pub wrap_dek : ℕ → IkmInputs → SlotShape → M Slot
  wrap_dek dek i sh = do
    id ← rand_bytes os slot_id_len
    hkdf_salt ← rand_bytes os hkdf_salt_len
    nonce ← rand_bytes os nonce_len
    let s = shaped sh id hkdf_salt nonce
    meta ← lift (marshal_meta s)
    kek ← derive_kek os c i s.hkdf_salt format_version s.type s.id
    defer_destroy os kek (do
      wrapped ← seal os c kek dek s.nonce meta
      pure (record s { wrapped = wrapped; meta = some meta }))

  unfoldable pub unwrap_dek : Slot → IkmInputs → M ℕ
  unwrap_dek s i = do
    kek ← derive_kek os c i s.hkdf_salt format_version s.type s.id
    defer_destroy os kek
        (do meta ← lift (slot_meta s s.meta); open_wrapped os c kek s.nonce s.wrapped meta)
