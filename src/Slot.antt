-- ===== src/Slot.antt =====
-- envelope.go: the wire-format bounds, the slot and the envelope.
use go_tumbler.Base.{ℕ, ◌+◌, Option, List, [], ◌∷◌, Bytes}
use go_tumbler.Types.{max_dek_len, wrapped_overhead}

-- "TMBL"
abbrev pub magic : Bytes
magic = b'T' ∷ b'M' ∷ b'B' ∷ b'L' ∷ []

abbrev pub max_envelope_len : ℕ
max_envelope_len = 1048576

abbrev pub max_slot_count : ℕ
max_slot_count = 64

-- magic, version, policy hint, slot count
abbrev pub header_len : ℕ
header_len = 4 + 1 + 1 + 2

abbrev pub slot_fixed_len : ℕ
slot_fixed_len = 1 + 8 + 1 + 1 + 1 + 1

abbrev pub max_challenge_len : ℕ
max_challenge_len = 64

abbrev pub max_label_len : ℕ
max_label_len = 256

abbrev pub max_salt_len : ℕ
max_salt_len = 64

abbrev pub max_kdf_params_len : ℕ
max_kdf_params_len = 64

abbrev pub max_wrapped_len : ℕ
max_wrapped_len = max_dek_len + wrapped_overhead

abbrev pub hkdf_salt_len : ℕ
hkdf_salt_len = 16

abbrev pub nonce_len : ℕ
nonce_len = 12

abbrev pub slot_id_len : ℕ
slot_id_len = 8

-- `id`, `hkdf_salt` and `nonce` are arrays of 8, 16 and 12 bytes in the source: the lengths are
-- kept by `IsMeta` of Wire/Fields. `meta` is nil (`none`) until the slot is sealed or parsed.
pub record Slot : Type 0 where
  pub type : ℕ
  pub id : Bytes
  pub flags : ℕ
  pub aead_id : ℕ
  pub kdf_id : ℕ
  pub yk_slot : ℕ
  pub kdf_params : Bytes
  pub kdf_salt : Bytes
  pub chal_salt : Bytes
  pub hkdf_salt : Bytes
  pub challenge : Bytes
  pub label : Bytes
  pub nonce : Bytes
  pub wrapped : Bytes
  pub meta : Option Bytes

pub record Envelope : Type 0 where
  pub version : ℕ
  pub policy_hint : ℕ
  pub slots : List Slot
