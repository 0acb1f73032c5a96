-- ===== src/Tests/Formats.antt =====
-- The wire format and the KDF parameters on samples.
use go_tumbler.Base.{
  ◌≤◌, ◌≡◌, ◌↔◌, refl, some, [], ◌∷◌, ◌++◌, Bytes, IsByte, All, arith, length, true, replicate,
}
use go_tumbler.Base.Binary.{be16, be32}
use go_tumbler.Slot.{Slot, magic}
use go_tumbler.Wire.Refusals.{is_parse_error, parse_envelope-Refuses}
use go_tumbler.Errors.{
  unsupported_aead, malformed, short_data, bad_magic, kdf_params, unsupported_kdf, ok, err,
}
use go_tumbler.Kdf.{scrypt, kdf_id, marshal_params, parse_kdf}
use go_tumbler.Kdf.Bounds.{WithinBounds}
use go_tumbler.Kdf.RoundTrip.{parse_kdf_iff}
use go_tumbler.Tests.Samples.{all_bytes-All, password_slot, recovery_slot, two_slots}
use go_tumbler.Types.{method_valid}
use go_tumbler.Wire.{
  marshal_meta, marshal, parse_envelope, validate_slot_shape, parse_slots, parse_slot, parse_fields,
  finish_slot, u8, u32, take_bytes, take_u16,
}
use go_tumbler.Wire.Binding.{marshal_meta-injective}
use go_tumbler.Wire.Fields.{IsMeta, unsealed}
use go_tumbler.Wire.RoundTrip.{
  IsWellFormed, envelope_bytes, parse_envelope-marshal, marshal-parse_envelope,
}
use go_tumbler.Wire.Slots.{IsSealed}

password_slot-IsMeta : IsMeta password_slot
unfolding method_valid
password_slot-IsMeta = record {
  type_valid = refl;
  aead_known = refl;
  length_id = refl;
  length_hkdf_salt = refl;
  length_nonce = refl;
  kdf_params_le = omega arith;
  kdf_salt_le = omega arith;
  chal_salt_le = omega arith;
  challenge_le = omega arith;
  label_le = omega arith;
}

-- The same slot with another wrapped key.
abbrev rewrapped : Slot
rewrapped = record password_slot { wrapped = replicate 48 9 }

rewrapped-IsMeta : IsMeta rewrapped
unfolding method_valid
rewrapped-IsMeta = record {
  type_valid = refl;
  aead_known = refl;
  length_id = refl;
  length_hkdf_salt = refl;
  length_nonce = refl;
  kdf_params_le = omega arith;
  kdf_salt_le = omega arith;
  chal_salt_le = omega arith;
  challenge_le = omega arith;
  label_le = omega arith;
}

marshal_meta-injective_example : unsealed password_slot ≡ unsealed rewrapped
unfolding marshal_meta
marshal_meta-injective_example =
    marshal_meta-injective password_slot rewrapped password_slot-IsMeta rewrapped-IsMeta refl

recovery_slot-IsMeta : IsMeta recovery_slot
unfolding method_valid
recovery_slot-IsMeta = record {
  type_valid = refl;
  aead_known = refl;
  length_id = refl;
  length_hkdf_salt = refl;
  length_nonce = refl;
  kdf_params_le = omega arith;
  kdf_salt_le = omega arith;
  chal_salt_le = omega arith;
  challenge_le = omega arith;
  label_le = omega arith;
}

password_slot-IsSealed : IsSealed password_slot
unfolding validate_slot_shape parse_kdf
password_slot-IsSealed = record {
  fields = password_slot-IsMeta;
  stored = refl;
  wrapped_ge = omega arith;
  wrapped_le = omega arith;
  shape = refl;
}

recovery_slot-IsSealed : IsSealed recovery_slot
unfolding validate_slot_shape parse_kdf
recovery_slot-IsSealed = record {
  fields = recovery_slot-IsMeta;
  stored = refl;
  wrapped_ge = omega arith;
  wrapped_le = omega arith;
  shape = refl;
}

two_slots-IsWellFormed : IsWellFormed two_slots
two_slots-IsWellFormed = record {
  current = refl;
  hint_byte = omega arith;
  all_sealed = (password_slot-IsSealed, (recovery_slot-IsSealed, tt));
  nonempty = omega arith;
  count_le = omega arith;
}

parse_envelope-marshal_example :
    (b : Bytes) × (marshal two_slots ≡ ok b)
    × (parse_envelope b ≡ ok two_slots)
    × (length b ≤ 52680)
parse_envelope-marshal_example = parse_envelope-marshal two_slots two_slots-IsWellFormed

abbrev file : Bytes
file = envelope_bytes two_slots

parse_envelope-file : parse_envelope file ≡ ok two_slots
unfolding parse_envelope parse_slots parse_slot parse_fields finish_slot validate_slot_shape
    parse_kdf u8 u32 take_bytes take_u16
parse_envelope-file = refl

file_errors :
    (parse_envelope (b'X' ∷ file) ≡ err bad_magic)
    × (parse_envelope (file ++ 0 ∷ []) ≡ err malformed)
    × (parse_envelope [] ≡ err short_data)
unfolding parse_envelope parse_slots parse_slot parse_fields finish_slot validate_slot_shape
    parse_kdf u8 u32 take_bytes take_u16
file_errors = (refl, refl, refl)

file_bytes : All IsByte file
file_bytes = all_bytes-All file refl

marshal-parse_envelope_example : IsWellFormed two_slots × (marshal two_slots ≡ ok file)
marshal-parse_envelope_example =
    marshal-parse_envelope file two_slots file_bytes parse_envelope-file

abbrev scrypt_params : Bytes
scrypt_params = 15 ∷ 0 ∷ 0 ∷ 0 ∷ 8 ∷ 0 ∷ 0 ∷ 0 ∷ 1 ∷ []

parse_kdf_iff_example : (parse_kdf 2 scrypt_params ≡ ok (some (scrypt 15 8 1))) ↔ (
    (2 ≡ kdf_id (scrypt 15 8 1))
    × (scrypt_params ≡ marshal_params (scrypt 15 8 1))
    × WithinBounds (scrypt 15 8 1))
parse_kdf_iff_example =
    parse_kdf_iff 2 scrypt_params (scrypt 15 8 1) (all_bytes-All scrypt_params refl)

parse_kdf-scrypt : parse_kdf 2 scrypt_params ≡ ok (some (scrypt 15 8 1))
unfolding parse_kdf
parse_kdf-scrypt = refl

-- 2^22 * 128 * 32 bytes are above 2 GiB.
parse_kdf_memory : parse_kdf 2 (22 ∷ 0 ∷ 0 ∷ 0 ∷ 32 ∷ 0 ∷ 0 ∷ 0 ∷ 1 ∷ []) ≡ err kdf_params
unfolding parse_kdf
parse_kdf_memory = refl

parse_kdf_id_7 : parse_kdf 7 [] ≡ err unsupported_kdf
unfolding parse_kdf
parse_kdf_id_7 = refl

-- One slot of a cipher that is not known.
abbrev other_cipher : Bytes
other_cipher =
    magic ++ (1 ∷ 1 ∷ be16 1) ++ be32 80 ++ (1 ∷ replicate 8 3) ++ (0 ∷ 9 ∷ []) ++ replicate 69 0

other_cipher_refused : parse_envelope other_cipher ≡ err unsupported_aead
unfolding parse_envelope parse_slots parse_slot parse_fields u8 u32 take_bytes method_valid
other_cipher_refused = refl

parse_envelope-Refuses_example : is_parse_error unsupported_aead ≡ true
parse_envelope-Refuses_example =
    parse_envelope-Refuses other_cipher unsupported_aead other_cipher_refused
