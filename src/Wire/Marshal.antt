-- ===== src/Wire/Marshal.antt =====
-- `marshalMeta` and `Envelope.Marshal` of envelope.go.
use go_tumbler.Base.{not, ◌||◌, Option, none, some, List, [], ◌∷◌, ◌++◌, Bytes, length, ltb, ◌==◌}
use go_tumbler.Base.Binary.{be16, be32}
use go_tumbler.Errors.{malformed, unsupported_aead, Result, ok, ◌>>=◌, ◌>>◌, guard}
use go_tumbler.Slot.{
  Slot, Envelope, magic, max_envelope_len, max_slot_count, max_challenge_len, max_label_len,
  max_salt_len, max_kdf_params_len, max_wrapped_len,
}
use go_tumbler.Types.{method_valid, aead_chacha20poly1305}

-- `appendU16Bytes`: the length prefix is a conversion to uint16, which wraps.
abbrev pub append_u16_bytes : Bytes → Bytes → Bytes
append_u16_bytes dst b = dst ++ be16 (length b) ++ b

-- The bytes that `marshalMeta` builds once its checks have passed.
abbrev pub meta_bytes : Slot → Bytes
meta_bytes s =
    let b = s.type ∷ [] in
    let b = b ++ s.id in
    let b = b ++ s.flags ∷ s.aead_id ∷ s.kdf_id ∷ s.yk_slot ∷ [] in
    let b = append_u16_bytes b s.kdf_params in
    let b = append_u16_bytes b s.kdf_salt in
    let b = append_u16_bytes b s.chal_salt in
    let b = b ++ s.hkdf_salt in
    let b = append_u16_bytes b s.challenge in let b = append_u16_bytes b s.label in b ++ s.nonce

unfoldable pub marshal_meta : Slot → Result Bytes
unfolding method_valid
marshal_meta s = do
  guard (method_valid s.type) malformed
  guard (s.aead_id == aead_chacha20poly1305) unsupported_aead
  guard (not (ltb max_kdf_params_len (length s.kdf_params))) malformed
  guard (not (ltb max_salt_len (length s.kdf_salt) || ltb max_salt_len (length s.chal_salt)))
      malformed
  guard (not (ltb max_challenge_len (length s.challenge))) malformed
  guard (not (ltb max_label_len (length s.label))) malformed
  ok (meta_bytes s)

-- `meta := s.meta; if meta == nil { marshalMeta(s) }`
unfoldable pub slot_meta : Slot → Option Bytes → Result Bytes
slot_meta s none = marshal_meta s
slot_meta s (some meta) = ok meta

-- The loop of `Marshal` over the slots that are left.
unfoldable pub marshal_slots : Bytes → List Slot → Result Bytes
unfolding slot_meta
marshal_slots out [] = ok out
marshal_slots out (s ∷ slots) = do
  guard (not (length s.wrapped == 0 || ltb max_wrapped_len (length s.wrapped))) malformed
  meta ← slot_meta s s.meta
  let body = meta ++ s.wrapped
  let out' = out ++ be32 (length body) ++ body
  guard (not (ltb max_envelope_len (length out'))) malformed
  marshal_slots out' slots

unfoldable pub marshal : Envelope → Result Bytes
unfolding marshal_slots
marshal e = do
  guard (not (length e.slots == 0)) malformed
  guard (not (ltb max_slot_count (length e.slots))) malformed
  marshal_slots (magic ++ e.version ∷ e.policy_hint ∷ be16 (length e.slots)) e.slots
