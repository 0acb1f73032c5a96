-- ===== src/Wire/Parse.antt =====
-- `parseSlot`, `validateSlotShape` and `ParseEnvelope` of envelope.go.
use go_tumbler.Base.{
  ℕ, zero, suc, ◌+◌, ◌-◌, not, ◌&&◌, ◌||◌, none, some, List, [], ◌∷◌, Bytes, length, take, drop,
  get_or, ltb, ◌==◌,
}
use go_tumbler.Base.Binary.{uint16}
use go_tumbler.Errors.{
  Done, done, bad_magic, bad_version, malformed, short_data, unsupported_aead, Result, ok, ◌>>=◌,
  ◌>>◌, guard,
}
use go_tumbler.Kdf.{parse_kdf}
use go_tumbler.Slot.{
  Slot, Envelope, magic, max_envelope_len, max_slot_count, header_len, slot_fixed_len,
  max_challenge_len, max_label_len, max_salt_len, max_kdf_params_len, max_wrapped_len,
  hkdf_salt_len, nonce_len, slot_id_len,
}
use go_tumbler.Types.{
  method_valid, method_password, method_yubikey, method_password_and_yubikey, method_recovery,
  aead_chacha20poly1305, kdf_none, format_version, wrapped_overhead,
}
use go_tumbler.Wire.Reader.{Reader, u8, u32, take_bytes, take_u16}

unfoldable pub validate_slot_shape : Slot → Result Done
validate_slot_shape s = do
  guard
      (not (
        (s.type == method_password || s.type == method_password_and_yubikey)
        && s.kdf_id == kdf_none))
      malformed
  guard
      (not ((s.type == method_yubikey || s.type == method_recovery) && not (s.kdf_id == kdf_none)))
      malformed
  _ ← parse_kdf s.kdf_id s.kdf_params
  ok done

-- The metadata fields, read from the body in order. The slot has no `wrapped` and no `meta` yet.
unfoldable pub parse_fields : Reader → Result (Slot × Reader)
unfolding method_valid
parse_fields body = do
  (t, r1) ← u8 body
  guard (method_valid t) malformed
  (id, r2) ← take_bytes slot_id_len r1
  (flags, r3) ← u8 r2
  (aead_id, r4) ← u8 r3
  guard (aead_id == aead_chacha20poly1305) unsupported_aead
  (kdf_id, r5) ← u8 r4
  (yk_slot, r6) ← u8 r5
  (kdf_params, r7) ← take_u16 max_kdf_params_len r6
  (kdf_salt, r8) ← take_u16 max_salt_len r7
  (chal_salt, r9) ← take_u16 max_salt_len r8
  (hkdf_salt, r10) ← take_bytes hkdf_salt_len r9
  (challenge, r11) ← take_u16 max_challenge_len r10
  (label, r12) ← take_u16 max_label_len r11
  (nonce, r13) ← take_bytes nonce_len r12
  ok (
    record {
      type = t;
      id = id;
      flags = flags;
      aead_id = aead_id;
      kdf_id = kdf_id;
      yk_slot = yk_slot;
      kdf_params = kdf_params;
      kdf_salt = kdf_salt;
      chal_salt = chal_salt;
      hkdf_salt = hkdf_salt;
      challenge = challenge;
      label = label;
      nonce = nonce;
      wrapped = [];
      meta = none;
    },
    r13,
  )

-- The end of `parseSlot`: the metadata is captured as it stands in the input, the remainder of the
-- body is the wrapped key, and the outer reader moves past the body.
unfoldable pub finish_slot : Reader → ℕ → Slot → Reader → Result (Slot × Reader)
finish_slot r body_len s body = do
  let meta_start = r.off
  let meta_end = body.off
  let meta = take (meta_end - meta_start) (drop meta_start r.b)
  let wrapped = drop body.off body.b
  guard (not (ltb (length wrapped) wrapped_overhead || ltb max_wrapped_len (length wrapped)))
      malformed
  let s' = record s { meta = some meta; wrapped = wrapped }
  validate_slot_shape s'
  ok (s', record r { off = r.off + body_len })

unfoldable pub parse_slot : Reader → Result (Slot × Reader)
parse_slot r0 = do
  (body_len, r) ← u32 r0
  guard (not (ltb body_len slot_fixed_len || ltb max_envelope_len body_len)) malformed
  guard (not (ltb (length r.b) (r.off + body_len))) short_data
  (s, body) ← parse_fields (record { b = take (r.off + body_len) r.b; off = r.off })
  finish_slot r body_len s body

-- `for i := range slotCount`, with the rounds left.
unfoldable pub parse_slots : ℕ → Reader → Result (List Slot × Reader)
parse_slots zero r = ok ([], r)
parse_slots (suc n) r = do
  (s, r') ← parse_slot r
  (slots, r'') ← parse_slots n r'
  ok (s ∷ slots, r'')

unfoldable pub parse_envelope : Bytes → Result Envelope
parse_envelope b = do
  guard (not (ltb max_envelope_len (length b))) malformed
  guard (not (ltb (length b) header_len)) short_data
  guard
      (get_or b 0 0 == get_or magic 0 0
        && get_or b 1 0 == get_or magic 1 0
        && get_or b 2 0 == get_or magic 2 0
        && get_or b 3 0 == get_or magic 3 0)
      bad_magic
  guard (get_or b 4 0 == format_version) bad_version
  let policy = get_or b 5 0
  let slot_count = uint16 (drop 6 b)
  guard (not (slot_count == 0 || ltb max_slot_count slot_count)) malformed
  (slots, r) ← parse_slots slot_count (record { b = b; off = header_len })
  guard (r.off == length b) malformed
  ok (record { version = get_or b 4 0; policy_hint = policy; slots = slots })
