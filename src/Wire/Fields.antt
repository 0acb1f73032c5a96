-- ===== src/Wire/Fields.antt =====
-- The metadata of a slot: `parse_fields` reads exactly the bytes that `marshal_meta` writes.
use go_tumbler.Base.{
  ◌≤◌, ◌≡◌, sym, ap, ◌∙◌, true, none, [], ◌∷◌, ◌++◌, Bytes, IsByte, All, length, ◌==◌, arith,
  append_assoc, All-append_split, ==_iff,
}
use go_tumbler.Base.Binary.{be16}
use go_tumbler.Errors.{malformed, unsupported_aead, ok, guard-bind, ok-injective}
use go_tumbler.Slot.{Slot}
use go_tumbler.Types.{method_valid, aead_chacha20poly1305}
use go_tumbler.Wire.Marshal.{marshal_meta, meta_bytes}
use go_tumbler.Wire.Reader.{Reader}
use go_tumbler.Wire.Parse.{parse_fields}
use mathlib.Core.Path.{subst}
use go_tumbler.Wire.Cursor.{
  at, Took, u8-at, take_bytes-at-length, take_u16-at, u8-bind, take_bytes-bind, take_u16-bind,
}

-- The metadata that the format can express: the arrays of the source have their lengths, the type
-- and the cipher are known, and no field is longer than its bound.
pub record IsMeta (s : Slot) : Type 0 where
  pub type_valid : method_valid s.type ≡ true
  pub aead_known : s.aead_id ≡ 1
  pub length_id : length s.id ≡ 8
  pub length_hkdf_salt : length s.hkdf_salt ≡ 16
  pub length_nonce : length s.nonce ≡ 12
  pub kdf_params_le : length s.kdf_params ≤ 64
  pub kdf_salt_le : length s.kdf_salt ≤ 64
  pub chal_salt_le : length s.chal_salt ≤ 64
  pub challenge_le : length s.challenge ≤ 64
  pub label_le : length s.label ≤ 256

-- The slot as it stands before its wrapped key is read.
abbrev pub unsealed : Slot → Slot
unsealed s = record s { wrapped = []; meta = none }

pub marshal_meta-IsMeta : (s : Slot) → IsMeta s → marshal_meta s ≡ ok (meta_bytes s)
unfolding marshal_meta
marshal_meta-IsMeta s h = ground arith

-- The metadata as one run of bytes, each field in front of what follows it.
abbrev prefixed : Bytes → Bytes → Bytes
prefixed b rest = be16 (length b) ++ (b ++ rest)

abbrev fields_onto : Slot → Bytes → Bytes
fields_onto s rest =
    s.type
    ∷ (s.id
        ++ (s.flags
            ∷ s.aead_id
            ∷ s.kdf_id
            ∷ s.yk_slot
            ∷ prefixed s.kdf_params (
                prefixed s.kdf_salt (
                  prefixed s.chal_salt
                    (s.hkdf_salt ++ prefixed s.challenge (prefixed s.label (s.nonce ++ rest)))))))

meta_bytes-onto : (s : Slot) (rest : Bytes) → meta_bytes s ++ rest ≡ fields_onto s rest
meta_bytes-onto s rest = simp append_assoc

-- The metadata that `marshal_meta` writes is read back, whatever stands before and after it.
pub parse_fields-meta_bytes :
    (pre rest : Bytes) (s : Slot)
    → IsMeta s
    → parse_fields (at pre (meta_bytes s ++ rest)) ≡ ok (unsealed s, at (pre ++ meta_bytes s) rest)
unfolding parse_fields
parse_fields-meta_bytes pre rest s h =
    rw
      (
        meta_bytes-onto s rest,
        u8-at,
        h.type_valid,
        take_bytes-at-length 8 _ s.id _ h.length_id,
        u8-at,
        u8-at,
        (==_iff s.aead_id 1).1 h.aead_known,
        u8-at,
        u8-at,
        take_u16-at _ s.kdf_params _ 64 (omega arith) h.kdf_params_le,
        take_u16-at _ s.kdf_salt _ 64 (omega arith) h.kdf_salt_le,
        take_u16-at _ s.chal_salt _ 64 (omega arith) h.chal_salt_le,
        take_bytes-at-length 16 _ s.hkdf_salt _ h.length_hkdf_salt,
        take_u16-at _ s.challenge _ 64 (omega arith) h.challenge_le,
        take_u16-at _ s.label _ 256 (omega arith) h.label_le,
        take_bytes-at-length 12 _ s.nonce _ h.length_nonce,
      )
      (ap (λ p. ok (unsealed s, at p rest)) (simp append_assoc))

pub bytes-after :
    {rest : Bytes} (xs rest' : Bytes) → rest ≡ xs ++ rest' → All IsByte rest → All IsByte rest'
bytes-after xs rest' split bytes =
    (All-append_split IsByte xs rest' (subst (All IsByte) split bytes)).1

-- What `parse_fields` returns is metadata that the format can express, and the bytes it took are
-- those that `marshal_meta` writes for it.
pub parse_fields-Took :
    (pre rest : Bytes) (v : Slot × Reader)
    → All IsByte rest
    → parse_fields (at pre rest) ≡ ok v
    → Took IsMeta meta_bytes pre rest v
unfolding parse_fields
parse_fields-Took pre rest v bytes h = u8-bind pre rest _ h λ t rest1 _ e1 h1.
    guard-bind (method_valid t) malformed _ h1 λ valid h1'.
      take_bytes-bind 8 _ rest1 _ h1' λ id rest2 long_id e2 h2.
        u8-bind _ rest2 _ h2 λ flags rest3 _ e3 h3. u8-bind _ rest3 _ h3 λ aead rest4 _ e4 h4.
          guard-bind (aead == aead_chacha20poly1305) unsupported_aead _ h4 λ known h4'.
            u8-bind _ rest4 _ h4' λ kdf rest5 _ e5 h5. u8-bind _ rest5 _ h5 λ yk rest6 _ e6 h6.
              let b3 =
                bytes-after (flags ∷ []) rest3 e3
                  (bytes-after id rest2 e2 (bytes-after (t ∷ []) rest1 e1 bytes)) in
              let b6 =
                bytes-after (aead ∷ kdf ∷ yk ∷ []) rest6 (e4 ∙ ap (◌∷◌ aead) (e5 ∙ ap (◌∷◌ kdf) e6))
                  b3 in
              take_u16-bind 64 _ rest6 _ b6 h6 λ params rest7 le7 e7 h7.
                let b7 = bytes-after (be16 (length params) ++ params) rest7 e7 b6 in
                take_u16-bind 64 _ rest7 _ b7 h7 λ salt rest8 le8 e8 h8.
                  let b8 = bytes-after (be16 (length salt) ++ salt) rest8 e8 b7 in
                  take_u16-bind 64 _ rest8 _ b8 h8 λ chal_salt rest9 le9 e9 h9.
                    let b9 = bytes-after (be16 (length chal_salt) ++ chal_salt) rest9 e9 b8 in
                    take_bytes-bind 16 _ rest9 _ h9 λ hkdf rest10 long_hkdf e10 h10.
                      let b10 = bytes-after hkdf rest10 e10 b9 in
                      take_u16-bind 64 _ rest10 _ b10 h10 λ challenge rest11 le11 e11 h11.
                        let b11 =
                          bytes-after (be16 (length challenge) ++ challenge) rest11 e11 b10 in
                        take_u16-bind 256 _ rest11 _ b11 h11 λ label rest12 le12 e12 h12.
                          take_bytes-bind 12 _ rest12 _ h12 λ nonce rest13 long_nonce e13 h13.
                            let s : Slot = record {
                              type = t;
                              id = id;
                              flags = flags;
                              aead_id = aead;
                              kdf_id = kdf;
                              yk_slot = yk;
                              kdf_params = params;
                              kdf_salt = salt;
                              chal_salt = chal_salt;
                              hkdf_salt = hkdf;
                              challenge = challenge;
                              label = label;
                              nonce = nonce;
                              wrapped = [];
                              meta = none;
                            } in
                            subst (Took IsMeta meta_bytes pre rest) (ok-injective h13) (
                              rest13,
                              record {
                                type_valid = valid;
                                aead_known = (==_iff aead 1).0 known;
                                length_id = long_id;
                                length_hkdf_salt = long_hkdf;
                                length_nonce = long_nonce;
                                kdf_params_le = le7;
                                kdf_salt_le = le8;
                                chal_salt_le = le9;
                                challenge_le = le11;
                                label_le = le12;
                              },
                              rw (e1, e2, e3, e4, e5, e6, e7, e8, e9, e10, e11, e12, e13)
                                  (sym (meta_bytes-onto s rest13)),
                              ap (λ p. at p rest13) (simp append_assoc),
                            )
