-- ===== src/Tests/Tampering.antt =====
-- A cipher that authenticates its associated data, and a slot that it sealed.
use go_tumbler.Base.{
  zero, suc, ◌≡◌, refl, ap, ◌∙◌, Bool-cases, inl, inr, some, [], ◌∷◌, Bytes, arith, ◌==◌,
  if◌then◌else◌, ==_iff,
}
use go_tumbler.Combine.{
  Crypto, build_ikm, derive_kek, write_roles, roles_size, hkdf_sha256_extract_expand, seal,
  open_wrapped,
}
use go_tumbler.Errors.{auth_failed, Result, ok, err}
use go_tumbler.Kdf.{marshal_params, kdf_id}
use go_tumbler.Method.Tamper.{unwrap_dek-untampered}
use go_tumbler.Method.{wrap_dek, unwrap_dek, rand_bytes}
use go_tumbler.Secure.Container.{
  new, new_slice, destroy, borrow, len, new_filled, new_zero, borrow_fill, defer_destroy,
}
use go_tumbler.Secure.World.{World}
use go_tumbler.Slot.{Slot}
use go_tumbler.Tests.Containers.{alone, alone-IsLive, shape_sample, value}
use go_tumbler.Tests.Samples.{calm, plain, start}
use go_tumbler.Types.{method_valid}
use go_tumbler.Wire.{marshal_meta, meta_bytes, slot_meta}
use go_tumbler.Wire.Fields.{IsMeta}

-- The associated data in front of the text, up to a zero.
abbrev bound : Bytes → Bytes → Bytes
bound [] pt = 0 ∷ pt
bound (x ∷ aad) pt = suc x ∷ bound aad pt

abbrev unbound : Bytes → Bytes → Result Bytes
unbound [] (zero ∷ pt) = ok pt
unbound (x ∷ aad) (suc y ∷ ct) =
    let rest = unbound aad ct in if x == y then rest else err auth_failed
unbound _ _ = err auth_failed

abbrev binding : Crypto
binding = record plain {
  aead_seal = λ key nonce pt aad. bound aad pt;
  aead_open = λ key nonce ct aad. unbound aad ct;
}

unbound-bound : (p p' aad aad' : Bytes) → unbound aad' (bound aad p) ≡ ok p' → aad' ≡ aad
unbound-bound p p' [] [] e = refl
unbound-bound p p' [] (y ∷ aad') e = cc
unbound-bound p p' (x ∷ aad) [] e = cc
unbound-bound p p' (x ∷ aad) (y ∷ aad') e = elim (Bool-cases (y == x)) [
  | inl same ↦
      ap (λ a. a ∷ aad') ((==_iff y x).0 same)
      ∙ ap (◌∷◌ x) (unbound-bound p p' aad aad' (rw same at e))
  | inr other ↦ (let failed = rw other at e in (cc))
]

abbrev sealed : Slot
sealed = value (wrap_dek calm binding 0 alone shape_sample start).0

abbrev after_sealed : World
after_sealed = (wrap_dek calm binding 0 alone shape_sample start).1

wrap_dek-run : wrap_dek calm binding 0 alone shape_sample start ≡ (ok sealed, after_sealed)
unfolding wrap_dek rand_bytes derive_kek marshal_params kdf_id build_ikm write_roles roles_size
    hkdf_sha256_extract_expand seal marshal_meta new_filled new_zero borrow_fill borrow
    defer_destroy destroy new new_slice method_valid len
wrap_dek-run = refl

sealed-IsMeta : IsMeta sealed
unfolding wrap_dek rand_bytes derive_kek marshal_params kdf_id build_ikm write_roles roles_size
    hkdf_sha256_extract_expand seal marshal_meta new_filled new_zero borrow_fill borrow
    defer_destroy destroy new new_slice method_valid len
sealed-IsMeta = record {
  type_valid = refl;
  aead_known = refl;
  length_id = refl;
  length_hkdf_salt = refl;
  length_nonce = refl;
  kdf_params_le = omega arith;
  kdf_salt_le = omega arith;
  chal_salt_le = omega arith;
  challenge_le = omega arith;
  label_le = omega arith;
}

sealed-stored : sealed.meta ≡ some (meta_bytes sealed)
unfolding wrap_dek rand_bytes derive_kek marshal_params kdf_id build_ikm write_roles roles_size
    hkdf_sha256_extract_expand seal marshal_meta new_filled new_zero borrow_fill borrow
    defer_destroy destroy new new_slice method_valid len
sealed-stored = refl

unwrap_dek-run : (unwrap_dek calm binding sealed alone start).0 ≡ ok 5
unfolding unwrap_dek open_wrapped slot_meta wrap_dek rand_bytes derive_kek marshal_params kdf_id
    build_ikm write_roles roles_size hkdf_sha256_extract_expand seal marshal_meta new_filled
    new_zero borrow_fill borrow defer_destroy destroy new new_slice method_valid len
unwrap_dek-run = refl

unwrap_dek-untampered_example : sealed ≡ sealed
unwrap_dek-untampered_example =
    unwrap_dek-untampered calm binding 0 alone alone shape_sample sealed sealed start after_sealed
      start 5 (λ t. refl) (λ key key' nonce nonce' p p' aad aad' e. unbound-bound p p' aad aad' e)
      alone-IsLive (omega arith, refl) wrap_dek-run sealed-IsMeta sealed-IsMeta sealed-stored refl
      unwrap_dek-run
