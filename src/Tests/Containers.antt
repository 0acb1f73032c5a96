-- ===== src/Tests/Containers.antt =====
-- Containers, the keying material and the methods, on samples.
use go_tumbler.Base.{◌≡◌, refl, false, none, some, [], All, arith, replicate, ℕ}
use go_tumbler.Combine.{
  IkmInputs, roles, build_ikm, derive_kek, write_roles, roles_size, hkdf_sha256_extract_expand,
  seal,
}
use go_tumbler.Combine.Ikm.{
  IsLive, IsShort, held, ikm_bytes, build_ikm-ikm_bytes, build_ikm-injective,
}
use go_tumbler.Errors.{ok, err, Result}
use go_tumbler.Kdf.{argon2id, marshal_params, kdf_id}
use go_tumbler.Method.Contract.{KeepsContract, yubikey-KeepsContract}
use go_tumbler.Method.Password.{PasswordMethod, password_shape}
use go_tumbler.Method.RecoveryCode.{RecoveryCodeMethod}
use go_tumbler.Method.RoundTrip.{unwrap_dek-wrap_dek}
use go_tumbler.Method.YubiKey
use go_tumbler.Method.{SlotShape, wrap_dek, unwrap_dek, rand_bytes}
use go_tumbler.Slot.{Slot}
use go_tumbler.Types.{method_valid}
use go_tumbler.Wire.{marshal_meta}
use go_tumbler.Method.YubiKey.{YubiKeyMethod, IsTidy}
use go_tumbler.Secure.Container.{
  new, new_slice, destroy, borrow, len, new_filled, new_zero, borrow_fill, defer_destroy,
}
use go_tumbler.Secure.Frame.{new-Yields}
use go_tumbler.Secure.World.{World}
use go_tumbler.Tests.Samples.{calm, plain, plain-opens, start}

abbrev closed : World
closed = (destroy calm 1 start).1

-- The password alone, and the password with the recovery code.
abbrev pub alone : IkmInputs
alone = record { password = some 1; yubi_resp = none; recovery = none }

pub alone-IsLive : All (IsLive start) (roles alone)
alone-IsLive = ((omega arith, refl), (tt, (tt, tt)))

alone-IsShort : All IsShort (held (roles alone) start)
alone-IsShort = (omega arith, (tt, (tt, tt)))

build_ikm-ikm_bytes_example :
    ((build_ikm calm plain alone start).0 ≡ ok 3)
    × ((((build_ikm calm plain alone start).1).cell 3).buf ≡ ikm_bytes (held (roles alone) start))
build_ikm-ikm_bytes_example = build_ikm-ikm_bytes calm plain alone start refl alone-IsLive

build_ikm-injective_example : held (roles alone) start ≡ held (roles alone) start
build_ikm-injective_example =
    build_ikm-injective calm plain alone alone start start refl refl alone-IsLive alone-IsLive
      alone-IsShort alone-IsShort refl

abbrev password_sample : PasswordMethod
password_sample = record { kdf = some (argon2id 3 65536 4); password = 1; label = [] }

abbrev recovery_sample : RecoveryCodeMethod
recovery_sample = record { code = 2; label = [] }

-- A transport that answers with twenty bytes.
abbrev key_sample : YubiKeyMethod
key_sample = record {
  challenge_response = λ slot challenge. new calm (replicate 20 slot);
  slot = 2;
  kdf = some (argon2id 3 65536 4);
  password = some 1;
  label = [];
  on_touch = none;
}

key_sample-IsTidy : IsTidy key_sample
key_sample-IsTidy = record {
  transport = λ slot challenge. new-Yields calm (replicate 20 slot);
  callback = λ f e. cc;
}

yubikey-KeepsContract_example : KeepsContract (YubiKey.as_method calm plain key_sample)
yubikey-KeepsContract_example = yubikey-KeepsContract calm plain key_sample key_sample-IsTidy

-- The password's slot, as `wrap_dek` seals it with the data key of container 0.
abbrev pub shape_sample : SlotShape
shape_sample = password_shape password_sample (argon2id 3 65536 4) (replicate 16 5)

abbrev blank : Slot
blank = record {
  type = 0;
  id = [];
  flags = 0;
  aead_id = 0;
  kdf_id = 0;
  yk_slot = 0;
  kdf_params = [];
  kdf_salt = [];
  chal_salt = [];
  hkdf_salt = [];
  challenge = [];
  label = [];
  nonce = [];
  wrapped = [];
  meta = none;
}

abbrev pub value : Result Slot → Slot
value (ok s) = s
value (err _) = blank

abbrev slot_made : Slot
slot_made = value (wrap_dek calm plain 0 alone shape_sample start).0

abbrev after_made : World
after_made = (wrap_dek calm plain 0 alone shape_sample start).1

wrap_dek-run : wrap_dek calm plain 0 alone shape_sample start ≡ (ok slot_made, after_made)
unfolding wrap_dek rand_bytes derive_kek marshal_params kdf_id build_ikm write_roles roles_size
    hkdf_sha256_extract_expand seal marshal_meta new_filled new_zero borrow_fill borrow
    defer_destroy destroy new new_slice method_valid len
wrap_dek-run = refl

unwrap_dek-wrap_dek_example :
    (h : ℕ) × ((unwrap_dek calm plain slot_made alone start).0 ≡ ok h)
    × ((unwrap_dek calm plain slot_made alone start).1.cell h
        ≡ record { buf = replicate 32 42; destroyed = false })
unwrap_dek-wrap_dek_example =
    unwrap_dek-wrap_dek calm plain 0 alone alone shape_sample slot_made start after_made start
      (λ t. refl) plain-opens alone-IsLive (omega arith, refl) alone-IsLive refl wrap_dek-run
