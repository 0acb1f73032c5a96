-- ===== src/Method/YubiKey.antt =====
-- yubikey.go: `YubiKeyMethod`, alone or with a password.
pub mod Tidy
pub mod Answers
pub mod Alone
pub mod TwoFactor
pub mod RoundTrip
pub mod Sealing
use go_tumbler.Base.{
  ℕ, ◌≡◌, Bool, ◌||◌, Option, none, some, [], Bytes, ◌==◌, if◌then◌else◌, Bool-cases, inl, inr,
}
use go_tumbler.Combine.{Crypto, IkmInputs, label_challenge, hkdf_sha256_extract_expand}
use go_tumbler.Errors.{Done, done, Error, malformed, unsupported_kdf, Result, ok, err}
use go_tumbler.Kdf.Derive.{derive, derive-Yields}
use go_tumbler.Kdf.{Kdf, kdf_id, marshal_params, default_salt_len}
use go_tumbler.Method.Frame.{check_ctx-Frees, rand_bytes-Frees, wrap_dek-Frees, unwrap_dek-Yields}
use go_tumbler.Method.Password.{derive_password_key, derive_password_key-Yields}
use go_tumbler.Method.{Method, SlotShape, check_ctx, rand_bytes, wrap_dek, unwrap_dek}
use go_tumbler.Secure.Container.{borrow, defer_destroy}
use go_tumbler.Secure.Frame.{
  Frees, Yields, Clean-refl, bind-Frees, bind-Yields, borrow-Frees, scoped-Frees, scoped-Yields,
}
use go_tumbler.Secure.World.{System, M, pure, fail, lift, ◌>>=◌, ◌>>◌}
use go_tumbler.Slot.{Slot}
use go_tumbler.Types.{method_yubikey, method_password_and_yubikey, kdf_none}

abbrev pub yubi_challenge_len : ℕ
yubi_challenge_len = 32

-- `slotValid`
abbrev pub slot_valid : ℕ → Bool
slot_valid s = s == 1 || s == 2

-- The configuration (`slot` and `kdf`) is laid out in the method. `challenge_response` is that of
-- the transport: slot, challenge. `on_touch` is the caller's callback, which may act on the store.
pub record YubiKeyMethod : Type 0 where
  pub challenge_response : ℕ → Bytes → M ℕ
  pub slot : ℕ
  pub kdf : Option Kdf
  pub password : Option ℕ
  pub label : Bytes
  pub on_touch : Option (M Done)

-- What the program relies on: the transport returns the response in a fresh container and keeps
-- nothing else, and the callback leaves the store alone.
pub record IsTidy (m : YubiKeyMethod) : Type 0 where
  pub transport : (slot : ℕ) (challenge : Bytes) → Yields (m.challenge_response slot challenge)
  pub callback : (f : M Done) → m.on_touch ≡ some f → Frees f

abbrev run_callback : Option (M Done) → M Done
run_callback none = pure done
run_callback (some f) = f

abbrev pub announce_touch : YubiKeyMethod → M Done
announce_touch m = run_callback m.on_touch

-- `Type`
abbrev pub method_type : Option ℕ → ℕ
method_type none = method_yubikey
method_type (some password) = method_password_and_yubikey

abbrev pub yubi_inputs : ℕ → IkmInputs
yubi_inputs yr = record { password = none; yubi_resp = some yr; recovery = none }

abbrev pub two_factor_inputs : ℕ → ℕ → IkmInputs
two_factor_inputs pk yr = record { password = some pk; yubi_resp = some yr; recovery = none }

abbrev pub yubi_shape : YubiKeyMethod → Bytes → SlotShape
yubi_shape m challenge = record {
  mt = method_yubikey;
  kdf_id = kdf_none;
  kdf_params = [];
  kdf_salt = [];
  chal_salt = [];
  challenge = challenge;
  yk_slot = m.slot;
  label = m.label;
}

abbrev pub two_factor_shape : YubiKeyMethod → Kdf → Bytes → Bytes → SlotShape
two_factor_shape m k kdf_salt chal_salt = record {
  mt = method_password_and_yubikey;
  kdf_id = kdf_id k;
  kdf_params = marshal_params k;
  kdf_salt = kdf_salt;
  chal_salt = chal_salt;
  challenge = [];
  yk_slot = m.slot;
  label = m.label;
}

module _ (os : System) (c : Crypto) where
  -- The secret challenge is an ordinary slice, zeroed by the caller.
  unfoldable pub derive_challenge : ℕ → Bytes → M Bytes
  derive_challenge pk chal_salt =
      borrow pk
        λ b. lift (hkdf_sha256_extract_expand os c b chal_salt label_challenge yubi_challenge_len)

  unfoldable pub enroll_yubi_only : YubiKeyMethod → ℕ → M Slot
  enroll_yubi_only m dek = do
    challenge ← rand_bytes os yubi_challenge_len
    announce_touch m
    yr ← m.challenge_response m.slot challenge
    defer_destroy os yr (wrap_dek os c dek (yubi_inputs yr) (yubi_shape m challenge))

  unfoldable pub enroll_2fa : YubiKeyMethod → ℕ → Option Kdf → ℕ → M Slot
  enroll_2fa m dek none password = fail unsupported_kdf
  enroll_2fa m dek (some k) password = do
    kdf_salt ← rand_bytes os default_salt_len
    pk ← derive os c k password kdf_salt
    defer_destroy os pk (do
      chal_salt ← rand_bytes os default_salt_len
      challenge ← derive_challenge pk chal_salt
      announce_touch m
      yr ← m.challenge_response m.slot challenge
      defer_destroy os yr
          (wrap_dek os c dek (two_factor_inputs pk yr) (two_factor_shape m k kdf_salt chal_salt)))

  unfoldable pub enroll_by : YubiKeyMethod → ℕ → Option ℕ → M Slot
  enroll_by m dek none = enroll_yubi_only m dek
  enroll_by m dek (some password) = enroll_2fa m dek m.kdf password

  unfoldable pub enroll : YubiKeyMethod → ℕ → M Slot
  unfolding enroll_by
  enroll m dek = do
    check_ctx os
    if slot_valid m.slot then enroll_by m dek m.password else fail malformed

  unfoldable pub unlock_yubi_only : YubiKeyMethod → Slot → M ℕ
  unlock_yubi_only m s = do
    announce_touch m
    yr ← m.challenge_response s.yk_slot s.challenge
    defer_destroy os yr (unwrap_dek os c s (yubi_inputs yr))

  unfoldable pub unlock_2fa : YubiKeyMethod → ℕ → Slot → M ℕ
  unlock_2fa m password s = do
    pk ← derive_password_key os c s password
    defer_destroy os pk (do
      challenge ← derive_challenge pk s.chal_salt
      announce_touch m
      yr ← m.challenge_response s.yk_slot challenge
      defer_destroy os yr (unwrap_dek os c s (two_factor_inputs pk yr)))

  unlock_by : YubiKeyMethod → Option ℕ → Slot → M ℕ
  unlock_by m none s = unlock_yubi_only m s
  unlock_by m (some password) s = unlock_2fa m password s

  unfoldable pub unlock : YubiKeyMethod → Slot → M ℕ
  unfolding unlock_by
  unlock m s = do
    check_ctx os
    if slot_valid s.yk_slot then unlock_by m m.password s else fail malformed

  abbrev pub as_method : YubiKeyMethod → Method
  as_method m = record { type = method_type m.password; enroll = enroll m; unlock = unlock m }
