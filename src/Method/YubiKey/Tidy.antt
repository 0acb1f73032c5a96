-- ===== src/Method/YubiKey/Tidy.antt =====
-- What enrolling and unlocking with a YubiKey leave in the store.
use go_tumbler.Base.{ℕ, ◌≡◌, refl, Bool, true, false, Option, none, some, Bytes, if◌then◌else◌}
use go_tumbler.Combine.{Crypto}
use go_tumbler.Errors.{Done, malformed}
use go_tumbler.Kdf.Derive.{derive, derive-Yields}
use go_tumbler.Kdf.{Kdf}
use go_tumbler.Method.Frame.{check_ctx-Frees, rand_bytes-Frees, wrap_dek-Frees, unwrap_dek-Yields}
use go_tumbler.Method.Password.{derive_password_key, derive_password_key-Yields}
use go_tumbler.Method.YubiKey.{
  YubiKeyMethod, IsTidy, run_callback, announce_touch, slot_valid, yubi_inputs, two_factor_inputs,
  yubi_shape, two_factor_shape, derive_challenge, enroll_yubi_only, enroll_2fa, enroll_by, enroll,
  unlock_yubi_only, unlock_2fa, unlock_by, unlock,
}
use go_tumbler.Method.{check_ctx, rand_bytes}
use go_tumbler.Secure.Frame.{
  Frees, Yields, Clean-refl, bind-Frees, bind-Yields, borrow-Frees, scoped-Frees, scoped-Yields,
}
use go_tumbler.Secure.World.{System, M, fail}
use go_tumbler.Slot.{Slot}

run_callback-Frees :
    (o : Option (M Done)) → ((f : M Done) → o ≡ some f → Frees f) → Frees (run_callback o)
run_callback-Frees none h = Clean-refl
run_callback-Frees (some f) h = h f refl

pub announce_touch-Frees : (m : YubiKeyMethod) → IsTidy m → Frees (announce_touch m)
announce_touch-Frees m t = run_callback-Frees m.on_touch t.callback

if_valid-Frees : (b : Bool) (k : M Slot) → Frees k → Frees (if b then k else fail malformed)
if_valid-Frees true k p = p
if_valid-Frees false k p = Clean-refl

if_valid-Yields : (b : Bool) (k : M ℕ) → Yields k → Yields (if b then k else fail malformed)
if_valid-Yields true k p = p
if_valid-Yields false k p = Clean-refl

module _ (os : System) (c : Crypto) (m : YubiKeyMethod) (t : IsTidy m) where
  pub derive_challenge-Frees : (pk : ℕ) (salt : Bytes) → Frees (derive_challenge os c pk salt)
  unfolding derive_challenge
  derive_challenge-Frees pk salt = borrow-Frees pk _ λ b. Clean-refl

  enroll_yubi_only-Frees : (dek : ℕ) → Frees (enroll_yubi_only os c m dek)
  unfolding enroll_yubi_only
  enroll_yubi_only-Frees dek = bind-Frees (rand_bytes os 32) _ (rand_bytes-Frees os 32) λ challenge.
      bind-Frees (announce_touch m) _ (announce_touch-Frees m t) λ _.
        scoped-Frees os (m.challenge_response m.slot challenge) _ (t.transport m.slot challenge)
          λ yr. wrap_dek-Frees os c dek (yubi_inputs yr) (yubi_shape m challenge)

  enroll_2fa-Frees :
      (dek : ℕ) (o : Option Kdf) (password : ℕ) → Frees (enroll_2fa os c m dek o password)
  unfolding enroll_2fa
  enroll_2fa-Frees dek none password = Clean-refl
  enroll_2fa-Frees dek (some k) password =
      bind-Frees (rand_bytes os 16) _ (rand_bytes-Frees os 16) λ kdf_salt.
        scoped-Frees os (derive os c k password kdf_salt) _ (derive-Yields os c k password kdf_salt)
          λ pk. bind-Frees (rand_bytes os 16) _ (rand_bytes-Frees os 16) λ chal_salt.
            bind-Frees (derive_challenge os c pk chal_salt) _ (derive_challenge-Frees pk chal_salt)
              λ challenge. bind-Frees (announce_touch m) _ (announce_touch-Frees m t) λ _.
                scoped-Frees os (m.challenge_response m.slot challenge) _
                  (t.transport m.slot challenge)
                  λ yr.
                    wrap_dek-Frees os c dek (two_factor_inputs pk yr)
                      (two_factor_shape m k kdf_salt chal_salt)

  enroll_by-Frees : (dek : ℕ) (o : Option ℕ) → Frees (enroll_by os c m dek o)
  unfolding enroll_by
  enroll_by-Frees dek none = enroll_yubi_only-Frees dek
  enroll_by-Frees dek (some password) = enroll_2fa-Frees dek m.kdf password

  pub enroll-Frees : (dek : ℕ) → Frees (enroll os c m dek)
  unfolding enroll
  enroll-Frees dek =
      bind-Frees (check_ctx os) _ (check_ctx-Frees os)
        λ _. if_valid-Frees (slot_valid m.slot) _ (enroll_by-Frees dek m.password)

  unlock_yubi_only-Yields : (s : Slot) → Yields (unlock_yubi_only os c m s)
  unfolding unlock_yubi_only
  unlock_yubi_only-Yields s = bind-Yields (announce_touch m) _ (announce_touch-Frees m t) λ _.
      scoped-Yields os (m.challenge_response s.yk_slot s.challenge) _
        (t.transport s.yk_slot s.challenge) λ yr. unwrap_dek-Yields os c s (yubi_inputs yr)

  unlock_2fa-Yields : (password : ℕ) (s : Slot) → Yields (unlock_2fa os c m password s)
  unfolding unlock_2fa
  unlock_2fa-Yields password s =
      scoped-Yields os (derive_password_key os c s password) _
        (derive_password_key-Yields os c s password)
        λ pk.
          bind-Yields (derive_challenge os c pk s.chal_salt) _
            (derive_challenge-Frees pk s.chal_salt)
            λ challenge. bind-Yields (announce_touch m) _ (announce_touch-Frees m t) λ _.
              scoped-Yields os (m.challenge_response s.yk_slot challenge) _
                (t.transport s.yk_slot challenge)
                λ yr. unwrap_dek-Yields os c s (two_factor_inputs pk yr)

  unlock_by-Yields : (o : Option ℕ) (s : Slot) → Yields (unlock_by os c m o s)
  unfolding unlock_by
  unlock_by-Yields none s = unlock_yubi_only-Yields s
  unlock_by-Yields (some password) s = unlock_2fa-Yields password s

  pub unlock-Yields : (s : Slot) → Yields (unlock os c m s)
  unfolding unlock
  unlock-Yields s =
      bind-Yields (check_ctx os) _ (check_ctx-Frees os)
        λ _. if_valid-Yields (slot_valid s.yk_slot) _ (unlock_by-Yields m.password s)
