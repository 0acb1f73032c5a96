-- ===== src/Method/Contract.antt =====
-- What an envelope relies on of its methods, and that the three built-in methods keep to it.
use go_tumbler.Base.{
  ℕ, Bytes, ◌≡◌, sym, ap, Bool, true, false, Option, none, some, Bool-cases, inl, inr, ◌==◌,
  if◌then◌else◌,
}
use go_tumbler.Combine.{Crypto, IkmInputs, derive_kek, seal}
use go_tumbler.Errors.{Error, ok}
use go_tumbler.Kdf.{Kdf}
use go_tumbler.Kdf.Derive.{derive}
use go_tumbler.Method.Password
use go_tumbler.Method.Password.{PasswordMethod, password_inputs, password_shape}
use go_tumbler.Method.RecoveryCode
use go_tumbler.Method.RecoveryCode.{RecoveryCodeMethod, recovery_inputs, recovery_shape}
use go_tumbler.Method.YubiKey
use go_tumbler.Method.YubiKey.{
  YubiKeyMethod, IsTidy, yubi_inputs, yubi_shape, two_factor_inputs, two_factor_shape,
  announce_touch, derive_challenge, slot_valid,
}
use go_tumbler.Method.YubiKey.Tidy
use go_tumbler.Method.{Method, SlotShape, shaped, check_ctx, rand_bytes, wrap_dek}
use go_tumbler.Secure.Container.{defer_destroy, len}
use go_tumbler.Secure.Frame.{Frees, Yields}
use go_tumbler.Secure.World.{World, System, M, pure, fail, lift, and_then-ok, ◌>>=◌}
use go_tumbler.Slot.{Slot}
use go_tumbler.Wire.{marshal_meta}

-- Every slot that `k` returns is of the type `t`.
abbrev pub Types : ℕ → M Slot → Type 0
Types t k = (u v : World) (s : Slot) → k u ≡ (ok s, v) → s.type ≡ t

-- Every slot that `k` returns is of the type `t` and bears the label `l`.
abbrev pub Shows : ℕ → Bytes → M Slot → Type 0
Shows t l k = (u v : World) (s : Slot) → k u ≡ (ok s, v) → (s.type ≡ t) × (s.label ≡ l)

-- A method enrolls slots of its own type, leaves no container behind when it enrolls, and when it
-- unlocks only the one that holds the data key.
pub record KeepsContract (m : Method) : Type 0 where
  pub enrolls_type : (dek : ℕ) → Types m.type (m.enroll dek)
  pub enroll_frees : (dek : ℕ) → Frees (m.enroll dek)
  pub unlock_yields : (s : Slot) → Yields (m.unlock s)

bind-Shows {ℓ} :
    {A : Type ℓ} (t : ℕ) (l : Bytes) (m : M A) (f : A → M Slot)
    → ((a : A) → Shows t l (f a))
    → Shows t l (m >>= f)
bind-Shows t l m f p u v s e = let (a, w, e1, e2) = and_then-ok (m u) f s v e in p a w v s e2

if-Shows :
    (t : ℕ) (l : Bytes) (b : Bool) (e : Error) (k : M Slot)
    → Shows t l k
    → Shows t l (if b then k else fail e)
if-Shows t l true e k p u v s h = p u v s h
if-Shows t l false e k p u v s h = cc

deferred-Shows :
    (os : System) (t h : ℕ) (l : Bytes) (k : M Slot)
    → Shows t l k
    → Shows t l (defer_destroy os h k)
unfolding defer_destroy
deferred-Shows os t h l k p u v s e = p u (k u).1 s (ap (λ r. (r, (k u).1)) (ap (λ x. x.0) e))

pure-Shows : (s : Slot) → Shows s.type s.label (pure s)
pure-Shows s u v s' e =
    let e' : s ≡ s' = cc in (ap (λ x. x.type) (sym e'), ap (λ x. x.label) (sym e'))

module _ (os : System) (c : Crypto) where
  wrap_dek-Shows :
      (dek : ℕ) (i : IkmInputs) (sh : SlotShape) → Shows sh.mt sh.label (wrap_dek os c dek i sh)
  unfolding wrap_dek
  wrap_dek-Shows dek i sh = bind-Shows sh.mt sh.label (rand_bytes os 8) _ λ id.
      bind-Shows sh.mt sh.label (rand_bytes os 16) _ λ salt.
        bind-Shows sh.mt sh.label (rand_bytes os 12) _ λ nonce.
          bind-Shows sh.mt sh.label (lift (marshal_meta (shaped sh id salt nonce))) _ λ meta.
            bind-Shows sh.mt sh.label (derive_kek os c i salt 1 sh.mt id) _ λ kek.
              deferred-Shows os sh.mt kek sh.label _
                (bind-Shows sh.mt sh.label (seal os c kek dek nonce meta) _ λ wrapped. pure-Shows _)

  enroll_with-Shows :
      (m : PasswordMethod) (dek : ℕ) (o : Option Kdf)
      → Shows 1 m.label (Password.enroll_with os c m dek o)
  unfolding Password.enroll_with
  enroll_with-Shows m dek none u v s e = cc
  enroll_with-Shows m dek (some k) u v s e =
      bind-Shows 1 m.label (rand_bytes os 16) _
        (λ salt. bind-Shows 1 m.label (derive os c k m.password salt) _ λ pk.
          deferred-Shows os 1 pk m.label _
            (wrap_dek-Shows dek (password_inputs pk) (password_shape m k salt)))
        u v s e

  -- The slots of the password method bear its label.
  pub password-Shows : (m : PasswordMethod) (dek : ℕ) → Shows 1 m.label (Password.enroll os c m dek)
  unfolding Password.enroll
  password-Shows m dek = bind-Shows 1 m.label (check_ctx os) _ (λ _. enroll_with-Shows m dek m.kdf)

  -- The password method keeps to the contract of a method, with no condition on the system or on
  -- the cryptographic functions.
  pub password-KeepsContract : (m : PasswordMethod) → KeepsContract (Password.as_method os c m)
  password-KeepsContract m = record {
    enrolls_type = λ dek u v s h. (password-Shows m dek u v s h).0;
    enroll_frees = Password.enroll-Frees os c m;
    unlock_yields = Password.unlock-Yields os c m;
  }

  -- The slots of the recovery-code method bear its label.
  pub recovery-Shows :
      (m : RecoveryCodeMethod) (dek : ℕ) → Shows 4 m.label (RecoveryCode.enroll os c m dek)
  unfolding RecoveryCode.enroll
  recovery-Shows m dek = bind-Shows 4 m.label (check_ctx os) _ (λ _ u v s h.
      elim (Bool-cases (len m.code u == 32)) [
        | inl fits ↦
            wrap_dek-Shows dek (recovery_inputs m.code) (recovery_shape m) u v s (rw fits at h)
        | inr other ↦ cc
      ])

  -- The recovery-code method keeps to the contract of a method, with no condition on the system or
  -- on the cryptographic functions.
  pub recovery-KeepsContract :
      (m : RecoveryCodeMethod) → KeepsContract (RecoveryCode.as_method os c m)
  recovery-KeepsContract m = record {
    enrolls_type = λ dek u v s h. (recovery-Shows m dek u v s h).0;
    enroll_frees = RecoveryCode.enroll-Frees os c m;
    unlock_yields = RecoveryCode.unlock-Yields os c m;
  }

  module _ (m : YubiKeyMethod) where
    enroll_yubi_only-Shows : (dek : ℕ) → Shows 2 m.label (YubiKey.enroll_yubi_only os c m dek)
    unfolding YubiKey.enroll_yubi_only
    enroll_yubi_only-Shows dek = bind-Shows 2 m.label (rand_bytes os 32) _ λ challenge.
        bind-Shows 2 m.label (announce_touch m) _ λ _.
          bind-Shows 2 m.label (m.challenge_response m.slot challenge) _ λ yr.
            deferred-Shows os 2 yr m.label _
              (wrap_dek-Shows dek (yubi_inputs yr) (yubi_shape m challenge))

    enroll_2fa-Shows :
        (dek : ℕ) (o : Option Kdf) (password : ℕ)
        → Shows 3 m.label (YubiKey.enroll_2fa os c m dek o password)
    unfolding YubiKey.enroll_2fa
    enroll_2fa-Shows dek none password u v s e = cc
    enroll_2fa-Shows dek (some k) password u v s e =
        bind-Shows 3 m.label (rand_bytes os 16) _
          (λ kdf_salt. bind-Shows 3 m.label (derive os c k password kdf_salt) _ λ pk.
            deferred-Shows os 3 pk m.label _ (
              bind-Shows 3 m.label (rand_bytes os 16) _ λ chal_salt.
                bind-Shows 3 m.label (derive_challenge os c pk chal_salt) _ λ challenge.
                  bind-Shows 3 m.label (announce_touch m) _ λ _.
                    bind-Shows 3 m.label (m.challenge_response m.slot challenge) _ λ yr.
                      deferred-Shows os 3 yr m.label _ (
                        wrap_dek-Shows dek (two_factor_inputs pk yr)
                          (two_factor_shape m k kdf_salt chal_salt))))
          u v s e

    enroll_by-Shows :
        (dek : ℕ) (o : Option ℕ)
        → Shows (YubiKey.method_type o) m.label (YubiKey.enroll_by os c m dek o)
    unfolding YubiKey.enroll_by
    enroll_by-Shows dek none = enroll_yubi_only-Shows dek
    enroll_by-Shows dek (some password) = enroll_2fa-Shows dek m.kdf password

    -- The slots of the YubiKey method bear its label.
    pub yubikey-Shows :
        (dek : ℕ) → Shows (YubiKey.method_type m.password) m.label (YubiKey.enroll os c m dek)
    unfolding YubiKey.enroll
    yubikey-Shows dek =
        let t = YubiKey.method_type m.password in
        bind-Shows t m.label (check_ctx os) _ (λ _.
          if-Shows t m.label (slot_valid m.slot) _ (YubiKey.enroll_by os c m dek m.password)
            (enroll_by-Shows dek m.password))

    -- The YubiKey method keeps to the contract of a method, alone or with a password, where the
    -- transport returns its response in one new container and keeps nothing else, and the touch
    -- callback leaves the store alone.
    pub yubikey-KeepsContract : IsTidy m → KeepsContract (YubiKey.as_method os c m)
    yubikey-KeepsContract tidy = record {
      enrolls_type = λ dek u v s h. (yubikey-Shows dek u v s h).0;
      enroll_frees = Tidy.enroll-Frees os c m tidy;
      unlock_yields = Tidy.unlock-Yields os c m tidy;
    }
