-- ===== src/Method/Password.antt =====
-- password.go: `PasswordMethod`.
use go_tumbler.Base.{ℕ, Option, none, some, [], Bytes}
use go_tumbler.Combine.{Crypto, IkmInputs}
use go_tumbler.Errors.{malformed, unsupported_kdf}
use go_tumbler.Kdf.Derive.{derive, derive-Yields}
use go_tumbler.Kdf.{Kdf, kdf_id, marshal_params, parse_kdf, default_salt_len}
use go_tumbler.Method.Frame.{check_ctx-Frees, rand_bytes-Frees, wrap_dek-Frees, unwrap_dek-Yields}
use go_tumbler.Method.{Method, SlotShape, check_ctx, rand_bytes, wrap_dek, unwrap_dek}
use go_tumbler.Secure.Container.{defer_destroy}
use go_tumbler.Secure.Frame.{
  Frees, Yields, Clean-refl, bind-Frees, bind-Yields, scoped-Frees, scoped-Yields,
}
use go_tumbler.Secure.World.{System, M, fail, lift, ◌>>=◌, ◌>>◌}
use go_tumbler.Slot.{Slot}
use go_tumbler.Types.{method_password}

pub record PasswordMethod : Type 0 where
  pub kdf : Option Kdf
  pub password : ℕ
  pub label : Bytes

abbrev pub password_inputs : ℕ → IkmInputs
password_inputs pk = record { password = some pk; yubi_resp = none; recovery = none }

abbrev pub password_shape : PasswordMethod → Kdf → Bytes → SlotShape
password_shape m k salt = record {
  mt = method_password;
  kdf_id = kdf_id k;
  kdf_params = marshal_params k;
  kdf_salt = salt;
  chal_salt = [];
  challenge = [];
  yk_slot = 0;
  label = m.label;
}

module _ (os : System) (c : Crypto) where
  unfoldable pub enroll_with : PasswordMethod → ℕ → Option Kdf → M Slot
  enroll_with m dek none = fail unsupported_kdf
  enroll_with m dek (some k) = do
    salt ← rand_bytes os default_salt_len
    pk ← derive os c k m.password salt
    defer_destroy os pk (wrap_dek os c dek (password_inputs pk) (password_shape m k salt))

  unfoldable pub enroll : PasswordMethod → ℕ → M Slot
  unfolding enroll_with
  enroll m dek = do check_ctx os; enroll_with m dek m.kdf

  -- `if kdf == nil` on what `parseKDF` returned.
  abbrev derive_parsed : Option Kdf → ℕ → Bytes → M ℕ
  derive_parsed none password salt = fail malformed
  derive_parsed (some k) password salt = derive os c k password salt

  unfoldable pub derive_password_key : Slot → ℕ → M ℕ
  derive_password_key s password = do
    k ← lift (parse_kdf s.kdf_id s.kdf_params)
    derive_parsed k password s.kdf_salt

  unfoldable pub unlock : PasswordMethod → Slot → M ℕ
  unlock m s = do
    check_ctx os
    pk ← derive_password_key s m.password
    defer_destroy os pk (unwrap_dek os c s (password_inputs pk))

  abbrev pub as_method : PasswordMethod → Method
  as_method m = record { type = method_password; enroll = enroll m; unlock = unlock m }

  enroll_with-Frees : (m : PasswordMethod) (dek : ℕ) (o : Option Kdf) → Frees (enroll_with m dek o)
  unfolding enroll_with
  enroll_with-Frees m dek none = Clean-refl
  enroll_with-Frees m dek (some k) =
      bind-Frees (rand_bytes os 16) _ (rand_bytes-Frees os 16) λ salt.
        scoped-Frees os (derive os c k m.password salt) _ (derive-Yields os c k m.password salt)
          λ pk. wrap_dek-Frees os c dek (password_inputs pk) (password_shape m k salt)

  pub enroll-Frees : (m : PasswordMethod) (dek : ℕ) → Frees (enroll m dek)
  unfolding enroll
  enroll-Frees m dek =
      bind-Frees (check_ctx os) _ (check_ctx-Frees os) λ _. enroll_with-Frees m dek m.kdf

  derive_parsed-Yields :
      (o : Option Kdf) (password : ℕ) (salt : Bytes) → Yields (derive_parsed o password salt)
  derive_parsed-Yields none password salt = Clean-refl
  derive_parsed-Yields (some k) password salt = derive-Yields os c k password salt

  pub derive_password_key-Yields :
      (s : Slot) (password : ℕ) → Yields (derive_password_key s password)
  unfolding derive_password_key
  derive_password_key-Yields s password =
      bind-Yields (lift _) _ Clean-refl λ k. derive_parsed-Yields k password s.kdf_salt

  pub unlock-Yields : (m : PasswordMethod) (s : Slot) → Yields (unlock m s)
  unfolding unlock
  unlock-Yields m s = bind-Yields (check_ctx os) _ (check_ctx-Frees os) λ _.
      scoped-Yields os (derive_password_key s m.password) _
        (derive_password_key-Yields s m.password)
        λ pk. unwrap_dek-Yields os c s (password_inputs pk)
