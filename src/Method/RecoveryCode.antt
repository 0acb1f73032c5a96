-- ===== src/Method/RecoveryCode.antt =====
-- recovery.go: `RecoveryCodeMethod` and `GenerateRecoveryCode`.
use go_tumbler.Base.{ℕ, none, some, [], Bytes, ◌==◌, if◌then◌else◌, Bool-cases, inl, inr}
use go_tumbler.Combine.{Crypto, IkmInputs}
use go_tumbler.Errors.{invalid_recovery_code}
use go_tumbler.Method.Frame.{check_ctx-Frees, rand_bytes-Frees, wrap_dek-Frees, unwrap_dek-Yields}
use go_tumbler.Method.{Method, SlotShape, check_ctx, rand_bytes, wrap_dek, unwrap_dek}
use go_tumbler.Secure.Container.{new, len}
use go_tumbler.Secure.Frame.{Frees, Yields, Clean-refl, bind-Frees, bind-Yields, new-Yields}
use go_tumbler.Secure.World.{System, M, fail, ◌>>=◌, ◌>>◌}
use go_tumbler.Slot.{Slot}
use go_tumbler.Types.{method_recovery, kdf_none}

abbrev pub recovery_code_len : ℕ
recovery_code_len = 32

pub record RecoveryCodeMethod : Type 0 where
  pub code : ℕ
  pub label : Bytes

abbrev pub recovery_inputs : ℕ → IkmInputs
recovery_inputs code = record { password = none; yubi_resp = none; recovery = some code }

abbrev pub recovery_shape : RecoveryCodeMethod → SlotShape
recovery_shape m = record {
  mt = method_recovery;
  kdf_id = kdf_none;
  kdf_params = [];
  kdf_salt = [];
  chal_salt = [];
  challenge = [];
  yk_slot = 0;
  label = m.label;
}

module _ (os : System) (c : Crypto) where
  unfoldable pub enroll : RecoveryCodeMethod → ℕ → M Slot
  enroll m dek = do
    check_ctx os
    λ w.
        if len m.code w == recovery_code_len
        then wrap_dek os c dek (recovery_inputs m.code) (recovery_shape m) w
        else fail invalid_recovery_code w

  unfoldable pub unlock : RecoveryCodeMethod → Slot → M ℕ
  unlock m s = do check_ctx os; unwrap_dek os c s (recovery_inputs m.code)

  abbrev pub as_method : RecoveryCodeMethod → Method
  as_method m = record { type = method_recovery; enroll = enroll m; unlock = unlock m }

  pub enroll-Frees : (m : RecoveryCodeMethod) (dek : ℕ) → Frees (enroll m dek)
  unfolding enroll
  enroll-Frees m dek = bind-Frees (check_ctx os) _ (check_ctx-Frees os) λ _ w.
      elim (Bool-cases (len m.code w == 32)) [
        | inl fits ↦ rw fits (wrap_dek-Frees os c dek (recovery_inputs m.code) (recovery_shape m) w)
        | inr other ↦ rw other (Clean-refl w)
      ]

  pub unlock-Yields : (m : RecoveryCodeMethod) (s : Slot) → Yields (unlock m s)
  unfolding unlock
  unlock-Yields m s =
      bind-Yields (check_ctx os) _ (check_ctx-Frees os)
        λ _. unwrap_dek-Yields os c s (recovery_inputs m.code)

  -- `GenerateRecoveryCode`
  unfoldable pub generate_recovery_code : M ℕ
  generate_recovery_code = do raw ← rand_bytes os recovery_code_len; new os raw

  pub generate_recovery_code-Yields : Yields generate_recovery_code
  unfolding generate_recovery_code
  generate_recovery_code-Yields =
      bind-Yields (rand_bytes os 32) _ (rand_bytes-Frees os 32) λ raw. new-Yields os raw
