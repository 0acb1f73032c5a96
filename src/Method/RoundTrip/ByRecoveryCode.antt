-- ===== src/Method/RoundTrip/ByRecoveryCode.antt =====
-- A slot that the recovery-code method enrolled is opened by it again.
use go_tumbler.Base.{ℕ, ◌≡◌, ap, none, some, [], ◌∷◌, Bytes, ◌==◌, Bool-cases, inl, inr}
use go_tumbler.Combine.{Crypto}
use go_tumbler.Errors.{done, ok}
use go_tumbler.Method.Frame.{check_ctx-Frees}
use go_tumbler.Method.RecoveryCode
use go_tumbler.Method.RecoveryCode.{RecoveryCodeMethod, recovery_inputs, recovery_shape}
use go_tumbler.Method.RoundTrip.{bind-ok, IsWrapped}
use go_tumbler.Method.RoundTrip.Shaped.{
  IsShaped, wrap_dek-IsShaped, check_ctx-done, Holds-IsLive, wrap_dek-secrets, unwrap_dek-secrets,
}
use go_tumbler.Method.{check_ctx, wrap_dek}
use go_tumbler.Secure.Container.{len}
use go_tumbler.Secure.Frame.{Clean-refl}
use go_tumbler.Secure.Returns.{Returns, Holds, Holds-Clean, then-Returns}
use go_tumbler.Secure.World.{World, System}
use go_tumbler.Slot.{Slot}

module _ (os : System) (c : Crypto) (locks : (t : ℕ) → os.mlock t ≡ none) where
  pub enroll-IsWrapped_recovery :
      (m : RecoveryCodeMethod) (dek : ℕ) (s : Slot) (w w' : World) (pt code : Bytes)
      → Holds w dek pt
      → Holds w m.code code
      → RecoveryCode.enroll os c m dek w ≡ (ok s, w')
      → IsShaped os (recovery_shape m) s × IsWrapped os c locks s pt (none ∷ none ∷ some code ∷ [])
  unfolding RecoveryCode.enroll
  enroll-IsWrapped_recovery m dek s w w' pt code at_dek at_code h =
      bind-ok w (check_ctx os) _ (Clean-refl w) (check_ctx-Frees os) h λ _ v clean _ h1.
        elim (Bool-cases (len m.code v == 32)) [
          | inl fits ↦
              let (below, cell) = Holds-Clean clean at_code in
              let wrapped : wrap_dek os c dek (recovery_inputs m.code) (recovery_shape m) v
                  ≡ (ok s, w') =
                rw fits at h1 in
              (
                wrap_dek-IsShaped os c dek (recovery_inputs m.code) (recovery_shape m) s v w'
                    wrapped,
                wrap_dek-secrets os c locks dek (recovery_inputs m.code) (recovery_shape m) s v w'
                    pt (none ∷ none ∷ some code ∷ [])
                    (tt, (tt, (Holds-IsLive v m.code code (below, cell), tt)))
                    (ap (λ x. none ∷ none ∷ some x.buf ∷ []) cell) (Holds-Clean clean at_dek)
                    wrapped,
              )
          | inr other ↦ cc
        ]

  -- Where memory can be locked, the cipher opens what it sealed and the context is not done, a slot
  -- that `enroll` of the recovery-code method returned is unlocked, in any later store and by any
  -- recovery-code method whose code has the same bytes, to a new live container with the data key.
  pub unlock-enroll_recovery :
      (m m' : RecoveryCodeMethod) (dek : ℕ) (s : Slot) (w w' u : World) (pt code : Bytes)
      → ((key nonce p aad : Bytes)
          → c.aead_new key ≡ none
          → c.aead_open key nonce (c.aead_seal key nonce p aad) aad ≡ ok p)
      → os.ctx_err u.tick ≡ none
      → Holds w dek pt
      → Holds w m.code code
      → Holds u m'.code code
      → RecoveryCode.enroll os c m dek w ≡ (ok s, w')
      → Returns pt (RecoveryCode.unlock os c m' s u)
  unfolding RecoveryCode.unlock
  unlock-enroll_recovery m m' dek s w w' u pt code correct awake at_dek at_code0 at_code' h =
      then-Returns pt (check_ctx os) _ u done (check_ctx-done os u awake) (
        let at_code = Holds-Clean (check_ctx-Frees os u) at_code' in
        unwrap_dek-secrets os c locks s pt (recovery_inputs m'.code) (check_ctx os u).1
          (none ∷ none ∷ some code ∷ []) correct
          (tt, (tt, (Holds-IsLive (check_ctx os u).1 m'.code code at_code, tt)))
          (ap (λ x. none ∷ none ∷ some x.buf ∷ []) at_code.1)
          (enroll-IsWrapped_recovery m dek s w w' pt code at_dek at_code0 h).1)
