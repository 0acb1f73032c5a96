-- ===== src/Method/YubiKey/RoundTrip.antt =====
-- A slot that the YubiKey method enrolled is opened by it again, alone or with the password.
use go_tumbler.Base.{ℕ, ◌≡◌, sym, ap, ◌∙◌, true, Option, none, some, Bytes, Bool-cases, inl, inr}
use go_tumbler.Combine.{Crypto}
use go_tumbler.Errors.{done, ok}
use go_tumbler.Kdf.{Kdf}
use go_tumbler.Kdf.Bounds.{WithinBounds}
use go_tumbler.Method.Frame.{check_ctx-Frees}
use go_tumbler.Method.RoundTrip.{bind-ok}
use go_tumbler.Method.RoundTrip.Shaped.{check_ctx-done}
use go_tumbler.Method.YubiKey.Alone.{enroll-IsEnrolledAlone, unlock-IsEnrolledAlone}
use go_tumbler.Method.YubiKey.Answers.{IsKey}
use go_tumbler.Method.YubiKey.TwoFactor.{enroll-IsEnrolledTogether, unlock-IsEnrolledTogether}
use go_tumbler.Method.YubiKey.{
  YubiKeyMethod, slot_valid, enroll_2fa, enroll_by, enroll, unlock_by, unlock,
}
use go_tumbler.Method.{check_ctx}
use go_tumbler.Secure.Frame.{Clean, Clean-refl}
use go_tumbler.Secure.Returns.{Returns, Holds, Holds-Clean, then-Returns}
use go_tumbler.Secure.World.{World, System}
use go_tumbler.Slot.{Slot}

-- The mode of two YubiKey methods: both without a password, or both with a password of the same
-- bytes, in `w` and in `u`, and the first of them with a KDF within the safety bounds.
pub data SameMode (w u : World) (kdf : Option Kdf) : Option ℕ → Option ℕ → Type 0 where
  key_alone : SameMode w u kdf none none
  with_password :
      (p p' : ℕ) (pw : Bytes) (k : Kdf)
      → kdf ≡ some k
      → WithinBounds k
      → Holds w p pw
      → Holds u p' pw
      → SameMode w u kdf (some p) (some p')

module _ (os : System) (c : Crypto) (locks : (t : ℕ) → os.mlock t ≡ none) where
  unlock_by-enroll_by :
      (m m' : YubiKeyMethod) (respond : ℕ → Bytes → Bytes) (dek : ℕ) (s : Slot) (w v w' u x : World)
      (pt : Bytes) (o o' : Option ℕ)
      → ((key nonce p aad : Bytes)
          → c.aead_new key ≡ none
          → c.aead_open key nonce (c.aead_seal key nonce p aad) aad ≡ ok p)
      → IsKey m respond
      → IsKey m' respond
      → SameMode w u m.kdf o o'
      → Holds w dek pt
      → Clean w v
      → Clean u x
      → slot_valid m.slot ≡ true
      → enroll_by os c m dek o v ≡ (ok s, w')
      → (slot_valid s.yk_slot ≡ true) × Returns pt (unlock_by os c m' o' s x)
  unfolding enroll_by unlock_by
  unlock_by-enroll_by m m' respond dek s w v w' u x pt _ _ correct key key' key_alone at_dek p q
        valid h =
      let enrolled =
        enroll-IsEnrolledAlone os c locks m respond dek s v w' pt key valid (Holds-Clean p at_dek)
          h in
      (enrolled.valid, unlock-IsEnrolledAlone os c locks m' respond s x pt correct key' enrolled)
  unlock_by-enroll_by m m' respond dek s w v w' u x pt _ _ correct key key'
        (with_password a b pw k kdf within at_a at_b) at_dek p q valid h =
      let enrolls : enroll_2fa os c m dek (some k) a v ≡ (ok s, w') =
        ap (λ z. enroll_2fa os c m dek z a v) (sym kdf) ∙ h in
      let enrolled =
        enroll-IsEnrolledTogether os c locks m respond k dek a s v w' pt pw key valid
          (Holds-Clean p at_dek) (Holds-Clean p at_a) enrolls in
      (
        enrolled.valid,
        unlock-IsEnrolledTogether os c locks m' respond k b s x pt pw correct key' within enrolled
            (Holds-Clean q at_b),
      )

  -- Where memory can be locked, the cipher opens what it sealed and the context is not done, a slot
  -- that `enroll` of the YubiKey method returned is unlocked from the slot alone, in any later store
  -- and by any YubiKey method in the same mode whose transport reaches the same key, to a new live
  -- container with the data key.
  pub unlock-enroll_yubikey :
      (m m' : YubiKeyMethod) (respond : ℕ → Bytes → Bytes) (dek : ℕ) (s : Slot) (w w' u : World)
      (pt : Bytes)
      → ((key nonce p aad : Bytes)
          → c.aead_new key ≡ none
          → c.aead_open key nonce (c.aead_seal key nonce p aad) aad ≡ ok p)
      → IsKey m respond
      → IsKey m' respond
      → SameMode w u m.kdf m.password m'.password
      → os.ctx_err u.tick ≡ none
      → Holds w dek pt
      → enroll os c m dek w ≡ (ok s, w')
      → Returns pt (unlock os c m' s u)
  unfolding enroll unlock
  unlock-enroll_yubikey m m' respond dek s w w' u pt correct key key' mode awake at_dek h =
      bind-ok w (check_ctx os) _ (Clean-refl w) (check_ctx-Frees os) h λ _ v clean _ h1.
        elim (Bool-cases (slot_valid m.slot)) [
          | inl valid ↦
              let enrolls : enroll_by os c m dek m.password v ≡ (ok s, w') = rw valid at h1 in
              let (valid', opens) =
                unlock_by-enroll_by m m' respond dek s w v w' u (check_ctx os u).1 pt m.password
                  m'.password correct key key' mode at_dek clean (check_ctx-Frees os u) valid
                  enrolls in
              then-Returns pt (check_ctx os) _ u done (check_ctx-done os u awake) (rw valid' opens)
          | inr other ↦ cc
        ]
