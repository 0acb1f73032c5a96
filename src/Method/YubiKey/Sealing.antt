-- ===== src/Method/YubiKey/Sealing.antt =====
-- The slots that the YubiKey method enrolls are within the bounds of the wire format.
use go_tumbler.Base.{
  ℕ, ◌≤◌, ◌≡◌, inl, inr, sym, ap, ◌∙◌, true, Option, none, some, [], ◌∷◌, Bytes, length, Bool-cases,
}
use go_tumbler.Combine.{Crypto}
use go_tumbler.Errors.{ok}
use go_tumbler.Method.Frame.{check_ctx-Frees}
use go_tumbler.Method.RoundTrip.{bind-ok}
use go_tumbler.Method.Sealed.{Seals, KeepsLengths, stretched-IsSealed, unstretched-IsSealed}
use go_tumbler.Method.YubiKey
use go_tumbler.Method.YubiKey.Alone.{enroll-IsEnrolledAlone}
use go_tumbler.Method.YubiKey.Answers.{IsKey}
use go_tumbler.Method.YubiKey.RoundTrip.{SameMode, key_alone, with_password}
use go_tumbler.Method.YubiKey.TwoFactor.{enroll-IsEnrolledTogether}
use go_tumbler.Method.YubiKey.{YubiKeyMethod, slot_valid, enroll_2fa, enroll_by, enroll}
use go_tumbler.Method.{check_ctx}
use go_tumbler.Secure.Frame.{Clean}
use go_tumbler.Secure.Returns.{Holds, Holds-Clean}
use go_tumbler.Secure.World.{World, System}
use go_tumbler.Slot.{Slot}
use go_tumbler.Wire.Slots.{IsSealed}

module _ (os : System) (c : Crypto) (locks : (t : ℕ) → os.mlock t ≡ none)
    (lengths : KeepsLengths os c) (m : YubiKeyMethod) (respond : ℕ → Bytes → Bytes)
    (key : IsKey m respond) where
  enroll_by-IsSealed :
      (dek : ℕ) (s : Slot) (w v v' : World) (pt : Bytes) (o o' : Option ℕ)
      → SameMode w w m.kdf o o'
      → slot_valid m.slot ≡ true
      → Holds w dek pt
      → length pt ≤ 240
      → Clean w v
      → enroll_by os c m dek o v ≡ (ok s, v')
      → IsSealed s
  unfolding enroll_by
  enroll_by-IsSealed dek s w v v' pt _ _ key_alone valid at_dek fits clean h =
      let p =
        enroll-IsEnrolledAlone os c locks m respond dek s v v' pt key valid
          (Holds-Clean clean at_dek) h in
      unstretched-IsSealed os c locks lengths s pt
        (none ∷ some (respond s.yk_slot s.challenge) ∷ none ∷ []) (inl p.type) p.no_kdf p.drawn
        p.wrapped fits
  enroll_by-IsSealed dek s w v v' pt _ _ (with_password a b pw k kdf within at_a at_b) valid at_dek
        fits clean h =
      let enrolls : enroll_2fa os c m dek (some k) a v ≡ (ok s, v') =
        ap (λ z. enroll_2fa os c m dek z a v) (sym kdf) ∙ h in
      let p =
        enroll-IsEnrolledTogether os c locks m respond k dek a s v v' pt pw key valid
          (Holds-Clean clean at_dek) (Holds-Clean clean at_a) enrolls in
      stretched-IsSealed os c locks lengths s k pt pw p.raw
        (some p.raw ∷ some (respond s.yk_slot p.challenge) ∷ none ∷ []) (inr p.type) within p.drawn
        p.stretched p.wrapped fits

  pub yubikey-Seals :
      (dek : ℕ) (w : World) (pt : Bytes)
      → SameMode w w m.kdf m.password m.password
      → Holds w dek pt
      → length pt ≤ 240
      → Seals (YubiKey.as_method os c m) dek w
  unfolding enroll
  yubikey-Seals dek w pt mode at_dek fits s v v' clean h =
      bind-ok w (check_ctx os) _ clean (check_ctx-Frees os) h λ _ x clean1 _ h1.
        elim (Bool-cases (slot_valid m.slot)) [
          | inl valid ↦
              let enrolls : enroll_by os c m dek m.password x ≡ (ok s, v') = rw valid at h1 in
              enroll_by-IsSealed dek s w x v' pt m.password m.password mode valid at_dek fits clean1
                enrolls
          | inr other ↦ cc
        ]
