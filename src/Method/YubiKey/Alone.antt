-- ===== src/Method/YubiKey/Alone.antt =====
-- A slot that the YubiKey enrolled alone is opened by it again.
use go_tumbler.Base.{ℕ, ◌≡◌, sym, ap, ◌∙◌, true, none, some, [], ◌∷◌, Bytes}
use go_tumbler.Combine.{Crypto}
use go_tumbler.Errors.{done, ok}
use go_tumbler.Method.Frame.{rand_bytes-Frees, unwrap_dek-Yields}
use go_tumbler.Method.RoundTrip.{bind-ok, derived-ok, IsWrapped}
use go_tumbler.Method.RoundTrip.Shaped.{
  IsDrawn, Holds-IsLive, wrap_dek-IsShaped, wrap_dek-secrets, unwrap_dek-secrets,
}
use go_tumbler.Method.YubiKey.Answers.{IsKey, announce_touch-done}
use go_tumbler.Method.YubiKey.Tidy.{announce_touch-Frees}
use go_tumbler.Method.YubiKey.{
  YubiKeyMethod, announce_touch, slot_valid, yubi_inputs, yubi_shape, enroll_yubi_only,
  unlock_yubi_only,
}
use go_tumbler.Method.{rand_bytes, unwrap_dek, wrap_dek}
use go_tumbler.Secure.Container.{defer_destroy}
use go_tumbler.Secure.Frame.{Clean-refl}
use go_tumbler.Secure.Returns.{
  Returns, Holds, Holds-Clean, Holds-Fresh, with_value, ran-Holds, scoped-Returns, then-Returns,
}
use go_tumbler.Secure.World.{World, System}
use go_tumbler.Slot.{Slot}

module _ (os : System) (c : Crypto) (locks : (t : ℕ) → os.mlock t ≡ none) where
  -- The slot was sealed by the response of the key to the challenge in the slot.
  pub record IsEnrolledAlone (respond : ℕ → Bytes → Bytes) (s : Slot) (pt : Bytes) : Type 0 where
    pub type : s.type ≡ 2
    pub no_kdf : (s.kdf_id ≡ 0) × (s.kdf_params ≡ [])
    pub drawn : IsDrawn os s
    pub valid : slot_valid s.yk_slot ≡ true
    pub wrapped :
        IsWrapped os c locks s pt (none ∷ some (respond s.yk_slot s.challenge) ∷ none ∷ [])

  pub enroll-IsEnrolledAlone :
      (m : YubiKeyMethod) (respond : ℕ → Bytes → Bytes) (dek : ℕ) (s : Slot) (w w' : World)
      (pt : Bytes)
      → IsKey m respond
      → slot_valid m.slot ≡ true
      → Holds w dek pt
      → enroll_yubi_only os c m dek w ≡ (ok s, w')
      → IsEnrolledAlone respond s pt
  unfolding enroll_yubi_only defer_destroy
  enroll-IsEnrolledAlone m respond dek s w w' pt key valid at_dek h =
      bind-ok w (rand_bytes os 32) _ (Clean-refl w) (rand_bytes-Frees os 32) h
        λ challenge u1 clean1 _ h1.
          bind-ok w (announce_touch m) _ clean1 (announce_touch-Frees m key.tidy) h1
            λ _ u2 clean2 _ h2.
              derived-ok (m.challenge_response m.slot challenge u2) _ h2 λ yr v responds h3.
                let (fresh, at_yr) =
                  ran-Holds (m.challenge_response m.slot challenge) (respond m.slot challenge) u2 v
                    yr (key.tidy.transport m.slot challenge) (key.answers m.slot challenge u2 valid)
                    responds in
                let wraps =
                  with_value (wrap_dek os c dek (yubi_inputs yr) (yubi_shape m challenge) v) s
                    (ap (λ r. r.0) h3) in
                let shape =
                  wrap_dek-IsShaped os c dek (yubi_inputs yr) (yubi_shape m challenge) s v _
                    wraps in
                record {
                  type = shape.type;
                  no_kdf = (shape.kdf_id, shape.kdf_params);
                  drawn = shape.drawn;
                  valid = ap slot_valid shape.yk_slot ∙ valid;
                  wrapped =
                      wrap_dek-secrets os c locks dek (yubi_inputs yr) (yubi_shape m challenge) s v
                        _ pt (none ∷ some (respond s.yk_slot s.challenge) ∷ none ∷ [])
                        (tt, (Holds-IsLive v yr (respond m.slot challenge) at_yr, (tt, tt)))
                        (ap (λ x. none ∷ some x.buf ∷ none ∷ []) at_yr.1
                          ∙ ap (λ x. none ∷ some (respond x challenge) ∷ none ∷ [])
                              (sym shape.yk_slot)
                          ∙ ap (λ x. none ∷ some (respond s.yk_slot x) ∷ none ∷ [])
                              (sym shape.challenge))
                        (Holds-Fresh fresh (Holds-Clean clean2 at_dek)) wraps;
                }

  pub unlock-IsEnrolledAlone :
      (m : YubiKeyMethod) (respond : ℕ → Bytes → Bytes) (s : Slot) (u : World) (pt : Bytes)
      → ((key nonce p aad : Bytes)
          → c.aead_new key ≡ none
          → c.aead_open key nonce (c.aead_seal key nonce p aad) aad ≡ ok p)
      → IsKey m respond
      → IsEnrolledAlone respond s pt
      → Returns pt (unlock_yubi_only os c m s u)
  unfolding unlock_yubi_only
  unlock-IsEnrolledAlone m respond s u pt correct key p =
      then-Returns pt (announce_touch m) _ u done (announce_touch-done m respond u key) (
        scoped-Returns os (respond s.yk_slot s.challenge) pt
          (m.challenge_response s.yk_slot s.challenge) (λ yr. unwrap_dek os c s (yubi_inputs yr))
          (announce_touch m u).1 (key.tidy.transport s.yk_slot s.challenge)
          (λ yr. unwrap_dek-Yields os c s (yubi_inputs yr))
          (key.answers s.yk_slot s.challenge (announce_touch m u).1 p.valid)
          λ yr v fresh cell.
            unwrap_dek-secrets os c locks s pt (yubi_inputs yr) v
              (none ∷ some (respond s.yk_slot s.challenge) ∷ none ∷ []) correct
              (
                tt,
                (Holds-IsLive v yr (respond s.yk_slot s.challenge) (fresh.below, cell), (tt, tt)),
              )
              (ap (λ x. none ∷ some x.buf ∷ none ∷ []) cell) p.wrapped)
