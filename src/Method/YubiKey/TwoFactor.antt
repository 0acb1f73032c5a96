-- ===== src/Method/YubiKey/TwoFactor.antt =====
-- A slot that a password and the YubiKey enrolled together is opened by both again.
use go_tumbler.Base.{ℕ, ◌≡◌, refl, sym, ap, ◌∙◌, true, none, some, [], ◌∷◌, Bytes}
use go_tumbler.Combine.{Crypto, label_challenge, hkdf_sha256_extract_expand}
use go_tumbler.Errors.{done, ok}
use go_tumbler.Kdf.{Kdf}
use go_tumbler.Kdf.Bounds.{WithinBounds}
use go_tumbler.Kdf.Derive.{derive, stretch}
use go_tumbler.Method.Frame.{rand_bytes-Frees, unwrap_dek-Yields}
use go_tumbler.Method.Password.{derive_password_key, derive_password_key-Yields}
use go_tumbler.Method.RoundTrip.{bind-ok, derived-ok, IsWrapped}
use go_tumbler.Method.RoundTrip.Shaped.{
  IsDrawn, Holds-IsLive, wrap_dek-IsShaped, wrap_dek-secrets, unwrap_dek-secrets,
}
use go_tumbler.Method.RoundTrip.Stretched.{
  IsStretched, derive-Holds, shape-IsStretched, derive_password_key-Returns,
}
use go_tumbler.Method.YubiKey.Answers.{IsKey, announce_touch-done}
use go_tumbler.Method.YubiKey.Tidy.{announce_touch-Frees, derive_challenge-Frees}
use go_tumbler.Method.YubiKey.{
  YubiKeyMethod, announce_touch, slot_valid, two_factor_inputs, two_factor_shape, derive_challenge,
  enroll_2fa, unlock_2fa,
}
use go_tumbler.Method.{rand_bytes, unwrap_dek, wrap_dek}
use go_tumbler.Secure.Container.{borrow, defer_destroy}
use go_tumbler.Secure.Frame.{Clean-refl, Yields, bind-Yields, scoped-Yields}
use go_tumbler.Secure.Returns.{
  Returns, Holds, Holds-Clean, Holds-Fresh, alive, with_value, ran-Holds, scoped-Returns,
  then-Returns,
}
use go_tumbler.Secure.World.{World, System, M, ◌>>=◌, ◌>>◌}
use go_tumbler.Slot.{Slot}

module _ (os : System) (c : Crypto) where
  abbrev ChallengeOf : Bytes → Bytes → Bytes → Type 0
  ChallengeOf raw salt challenge =
      hkdf_sha256_extract_expand os c raw salt label_challenge 32 ≡ ok challenge

  derive_challenge-ok :
      (pk : ℕ) (raw salt challenge : Bytes) (u v : World)
      → u.cell pk ≡ alive raw
      → derive_challenge os c pk salt u ≡ (ok challenge, v)
      → ChallengeOf raw salt challenge
  unfolding derive_challenge borrow
  derive_challenge-ok pk raw salt challenge u v cell e = ap (λ r. r.0) (rw cell at e)

  derive_challenge-ChallengeOf :
      (pk : ℕ) (raw salt challenge : Bytes) (u : World)
      → u.cell pk ≡ alive raw
      → ChallengeOf raw salt challenge
      → (derive_challenge os c pk salt u).0 ≡ ok challenge
  unfolding derive_challenge borrow
  derive_challenge-ChallengeOf pk raw salt challenge u cell e = rw cell e

  -- What `unlock_2fa` does with the password's key.
  abbrev opening : YubiKeyMethod → Slot → ℕ → M ℕ
  opening m s pk = do
    challenge ← derive_challenge os c pk s.chal_salt
    announce_touch m
    yr ← m.challenge_response s.yk_slot challenge
    defer_destroy os yr (unwrap_dek os c s (two_factor_inputs pk yr))

  opening-Yields :
      {respond : ℕ → Bytes → Bytes} (m : YubiKeyMethod) (s : Slot)
      → IsKey m respond
      → (pk : ℕ) → Yields (opening m s pk)
  opening-Yields m s key pk =
      bind-Yields (derive_challenge os c pk s.chal_salt) _
        (derive_challenge-Frees os c m key.tidy pk s.chal_salt)
        λ challenge. bind-Yields (announce_touch m) _ (announce_touch-Frees m key.tidy) λ _.
          scoped-Yields os (m.challenge_response s.yk_slot challenge) _
            (key.tidy.transport s.yk_slot challenge)
            λ yr. unwrap_dek-Yields os c s (two_factor_inputs pk yr)

  module _ (locks : (t : ℕ) → os.mlock t ≡ none) where
    -- The slot was sealed by the stretched password and the response of the key to the challenge
    -- that is derived from it.
    pub record IsEnrolledTogether (respond : ℕ → Bytes → Bytes) (k : Kdf) (s : Slot) (pt pw : Bytes)
        : Type 0 where
      pub raw : Bytes
      pub challenge : Bytes
      pub type : s.type ≡ 3
      pub drawn : IsDrawn os s
      pub valid : slot_valid s.yk_slot ≡ true
      pub stretched : IsStretched os c s k pw raw
      pub derived : ChallengeOf raw s.chal_salt challenge
      pub wrapped :
          IsWrapped os c locks s pt (some raw ∷ some (respond s.yk_slot challenge) ∷ none ∷ [])

    -- The part of the enrollment behind the password.
    module _ (m : YubiKeyMethod) (k : Kdf) (dek pk : ℕ) (kdf_salt : Bytes) where
      abbrev second_factor : M Slot
      second_factor = do
        chal_salt ← rand_bytes os 16
        challenge ← derive_challenge os c pk chal_salt
        announce_touch m
        yr ← m.challenge_response m.slot challenge
        defer_destroy os yr
            (wrap_dek os c dek (two_factor_inputs pk yr) (two_factor_shape m k kdf_salt chal_salt))

      second_factor-IsEnrolledTogether :
          (respond : ℕ → Bytes → Bytes) (s : Slot) (w w' : World) (pt pw raw : Bytes)
          → IsKey m respond
          → slot_valid m.slot ≡ true
          → stretch c k pw kdf_salt ≡ ok raw
          → Holds w dek pt
          → Holds w pk raw
          → second_factor w ≡ (ok s, w')
          → IsEnrolledTogether respond k s pt pw
      unfolding defer_destroy
      second_factor-IsEnrolledTogether respond s w w' pt pw raw key valid stretched at_dek at_pk h =
          bind-ok w (rand_bytes os 16) _ (Clean-refl w) (rand_bytes-Frees os 16) h
            λ salt u1 clean1 _ h1.
              bind-ok w (derive_challenge os c pk salt) _ clean1
                (derive_challenge-Frees os c m key.tidy pk salt) h1
                λ challenge u2 clean2 derives h2.
                  bind-ok w (announce_touch m) _ clean2 (announce_touch-Frees m key.tidy) h2
                    λ _ u3 clean3 _ h3.
                      derived-ok (m.challenge_response m.slot challenge u3) _ h3 λ yr v responds h4.
                        let (fresh, at_yr) =
                          ran-Holds (m.challenge_response m.slot challenge)
                            (respond m.slot challenge) u3 v yr (key.tidy.transport m.slot challenge)
                            (key.answers m.slot challenge u3 valid) responds in
                        let sh = two_factor_shape m k kdf_salt salt in
                        let wraps =
                          with_value (wrap_dek os c dek (two_factor_inputs pk yr) sh v) s
                            (ap (λ r. r.0) h4) in
                        let shape =
                          wrap_dek-IsShaped os c dek (two_factor_inputs pk yr) sh s v _ wraps in
                        let pk_now : Holds v pk raw =
                          Holds-Fresh fresh (Holds-Clean clean3 at_pk) in
                        record {
                          raw = raw;
                          challenge = challenge;
                          type = shape.type;
                          drawn = shape.drawn;
                          valid = ap slot_valid shape.yk_slot ∙ valid;
                          stretched =
                              shape-IsStretched os c s sh k pw raw shape refl refl stretched;
                          derived =
                              ap (λ x. hkdf_sha256_extract_expand os c raw x label_challenge 32)
                                shape.chal_salt
                              ∙ derive_challenge-ok pk raw salt challenge u1 u2
                                  (Holds-Clean clean1 at_pk).1 derives;
                          wrapped =
                              wrap_dek-secrets os c locks dek (two_factor_inputs pk yr) sh s v _ pt
                                (some raw ∷ some (respond s.yk_slot challenge) ∷ none ∷ [])
                                (
                                  Holds-IsLive v pk raw pk_now,
                                  (Holds-IsLive v yr (respond m.slot challenge) at_yr, (tt, tt)),
                                )
                                (ap (λ x. some x.buf ∷ some (v.cell yr).buf ∷ none ∷ []) pk_now.1
                                  ∙ ap (λ x. some raw ∷ some x.buf ∷ none ∷ []) at_yr.1
                                  ∙ ap (λ x. some raw ∷ some (respond x challenge) ∷ none ∷ [])
                                      (sym shape.yk_slot))
                                (Holds-Fresh fresh (Holds-Clean clean3 at_dek)) wraps;
                        }

    pub enroll-IsEnrolledTogether :
        (m : YubiKeyMethod) (respond : ℕ → Bytes → Bytes) (k : Kdf) (dek password : ℕ) (s : Slot)
        (w w' : World) (pt pw : Bytes)
        → IsKey m respond
        → slot_valid m.slot ≡ true
        → Holds w dek pt
        → Holds w password pw
        → enroll_2fa os c m dek (some k) password w ≡ (ok s, w')
        → IsEnrolledTogether respond k s pt pw
    unfolding enroll_2fa defer_destroy
    enroll-IsEnrolledTogether m respond k dek password s w w' pt pw key valid at_dek at_pw h =
        bind-ok w (rand_bytes os 16) _ (Clean-refl w) (rand_bytes-Frees os 16) h
          λ salt u clean _ h1. derived-ok (derive os c k password salt u) _ h1 λ pk v derives h2.
            let (raw, stretched, fresh, at_pk) =
              derive-Holds os c locks k password pw salt u v pk (Holds-Clean clean at_pw) derives in
            second_factor-IsEnrolledTogether m k dek pk salt respond s v _ pt pw raw key valid
              stretched (Holds-Fresh fresh (Holds-Clean clean at_dek)) at_pk
              (with_value (second_factor m k dek pk salt v) s (ap (λ r. r.0) h2))

    pub unlock-IsEnrolledTogether :
        (m : YubiKeyMethod) (respond : ℕ → Bytes → Bytes) (k : Kdf) (password : ℕ) (s : Slot)
        (u : World) (pt pw : Bytes)
        → ((key nonce p aad : Bytes)
            → c.aead_new key ≡ none
            → c.aead_open key nonce (c.aead_seal key nonce p aad) aad ≡ ok p)
        → IsKey m respond
        → WithinBounds k
        → IsEnrolledTogether respond k s pt pw
        → Holds u password pw
        → Returns pt (unlock_2fa os c m password s u)
    unfolding unlock_2fa
    unlock-IsEnrolledTogether m respond k password s u pt pw correct key within p at_pw =
        scoped-Returns os p.raw pt (derive_password_key os c s password) (opening m s) u
          (derive_password_key-Yields os c s password) (opening-Yields m s key)
          (derive_password_key-Returns os c s k password pw p.raw u within p.stretched at_pw
            (locks u.tick))
          λ pk v fresh cell.
            then-Returns pt (derive_challenge os c pk s.chal_salt) _ v p.challenge
              (derive_challenge-ChallengeOf pk p.raw s.chal_salt p.challenge v cell p.derived)
              (let v1 = (derive_challenge os c pk s.chal_salt v).1 in
                let at_v1 =
                  Holds-Clean (derive_challenge-Frees os c m key.tidy pk s.chal_salt v)
                    (fresh.below, cell) in
                then-Returns pt (announce_touch m) _ v1 done (announce_touch-done m respond v1 key)
                  (let at_v2 = Holds-Clean (announce_touch-Frees m key.tidy v1) at_v1 in
                    scoped-Returns os (respond s.yk_slot p.challenge) pt
                      (m.challenge_response s.yk_slot p.challenge)
                      (λ yr. unwrap_dek os c s (two_factor_inputs pk yr)) (announce_touch m v1).1
                      (key.tidy.transport s.yk_slot p.challenge)
                      (λ yr. unwrap_dek-Yields os c s (two_factor_inputs pk yr))
                      (key.answers s.yk_slot p.challenge (announce_touch m v1).1 p.valid)
                      λ yr x fresh2 cell2.
                        let at_x = Holds-Fresh fresh2 at_v2 in
                        unwrap_dek-secrets os c locks s pt (two_factor_inputs pk yr) x
                          (some p.raw ∷ some (respond s.yk_slot p.challenge) ∷ none ∷ []) correct
                          (
                            Holds-IsLive x pk p.raw at_x,
                            (
                              Holds-IsLive x yr (respond s.yk_slot p.challenge)
                                  (fresh2.below, cell2),
                              (tt, tt),
                            ),
                          )
                          (ap (λ z. some z.buf ∷ some (x.cell yr).buf ∷ none ∷ []) at_x.1
                            ∙ ap (λ z. some p.raw ∷ some z.buf ∷ none ∷ []) cell2)
                          p.wrapped))
