-- ===== src/Method/RoundTrip/ByPassword.antt =====
-- A slot that the password method enrolled is opened by it again.
use go_tumbler.Base.{ℕ, ◌≡◌, refl, sym, ap, ◌∙◌, none, some, [], ◌∷◌, Bytes}
use go_tumbler.Combine.{Crypto}
use go_tumbler.Errors.{done, ok}
use go_tumbler.Kdf.{Kdf}
use go_tumbler.Kdf.Bounds.{WithinBounds}
use go_tumbler.Kdf.Derive.{derive}
use go_tumbler.Method.Frame.{check_ctx-Frees, rand_bytes-Frees, unwrap_dek-Yields}
use go_tumbler.Method.Password
use go_tumbler.Method.Password.{
  PasswordMethod, password_inputs, password_shape, derive_password_key, derive_password_key-Yields,
}
use go_tumbler.Method.RoundTrip.{bind-ok, derived-ok, IsWrapped}
use go_tumbler.Method.RoundTrip.Shaped.{
  IsDrawn, check_ctx-done, Holds-IsLive, wrap_dek-IsShaped, wrap_dek-secrets, unwrap_dek-secrets,
}
use go_tumbler.Method.RoundTrip.Stretched.{
  IsStretched, derive-Holds, shape-IsStretched, derive_password_key-Returns,
}
use go_tumbler.Method.{check_ctx, rand_bytes, unwrap_dek, wrap_dek}
use go_tumbler.Secure.Container.{defer_destroy}
use go_tumbler.Secure.Frame.{Clean-refl}
use go_tumbler.Secure.Returns.{
  Returns, Holds, Holds-Clean, Holds-Fresh, with_value, scoped-Returns, then-Returns,
}
use go_tumbler.Secure.World.{World, System}
use go_tumbler.Slot.{Slot}

module _ (os : System) (c : Crypto) (locks : (t : ℕ) → os.mlock t ≡ none) where
  -- The slot was sealed by the stretched password, and keeps the parameters to stretch it again.
  pub record IsEnrolled (s : Slot) (k : Kdf) (pt pw : Bytes) : Type 0 where
    pub raw : Bytes
    pub type : s.type ≡ 1
    pub drawn : IsDrawn os s
    pub stretched : IsStretched os c s k pw raw
    pub wrapped : IsWrapped os c locks s pt (some raw ∷ none ∷ none ∷ [])

  enroll-IsEnrolled :
      (m : PasswordMethod) (k : Kdf) (dek : ℕ) (s : Slot) (w w' : World) (pt pw : Bytes)
      → Holds w dek pt
      → Holds w m.password pw
      → Password.enroll_with os c m dek (some k) w ≡ (ok s, w')
      → IsEnrolled s k pt pw
  unfolding Password.enroll_with defer_destroy
  enroll-IsEnrolled m k dek s w w' pt pw at_dek at_pw h =
      bind-ok w (rand_bytes os 16) _ (Clean-refl w) (rand_bytes-Frees os 16) h λ salt u clean _ h1.
        derived-ok (derive os c k m.password salt u) _ h1 λ pk v derives h2.
          let (raw, stretched, fresh, at_pk) =
            derive-Holds os c locks k m.password pw salt u v pk (Holds-Clean clean at_pw) derives in
          let wraps =
            with_value (wrap_dek os c dek (password_inputs pk) (password_shape m k salt) v) s
              (ap (λ r. r.0) h2) in
          let shape =
            wrap_dek-IsShaped os c dek (password_inputs pk) (password_shape m k salt) s v _ wraps in
          record {
            raw = raw;
            type = shape.type;
            drawn = shape.drawn;
            stretched =
                shape-IsStretched os c s (password_shape m k salt) k pw raw shape refl refl
                  stretched;
            wrapped =
                wrap_dek-secrets os c locks dek (password_inputs pk) (password_shape m k salt) s v _
                  pt (some raw ∷ none ∷ none ∷ []) (Holds-IsLive v pk raw at_pk, (tt, (tt, tt)))
                  (ap (λ x. some x.buf ∷ none ∷ none ∷ []) at_pk.1)
                  (Holds-Fresh fresh (Holds-Clean clean at_dek)) wraps;
          }

  unlock-IsEnrolled :
      (m : PasswordMethod) (k : Kdf) (s : Slot) (u : World) (pt pw : Bytes)
      → ((key nonce p aad : Bytes)
          → c.aead_new key ≡ none
          → c.aead_open key nonce (c.aead_seal key nonce p aad) aad ≡ ok p)
      → WithinBounds k
      → IsEnrolled s k pt pw
      → os.ctx_err u.tick ≡ none
      → Holds u m.password pw
      → Returns pt (Password.unlock os c m s u)
  unfolding Password.unlock
  unlock-IsEnrolled m k s u pt pw correct within p awake at_pw =
      then-Returns pt (check_ctx os) _ u done (check_ctx-done os u awake) (
        scoped-Returns os p.raw pt (derive_password_key os c s m.password)
          (λ pk. unwrap_dek os c s (password_inputs pk)) (check_ctx os u).1
          (derive_password_key-Yields os c s m.password)
          (λ pk. unwrap_dek-Yields os c s (password_inputs pk))
          (derive_password_key-Returns os c s k m.password pw p.raw (check_ctx os u).1 within
            p.stretched (Holds-Clean (check_ctx-Frees os u) at_pw) (locks (check_ctx os u).1.tick))
          λ pk v fresh cell.
            unwrap_dek-secrets os c locks s pt (password_inputs pk) v
              (some p.raw ∷ none ∷ none ∷ []) correct
              (Holds-IsLive v pk p.raw (fresh.below, cell), (tt, (tt, tt)))
              (ap (λ x. some x.buf ∷ none ∷ none ∷ []) cell) p.wrapped)

  pub enroll-IsEnrolled_password :
      (m : PasswordMethod) (k : Kdf) (dek : ℕ) (s : Slot) (w w' : World) (pt pw : Bytes)
      → m.kdf ≡ some k
      → Holds w dek pt
      → Holds w m.password pw
      → Password.enroll os c m dek w ≡ (ok s, w')
      → IsEnrolled s k pt pw
  unfolding Password.enroll
  enroll-IsEnrolled_password m k dek s w w' pt pw kdf at_dek at_pw h =
      bind-ok w (check_ctx os) _ (Clean-refl w) (check_ctx-Frees os) h λ _ v clean _ h1.
        enroll-IsEnrolled m k dek s v w' pt pw (Holds-Clean clean at_dek) (Holds-Clean clean at_pw)
          (ap (λ o. Password.enroll_with os c m dek o v) (sym kdf) ∙ h1)

  -- Where memory can be locked, the cipher opens what it sealed and the context is not done, a slot
  -- that `enroll` of the password method returned, with a KDF within the safety bounds, is unlocked
  -- from the slot alone, in any later store and by any password method whose password has the same
  -- bytes, to a new live container with the data key.
  pub unlock-enroll_password :
      (m m' : PasswordMethod) (k : Kdf) (dek : ℕ) (s : Slot) (w w' u : World) (pt pw : Bytes)
      → ((key nonce p aad : Bytes)
          → c.aead_new key ≡ none
          → c.aead_open key nonce (c.aead_seal key nonce p aad) aad ≡ ok p)
      → m.kdf ≡ some k
      → WithinBounds k
      → os.ctx_err u.tick ≡ none
      → Holds w dek pt
      → Holds w m.password pw
      → Holds u m'.password pw
      → Password.enroll os c m dek w ≡ (ok s, w')
      → Returns pt (Password.unlock os c m' s u)
  unlock-enroll_password m m' k dek s w w' u pt pw correct kdf within awake at_dek at_pw at_pw' h =
      unlock-IsEnrolled m' k s u pt pw correct within
        (enroll-IsEnrolled_password m k dek s w w' pt pw kdf at_dek at_pw h) awake at_pw'
