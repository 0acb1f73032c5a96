-- ===== src/Method/WrongSecret.antt =====
-- A slot that is unwrapped with whatever secrets: the right data key, or a refusal.
use go_tumbler.Base.{
  ℕ, ◌≡◌, ◌⊎◌, inl, inr, refl, sym, ap, ◌∙◌, none, some, Option, List, [], ◌∷◌, Bytes, All,
}
use go_tumbler.Combine.Ikm.{IsLive}
use go_tumbler.Combine.Kek.{new-destroy}
use go_tumbler.Combine.{Crypto, IkmInputs, roles, opened, hkdf_sha256_extract_expand}
use go_tumbler.Errors.{done, auth_failed, Result, ok, err}
use go_tumbler.Kdf.{Kdf}
use go_tumbler.Kdf.Bounds.{WithinBounds}
use go_tumbler.Kdf.Derive.{stretch}
use go_tumbler.Method.Frame.{check_ctx-Frees, unwrap_dek-Yields}
use go_tumbler.Method.Password
use go_tumbler.Method.Password.{
  PasswordMethod, password_inputs, derive_password_key, derive_password_key-Yields,
}
use go_tumbler.Method.RecoveryCode
use go_tumbler.Method.RecoveryCode.{RecoveryCodeMethod, recovery_inputs}
use go_tumbler.Method.RoundTrip.ByPassword.{enroll-IsEnrolled_password}
use go_tumbler.Method.RoundTrip.ByRecoveryCode.{enroll-IsWrapped_recovery}
use go_tumbler.Method.RoundTrip.Shaped.{Holds-IsLive, check_ctx-done}
use go_tumbler.Method.RoundTrip.Stretched.{derive_password_key-Returns}
use go_tumbler.Method.RoundTrip.{IsWrapped, unwrap_dek-opened}
use go_tumbler.Method.{check_ctx, unwrap_dek}
use go_tumbler.Secure.Container.{defer_destroy}
use go_tumbler.Secure.Frame.{Fresh, Yields}
use go_tumbler.Secure.Returns.{
  Returns, Holds, Holds-Clean, with_value, value-Fresh, alive, deferred-Returns,
}
use go_tumbler.Secure.World.{World, System, M, and_then, ◌>>=◌, ◌>>◌}
use go_tumbler.Slot.{Slot}
use mathlib.Core.Path.{subst}

-- What a container was got with, or the refusal.
abbrev pub RightOrRefused : Bytes → Result ℕ × World → Type 0
RightOrRefused pt r = Returns pt r ⊎ (r.0 ≡ err auth_failed)

pub then-RightOrRefused :
    (os : System) (pt : Bytes) (k : M ℕ) (u : World)
    → os.ctx_err u.tick ≡ none
    → RightOrRefused pt (k (check_ctx os u).1)
    → RightOrRefused pt ((check_ctx os >> k) u)
then-RightOrRefused os pt k u awake later =
    subst (λ r. RightOrRefused pt (and_then r (λ _. k)))
      (sym (with_value (check_ctx os u) done (check_ctx-done os u awake))) later

module _ (os : System) (c : Crypto) (locks : (t : ℕ) → os.mlock t ≡ none) where
  opened-RightOrRefused :
      (pt : Bytes) (kek : ℕ) (u v : World) (r : Result Bytes)
      → Fresh u kek v
      → ((p : Bytes) → r ≡ ok p → p ≡ pt)
      → RightOrRefused pt (defer_destroy os kek (opened os c r) v)
  unfolding defer_destroy
  opened-RightOrRefused pt kek u v (ok p) fresh same =
      subst (λ b. RightOrRefused pt (defer_destroy os kek (opened os c (ok b)) v))
        (sym (same p refl))
        (let (value, cell) = new-destroy os c locks u v kek pt fresh in inl (v.next, value, cell))
  opened-RightOrRefused pt kek u v (err e) fresh same = inr refl

  -- What is documented of the KDF and of the cipher: HKDF gives a key of the length that was asked
  -- for, the cipher takes keys of 32 bytes, and what it opens is what was sealed.
  pub record Authenticates : Type 0 where
    pub expands :
        (ikm salt info : Bytes)
        → (key : Bytes) × (hkdf_sha256_extract_expand os c ikm salt info 32 ≡ ok key)
          × (c.aead_new key ≡ none)
    pub as_sealed :
        (key key' nonce p p' aad : Bytes)
        → c.aead_open key' nonce (c.aead_seal key nonce p aad) aad ≡ ok p'
        → p' ≡ p

  pub unwrap_dek-RightOrRefused :
      (s : Slot) (pt : Bytes) (secrets : List (Option Bytes)) (j : IkmInputs) (u : World)
      → Authenticates
      → IsWrapped os c locks s pt secrets
      → All (IsLive u) (roles j)
      → RightOrRefused pt (unwrap_dek os c s j u)
  unwrap_dek-RightOrRefused s pt secrets j u auth w live =
      let (key, derived, accepted) = auth.expands _ s.hkdf_salt _ in
      let (kek, v, fresh, ran) =
        unwrap_dek-opened os c locks s j u key w.aad live derived accepted w.stored in
      subst (RightOrRefused pt) (sym ran) (
        opened-RightOrRefused pt kek u v _ fresh λ p opens.
          auth.as_sealed w.key key s.nonce pt p w.aad
            (ap (λ x. c.aead_open key s.nonce x w.aad) (sym w.sealed) ∙ opens))

  -- A container with `raw` is made, used by the rest of the function, and wiped.
  scoped-RightOrRefused :
      (raw pt : Bytes) (m : M ℕ) (k : ℕ → M ℕ) (u : World)
      → Yields m
      → ((h : ℕ) → Yields (k h))
      → Returns raw (m u)
      → ((h : ℕ) (v : World) → Fresh u h v → v.cell h ≡ alive raw → RightOrRefused pt (k h v))
      → RightOrRefused pt ((m >>= λ h. defer_destroy os h (k h)) u)
  unfolding defer_destroy
  scoped-RightOrRefused raw pt m k u y y' (h, value, cell) inner =
      let v = (m u).1 in
      let fresh = value-Fresh u h (m u) value (y u) in
      subst (λ r. RightOrRefused pt (and_then r (λ x. defer_destroy os x (k x))))
        (sym (with_value (m u) h value))
        (elim (inner h v fresh cell) [
          | inl right ↦ inl (deferred-Returns os pt h u v (k h v) fresh (y' h v) right)
          | inr refused ↦ inr refused
        ])

  -- A slot that `enroll` of the recovery-code method returned, tried with any code that can be read:
  -- the method answers the data key that was enrolled, in a new live container, or `auth_failed`,
  -- and never another key. Memory can be locked, the context is not done, HKDF gives keys that the
  -- cipher takes, and the cipher opens to nothing but what was sealed.
  pub recovery-RightOrRefused :
      (m m' : RecoveryCodeMethod) (dek : ℕ) (s : Slot) (w w' u : World) (pt code code' : Bytes)
      → Authenticates
      → os.ctx_err u.tick ≡ none
      → Holds w dek pt
      → Holds w m.code code
      → Holds u m'.code code'
      → RecoveryCode.enroll os c m dek w ≡ (ok s, w')
      → RightOrRefused pt (RecoveryCode.unlock os c m' s u)
  unfolding RecoveryCode.unlock
  recovery-RightOrRefused m m' dek s w w' u pt code code' auth awake at_dek at_code at_code' h =
      then-RightOrRefused os pt _ u awake (
        let v = (check_ctx os u).1 in
        unwrap_dek-RightOrRefused s pt (none ∷ none ∷ some code ∷ []) (recovery_inputs m'.code) v
          auth (enroll-IsWrapped_recovery os c locks m dek s w w' pt code at_dek at_code h).1
          (
            tt,
            (tt, (Holds-IsLive v m'.code code' (Holds-Clean (check_ctx-Frees os u) at_code'), tt)),
          ))

  -- A slot that `enroll` of the password method returned, tried with any password that can be read
  -- and that the KDF stretches: the method answers the data key that was enrolled, in a new live
  -- container, or `auth_failed`, and never another key. Memory can be locked, the context is not
  -- done, the KDF is within the bounds, HKDF gives keys that the cipher takes, and the cipher opens
  -- to nothing but what was sealed.
  pub password-RightOrRefused :
      (m m' : PasswordMethod) (k : Kdf) (dek : ℕ) (s : Slot) (w w' u : World)
      (pt pw pw' raw : Bytes)
      → Authenticates
      → m.kdf ≡ some k
      → WithinBounds k
      → stretch c k pw' s.kdf_salt ≡ ok raw
      → os.ctx_err u.tick ≡ none
      → Holds w dek pt
      → Holds w m.password pw
      → Holds u m'.password pw'
      → Password.enroll os c m dek w ≡ (ok s, w')
      → RightOrRefused pt (Password.unlock os c m' s u)
  unfolding Password.unlock
  password-RightOrRefused m m' k dek s w w' u pt pw pw' raw auth kdf within stretches awake at_dek
        at_pw at_pw' h =
      let p = enroll-IsEnrolled_password os c locks m k dek s w w' pt pw kdf at_dek at_pw h in
      let v = (check_ctx os u).1 in
      then-RightOrRefused os pt _ u awake (
        scoped-RightOrRefused raw pt (derive_password_key os c s m'.password)
          (λ pk. unwrap_dek os c s (password_inputs pk)) v
          (derive_password_key-Yields os c s m'.password)
          (λ pk. unwrap_dek-Yields os c s (password_inputs pk))
          (derive_password_key-Returns os c s k m'.password pw' raw v within
            (record { id = p.stretched.id; params = p.stretched.params; stretched = stretches })
            (Holds-Clean (check_ctx-Frees os u) at_pw') (locks v.tick))
          λ pk x fresh cell.
            unwrap_dek-RightOrRefused s pt (some p.raw ∷ none ∷ none ∷ []) (password_inputs pk) x
              auth p.wrapped (Holds-IsLive x pk raw (fresh.below, cell), (tt, (tt, tt))))
