-- ===== src/Method/Reopens.antt =====
-- What an envelope relies on to be opened again: a method opens each slot that another one enrolls.
use go_tumbler.Base.{ℕ, ◌≡◌, none, some, Bytes}
use go_tumbler.Combine.{Crypto}
use go_tumbler.Errors.{ok}
use go_tumbler.Kdf.{Kdf}
use go_tumbler.Kdf.Bounds.{WithinBounds}
use go_tumbler.Method.Password
use go_tumbler.Method.Password.{PasswordMethod}
use go_tumbler.Method.RecoveryCode
use go_tumbler.Method.RecoveryCode.{RecoveryCodeMethod}
use go_tumbler.Method.RoundTrip.ByPassword.{unlock-enroll_password}
use go_tumbler.Method.RoundTrip.ByRecoveryCode.{unlock-enroll_recovery}
use go_tumbler.Method.YubiKey
use go_tumbler.Method.YubiKey.{YubiKeyMethod}
use go_tumbler.Method.YubiKey.Answers.{IsKey}
use go_tumbler.Method.YubiKey.RoundTrip.{SameMode, key_alone, with_password, unlock-enroll_yubikey}
use go_tumbler.Method.{Method}
use go_tumbler.Secure.Frame.{Clean}
use go_tumbler.Secure.Returns.{Returns, Holds, Holds-Clean}
use go_tumbler.Secure.World.{World, System}
use go_tumbler.Slot.{Slot}
use go_tumbler.Base.{Option}

-- Each slot that `m` enrolls for the data key `dek`, from `w` on, is unlocked by `m'`, from `u` on,
-- to a new live container with the bytes `pt`.
abbrev pub Reopens : Method → Method → ℕ → Bytes → World → World → Type 0
Reopens m m' dek pt w u =
    (s : Slot) (v v' x : World)
    → Clean w v
    → Clean u x
    → m.enroll dek v ≡ (ok s, v')
    → Returns pt (m'.unlock s x)

module _ (os : System) (c : Crypto) (locks : (t : ℕ) → os.mlock t ≡ none)
    (awake : (t : ℕ) → os.ctx_err t ≡ none)
    (correct : (key nonce p aad : Bytes)
      → c.aead_new key ≡ none
      → c.aead_open key nonce (c.aead_seal key nonce p aad) aad ≡ ok p) where
  pub password-Reopens :
      (m m' : PasswordMethod) (k : Kdf) (dek : ℕ) (w u : World) (pt pw : Bytes)
      → m.kdf ≡ some k
      → WithinBounds k
      → Holds w dek pt
      → Holds w m.password pw
      → Holds u m'.password pw
      → Reopens (Password.as_method os c m) (Password.as_method os c m') dek pt w u
  password-Reopens m m' k dek w u pt pw kdf within at_dek at_pw at_pw' s v v' x p q h =
      unlock-enroll_password os c locks m m' k dek s v v' x pt pw correct kdf within (awake x.tick)
        (Holds-Clean p at_dek) (Holds-Clean p at_pw) (Holds-Clean q at_pw') h

  pub recovery-Reopens :
      (m m' : RecoveryCodeMethod) (dek : ℕ) (w u : World) (pt code : Bytes)
      → Holds w dek pt
      → Holds w m.code code
      → Holds u m'.code code
      → Reopens (RecoveryCode.as_method os c m) (RecoveryCode.as_method os c m') dek pt w u
  recovery-Reopens m m' dek w u pt code at_dek at_code at_code' s v v' x p q h =
      unlock-enroll_recovery os c locks m m' dek s v v' x pt code correct (awake x.tick)
        (Holds-Clean p at_dek) (Holds-Clean p at_code) (Holds-Clean q at_code') h

  later-SameMode :
      {w u v x : World} {kdf : Option Kdf} {o o' : Option ℕ}
      → Clean w v
      → Clean u x
      → SameMode w u kdf o o'
      → SameMode v x kdf o o'
  later-SameMode p q key_alone = key_alone
  later-SameMode p q (with_password a b pw k kdf within at_a at_b) =
      with_password a b pw k kdf within (Holds-Clean p at_a) (Holds-Clean q at_b)

  pub yubikey-Reopens :
      (m m' : YubiKeyMethod) (respond : ℕ → Bytes → Bytes) (dek : ℕ) (w u : World) (pt : Bytes)
      → IsKey m respond
      → IsKey m' respond
      → SameMode w u m.kdf m.password m'.password
      → Holds w dek pt
      → Reopens (YubiKey.as_method os c m) (YubiKey.as_method os c m') dek pt w u
  yubikey-Reopens m m' respond dek w u pt key key' mode at_dek s v v' x p q h =
      unlock-enroll_yubikey os c locks m m' respond dek s v v' x pt correct key key'
        (later-SameMode p q mode) (awake x.tick) (Holds-Clean p at_dek) h
