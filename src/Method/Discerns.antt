-- ===== src/Method/Discerns.antt =====
-- What an envelope relies on to give nobody a wrong data key: a method that is tried on the slots
-- that another one enrolls gets the data key, or is told that its secret is wrong.
use go_tumbler.Base.{ℕ, ◌≡◌, none, some, Bytes}
use go_tumbler.Combine.{Crypto}
use go_tumbler.Errors.{ok}
use go_tumbler.Kdf.Bounds.{WithinBounds}
use go_tumbler.Kdf.Derive.{stretch}
use go_tumbler.Kdf.{Kdf}
use go_tumbler.Method.Password
use go_tumbler.Method.Password.{PasswordMethod}
use go_tumbler.Method.RecoveryCode
use go_tumbler.Method.RecoveryCode.{RecoveryCodeMethod}
use go_tumbler.Method.WrongSecret.{
  Authenticates, RightOrRefused, password-RightOrRefused, recovery-RightOrRefused,
}
use go_tumbler.Method.{Method}
use go_tumbler.Secure.Frame.{Clean}
use go_tumbler.Secure.Returns.{Holds, Holds-Clean}
use go_tumbler.Secure.World.{World, System}
use go_tumbler.Slot.{Slot}

-- Each slot that `m` enrolls for the data key `dek`, from `w` on, is opened by `m'` to `pt`, from `u`
-- on, or `m'` is told that its secret is wrong.
abbrev pub Discerns : Bytes → World → ℕ → Method → World → Method → Type 0
Discerns pt u dek m w m' =
    (s : Slot) (v v' x : World)
    → Clean w v
    → Clean u x
    → m.enroll dek v ≡ (ok s, v')
    → RightOrRefused pt (m'.unlock s x)

module _ (os : System) (c : Crypto) (locks : (t : ℕ) → os.mlock t ≡ none)
    (awake : (t : ℕ) → os.ctx_err t ≡ none) (auth : Authenticates os c locks) where
  pub password-Discerns :
      (m m' : PasswordMethod) (k : Kdf) (dek : ℕ) (w u : World) (pt pw pw' : Bytes)
      → m.kdf ≡ some k
      → WithinBounds k
      → ((salt : Bytes) → (raw : Bytes) × (stretch c k pw' salt ≡ ok raw))
      → Holds w dek pt
      → Holds w m.password pw
      → Holds u m'.password pw'
      → Discerns pt u dek (Password.as_method os c m) w (Password.as_method os c m')
  password-Discerns m m' k dek w u pt pw pw' kdf within stretches at_dek at_pw at_pw' s v v' x p q
        h =
      let (raw, stretched) = stretches s.kdf_salt in
      password-RightOrRefused os c locks m m' k dek s v v' x pt pw pw' raw auth kdf within stretched
        (awake x.tick) (Holds-Clean p at_dek) (Holds-Clean p at_pw) (Holds-Clean q at_pw') h

  pub recovery-Discerns :
      (m m' : RecoveryCodeMethod) (dek : ℕ) (w u : World) (pt code code' : Bytes)
      → Holds w dek pt
      → Holds w m.code code
      → Holds u m'.code code'
      → Discerns pt u dek (RecoveryCode.as_method os c m) w (RecoveryCode.as_method os c m')
  recovery-Discerns m m' dek w u pt code code' at_dek at_code at_code' s v v' x p q h =
      recovery-RightOrRefused os c locks m m' dek s v v' x pt code code' auth (awake x.tick)
        (Holds-Clean p at_dek) (Holds-Clean p at_code) (Holds-Clean q at_code') h
