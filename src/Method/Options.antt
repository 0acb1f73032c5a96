-- ===== src/Method/Options.antt =====
-- method.go and the constructors of the three methods: functional options.
use go_tumbler.Base.{ℕ, ◌≡◌, refl, Option, none, some, List, [], ◌∷◌, Bytes}
use go_tumbler.Base.Text.{codes}
use go_tumbler.Errors.{Done}
use go_tumbler.Kdf.{Kdf}
use go_tumbler.Method.Password.{PasswordMethod}
use go_tumbler.Method.RecoveryCode.{RecoveryCodeMethod}
use go_tumbler.Method.YubiKey.{YubiKeyMethod}
use go_tumbler.Secure.World.{M}
use go_tumbler.Transport.{Transport}

-- `Option`, which one of the two functions `WithLabel` and `WithTouchAnnounce` returned; a callback
-- may be nil.
pub data MethodOption : Type 0 where
  with_label : Bytes → MethodOption
  with_touch_announce : Option (M Done) → MethodOption

-- `methodOptions`
pub record MethodOptions : Type 0 where
  pub label : Bytes
  pub touch_announce : Option (M Done)

abbrev pub apply_option : MethodOption → MethodOptions → MethodOptions
apply_option (with_label label) o = record o { label = label }
apply_option (with_touch_announce fn) o = record o { touch_announce = fn }

-- The loop of `applyOptions`.
unfoldable pub apply_all : List MethodOption → MethodOptions → MethodOptions
apply_all [] o = o
apply_all (fn ∷ opts) o = apply_all opts (apply_option fn o)

unfoldable pub apply_options : Bytes → List MethodOption → MethodOptions
unfolding apply_all
apply_options default_label opts =
    apply_all opts (record { label = default_label; touch_announce = none })

unfoldable pub new_password_method : Option Kdf → ℕ → List MethodOption → PasswordMethod
unfolding apply_options
new_password_method kdf password opts = record {
  kdf = kdf;
  password = password;
  label = (apply_options (codes "password") opts).label;
}

unfoldable pub new_recovery_method : ℕ → List MethodOption → RecoveryCodeMethod
unfolding apply_options
new_recovery_method code opts = record {
  code = code;
  label = (apply_options (codes "recovery-code") opts).label;
}

-- `YubiKeyConfig`
pub record YubiKeyConfig : Type 0 where
  pub slot : ℕ
  pub kdf : Option Kdf

abbrev pub default_label : Option ℕ → Bytes
default_label none = codes "yubikey"
default_label (some password) = codes "password+yubikey"

unfoldable pub new_yubikey_method :
    Transport → YubiKeyConfig → Option ℕ → List MethodOption → YubiKeyMethod
unfolding apply_options
new_yubikey_method t cfg password opts =
    let o = apply_options (default_label password) opts in
    record {
      challenge_response = t.challenge_response;
      slot = cfg.slot;
      kdf = cfg.kdf;
      password = password;
      label = o.label;
      on_touch = o.touch_announce;
    }

-- The last member, or the default.
abbrev pub last_or {ℓ} : {A : Type ℓ} → A → List A → A
last_or a [] = a
last_or a (b ∷ bs) = last_or b bs

abbrev pub labels : List MethodOption → List Bytes
labels [] = []
labels (with_label label ∷ opts) = label ∷ labels opts
labels (with_touch_announce fn ∷ opts) = labels opts

abbrev pub callbacks : List MethodOption → List (Option (M Done))
callbacks [] = []
callbacks (with_label label ∷ opts) = callbacks opts
callbacks (with_touch_announce fn ∷ opts) = fn ∷ callbacks opts

apply_all_last :
    (opts : List MethodOption) (o : MethodOptions)
    → ((apply_all opts o).label ≡ last_or o.label (labels opts))
      × ((apply_all opts o).touch_announce ≡ last_or o.touch_announce (callbacks opts))
unfolding apply_all
apply_all_last [] o = (refl, refl)
apply_all_last (with_label label ∷ opts) o = apply_all_last opts (record o { label = label })
apply_all_last (with_touch_announce fn ∷ opts) o =
    apply_all_last opts (record o { touch_announce = fn })

-- The last label and the last callback among the options count, whatever stands between them, and
-- without one the default label and no callback.
pub apply_options_last :
    (label : Bytes) (opts : List MethodOption)
    → ((apply_options label opts).label ≡ last_or label (labels opts))
      × ((apply_options label opts).touch_announce ≡ last_or none (callbacks opts))
unfolding apply_options
apply_options_last label opts =
    apply_all_last opts (record { label = label; touch_announce = none })
