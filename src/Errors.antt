-- ===== src/Errors.antt =====
-- The sentinel errors of tumbler.go, recovery.go, securebytes/securebytes.go and
-- transport/transport.go, and Go's pair of a value and an error.
-- An error that wraps a sentinel with more text is that sentinel here; one that wraps two errors is
-- a `ToolError` of Transport.Ykman.
use go_tumbler.Base.{ℕ, Bool, true, false, ◌≡◌, refl}

pub data Error : Type 0 where
  auth_failed bad_magic bad_version short_data malformed slot_not_found no_methods : Error
  dek_size kdf_params unsupported_kdf unsupported_aead policy_mismatch policy_unsafe : Error
  invalid_recovery_code : Error
  destroyed negative_size : Error
  tool_not_found tool_version no_device touch_timeout slot_not_configured : Error
  bad_response tool_failure not_implemented : Error
  -- an error of the system below: a cancelled context, the random source, mlock, a cipher
  external : ℕ → Error

-- `errors.Is(err, ErrAuthFailed)`
abbrev pub is_auth_failed : Error → Bool
is_auth_failed auth_failed = true
is_auth_failed _ = false

-- A value, or the error in its place.
pub data Result {ℓ} (Value : Type ℓ) : Type ℓ where
  ok : Value → Result Value
  err : Error → Result Value

-- `v, e := m; if e != nil { return e }`, and the rest of the function.
infixl 5 ◌>>=◌
abbrev pub ◌>>=◌ {ℓ κ} : {V : Type ℓ} {W : Type κ} → Result V → (V → Result W) → Result W
◌>>=◌ (err e) _ = err e
◌>>=◌ (ok v) rest = rest v

-- The value of a step that only succeeds: a nil error.
pub data Done : Type 0 where
  done : Done

-- `if !b { return err }`
abbrev pub guard : Bool → Error → Result Done
guard false e = err e
guard true _ = ok done

infixl 5 ◌>>◌
abbrev pub ◌>>◌ {ℓ} : {W : Type ℓ} → Result Done → Result W → Result W
◌>>◌ step rest = step >>= λ _. rest

-- Where a function returned a value, its first step had one.
pub first_ok {ℓ κ} :
    {V : Type ℓ} {W : Type κ} {w : W} (step : Result V) (rest : V → Result W)
    → (step >>= rest) ≡ ok w
    → (v : V) × (step ≡ ok v) × (rest v ≡ ok w)
first_ok (err e) rest h = cc
first_ok (ok v) rest h = (v, refl, h)

-- A guard in a chain that succeeded held.
pub guard-bind {κ μ} :
    {B : Type κ} {C : Type μ} (t : Bool) (e : Error) (k : Done → Result B) {b : B}
    → (guard t e >>= k) ≡ ok b
    → (t ≡ true → k done ≡ ok b → C)
    → C
guard-bind true e k h later = later refl h
guard-bind false e k h later = cc

-- A step with no value, in a chain that succeeded.
pub done-bind {κ μ} :
    {B : Type κ} {C : Type μ} (m : Result Done) (k : Done → Result B) {b : B}
    → (m >>= k) ≡ ok b
    → (m ≡ ok done → k done ≡ ok b → C)
    → C
done-bind (ok done) k h later = later refl h
done-bind (err e) k h later = cc

pub ok-injective {ℓ} : {A : Type ℓ} {a b : A} → ok a ≡ ok b → a ≡ b
ok-injective h = cc
