-- ===== src/Types/Strings.antt =====
-- `MethodType.String` and `Policy.String` of tumbler.go.
use go_tumbler.Base.{ℕ, ◌≡◌, true, ◌++◌, Bytes, ◌==◌, if◌then◌else◌, arith}
use go_tumbler.Base.Text.{codes}
use go_tumbler.Types.{
  method_password, method_yubikey, method_password_and_yubikey, method_recovery, method_valid,
  policy_password_only, policy_password_and_yubikey, policy_yubikey_only, policy_valid,
}

-- The decimal text of a number is a parameter (`%d` of fmt).
unfoldable pub method_type_string : (ℕ → Bytes) → ℕ → Bytes
method_type_string decimal t =
    if t == method_password
    then codes "password"
    else if t == method_yubikey
    then codes "yubikey"
    else if t == method_password_and_yubikey
    then codes "password+yubikey"
    else if t == method_recovery
    then codes "recovery"
    else codes "method(" ++ (decimal t ++ codes ")")

unfoldable pub policy_string : ℕ → Bytes
policy_string p =
    if p == policy_password_only
    then codes "password-only"
    else if p == policy_password_and_yubikey
    then codes "password-and-yubikey"
    else if p == policy_yubikey_only
    then codes "yubikey-only"
    else codes "invalid"

-- Valid method types have different texts.
pub method_type_string-injective :
    (decimal : ℕ → Bytes) (s t : ℕ)
    → method_valid s ≡ true
    → method_valid t ≡ true
    → method_type_string decimal s ≡ method_type_string decimal t
    → s ≡ t
unfolding method_type_string method_valid
method_type_string-injective decimal s t hs ht e = ground arith

-- A valid policy shares its text with no other policy, valid or not.
pub policy_string-injective :
    (p q : ℕ) → policy_valid p ≡ true → policy_string p ≡ policy_string q → p ≡ q
unfolding policy_string policy_valid
policy_string-injective p q valid e = ground arith
