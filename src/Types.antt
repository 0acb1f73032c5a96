-- ===== src/Types.antt =====
-- The method types, policies and bounds of tumbler.go. `MethodType`, `Policy`, `AEADID` and
-- `KDFID` are uint8 in the source, and a parsed byte may be any value: here they are numbers.
pub mod Strings
use go_tumbler.Base.{ℕ, Bool, ◌&&◌, leb, ◌==◌, if◌then◌else◌}

abbrev pub format_version : ℕ
format_version = 1

abbrev pub method_password : ℕ
method_password = 1

abbrev pub method_yubikey : ℕ
method_yubikey = 2

abbrev pub method_password_and_yubikey : ℕ
method_password_and_yubikey = 3

abbrev pub method_recovery : ℕ
method_recovery = 4

-- `MethodType.valid`
unfoldable pub method_valid : ℕ → Bool
method_valid t = leb method_password t && leb t method_recovery

abbrev pub policy_invalid : ℕ
policy_invalid = 0

abbrev pub policy_password_only : ℕ
policy_password_only = 1

abbrev pub policy_password_and_yubikey : ℕ
policy_password_and_yubikey = 2

abbrev pub policy_yubikey_only : ℕ
policy_yubikey_only = 3

-- `Policy.valid`
unfoldable pub policy_valid : ℕ → Bool
policy_valid p = leb policy_password_only p && leb p policy_yubikey_only

unfoldable pub policy_for_method : ℕ → ℕ
policy_for_method t =
    if t == method_password
    then policy_password_only
    else if t == method_yubikey
    then policy_yubikey_only
    else if t == method_password_and_yubikey
    then policy_password_and_yubikey
    else policy_invalid

abbrev pub aead_chacha20poly1305 : ℕ
aead_chacha20poly1305 = 1

abbrev pub kdf_none : ℕ
kdf_none = 0

abbrev pub kdf_argon2id : ℕ
kdf_argon2id = 1

abbrev pub kdf_scrypt : ℕ
kdf_scrypt = 2

abbrev pub max_dek_len : ℕ
max_dek_len = 240

abbrev pub wrapped_overhead : ℕ
wrapped_overhead = 16
