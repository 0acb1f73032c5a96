-- ===== src/Tests/RoundTrips.antt =====
-- Enrolling and unlocking with each method, on samples.
use go_tumbler.Base.{
  ℕ, Bool, true, false, if◌then◌else◌, ltb, ◌==◌, ◌≡◌, refl, none, some, List, [], ◌∷◌, ◌++◌, Bytes,
  arith, replicate,
}
use go_tumbler.Base.Text.{codes}
use go_tumbler.Combine.{
  build_ikm, derive_kek, write_roles, roles_size, hkdf_sha256_extract_expand, seal, open_wrapped,
}
use go_tumbler.Envelope.{
  effective_policy, policy_loop, add_slot, enroll_all, new_envelope, unlock, try_slots, try_methods,
}
use go_tumbler.Envelope.Access.{unlock-add_slot}
use go_tumbler.Errors.{Result, ok, err}
use go_tumbler.Kdf.{Kdf, parse_kdf, argon2id, marshal_params, kdf_id}
use go_tumbler.Kdf.Bounds.{WithinBounds}
use go_tumbler.Kdf.Derive.{derive, stretch}
use go_tumbler.Method.Password
use go_tumbler.Method.Password.{PasswordMethod}
use go_tumbler.Method.RecoveryCode
use go_tumbler.Method.RecoveryCode.{RecoveryCodeMethod}
use go_tumbler.Method.RoundTrip.ByPassword.{unlock-enroll_password}
use go_tumbler.Method.RoundTrip.ByRecoveryCode.{unlock-enroll_recovery}
use go_tumbler.Method.YubiKey
use go_tumbler.Method.YubiKey.{YubiKeyMethod}
use go_tumbler.Method.YubiKey.Answers.{IsKey}
use go_tumbler.Method.YubiKey.RoundTrip.{with_password, unlock-enroll_yubikey}
use go_tumbler.Method.{Method, check_ctx, wrap_dek, unwrap_dek, rand_bytes}
use go_tumbler.Secure.Container.{
  new, new_slice, destroy, borrow, len, new_filled, new_zero, borrow_fill, defer_destroy,
}
use go_tumbler.Secure.Frame.{Clean-refl}
use go_tumbler.Secure.Returns.{Returns, Holds}
use go_tumbler.Secure.World.{World}
use go_tumbler.Slot.{Slot, Envelope}
use go_tumbler.Tests.Samples.{calm, plain, plain-opens, start}
use go_tumbler.Text.Space.{trim_space, drop_front, drop_back, fields, fields_from}
use go_tumbler.Text.Search.{to_lower, lower_from}
use go_tumbler.Text.Hex.{hex_encode, hex_decode}
use go_tumbler.Transport.Ykman
use go_tumbler.Transport.Ykman.{YkmanTransport, only_hex40, extract_response_hex, decode_response}
use go_tumbler.Transport.Ykman.Key.{
  Prints, IsSlotText, first, second, calculate_line, RunsKey, ykman-IsKey,
}
use go_tumbler.Types.{method_valid, policy_for_method, policy_valid}
use go_tumbler.Wire.{marshal_meta, slot_meta}

abbrev secret : Bytes
secret = codes "secret"

abbrev data_key : Bytes
data_key = replicate 32 42

abbrev code_bytes : Bytes
code_bytes = replicate 32 9

at_dek : Holds start 0 data_key
at_dek = (omega arith, refl)

at_secret : Holds start 1 secret
at_secret = (omega arith, refl)

at_code : Holds start 2 code_bytes
at_code = (omega arith, refl)

abbrev sample_kdf : Kdf
sample_kdf = argon2id 3 65536 4

sample_kdf-WithinBounds : WithinBounds sample_kdf
sample_kdf-WithinBounds =
    (omega arith, omega arith, omega arith, omega arith, omega arith, omega arith)

abbrev password_sample : PasswordMethod
password_sample = record { kdf = some sample_kdf; password = 1; label = [] }

-- The same password in another method, without a KDF and with another label.
abbrev password_again : PasswordMethod
password_again = record { kdf = none; password = 1; label = codes "again" }

abbrev blank : Slot
blank = record {
  type = 0;
  id = [];
  flags = 0;
  aead_id = 0;
  kdf_id = 0;
  yk_slot = 0;
  kdf_params = [];
  kdf_salt = [];
  chal_salt = [];
  hkdf_salt = [];
  challenge = [];
  label = [];
  nonce = [];
  wrapped = [];
  meta = none;
}

abbrev value : Result Slot → Slot
value (ok s) = s
value (err _) = blank

abbrev password_made : Result Slot × World
password_made = Password.enroll calm plain password_sample 0 start

enroll-password_run :
    Password.enroll calm plain password_sample 0 start
    ≡ (ok (value password_made.0), password_made.1)
unfolding Password.enroll Password.enroll_with check_ctx derive stretch wrap_dek rand_bytes
    derive_kek marshal_params kdf_id build_ikm write_roles roles_size hkdf_sha256_extract_expand
    seal marshal_meta new_filled new_zero borrow_fill borrow defer_destroy destroy new new_slice
    method_valid len
enroll-password_run = refl

unlock-enroll_password_example :
    Returns data_key (Password.unlock calm plain password_again (value password_made.0) start)
unlock-enroll_password_example =
    unlock-enroll_password calm plain (λ t. refl) password_sample password_again sample_kdf 0
      (value password_made.0) start password_made.1 start data_key secret plain-opens refl
      sample_kdf-WithinBounds refl at_dek at_secret at_secret enroll-password_run

abbrev recovery_sample : RecoveryCodeMethod
recovery_sample = record { code = 2; label = [] }

abbrev recovery_made : Result Slot × World
recovery_made = RecoveryCode.enroll calm plain recovery_sample 0 start

enroll-recovery_run :
    RecoveryCode.enroll calm plain recovery_sample 0 start
    ≡ (ok (value recovery_made.0), recovery_made.1)
unfolding RecoveryCode.enroll check_ctx wrap_dek rand_bytes derive_kek build_ikm write_roles
    roles_size hkdf_sha256_extract_expand seal marshal_meta new_filled new_zero borrow_fill borrow
    defer_destroy destroy new new_slice method_valid len
enroll-recovery_run = refl

unlock-enroll_recovery_example :
    Returns data_key (RecoveryCode.unlock calm plain recovery_sample (value recovery_made.0) start)
unlock-enroll_recovery_example =
    unlock-enroll_recovery calm plain (λ t. refl) recovery_sample recovery_sample 0
      (value recovery_made.0) start recovery_made.1 start data_key code_bytes plain-opens refl
      at_dek at_code at_code enroll-recovery_run

-- Whether the first byte of a challenge is above 127.
abbrev is_high : Bytes → Bool
is_high [] = false
is_high (c ∷ _) = ltb 127 c

-- A key whose answer depends on the slot and on the challenge.
abbrev answer : Bool → Bool → ℕ
answer first_slot high =
    if first_slot then (if high then 177 else 161) else (if high then 178 else 162)

abbrev respond : ℕ → Bytes → Bytes
respond slot challenge =
    replicate 20 (answer (slot == 1) (is_high (hex_decode (hex_encode challenge))))

-- What the tool prints of it, in upper case.
abbrev shown : Bool → Bool → Bytes
shown true true = codes "B1B1B1B1B1B1B1B1B1B1B1B1B1B1B1B1B1B1B1B1" ++ 10 ∷ []
shown true false = codes "A1A1A1A1A1A1A1A1A1A1A1A1A1A1A1A1A1A1A1A1" ++ 10 ∷ []
shown false true = codes "B2B2B2B2B2B2B2B2B2B2B2B2B2B2B2B2B2B2B2B2" ++ 10 ∷ []
shown false false = codes "A2A2A2A2A2A2A2A2A2A2A2A2A2A2A2A2A2A2A2A2" ++ 10 ∷ []

-- The tool reads the slot and the challenge off its command line.
abbrev reads_slot : List Bytes → Bool
reads_slot (_ ∷ _ ∷ (d ∷ []) ∷ _) = d == b'1'
reads_slot _ = false

abbrev reads_high : List Bytes → Bool
reads_high (_ ∷ _ ∷ _ ∷ h ∷ _) = is_high (hex_decode h)
reads_high _ = false

abbrev tool : YkmanTransport
tool = record {
  path = codes "/bin/ykman";
  run = λ name args w. (
    record { stdout = shown (reads_slot args) (reads_high args); stderr = []; failure = none },
    w,
  );
}

printed : (a b : Bool) → Prints (shown a b) (replicate 20 (answer a b))
unfolding fields fields_from to_lower lower_from hex_encode
printed true true = record {
  tok = codes "B1B1B1B1B1B1B1B1B1B1B1B1B1B1B1B1B1B1B1B1";
  alone = refl;
  spells = refl;
  bytes = ground arith;
}
printed true false = record {
  tok = codes "A1A1A1A1A1A1A1A1A1A1A1A1A1A1A1A1A1A1A1A1";
  alone = refl;
  spells = refl;
  bytes = ground arith;
}
printed false true = record {
  tok = codes "B2B2B2B2B2B2B2B2B2B2B2B2B2B2B2B2B2B2B2B2";
  alone = refl;
  spells = refl;
  bytes = ground arith;
}
printed false false = record {
  tok = codes "A2A2A2A2A2A2A2A2A2A2A2A2A2A2A2A2A2A2A2A2";
  alone = refl;
  spells = refl;
  bytes = ground arith;
}

tool-Prints :
    (slot : ℕ) (slot_arg challenge : Bytes) (w : World)
    → IsSlotText slot slot_arg
    → Prints
        (tool.run tool.path (calculate_line slot_arg challenge) w).0.stdout
        (respond slot challenge)
tool-Prints _ _ challenge w first = printed true (is_high (hex_decode (hex_encode challenge)))
tool-Prints _ _ challenge w second = printed false (is_high (hex_decode (hex_encode challenge)))

tool-RunsKey : RunsKey tool respond
tool-RunsKey = record {
  apart = λ name args w. Clean-refl w;
  runs = λ slot slot_arg challenge w valid. refl;
  prints = tool-Prints;
}

abbrev key_sample : YubiKeyMethod
key_sample = record {
  challenge_response = Ykman.challenge_response calm tool;
  slot = 2;
  kdf = some sample_kdf;
  password = some 1;
  label = [];
  on_touch = none;
}

ykman-IsKey_example : IsKey key_sample respond
ykman-IsKey_example =
    ykman-IsKey calm (λ t. refl) (λ t. refl) tool respond key_sample tool-RunsKey (λ f e. cc)
      (λ f e. cc)

key_sample-IsKey : IsKey key_sample respond
key_sample-IsKey =
    ykman-IsKey calm (λ t. refl) (λ t. refl) tool respond key_sample tool-RunsKey (λ f e. cc)
      (λ f e. cc)

abbrev key_made : Result Slot × World
key_made = YubiKey.enroll calm plain key_sample 0 start

enroll-key_run : YubiKey.enroll calm plain key_sample 0 start ≡ (ok (value key_made.0), key_made.1)
unfolding YubiKey.enroll YubiKey.enroll_by YubiKey.enroll_2fa YubiKey.derive_challenge check_ctx
    derive stretch wrap_dek rand_bytes derive_kek marshal_params kdf_id build_ikm write_roles
    roles_size hkdf_sha256_extract_expand seal marshal_meta new_filled new_zero borrow_fill borrow
    defer_destroy destroy new new_slice method_valid len Ykman.challenge_response
    extract_response_hex only_hex40 decode_response trim_space drop_front drop_back to_lower
    lower_from hex_decode hex_encode
enroll-key_run = refl

unlock-enroll_yubikey_example :
    Returns data_key (YubiKey.unlock calm plain key_sample (value key_made.0) start)
unlock-enroll_yubikey_example =
    unlock-enroll_yubikey calm plain (λ t. refl) key_sample key_sample respond 0 (value key_made.0)
      start key_made.1 start data_key plain-opens key_sample-IsKey key_sample-IsKey
      (with_password 1 1 secret sample_kdf refl sample_kdf-WithinBounds at_secret at_secret) refl
      at_dek enroll-key_run

abbrev with_password_only : List Method
with_password_only = Password.as_method calm plain password_sample ∷ []

abbrev recovery_method : Method
recovery_method = RecoveryCode.as_method calm plain recovery_sample

abbrev empty : Envelope
empty = record { version = 0; policy_hint = 0; slots = [] }

abbrev made_of : Result Envelope → Envelope
made_of (ok e) = e
made_of (err _) = empty

abbrev both_made : Result Envelope × World
both_made = new_envelope calm 0 1 (with_password_only ++ recovery_method ∷ []) start

both_run :
    new_envelope calm 0 1 (with_password_only ++ recovery_method ∷ []) start
    ≡ (ok (made_of both_made.0), both_made.1)
unfolding new_envelope enroll_all effective_policy policy_loop policy_for_method policy_valid
    Password.enroll Password.enroll_with RecoveryCode.enroll check_ctx derive stretch wrap_dek
    rand_bytes derive_kek marshal_params kdf_id build_ikm write_roles roles_size
    hkdf_sha256_extract_expand seal marshal_meta new_filled new_zero borrow_fill borrow
    defer_destroy destroy new new_slice method_valid len
both_run = refl

-- The recovery code opens the envelope that the password's slot stands in front of.

abbrev one_made : Result Envelope × World
one_made = new_envelope calm 0 1 with_password_only start

abbrev one : Envelope
one = made_of one_made.0

abbrev grown : Result Envelope × World
grown = add_slot calm one 0 recovery_method start

add_slot_run : add_slot calm one 0 recovery_method start ≡ (ok (made_of grown.0), grown.1)
unfolding add_slot new_envelope enroll_all effective_policy policy_loop policy_for_method
    policy_valid Password.enroll Password.enroll_with RecoveryCode.enroll check_ctx derive stretch
    wrap_dek rand_bytes derive_kek marshal_params kdf_id build_ikm write_roles roles_size
    hkdf_sha256_extract_expand seal marshal_meta new_filled new_zero borrow_fill borrow
    defer_destroy destroy new new_slice method_valid len
add_slot_run = refl

abbrev opened : Result ℕ × World
opened = unlock calm one with_password_only start

abbrev handle : Result ℕ → ℕ
handle (ok h) = h
handle (err _) = 0

opened_run : unlock calm one with_password_only start ≡ (ok (handle opened.0), opened.1)
unfolding unlock try_slots try_methods Password.unlock Password.derive_password_key unwrap_dek
    open_wrapped slot_meta parse_kdf new_envelope enroll_all effective_policy policy_loop
    policy_for_method policy_valid Password.enroll Password.enroll_with check_ctx derive stretch
    wrap_dek rand_bytes derive_kek marshal_params kdf_id build_ikm write_roles roles_size
    hkdf_sha256_extract_expand seal marshal_meta new_filled new_zero borrow_fill borrow
    defer_destroy destroy new new_slice method_valid len
opened_run = refl

-- The password opens the envelope to which the recovery code was added.
unlock-add_slot_example :
    unlock calm (made_of grown.0) with_password_only start ≡ (ok (handle opened.0), opened.1)
unlock-add_slot_example =
    unlock-add_slot calm one (made_of grown.0) 0 (handle opened.0) recovery_method
      with_password_only start grown.1 start opened.1 add_slot_run opened_run
