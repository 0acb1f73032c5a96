-- ===== src/Tests/Stored.antt =====
-- Envelopes that can be written, and runs of containers, on samples.
use go_tumbler.Base.{
  ℕ, ◌+◌, ◌≡◌, ◌≢◌, refl, some, List, [], ◌∷◌, ◌++◌, Bytes, arith, length, replicate, drop,
  length-append, length-replicate,
}
use go_tumbler.Base.Text.{codes}
use go_tumbler.Combine.{
  Crypto, build_ikm, derive_kek, write_roles, roles_size, hkdf_sha256_extract_expand, seal,
}
use go_tumbler.Envelope.{effective_policy, policy_loop, add_slot, enroll_all, new_envelope}
use go_tumbler.Envelope.Stored.{new_envelope-IsWellFormed, unlock-parse_envelope}
use go_tumbler.Errors.{Result, ok, err}
use go_tumbler.Kdf.{Kdf, argon2id, marshal_params, kdf_id}
use go_tumbler.Kdf.Derive.{derive, stretch}
use go_tumbler.Method.Contract.{password-KeepsContract, recovery-KeepsContract}
use go_tumbler.Method.Password
use go_tumbler.Method.Password.{PasswordMethod}
use go_tumbler.Method.RecoveryCode
use go_tumbler.Method.RecoveryCode.{RecoveryCodeMethod}
use go_tumbler.Method.Sealed.{Seals, KeepsLengths, password-Seals, recovery-Seals}
use go_tumbler.Method.{Method, check_ctx, wrap_dek, rand_bytes}
use go_tumbler.Secure.Container.{
  new, new_slice, destroy, borrow, len, new_filled, new_zero, borrow_fill, defer_destroy,
}
use go_tumbler.Secure.Refinement.{view, run_all, run_all-Steps}
use go_tumbler.Secure.Locking.{Rlimit, raise_memlock_limit}
use go_tumbler.Base.{none}
use go_tumbler.Envelope.{unlock}
use go_tumbler.Method.Reopens.{recovery-Reopens}
use go_tumbler.Wire.{marshal, parse_envelope}
use go_tumbler.Secure.Returns.{Returns, Holds}
use go_tumbler.Secure.Vault.{Op, make, copy, wipe, read, Steps}
use go_tumbler.Secure.World.{World}
use go_tumbler.Slot.{Envelope}
use go_tumbler.Tests.Samples.{calm, plain, start}
use mathlib.Core.Path.{subst}
use go_tumbler.Types.{method_valid, policy_for_method, policy_valid}
use go_tumbler.Wire.{marshal_meta}
use go_tumbler.Wire.RoundTrip.{IsWellFormed}

-- A cipher that puts sixteen bytes in front.
abbrev pub tagging : Crypto
tagging = record plain {
  aead_seal = λ key nonce pt aad. replicate 16 0 ++ pt;
  aead_open = λ key nonce ct aad. ok (drop 16 ct);
}

tagging-KeepsLengths : KeepsLengths calm tagging
tagging-KeepsLengths = record {
  drawn = λ t n b h. drawn_length t n b h;
  tagged = λ key nonce p aad. omega (arith, length-append (replicate 16 0) p);
}
  where
    drawn_length : (t n : ℕ) (b : Bytes) → ok (replicate n (t + 1)) ≡ ok b → length b ≡ n
    drawn_length t n b h =
        let same : replicate n (t + 1) ≡ b = cc in
        subst (λ x. length x ≡ n) same (length-replicate n (t + 1))

abbrev pub sample_kdf : Kdf
sample_kdf = argon2id 3 65536 4

abbrev pub password_sample : PasswordMethod
password_sample = record { kdf = some sample_kdf; password = 1; label = [] }

abbrev pub recovery_sample : RecoveryCodeMethod
recovery_sample = record { code = 2; label = [] }

pub at_dek : Holds start 0 (replicate 32 42)
at_dek = (omega arith, refl)

abbrev pub by_password : Method
by_password = Password.as_method calm tagging password_sample

abbrev pub by_code : Method
by_code = RecoveryCode.as_method calm tagging recovery_sample

pub by_password-Seals : Seals by_password 0 start
by_password-Seals =
    password-Seals calm tagging (λ t. refl) tagging-KeepsLengths password_sample sample_kdf 0 start
      (replicate 32 42) (codes "secret") refl
      (omega arith, omega arith, omega arith, omega arith, omega arith, omega arith) at_dek
      (omega arith, refl) (omega arith)

pub by_code-Seals : Seals by_code 0 start
by_code-Seals =
    recovery-Seals calm tagging (λ t. refl) tagging-KeepsLengths recovery_sample 0 start
      (replicate 32 42) (replicate 32 9) at_dek (omega arith, refl) (omega arith)

abbrev empty : Envelope
empty = record { version = 0; policy_hint = 0; slots = [] }

abbrev pub made_of : Result Envelope → Envelope
made_of (ok e) = e
made_of (err _) = empty

abbrev pub alone : Result Envelope × World
alone = new_envelope calm 0 1 (by_password ∷ []) start

pub new_envelope_run :
    new_envelope calm 0 1 (by_password ∷ []) start ≡ (ok (made_of alone.0), alone.1)
unfolding new_envelope enroll_all effective_policy policy_loop policy_for_method policy_valid
    Password.enroll Password.enroll_with check_ctx derive stretch wrap_dek rand_bytes derive_kek
    marshal_params kdf_id build_ikm write_roles roles_size hkdf_sha256_extract_expand seal
    marshal_meta new_filled new_zero borrow_fill borrow defer_destroy destroy new new_slice
    method_valid len
new_envelope_run = refl

made-IsWellFormed : IsWellFormed (made_of alone.0)
made-IsWellFormed =
    new_envelope-IsWellFormed calm 0 1 (by_password ∷ []) (made_of alone.0) start alone.1
      (password-KeepsContract calm tagging password_sample, tt) (by_password-Seals, tt)
      (omega arith) new_envelope_run

abbrev pub code_added : Result Envelope × World
code_added = add_slot calm (made_of alone.0) 0 by_code start

pub add_slot_run :
    add_slot calm (made_of alone.0) 0 by_code start ≡ (ok (made_of code_added.0), code_added.1)
unfolding add_slot new_envelope enroll_all effective_policy policy_loop policy_for_method
    policy_valid Password.enroll Password.enroll_with RecoveryCode.enroll check_ctx derive stretch
    wrap_dek rand_bytes derive_kek marshal_params kdf_id build_ikm write_roles roles_size
    hkdf_sha256_extract_expand seal marshal_meta new_filled new_zero borrow_fill borrow
    defer_destroy destroy new new_slice method_valid len
add_slot_run = refl

made_policy : effective_policy (made_of alone.0) ≢ 0
unfolding new_envelope enroll_all effective_policy policy_loop policy_for_method policy_valid
    Password.enroll Password.enroll_with check_ctx derive stretch wrap_dek rand_bytes derive_kek
    marshal_params kdf_id build_ikm write_roles roles_size hkdf_sha256_extract_expand seal
    marshal_meta new_filled new_zero borrow_fill borrow defer_destroy destroy new new_slice
    method_valid len
made_policy = λ e. omega arith

pub tagging-opens :
    (key nonce p aad : Bytes)
    → tagging.aead_new key ≡ none
    → tagging.aead_open key nonce (tagging.aead_seal key nonce p aad) aad ≡ ok p
tagging-opens key nonce p aad accepted = refl

abbrev pub both_made : Result Envelope × World
both_made = new_envelope calm 0 1 (by_password ∷ by_code ∷ []) start

pub both_run :
    new_envelope calm 0 1 (by_password ∷ by_code ∷ []) start
    ≡ (ok (made_of both_made.0), both_made.1)
unfolding new_envelope enroll_all effective_policy policy_loop policy_for_method policy_valid
    Password.enroll Password.enroll_with RecoveryCode.enroll check_ctx derive stretch wrap_dek
    rand_bytes derive_kek marshal_params kdf_id build_ikm write_roles roles_size
    hkdf_sha256_extract_expand seal marshal_meta new_filled new_zero borrow_fill borrow
    defer_destroy destroy new new_slice method_valid len
both_run = refl

unlock-parse_envelope_example :
    (b : Bytes) × (e' : Envelope) × (marshal (made_of both_made.0) ≡ ok b)
    × (parse_envelope b ≡ ok e')
    × Returns (replicate 32 42) (unlock calm e' (by_code ∷ []) start)
unlock-parse_envelope_example =
    unlock-parse_envelope calm 0 1 (by_password ∷ []) by_code [] by_code (made_of both_made.0) start
      both_made.1 start (replicate 32 42)
      (
        password-KeepsContract calm tagging password_sample,
        (recovery-KeepsContract calm tagging recovery_sample, tt),
      )
      (by_password-Seals, (by_code-Seals, tt)) (omega arith) ((λ e. omega arith), tt) refl
      (recovery-Reopens calm tagging (λ t. refl) (λ t. refl) tagging-opens recovery_sample
        recovery_sample 0 start start (replicate 32 42) (replicate 32 9) at_dek (omega arith, refl)
        (omega arith, refl))
      refl both_run

abbrev life : List Op
life = make (7 ∷ 8 ∷ []) ∷ copy 3 ∷ wipe 3 ∷ read 4 ∷ read 3 ∷ []

run_all-Steps_example :
    Steps (view start) life (run_all calm life start).0 (view (run_all calm life start).1)
run_all-Steps_example = run_all-Steps calm life start

-- A kernel that is its limits.
abbrev obeying : Rlimit → Rlimit → Rlimit
obeying lim k = lim

raise_memlock_limit_run :
    raise_memlock_limit ok obeying (record { cur = 8; max = 64 }) ≡ record { cur = 64; max = 64 }
unfolding raise_memlock_limit
raise_memlock_limit_run = refl
