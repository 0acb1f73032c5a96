-- ===== src/Tests/Secrets.antt =====
-- Right and wrong passwords, on samples.
use go_tumbler.Base.{◌≡◌, refl, some, List, [], ◌∷◌, ◌++◌, Bytes, arith, replicate}
use go_tumbler.Base.Text.{codes}
use go_tumbler.Combine.{
  build_ikm, derive_kek, write_roles, roles_size, hkdf_sha256_extract_expand, seal,
}
use go_tumbler.Envelope.Lifecycle.Tries.{AllDiscern, unlock-Lives-RightOrRefused}
use go_tumbler.Envelope.Lifecycle.{Fits, made}
use go_tumbler.Envelope.Unlock.Several.{MayOpenSlot, OpensSlot, unlock-Returns}
use go_tumbler.Envelope.Unlock.{attempts}
use go_tumbler.Envelope.{unlock}
use go_tumbler.Errors.{Result, ok, err}
use go_tumbler.Kdf.Bounds.{WithinBounds}
use go_tumbler.Kdf.Derive.{derive, stretch}
use go_tumbler.Kdf.{marshal_params, kdf_id}
use go_tumbler.Method.Contract.{password-KeepsContract}
use go_tumbler.Method.Discerns.{Discerns, password-Discerns}
use go_tumbler.Method.Password
use go_tumbler.Method.Password.{PasswordMethod}
use go_tumbler.Method.RoundTrip.ByPassword.{unlock-enroll_password}
use go_tumbler.Method.WrongSecret.{Authenticates, RightOrRefused, password-RightOrRefused}
use go_tumbler.Method.{Method, check_ctx, wrap_dek, rand_bytes}
use go_tumbler.Secure.Container.{
  new, new_slice, destroy, borrow, len, new_filled, new_zero, borrow_fill, defer_destroy,
}
use go_tumbler.Secure.Frame.{Clean-refl}
use go_tumbler.Secure.Returns.{Returns, Holds, Holds-Clean}
use go_tumbler.Secure.World.{World}
use go_tumbler.Slot.{Slot, Envelope}
use go_tumbler.Tests.Samples.{calm, start, password_slot}
use go_tumbler.Tests.Stored.{
  tagging, sample_kdf, password_sample, by_password, alone, made_of, new_envelope_run, at_dek,
  by_password-Seals, tagging-opens,
}
use go_tumbler.Types.{method_valid}
use go_tumbler.Wire.{marshal_meta}

tagging-Authenticates : Authenticates calm tagging (λ t. refl)
unfolding hkdf_sha256_extract_expand
tagging-Authenticates = record {
  expands = λ ikm salt info. (_, refl, refl);
  as_sealed = λ key key' nonce p p' aad e. cc;
}

within : WithinBounds sample_kdf
within = (omega arith, omega arith, omega arith, omega arith, omega arith, omega arith)

-- A method with the recovery code's bytes for a password.
abbrev wrong_sample : PasswordMethod
wrong_sample = record { kdf = some sample_kdf; password = 2; label = [] }

abbrev by_wrong : Method
by_wrong = Password.as_method calm tagging wrong_sample

at_password : Holds start 1 (codes "secret")
at_password = (omega arith, refl)

at_wrong : Holds start 2 (replicate 32 9)
at_wrong = (omega arith, refl)

abbrev dek_bytes : Bytes
dek_bytes = replicate 32 42

stretches : (pw salt : Bytes) → (raw : Bytes) × (stretch tagging sample_kdf pw salt ≡ ok raw)
unfolding stretch
stretches pw salt = (_, refl)

-- Any password that can be read, on any slot that the right one enrolled.
discerned :
    (m' : PasswordMethod) (pw' : Bytes)
    → Holds start m'.password pw'
    → Discerns dek_bytes start 0 by_password start (Password.as_method calm tagging m')
discerned m' pw' at_pw' =
    password-Discerns calm tagging (λ t. refl) (λ t. refl) tagging-Authenticates password_sample m'
      sample_kdf 0 start start dek_bytes (codes "secret") pw' refl within (stretches pw') at_dek
      at_password at_pw'

abbrev slot_of : Result Slot → Slot
slot_of (ok s) = s
slot_of (err _) = password_slot

abbrev enrolled : Result Slot × World
enrolled = Password.enroll calm tagging password_sample 0 start

enroll_run :
    Password.enroll calm tagging password_sample 0 start ≡ (ok (slot_of enrolled.0), enrolled.1)
unfolding Password.enroll Password.enroll_with check_ctx derive stretch wrap_dek rand_bytes
    derive_kek marshal_params kdf_id build_ikm write_roles roles_size hkdf_sha256_extract_expand
    seal marshal_meta new_filled new_zero borrow_fill borrow defer_destroy destroy new new_slice
    method_valid len
enroll_run = refl

stretch_run :
    stretch tagging sample_kdf (replicate 32 9) (slot_of enrolled.0).kdf_salt
    ≡ ok (tagging.argon2_id_key (replicate 32 9) (slot_of enrolled.0).kdf_salt 3 65536 4 32)
unfolding stretch
stretch_run = refl

password-RightOrRefused_example :
    RightOrRefused dek_bytes (Password.unlock calm tagging wrong_sample (slot_of enrolled.0) start)
password-RightOrRefused_example =
    password-RightOrRefused calm tagging (λ t. refl) password_sample wrong_sample sample_kdf 0
      (slot_of enrolled.0) start enrolled.1 start dek_bytes (codes "secret") (replicate 32 9)
      (tagging.argon2_id_key (replicate 32 9) (slot_of enrolled.0).kdf_salt 3 65536 4 32)
      tagging-Authenticates refl within stretch_run refl at_dek at_password at_wrong enroll_run

abbrev one_slot : Envelope
one_slot = record { version = 1; policy_hint = 1; slots = slot_of enrolled.0 ∷ [] }

wrong-MayOpen : MayOpenSlot dek_bytes start (slot_of enrolled.0, by_wrong)
wrong-MayOpen = (
  password-KeepsContract calm tagging wrong_sample,
  λ x clean.
      discerned wrong_sample (replicate 32 9) at_wrong (slot_of enrolled.0) start enrolled.1 x
        (Clean-refl start) clean enroll_run,
)

right-Opens : OpensSlot dek_bytes start (slot_of enrolled.0, by_password)
right-Opens x clean =
    unlock-enroll_password calm tagging (λ t. refl) password_sample password_sample sample_kdf 0
      (slot_of enrolled.0) start enrolled.1 x dek_bytes (codes "secret") tagging-opens refl within
      refl at_dek at_password (Holds-Clean clean at_password) enroll_run

tries_run :
    attempts one_slot.slots (by_wrong ∷ by_password ∷ [])
    ≡ ((slot_of enrolled.0, by_wrong) ∷ []) ++ (slot_of enrolled.0, by_password) ∷ []
unfolding Password.enroll Password.enroll_with check_ctx derive stretch wrap_dek rand_bytes
    derive_kek marshal_params kdf_id build_ikm write_roles roles_size hkdf_sha256_extract_expand
    seal marshal_meta new_filled new_zero borrow_fill borrow defer_destroy destroy new new_slice
    method_valid len
tries_run = refl

unlock-Returns_example :
    Returns dek_bytes (unlock calm one_slot (by_wrong ∷ by_password ∷ []) start)
unlock-Returns_example =
    unlock-Returns calm one_slot by_wrong (by_password ∷ []) dek_bytes start
      ((slot_of enrolled.0, by_wrong) ∷ []) (slot_of enrolled.0, by_password) [] (λ n. refl)
      tries_run (wrong-MayOpen, tt) right-Opens

abbrev tried : List Method
tried = by_wrong ∷ by_password ∷ []

by_password-Fits : Fits (AllDiscern tried dek_bytes start) 0 start by_password
by_password-Fits = (
  password-KeepsContract calm tagging password_sample,
  by_password-Seals,
  (
    λ same. discerned wrong_sample (replicate 32 9) at_wrong,
    (λ same. discerned password_sample (codes "secret") at_password, tt),
  ),
)

unlock-Lives-RightOrRefused_example :
    RightOrRefused dek_bytes (unlock calm (made_of alone.0) tried start)
unlock-Lives-RightOrRefused_example =
    unlock-Lives-RightOrRefused calm 1 by_wrong (by_password ∷ []) dek_bytes start
      (made 0 (by_password ∷ []) start alone.1 (by_password-Fits, tt) (omega arith)
        new_envelope_run)
      (
        password-KeepsContract calm tagging wrong_sample,
        (password-KeepsContract calm tagging password_sample, tt),
      )
      (λ n. refl)
