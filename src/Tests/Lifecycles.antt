-- ===== src/Tests/Lifecycles.antt =====
-- An envelope that is made, grown, cut, written and read back, on samples.
use go_tumbler.Base.{
  ℕ, ◌≡◌, ◌≢◌, ◌⊎◌, refl, ap, get_or, List, [], ◌∷◌, All, arith, replicate, Bytes,
}
use go_tumbler.Combine.{
  build_ikm, derive_kek, write_roles, roles_size, hkdf_sha256_extract_expand, seal,
}
use go_tumbler.Envelope.Lifecycle.{Fits, Lives, made, grown, cut, stored, Inv, Lives-Inv}
use go_tumbler.Envelope.Lifecycle.Access.{SharedWith, unlock-Lives}
use go_tumbler.Envelope.Remove.Access.{unlock-remove_slot, unlock-revoked}
use go_tumbler.Envelope.Remove.{FirstWith}
use go_tumbler.Envelope.{
  effective_policy, policy_loop, add_slot, enroll_all, new_envelope, remove_slot, remove_at,
  find_slot, id_eq, primary_slot_count, unlock,
}
use go_tumbler.Errors.{Result, ok, err, auth_failed}
use go_tumbler.Kdf.Derive.{derive, stretch}
use go_tumbler.Kdf.{marshal_params, kdf_id}
use go_tumbler.Method.Contract.{password-KeepsContract, recovery-KeepsContract}
use go_tumbler.Method.Password
use go_tumbler.Method.RecoveryCode
use go_tumbler.Method.Reopens.{recovery-Reopens}
use go_tumbler.Method.{Method, check_ctx, wrap_dek, rand_bytes}
use go_tumbler.Secure.Container.{
  new, new_slice, destroy, borrow, len, new_filled, new_zero, borrow_fill, defer_destroy,
}
use go_tumbler.Secure.Returns.{Returns}
use go_tumbler.Secure.World.{World}
use go_tumbler.Slot.{Slot, Envelope}
use go_tumbler.Tests.Samples.{calm, start, two_slots, password_slot, recovery_slot}
use go_tumbler.Tests.Stored.{
  tagging, password_sample, recovery_sample, by_password, by_code, made_of, alone, code_added,
  new_envelope_run, add_slot_run, at_dek, by_password-Seals, by_code-Seals, tagging-opens,
}
use go_tumbler.Types.{method_valid, policy_for_method, policy_valid}
use go_tumbler.Wire.{marshal_meta}
use go_tumbler.Wire.RoundTrip.{parse_envelope-marshal}

abbrev Agreed : ℕ → Method → World → Type 0
Agreed = SharedWith by_code (replicate 32 42) start

by_password-Fits : Fits Agreed 0 start by_password
by_password-Fits = (
  password-KeepsContract calm tagging password_sample,
  by_password-Seals,
  λ type. absurd (omega arith),
)

by_code-Fits : Fits Agreed 0 start by_code
by_code-Fits = (
  recovery-KeepsContract calm tagging recovery_sample,
  by_code-Seals,
  λ type.
      recovery-Reopens calm tagging (λ t. refl) (λ t. refl) tagging-opens recovery_sample
        recovery_sample 0 start start (replicate 32 42) (replicate 32 9) at_dek (omega arith, refl)
        (omega arith, refl),
)

-- With a password alone, and then with a code as well.
grown_lives : Lives calm Agreed 1 (made_of code_added.0)
grown_lives =
    grown 0 by_code start code_added.1
      (made 0 (by_password ∷ []) start alone.1 (by_password-Fits, tt) (omega arith)
        new_envelope_run)
      by_code-Fits add_slot_run

grown-Inv : Inv calm Agreed 1 (made_of code_added.0)
grown-Inv = Lives-Inv calm Agreed 1 grown_lives

reread_lives : Lives calm Agreed 1 (made_of code_added.0)
reread_lives =
    let (b, writes, reads, _) = parse_envelope-marshal (made_of code_added.0) grown-Inv.formed in
    stored b grown_lives writes reads

abbrev second_id : List Slot → Bytes
second_id (a ∷ b ∷ _) = b.id
second_id _ = []

-- Without the code again.
abbrev less : Result Envelope
less = remove_slot (made_of code_added.0) (second_id (made_of code_added.0).slots)

less_run :
    remove_slot (made_of code_added.0) (second_id (made_of code_added.0).slots) ≡ ok (made_of less)
unfolding remove_slot remove_at find_slot id_eq primary_slot_count add_slot new_envelope enroll_all
    effective_policy policy_loop policy_for_method policy_valid Password.enroll Password.enroll_with
    RecoveryCode.enroll check_ctx derive stretch wrap_dek rand_bytes derive_kek marshal_params
    kdf_id build_ikm write_roles roles_size hkdf_sha256_extract_expand seal marshal_meta new_filled
    new_zero borrow_fill borrow defer_destroy destroy new new_slice method_valid len
less_run = refl

Lives-Inv_example : Inv calm Agreed 1 (made_of less)
Lives-Inv_example =
    Lives-Inv calm Agreed 1 (cut (second_id (made_of code_added.0).slots) reread_lives less_run)

unlock-Lives_example :
    (All (λ s. s.type ≢ 4) (made_of code_added.0).slots
      × (unlock calm (made_of code_added.0) (by_code ∷ []) start ≡ (err auth_failed, start)))
    ⊎ ((¬ All (λ s. s.type ≢ 4) (made_of code_added.0).slots)
        × Returns (replicate 32 42) (unlock calm (made_of code_added.0) (by_code ∷ []) start))
unlock-Lives_example = unlock-Lives calm 1 by_code (replicate 32 42) start reread_lives refl

abbrev no_recovery_slot : Envelope
no_recovery_slot = record two_slots { slots = password_slot ∷ [] }

recovery_removed : remove_slot two_slots (replicate 8 2) ≡ ok no_recovery_slot
unfolding remove_slot remove_at find_slot id_eq primary_slot_count
recovery_removed = refl

abbrev first_code : FirstWith (replicate 8 2) two_slots.slots
first_code = record {
  before = password_slot ∷ [];
  found = recovery_slot;
  after = [];
  splits = refl;
  has_id = refl;
  is_first = ((λ e. (let h = ap (λ x. get_or x 0 0) e in omega (arith, h))), tt);
}

unlock-remove_slot_example :
    unlock calm no_recovery_slot (by_password ∷ []) ≡ unlock calm two_slots (by_password ∷ [])
unlock-remove_slot_example =
    unlock-remove_slot calm two_slots no_recovery_slot (replicate 8 2) first_code (by_password ∷ [])
      recovery_removed ((λ e. omega arith), tt)

unlock-revoked_example :
    unlock calm no_recovery_slot (by_code ∷ []) start ≡ (err auth_failed, start)
unlock-revoked_example =
    unlock-revoked calm two_slots no_recovery_slot (replicate 8 2) first_code by_code [] start
      recovery_removed ((λ e. omega arith), tt) (refl, tt)
