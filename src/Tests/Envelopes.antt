-- ===== src/Tests/Envelopes.antt =====
-- The operations on an envelope, on samples.
use go_tumbler.Base.{
  Bool, Has, map, Bytes, ◌≤◌, ◌<◌, ◌≡◌, ◌≢◌, ◌↔◌, ◌⊎◌, refl, true, false, some, List, [], ◌∷◌, ◌++◌,
  All, arith, length, replicate,
}
use go_tumbler.Combine.{
  build_ikm, derive_kek, seal, hkdf_sha256_extract_expand, write_roles, roles_size,
}
use go_tumbler.Envelope.{
  primary_slot_count, policy_loop, effective_policy, find_slot, remove_at, remove_slot, add_slot,
  enroll_all, new_envelope, unlock, validate_safety, id_eq, presence_only, single_method,
  no_recovery,
}
use go_tumbler.Envelope.Grow.{new_envelope-policy}
use go_tumbler.Base.Text.{codes}
use go_tumbler.Envelope.Policy.{Bears, effective_policy_iff}
use go_tumbler.Envelope.Remove.{FirstWith, IsLast, remove_slot_cases}
use go_tumbler.Envelope.Safety.{IsLoneKey, IsKeyOnly, IsRecovery, Warns, validate_safety_cases}
use go_tumbler.Envelope.{try_slots, try_methods}
use go_tumbler.Errors.{auth_failed}
use go_tumbler.Envelope.Unlock.Errors.{Stops, unlock_error_iff}
use go_tumbler.Envelope.Unlock.{Opens, attempts, unlock_iff, unlock_envelope-Yields}
use go_tumbler.Errors.{done, policy_unsafe, slot_not_found, Result, ok, err}
use go_tumbler.Method.Contract.{KeepsContract, recovery-KeepsContract, password-KeepsContract}
use go_tumbler.Method.Password
use go_tumbler.Method.RecoveryCode
use go_tumbler.Kdf.{argon2id, marshal_params, kdf_id}
use go_tumbler.Kdf.Derive.{stretch, derive}
use go_tumbler.Method.RecoveryCode.{RecoveryCodeMethod}
use go_tumbler.Method.{Method, check_ctx, rand_bytes, wrap_dek}
use go_tumbler.Secure.Container.{
  len, new_filled, new_zero, borrow_fill, borrow, defer_destroy, destroy, new, new_slice,
}
use go_tumbler.Wire.{marshal_meta}
use go_tumbler.Secure.Frame.{Yields}
use go_tumbler.Secure.World.{World}
use go_tumbler.Slot.{Envelope}
use go_tumbler.Tests.Samples.{password_slot, two_slots, calm, plain, start}
use go_tumbler.Types.{method_valid, policy_valid, policy_for_method}

-- The password of container 1, and the recovery code of container 2.
abbrev password_method : Method
password_method =
    Password.as_method calm plain
      (record { kdf = some (argon2id 3 65536 4); password = 1; label = [] })

abbrev code_method : Method
code_method = RecoveryCode.as_method calm plain (record { code = 2; label = [] })

abbrev value : Result Envelope → Envelope
value (ok e) = e
value (err _) = two_slots

two_slots_policy : effective_policy two_slots ≡ 1
unfolding effective_policy policy_loop policy_for_method
two_slots_policy = refl

effective_policy_iff_example :
    (effective_policy two_slots ≡ 1)
    ↔ ((1 ≤ primary_slot_count two_slots.slots) × All (Bears 1) two_slots.slots)
effective_policy_iff_example = effective_policy_iff two_slots 1 (λ e. omega arith)

remove_slot_cases_example :
    (All (λ s. s.id ≢ replicate 8 1) two_slots.slots
      × (remove_slot two_slots (replicate 8 1) ≡ err slot_not_found))
    ⊎ ((f : FirstWith (replicate 8 1) two_slots.slots) × ((IsLast two_slots f
            × (remove_slot two_slots (replicate 8 1) ≡ err policy_unsafe))
          ⊎ ((¬ IsLast two_slots f)
              × (remove_slot two_slots (replicate 8 1)
                  ≡ ok (record two_slots { slots = f.before ++ f.after })))))
remove_slot_cases_example = remove_slot_cases two_slots (replicate 8 1)

abbrev no_recovery_slot : Envelope
no_recovery_slot = record two_slots { slots = password_slot ∷ [] }

remove_recovery : remove_slot two_slots (replicate 8 2) ≡ ok no_recovery_slot
unfolding remove_slot remove_at find_slot id_eq primary_slot_count
remove_recovery = refl

remove_last_primary : remove_slot two_slots (replicate 8 1) ≡ err policy_unsafe
unfolding remove_slot remove_at find_slot id_eq primary_slot_count
remove_last_primary = refl

validate_safety_cases_example :
    ((IsLoneKey two_slots.slots
        × (◌≡◌ {A = Bool} false false)
        × ((validate_safety two_slots false).1 ≡ err policy_unsafe)
        × ((validate_safety two_slots false).0.warnings ≡ []))
      ⊎ ((¬ (IsLoneKey two_slots.slots × (◌≡◌ {A = Bool} false false)))
          × ((validate_safety two_slots false).1 ≡ ok done)
          × (Warns presence_only (validate_safety two_slots false).0 ↔ IsKeyOnly two_slots.slots)
          × (Warns single_method (validate_safety two_slots false).0 ↔ (length two_slots.slots < 2))
          × (Warns no_recovery (validate_safety two_slots false).0
              ↔ (¬ Has IsRecovery two_slots.slots))))
    × ((validate_safety two_slots false).0.unlock_slots ≡ length two_slots.slots)
    × (((validate_safety two_slots false).0.has_recovery ≡ true) ↔ Has IsRecovery two_slots.slots)
validate_safety_cases_example = validate_safety_cases two_slots false

abbrev both : List Method
both = password_method ∷ code_method ∷ []

-- What a run returned, and where it left the store.
abbrev made : Envelope
made = value (new_envelope calm 0 1 both start).0

abbrev after_made : World
after_made = (new_envelope calm 0 1 both start).1

new_envelope-run : new_envelope calm 0 1 both start ≡ (ok made, after_made)
unfolding new_envelope enroll_all effective_policy policy_loop policy_for_method policy_valid
    Password.enroll Password.enroll_with stretch derive RecoveryCode.enroll check_ctx len wrap_dek
    rand_bytes derive_kek marshal_params kdf_id build_ikm write_roles roles_size
    hkdf_sha256_extract_expand seal marshal_meta new_filled new_zero borrow_fill borrow
    defer_destroy destroy new new_slice method_valid
new_envelope-run = refl

new_envelope-policy_example :
    (made.version ≡ 1)
    × (made.policy_hint ≡ 1)
    × (policy_valid 1 ≡ true)
    × (effective_policy made ≡ 1)
    × (length made.slots ≡ length both)
    × (1 ≤ length made.slots)
new_envelope-policy_example =
    new_envelope-policy calm 0 1 both start after_made made new_envelope-run

both-KeepsContract : All KeepsContract both
both-KeepsContract = (
  password-KeepsContract calm plain
      (record { kdf = some (argon2id 3 65536 4); password = 1; label = [] }),
  (recovery-KeepsContract calm plain (record { code = 2; label = [] }), tt),
)

unlock_envelope-Yields_example : Yields (unlock calm two_slots both)
unlock_envelope-Yields_example = unlock_envelope-Yields calm two_slots both both-KeepsContract

unlock_iff_example :
    (unlock calm made both after_made ≡ (ok 9, start))
    ↔ Opens calm 9 start (attempts made.slots both) after_made
unlock_iff_example = unlock_iff calm made both after_made start 9

-- A password's slot alone, and a recovery code: no attempt is made.
abbrev locked_out : Envelope
locked_out = record { version = 1; policy_hint = 1; slots = password_slot ∷ [] }

unlock_error_iff_example :
    (unlock calm locked_out (code_method ∷ []) start ≡ (err auth_failed, start))
    ↔ Stops calm auth_failed start (attempts locked_out.slots (code_method ∷ [])) start
unlock_error_iff_example = unlock_error_iff calm auth_failed start locked_out code_method [] start

locked_out_run : unlock calm locked_out (code_method ∷ []) start ≡ (err auth_failed, start)
unfolding unlock try_slots try_methods
locked_out_run = refl

abbrev added : Envelope
added = value (add_slot calm two_slots 0 code_method start).0

abbrev after_added : World
after_added = (add_slot calm two_slots 0 code_method start).1

add_slot-run : add_slot calm two_slots 0 code_method start ≡ (ok added, after_added)
unfolding add_slot effective_policy policy_loop policy_for_method RecoveryCode.enroll check_ctx len
    wrap_dek rand_bytes derive_kek build_ikm write_roles roles_size hkdf_sha256_extract_expand seal
    marshal_meta new_filled new_zero borrow_fill borrow defer_destroy destroy new new_slice
    method_valid
add_slot-run = refl

abbrev labelled : List (Method × Bytes)
labelled =
    (
      Password.as_method calm plain
          (record { kdf = some (argon2id 3 65536 4); password = 1; label = codes "laptop" }),
      codes "laptop",
    )
    ∷ (
      RecoveryCode.as_method calm plain (record { code = 2; label = codes "paper" }),
      codes "paper",
    )
    ∷ []

abbrev with_labels : Result Envelope × World
with_labels = new_envelope calm 0 1 (map (λ x. x.0) labelled) start
