-- ===== src/Envelope/Safety.antt =====
-- `ValidateSafety`: when an envelope is refused, and what the report says of it.
use go_tumbler.Base.{
  ℕ, ◌≤◌, ◌<◌, ◌≡◌, ◌↔◌, ◌⊎◌, inl, inr, refl, Bool, true, false, not, ◌&&◌, ◌++◌, List, [], ◌∷◌,
  length, ltb, ◌==◌, arith, Bool-cases, ==_iff, All, Has,
}
use go_tumbler.Envelope.{
  Warning, presence_only, single_method, no_recovery, SafetyReport, warn_if, primary_slot_count,
  effective_policy, any_recovery, validate_safety,
}
use go_tumbler.Envelope.Policy.{Bears, effective_policy_iff}
use go_tumbler.Errors.{done, policy_unsafe, ok, err}
use go_tumbler.Slot.{Slot, Envelope}
use go_tumbler.Types.{policy_yubikey_only, policy_for_method}

-- A slot that a recovery code opens.
abbrev pub IsRecovery : Slot → Type 0
IsRecovery s = s.type ≡ 4

-- A slot that the key alone opens.
abbrev pub IsKeyAlone : Slot → Type 0
IsKeyAlone s = s.type ≡ 2

-- There is a slot that the key alone opens, and no other but for recovery.
abbrev pub IsKeyOnly : List Slot → Type 0
IsKeyOnly slots = Has IsKeyAlone slots × All (λ s. IsKeyAlone s ⊎ IsRecovery s) slots

-- There is one slot, and the key alone opens it.
abbrev pub IsLoneKey : List Slot → Type 0
IsLoneKey slots = (s : Slot) × (slots ≡ s ∷ []) × IsKeyAlone s

-- The report has the warning.
abbrev pub Warns : Warning → SafetyReport → Type 0
Warns x r = Has (λ y. y ≡ x) r.warnings

any_recovery_iff : (slots : List Slot) → (any_recovery slots ≡ true) ↔ Has IsRecovery slots
unfolding any_recovery
any_recovery_iff [] = ground arith
any_recovery_iff (s ∷ slots) = ground (arith, any_recovery_iff slots)

Bears-key_only_iff : (s : Slot) → Bears policy_yubikey_only s ↔ (IsKeyAlone s ⊎ IsRecovery s)
unfolding policy_for_method
Bears-key_only_iff s = ground arith

All-Bears_iff :
    (slots : List Slot)
    → All (Bears policy_yubikey_only) slots ↔ All (λ s. IsKeyAlone s ⊎ IsRecovery s) slots
All-Bears_iff [] = (λ h. h, λ h. h)
All-Bears_iff (s ∷ slots) =
    let one = Bears-key_only_iff s in
    let more = All-Bears_iff slots in (λ h. (one.0 h.0, more.0 h.1), λ h. (one.1 h.0, more.1 h.1))

-- Among slots of the two types, a primary one is one of the key alone.
primary_iff :
    (slots : List Slot)
    → All (λ s. IsKeyAlone s ⊎ IsRecovery s) slots
    → (1 ≤ primary_slot_count slots) ↔ Has IsKeyAlone slots
unfolding primary_slot_count
primary_iff [] h = (λ h. absurd (omega arith), λ h. absurd h)
primary_iff (s ∷ slots) (k, ks) = ground (arith, primary_iff slots)

IsKeyOnly-iff : (e : Envelope) → (effective_policy e ≡ policy_yubikey_only) ↔ IsKeyOnly e.slots
IsKeyOnly-iff e =
    let shared = effective_policy_iff e policy_yubikey_only (λ h. omega (arith, h)) in
    let bears = All-Bears_iff e.slots in
    (
      λ h.
          let (count, all) = shared.0 h in
          let of_types = bears.0 all in ((primary_iff e.slots of_types).0 count, of_types),
      λ (some_key, of_types).
          shared.1 ((primary_iff e.slots of_types).1 some_key, bears.1 of_types),
    )

IsKeyOnly-IsLoneKey : (slots : List Slot) → IsKeyOnly slots → length slots ≡ 1 → IsLoneKey slots
IsKeyOnly-IsLoneKey [] k one = absurd (omega arith)
IsKeyOnly-IsLoneKey (s ∷ []) (inl key, _) one = (s, refl, key)
IsKeyOnly-IsLoneKey (s ∷ []) (inr other, _) one = absurd other
IsKeyOnly-IsLoneKey (s ∷ t ∷ slots) k one = absurd (omega arith)

IsLoneKey-iff :
    (e : Envelope)
    → ((effective_policy e ≡ policy_yubikey_only) × (length e.slots ≡ 1)) ↔ IsLoneKey e.slots
IsLoneKey-iff e = (
  λ (only, one). IsKeyOnly-IsLoneKey e.slots ((IsKeyOnly-iff e).0 only) one,
  λ (s, same, key). ((IsKeyOnly-iff e).1 (rw same (inl key, (inl key, tt))), rw same refl),
)

all_three :
    (eff p n : ℕ) (force : Bool)
    → ((eff == p && n == 1 && not force) ≡ true) ↔ ((eff ≡ p) × (n ≡ 1) × (force ≡ false))
all_three eff p n true = ground arith
all_three eff p n false = ground arith

refuted : {b : Bool} → b ≡ false → b ≡ true → ⊥
refuted {b} h k = cc

through {ℓ κ μ} : {A : Type ℓ} {B : Type κ} {C : Type μ} → A ↔ B → B ↔ C → A ↔ C
through (f, g) (h, k) = (λ a. h (f a), λ c. g (k c))

missing_iff : (slots : List Slot) → (not (any_recovery slots) ≡ true) ↔ (¬ Has IsRecovery slots)
missing_iff slots = ground (arith, any_recovery_iff slots)

warned_iff :
    (a b c : Bool)
    → (Has
          (λ y. y ≡ presence_only)
          (warn_if a presence_only ++ warn_if b single_method ++ warn_if c no_recovery)
        ↔ (a ≡ true))
      × (Has
            (λ y. y ≡ single_method)
            (warn_if a presence_only ++ warn_if b single_method ++ warn_if c no_recovery)
          ↔ (b ≡ true))
      × (Has
            (λ y. y ≡ no_recovery)
            (warn_if a presence_only ++ warn_if b single_method ++ warn_if c no_recovery)
          ↔ (c ≡ true))
warned_iff true true true = ground arith
warned_iff true true false = ground arith
warned_iff true false true = ground arith
warned_iff true false false = ground arith
warned_iff false true true = ground arith
warned_iff false true false = ground arith
warned_iff false false true = ground arith
warned_iff false false false = ground arith

-- `validate_safety` refuses an envelope exactly when it has one slot, which the key alone opens, and
-- the caller does not force it; it then gives no warnings. Otherwise it succeeds and warns of a
-- lone factor exactly when there is a slot that the key alone opens and no other but for recovery,
-- of a single method exactly when there are fewer than two slots, and of missing recovery exactly
-- when there is no recovery slot. In both cases the report has the number of slots, and says that
-- there is a recovery slot exactly when there is one.
pub validate_safety_cases :
    (e : Envelope) (force : Bool)
    → ((IsLoneKey e.slots
          × (force ≡ false)
          × ((validate_safety e force).1 ≡ err policy_unsafe)
          × ((validate_safety e force).0.warnings ≡ []))
        ⊎ ((¬ (IsLoneKey e.slots × (force ≡ false)))
            × ((validate_safety e force).1 ≡ ok done)
            × (Warns presence_only (validate_safety e force).0 ↔ IsKeyOnly e.slots)
            × (Warns single_method (validate_safety e force).0 ↔ (length e.slots < 2))
            × (Warns no_recovery (validate_safety e force).0 ↔ (¬ Has IsRecovery e.slots))))
      × ((validate_safety e force).0.unlock_slots ≡ length e.slots)
      × (((validate_safety e force).0.has_recovery ≡ true) ↔ Has IsRecovery e.slots)
unfolding validate_safety
validate_safety_cases e force =
    let tests = all_three (effective_policy e) policy_yubikey_only (length e.slots) force in
    elim (Bool-cases
      (effective_policy e == policy_yubikey_only && length e.slots == 1 && not force)) [
        | inl refused ↦
            let (key, one, unforced) = tests.0 refused in
            rw refused (
              inl ((IsLoneKey-iff e).0 (key, one), unforced, refl, refl),
              refl,
              any_recovery_iff e.slots,
            )
        | inr fine ↦
            let (presence, single, missing) =
              warned_iff (effective_policy e == policy_yubikey_only) (ltb (length e.slots) 2)
                (not (any_recovery e.slots)) in
            let few : (ltb (length e.slots) 2 ≡ true) ↔ (length e.slots < 2) = ground arith in
            let kept : ¬ (IsLoneKey e.slots × (force ≡ false)) = λ (lone, unforced).
              let (key, one) = (IsLoneKey-iff e).1 lone in
              refuted fine (tests.1 (key, one, unforced)) in
            rw fine (
              inr (
                kept,
                refl,
                through presence
                    (through (==_iff (effective_policy e) policy_yubikey_only) (IsKeyOnly-iff e)),
                through single few,
                through missing (missing_iff e.slots),
              ),
              refl,
              any_recovery_iff e.slots,
            )
      ]
