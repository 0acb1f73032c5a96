-- ===== src/Envelope/Policy.antt =====
-- `EffectivePolicy` against what it means: the policy that all primary slots share.
use go_tumbler.Base.{
  ℕ, ◌≤◌, ◌≡◌, ◌≢◌, ◌↔◌, inl, inr, refl, sym, ◌∙◌, none, some, List, [], ◌∷◌, All, ◌==◌, arith,
  Bool-cases, ==_iff,
}
use go_tumbler.Envelope.{primary_slot_count, policy_loop, effective_policy}
use go_tumbler.Slot.{Slot, Envelope}
use go_tumbler.Types.{policy_for_method}

-- A slot bears the policy `p`, or is a recovery slot and bears none.
abbrev pub Bears : ℕ → Slot → Type 0
Bears p s = s.type ≢ 4 → policy_for_method s.type ≡ p

policy_loop-some :
    (p : ℕ) (slots : List Slot) → p ≢ 0 → All (Bears p) slots → policy_loop (some p) slots ≡ p
unfolding policy_loop
policy_loop-some p [] h k = refl
policy_loop-some p (s ∷ slots) h (b, k) = elim (Bool-cases (s.type == 4)) [
  | inl recovery ↦ rw recovery (policy_loop-some p slots h k)
  | inr primary ↦
      rw (primary, (==_iff (policy_for_method s.type) p).1 (b (λ e. ground arith)))
        (policy_loop-some p slots h k)
]

policy_loop-some_inv :
    (p q : ℕ) (slots : List Slot)
    → q ≢ 0
    → policy_loop (some p) slots ≡ q
    → (p ≡ q) × All (Bears q) slots
unfolding policy_loop
policy_loop-some_inv p q [] h e = (e, tt)
policy_loop-some_inv p q (s ∷ slots) h e = elim (Bool-cases (s.type == 4)) [
  | inl recovery ↦
      let (same, all) = policy_loop-some_inv p q slots h (rw recovery at e) in
      (same, ((λ ne. absurd (ne ((==_iff s.type 4).0 recovery))), all))
  | inr primary ↦ elim (Bool-cases (policy_for_method s.type == p)) [
    | inl agrees ↦
        let (same, all) = policy_loop-some_inv p q slots h (rw (primary, agrees) at e) in
        (same, ((λ _. (==_iff (policy_for_method s.type) p).0 agrees ∙ same), all))
    | inr differs ↦ absurd (h (sym (rw (primary, differs) at e)))
  ]
]

policy_loop-none :
    (p : ℕ) (slots : List Slot)
    → p ≢ 0
    → 1 ≤ primary_slot_count slots
    → All (Bears p) slots
    → policy_loop none slots ≡ p
unfolding policy_loop primary_slot_count
policy_loop-none p [] h some_primary k = absurd (omega arith)
policy_loop-none p (s ∷ slots) h some_primary (b, k) = elim (Bool-cases (s.type == 4)) [
  | inl recovery ↦
      let later : 1 ≤ primary_slot_count slots = ground arith in
      rw recovery (policy_loop-none p slots h later k)
  | inr primary ↦ rw (primary, b (λ e. ground arith)) (policy_loop-some p slots h k)
]

policy_loop-none_inv :
    (q : ℕ) (slots : List Slot)
    → q ≢ 0
    → policy_loop none slots ≡ q
    → (1 ≤ primary_slot_count slots) × All (Bears q) slots
unfolding policy_loop primary_slot_count
policy_loop-none_inv q [] h e = absurd (h (sym e))
policy_loop-none_inv q (s ∷ slots) h e = elim (Bool-cases (s.type == 4)) [
  | inl recovery ↦
      let (count, all) = policy_loop-none_inv q slots h (rw recovery at e) in
      (rw recovery (omega arith), ((λ ne. absurd (ne ((==_iff s.type 4).0 recovery))), all))
  | inr primary ↦
      let (same, all) =
        policy_loop-some_inv (policy_for_method s.type) q slots h (rw primary at e) in
      (rw primary (omega arith), ((λ _. same), all))
]

-- The effective policy is the real policy `p` exactly when there is a primary slot and every
-- primary slot's type implies `p`.
pub effective_policy_iff :
    (e : Envelope) (p : ℕ)
    → p ≢ 0
    → (effective_policy e ≡ p) ↔ ((1 ≤ primary_slot_count e.slots) × All (Bears p) e.slots)
unfolding effective_policy
effective_policy_iff e p h = (
  policy_loop-none_inv p e.slots h,
  λ (some_primary, all). policy_loop-none p e.slots h some_primary all,
)
