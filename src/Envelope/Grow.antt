-- ===== src/Envelope/Grow.antt =====
-- `NewEnvelope` and `AddSlot`: what an envelope they return is like.
use go_tumbler.Base.{
  ℕ, ◌+◌, ◌≤◌, ◌<◌, ◌≡◌, ◌≢◌, inl, inr, refl, sym, ap, ◌∙◌, Bool, true, false, not, ◌&&◌, List, [],
  ◌∷◌, ◌++◌, length, leb, ◌==◌, if◌then◌else◌, arith, Bool-cases, ==_iff, ne→==, length-append,
  All-append,
}
use go_tumbler.Envelope.Policy.{Bears, effective_policy_iff}
use go_tumbler.Envelope.Remove.{primary_slot_count-append}
use go_tumbler.Envelope.{effective_policy, dek_out_of_range, add_slot, enroll_all, new_envelope}
use go_tumbler.Errors.{Error, dek_size, malformed, no_methods, policy_mismatch, Result, ok, err}
use go_tumbler.Method.{Method, check_ctx}
use go_tumbler.Method.Contract.{KeepsContract}
use go_tumbler.Secure.Container.{len}
use go_tumbler.Secure.World.{World, System, pure, fail, and_then-ok}
use mathlib.Core.Path.{subst}
use go_tumbler.Slot.{Slot, Envelope, max_slot_count}
use go_tumbler.Types.{method_recovery, policy_valid, policy_for_method, format_version}

pub guard-ok {ℓ} :
    {A : Type ℓ} (t : Bool) (x : Error) (u w : World) (a : A) (r : Result A × World)
    → (if t then (err x, u) else r) ≡ (ok a, w)
    → (t ≡ false) × (r ≡ (ok a, w))
guard-ok true x u w a r e = cc
guard-ok false x u w a r e = (refl, e)

pub pair-value {ℓ} : {A : Type ℓ} (a b : A) (u w : World) → pure a u ≡ (ok b, w) → a ≡ b
pair-value a b u w e = cc

-- The last test of `new_envelope`.
pub policy_checked :
    (e0 e : Envelope) (policy : ℕ) (v w : World)
    → (if effective_policy e0 == policy then pure e0 else fail policy_mismatch) v ≡ (ok e, w)
    → (effective_policy e0 ≡ policy) × (e0 ≡ e)
policy_checked e0 e policy v w h = elim (Bool-cases (effective_policy e0 == policy)) [
  | inl same ↦ ((==_iff (effective_policy e0) policy).0 same, pair-value e0 e v w (rw same at h))
  | inr other ↦ cc
]

-- A slot at the end that bears the effective policy keeps it.
effective_policy-append :
    (e : Envelope) (s : Slot) (p : ℕ)
    → p ≢ 0
    → effective_policy e ≡ p
    → Bears p s
    → effective_policy (record e { slots = e.slots ++ s ∷ [] }) ≡ p
effective_policy-append e s p real policy bears =
    let grown : Envelope = record e { slots = e.slots ++ s ∷ [] } in
    let (some_primary, all) = (effective_policy_iff e p real).0 policy in
    let counted = primary_slot_count-append e.slots (s ∷ []) in
    (effective_policy_iff grown p real).1
      (omega (arith, counted), All-append (Bears p) e.slots (s ∷ []) all (bears, tt))

leb-false : (n k : ℕ) → leb n k ≡ false → k < n
leb-false n k h = ground arith

-- The test of `add_slot` on the method's type.
fitting-Bears :
    (t eff p : ℕ) (s : Slot)
    → s.type ≡ t
    → eff ≡ p
    → (not (t == method_recovery) && not (policy_for_method t == eff)) ≡ false
    → Bears p s
fitting-Bears t eff p s same policy fits ne =
    let primary : (t == method_recovery) ≡ false = ne→== t 4 (λ e. ne (same ∙ e)) in
    let agrees : (policy_for_method t == eff) ≡ true = ground arith in
    ap policy_for_method same ∙ (==_iff (policy_for_method t) eff).0 agrees ∙ policy

module _ (os : System) where
  -- What `new_envelope` did where it succeeded.
  pub made_of :
      (dek policy : ℕ) (methods : List Method) (e : Envelope) (w w' : World)
      → new_envelope os dek policy methods w ≡ (ok e, w')
      → (v : World) × (enroll_all os dek methods [] w ≡ (ok e.slots, v))
        × (e ≡ record { version = format_version; policy_hint = policy; slots = e.slots })
        × (policy_valid policy ≡ true)
        × (effective_policy e ≡ policy)
        × (1 ≤ length methods)
  unfolding new_envelope
  made_of dek policy methods e w w' h =
      let (some_method, h1) = guard-ok (length methods == 0) no_methods w w' e _ h in
      let (valid, h2) = guard-ok (not (policy_valid policy)) policy_mismatch w w' e _ h1 in
      let (_, h3) = guard-ok (dek_out_of_range (len dek w)) dek_size w w' e _ h2 in
      let (slots, v, enrolls, h4) = and_then-ok (enroll_all os dek methods [] w) _ e w' h3 in
      let e0 : Envelope = record {
        version = format_version;
        policy_hint = policy;
        slots = slots;
      } in
      let (real, same) = policy_checked e0 e policy v w' h4 in
      subst
        (λ x.
          (v : World) × (enroll_all os dek methods [] w ≡ (ok x.slots, v))
          × (x ≡ record { version = format_version; policy_hint = policy; slots = x.slots })
          × (policy_valid policy ≡ true)
          × (effective_policy x ≡ policy)
          × (1 ≤ length methods))
        same (v, enrolls, refl, ground arith, real, ground arith)

  enroll_all-length :
      (dek : ℕ) (methods : List Method) (slots out : List Slot) (w w' : World)
      → enroll_all os dek methods slots w ≡ (ok out, w')
      → length out ≡ length slots + length methods
  unfolding enroll_all
  enroll_all-length dek [] slots out w w' e =
      let same = pair-value slots out w w' e in omega (arith, ap length (sym same))
  enroll_all-length dek (m ∷ ms) slots out w w' e =
      let (d, u, checks, e1) = and_then-ok (check_ctx os w) _ out w' e in
      let (slot, v, enrolled, e2) = and_then-ok (m.enroll dek u) _ out w' e1 in
      omega (
        arith,
        enroll_all-length dek ms (slots ++ slot ∷ []) out v w' e2,
        length-append slots (slot ∷ []),
      )

  -- An envelope that `new_envelope` returns is of format version 1, has one slot for each method
  -- and at least one, and the declared policy is a valid one, is recorded as the hint, and is the
  -- effective policy of the slots.
  pub new_envelope-policy :
      (dek policy : ℕ) (methods : List Method) (w w' : World) (e : Envelope)
      → new_envelope os dek policy methods w ≡ (ok e, w')
      → (e.version ≡ 1)
        × (e.policy_hint ≡ policy)
        × (policy_valid policy ≡ true)
        × (effective_policy e ≡ policy)
        × (length e.slots ≡ length methods)
        × (1 ≤ length e.slots)
  new_envelope-policy dek policy methods w w' e h =
      let (v, enrolls, same, valid, real, some_method) = made_of dek policy methods e w w' h in
      let grown = enroll_all-length dek methods [] e.slots w v enrolls in
      (
        ap (λ x. x.version) same,
        ap (λ x. x.policy_hint) same,
        valid,
        real,
        omega (arith, grown),
        omega (arith, grown, some_method),
      )

  -- A slot that `add_slot` adds, with a method that keeps to its contract, stands behind the slots
  -- there were, has the method's type and changes neither anything else of the envelope nor its
  -- effective policy, and there are at most 64 slots then.
  pub add_slot-effective_policy :
      (e e' : Envelope) (dek p : ℕ) (m : Method) (w w' : World)
      → p ≢ 0
      → effective_policy e ≡ p
      → KeepsContract m
      → add_slot os e dek m w ≡ (ok e', w')
      → (effective_policy e' ≡ p)
        × (length e'.slots ≤ 64)
        × ((s : Slot) × (s.type ≡ m.type) × (e' ≡ record e { slots = e.slots ++ s ∷ [] }))
  unfolding add_slot
  add_slot-effective_policy e e' dek p m w w' real policy contract h =
      let (sized, h1) = guard-ok (dek_out_of_range (len dek w)) dek_size w w' e' _ h in
      let (room, h2) = guard-ok (leb max_slot_count (length e.slots)) malformed w w' e' _ h1 in
      let (fits, h3) =
        guard-ok
          (not (m.type == method_recovery) && not (policy_for_method m.type == effective_policy e))
          policy_mismatch w w' e' _ h2 in
      let (s, v, enrolled, h4) = and_then-ok (m.enroll dek w) _ e' w' h3 in
      let bears : Bears p s =
        fitting-Bears m.type (effective_policy e) p s (contract.enrolls_type dek w v s enrolled)
          policy fits in
      let same = pair-value _ e' v w' h4 in
      let below : length e.slots < 64 = leb-false 64 (length e.slots) room in
      let fits_bound : length e'.slots ≤ 64 =
        omega (arith, below, ap (λ x. length x.slots) same, length-append e.slots (s ∷ [])) in
      let kept = effective_policy-append e s p real policy bears in
      (
        ap effective_policy (sym same) ∙ kept,
        fits_bound,
        (s, contract.enrolls_type dek w v s enrolled, sym same),
      )
