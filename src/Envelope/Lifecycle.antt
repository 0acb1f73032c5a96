-- ===== src/Envelope/Lifecycle.antt =====
-- The life of an envelope: `NewEnvelope`, then any sequence of `AddSlot`, `RemoveSlot`, and writing
-- to bytes and reading back. An operation that fails leaves the envelope as it was, and is no step.
pub mod Access
pub mod Tries
use go_tumbler.Base.{
  ℕ, ◌≤◌, ◌≡◌, ◌≢◌, refl, sym, ap, ◌∙◌, true, List, [], ◌∷◌, ◌++◌, length, All, All-append, All-map,
  inl, inr, Bytes, arith, not, ◌==◌,
}
use go_tumbler.Envelope.Access.{added}
use go_tumbler.Envelope.Grow.{
  guard-ok, pair-value, policy_checked, new_envelope-policy, add_slot-effective_policy,
}
use go_tumbler.Envelope.Remove.{remove_slot_cases, remove_slot-effective_policy}
use go_tumbler.Envelope.Remove.Access.{remove_slot-IsWellFormed}
use go_tumbler.Envelope.Stored.{new_envelope-IsWellFormed, add_slot-IsWellFormed}
use go_tumbler.Envelope.{
  dek_out_of_range, enroll_all, new_envelope, add_slot, remove_slot, effective_policy,
}
use go_tumbler.Errors.{no_methods, policy_mismatch, dek_size, ok, ok-injective}
use go_tumbler.Method.Contract.{KeepsContract}
use go_tumbler.Method.Frame.{check_ctx-Frees}
use go_tumbler.Method.RoundTrip.{bind-ok, derived-ok}
use go_tumbler.Method.Sealed.{Seals}
use go_tumbler.Method.{Method, check_ctx}
use go_tumbler.Secure.Container.{len}
use go_tumbler.Secure.Frame.{Clean, Clean-refl}
use go_tumbler.Secure.World.{World, System}
use go_tumbler.Slot.{Slot, Envelope}
use go_tumbler.Types.{policy_valid, format_version}
use go_tumbler.Wire.{marshal, parse_envelope}
use go_tumbler.Wire.RoundTrip.{IsWellFormed, parse_envelope-marshal}
use mathlib.Core.Path.{subst}

-- A method that a slot may be enrolled with, for the data key in `dek` from `w` on: it keeps to its
-- contract, its slots can be written, and it has what is asked of it besides.
abbrev pub Fits : (ℕ → Method → World → Type 0) → ℕ → World → Method → Type 0
Fits asked dek w m = KeepsContract m × Seals m dek w × asked dek m w

module _ (os : System) (asked : ℕ → Method → World → Type 0) (policy : ℕ) where
  -- The envelopes that come of an envelope made with the policy.
  pub data Lives : Envelope → Type 0 where
    made :
        {e : Envelope} (dek : ℕ) (methods : List Method) (w w' : World)
        → All (Fits asked dek w) methods
        → length methods ≤ 64
        → new_envelope os dek policy methods w ≡ (ok e, w')
        → Lives e
    grown :
        {e0 e : Envelope} (dek : ℕ) (m : Method) (w w' : World)
        → Lives e0
        → Fits asked dek w m
        → add_slot os e0 dek m w ≡ (ok e, w')
        → Lives e
    cut : {e0 e : Envelope} (id : Bytes) → Lives e0 → remove_slot e0 id ≡ ok e → Lives e
    stored :
        {e0 e : Envelope} (b : Bytes)
        → Lives e0
        → marshal e0 ≡ ok b
        → parse_envelope b ≡ ok e
        → Lives e

  -- What every envelope keeps that comes of one made with the policy.
  pub record Inv (e : Envelope) : Type 0 where
    pub formed : IsWellFormed e
    pub valid : policy_valid policy ≡ true
    pub hint : e.policy_hint ≡ policy
    pub current : effective_policy e ≡ policy

  real : policy_valid policy ≡ true → policy ≢ 0
  unfolding policy_valid
  real valid zero = ground arith

  reread :
      (e e' : Envelope) (b : Bytes)
      → IsWellFormed e
      → marshal e ≡ ok b
      → parse_envelope b ≡ ok e'
      → e ≡ e'
  reread e e' b formed writes reads =
      let (b', writes', reads', _) = parse_envelope-marshal e formed in
      let same : b' ≡ b = ok-injective (sym writes' ∙ writes) in
      ok-injective (sym reads' ∙ ap parse_envelope same ∙ reads)

  remove_slot-hint :
      (e e' : Envelope) (id : Bytes) → remove_slot e id ≡ ok e' → e'.policy_hint ≡ e.policy_hint
  remove_slot-hint e e' id h = elim (remove_slot_cases e id) [
    | inl (missing, r) ↦ cc
    | inr (f, inl (last, r)) ↦ cc
    | inr (f, inr (other, r)) ↦ ap (λ x. x.policy_hint) (sym (ok-injective (sym r ∙ h)))
  ]

  -- However an envelope was made with a policy by at most 64 methods, grown, cut, written and read
  -- again, by methods that keep to their contract and whose slots can be written: it is well formed,
  -- so that it can be written and read again, and the policy is a valid one, stands in its hint and
  -- is the effective policy of its slots.
  pub Lives-Inv : {e : Envelope} → Lives e → Inv e
  Lives-Inv {e} (made dek methods w w' fits room h) =
      let (_, hint, valid, current, _, _) = new_envelope-policy os dek policy methods w w' e h in
      record {
        formed =
            new_envelope-IsWellFormed os dek policy methods e w w'
              (All-map (λ m f. f.0) methods fits) (All-map (λ m f. f.1) methods fits) room h;
        valid = valid;
        hint = hint;
        current = current;
      }
  Lives-Inv {e} (grown {e0} dek m w w' lives (contract, seals, _) h) =
      let before = Lives-Inv lives in
      let kept : effective_policy e0 ≢ 0 = λ z. real before.valid (sym before.current ∙ z) in
      let (current, _, (s, _, same)) =
        add_slot-effective_policy os e0 e dek policy m w w' (real before.valid) before.current
          contract h in
      record {
        formed = add_slot-IsWellFormed os e0 e dek m w w' before.formed contract seals kept h;
        valid = before.valid;
        hint = ap (λ x. x.policy_hint) same ∙ before.hint;
        current = current;
      }
  Lives-Inv {e} (cut {e0} id lives h) =
      let before = Lives-Inv lives in
      record {
        formed = remove_slot-IsWellFormed e0 e id before.formed h;
        valid = before.valid;
        hint = remove_slot-hint e0 e id h ∙ before.hint;
        current = remove_slot-effective_policy e0 e id policy (real before.valid) before.current h;
      }
  Lives-Inv {e} (stored {e0} b lives writes reads) =
      let before = Lives-Inv lives in subst Inv (reread e0 e b before.formed writes reads) before
