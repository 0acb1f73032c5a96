-- ===== src/Envelope/Access.antt =====
-- Who can open an envelope to which a slot was added.
use go_tumbler.Base.{
  ℕ, ◌≡◌, ◌≢◌, refl, sym, ap, ◌∙◌, not, ◌&&◌, none, List, [], ◌∷◌, ◌++◌, Bytes, length, All, leb,
  ◌==◌, append_assoc,
}
use go_tumbler.Envelope.Grow.{guard-ok, pair-value}
use go_tumbler.Envelope.Reopen.{unlock-first}
use go_tumbler.Envelope.Unlock.{for_slot, attempts, Opens, here, retry, unlock_iff}
use go_tumbler.Envelope.{effective_policy, dek_out_of_range, add_slot, unlock}
use go_tumbler.Errors.{dek_size, malformed, policy_mismatch, ok}
use go_tumbler.Method.Contract.{KeepsContract}
use go_tumbler.Method.Frame.{check_ctx-Frees}
use go_tumbler.Method.Reopens.{Reopens}
use go_tumbler.Method.RoundTrip.{derived-ok}
use go_tumbler.Method.{Method, check_ctx}
use go_tumbler.Secure.Container.{len}
use go_tumbler.Secure.Frame.{Clean-refl}
use go_tumbler.Secure.Returns.{Returns}
use go_tumbler.Secure.World.{World, System}
use go_tumbler.Slot.{Slot, Envelope, max_slot_count}
use go_tumbler.Types.{method_recovery, policy_for_method}
use mathlib.Core.Path.{subst}

attempts-append :
    (slots more : List Slot) (methods : List Method)
    → attempts (slots ++ more) methods ≡ attempts slots methods ++ attempts more methods
attempts-append [] more methods = refl
attempts-append (s ∷ slots) more methods =
    ap (◌++◌ (for_slot s methods)) (attempts-append slots more methods)
    ∙ sym (append_assoc (for_slot s methods) (attempts slots methods) (attempts more methods))

module _ (os : System) where
  -- More attempts behind those that found the data key change nothing.
  Opens-append :
      {h : ℕ} {w' : World} (more tries : List (Slot × Method)) {w : World}
      → Opens os h w' tries w
      → Opens os h w' (tries ++ more) w
  Opens-append more _ (here s m tries checks opened) = here s m (tries ++ more) checks opened
  Opens-append more _ (retry s m tries checks refused later) =
      retry s m (tries ++ more) checks refused (Opens-append more tries later)

  -- What `add_slot` did where it succeeded.
  pub added :
      (e e' : Envelope) (dek : ℕ) (m : Method) (w w' : World)
      → add_slot os e dek m w ≡ (ok e', w')
      → (s : Slot) × (v : World) × (m.enroll dek w ≡ (ok s, v))
        × (e' ≡ record e { slots = e.slots ++ s ∷ [] })
  unfolding add_slot
  added e e' dek m w w' h =
      let (_, h1) = guard-ok (dek_out_of_range (len dek w)) dek_size w w' e' _ h in
      let (_, h2) = guard-ok (leb max_slot_count (length e.slots)) malformed w w' e' _ h1 in
      let (_, h3) =
        guard-ok
          (not (m.type == method_recovery) && not (policy_for_method m.type == effective_policy e))
          policy_mismatch w w' e' _ h2 in
      derived-ok (m.enroll dek w) _ h3
        λ s v enrolled h4. (s, v, enrolled, sym (pair-value _ e' v w' h4))

  -- A slot that `add_slot` adds takes nobody's access: whatever methods opened the envelope before
  -- open it afterwards, with the same data key and the same store.
  pub unlock-add_slot :
      (e e' : Envelope) (dek h : ℕ) (m : Method) (methods : List Method) (w w' u u' : World)
      → add_slot os e dek m w ≡ (ok e', w')
      → unlock os e methods u ≡ (ok h, u')
      → unlock os e' methods u ≡ (ok h, u')
  unlock-add_slot e e' dek h m methods w w' u u' adds opens =
      let (s, v, enrolled, same) = added e e' dek m w w' adds in
      let tries = attempts e.slots methods in
      let more = attempts (s ∷ []) methods in
      let opened = Opens-append more tries ((unlock_iff os e methods u u' h).0 opens) in
      let all : tries ++ more ≡ attempts e'.slots methods =
        sym (attempts-append e.slots (s ∷ []) methods)
        ∙ ap (λ x. attempts x.slots methods) (sym same) in
      (unlock_iff os e' methods u u' h).1 (subst (λ t. Opens os h u' t u) all opened)

  -- The method of an added slot opens the envelope: where no slot before it is of its type, any
  -- method of that type that opens the slots that `m` enrolls gets the data key in a new live
  -- container, if the context is not done.
  pub unlock-added :
      (e e' : Envelope) (dek : ℕ) (m m' : Method) (w w' u : World) (pt : Bytes)
      → KeepsContract m
      → All (λ s. s.type ≢ m.type) e.slots
      → m'.type ≡ m.type
      → Reopens m m' dek pt w u
      → os.ctx_err u.tick ≡ none
      → add_slot os e dek m w ≡ (ok e', w')
      → Returns pt (unlock os e' (m' ∷ []) u)
  unlock-added e e' dek m m' w w' u pt k others type reopens awake adds =
      let (s, v, enrolled, same) = added e e' dek m w w' adds in
      unlock-first os e' e.slots s [] m' u pt (ap (λ x. x.slots) same)
        (subst (λ t. All (λ b. b.type ≢ t) e.slots) (sym type) others)
        (k.enrolls_type dek w v s enrolled ∙ sym type) awake
        (reopens s w v (check_ctx os u).1 (Clean-refl w) (check_ctx-Frees os u) enrolled)
