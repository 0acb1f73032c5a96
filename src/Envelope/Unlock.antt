-- ===== src/Envelope/Unlock.antt =====
-- `Unlock` against the order in which it tries: slots in file order, and for each slot the methods
-- of its type in the caller's order.
pub mod Errors
pub mod Several
use go_tumbler.Base.{
  ℕ, ◌↔◌, inl, inr, refl, sym, ap, ◌∙◌, ne→==, suc, ◌≡◌, List, [], ◌∷◌, ◌++◌, length, All, ◌==◌,
  if◌then◌else◌, arith, Bool-cases,
}
use go_tumbler.Envelope.{unlock_step, try_methods, try_slots, unlock}
use go_tumbler.Errors.{Done, done, auth_failed, no_methods, Result, ok, err}
use go_tumbler.Method.{Method, check_ctx}
use go_tumbler.Method.Contract.{KeepsContract}
use go_tumbler.Method.Frame.{check_ctx-Frees}
use go_tumbler.Secure.Frame.{Clean-refl, Yields, YieldsAt, YieldsAt-step, bind-Yields}
use go_tumbler.Secure.World.{World, System, M, fail, and_then, ◌>>◌}
use mathlib.Core.Path.{subst}
use go_tumbler.Slot.{Slot, Envelope}

-- The methods that are tried on a slot, in order.
abbrev pub for_slot : Slot → List Method → List (Slot × Method)
for_slot s [] = []
for_slot s (m ∷ ms) = if m.type == s.type then (s, m) ∷ for_slot s ms else for_slot s ms

-- All attempts that `Unlock` may make, in order.
abbrev pub attempts : List Slot → List Method → List (Slot × Method)
attempts [] methods = []
attempts (s ∷ slots) methods = for_slot s methods ++ attempts slots methods

module _ (os : System) where
  -- The attempts `tries`, begun in `w`, find the data key `h` and end in `w'`: every attempt before
  -- the one that opens its slot answers `auth_failed`, and no check of the context stops them.
  pub data Opens (h : ℕ) (w' : World) : List (Slot × Method) → World → Type 0 where
    here :
        {w v : World} (s : Slot) (m : Method) (tries : List (Slot × Method))
        → check_ctx os w ≡ (ok done, v)
        → m.unlock s v ≡ (ok h, w')
        → Opens h w' ((s, m) ∷ tries) w
    retry :
        {w v u : World} (s : Slot) (m : Method) (tries : List (Slot × Method))
        → check_ctx os w ≡ (ok done, v)
        → m.unlock s v ≡ (err auth_failed, u)
        → Opens h w' tries u
        → Opens h w' ((s, m) ∷ tries) w

  -- The attempts as one list.
  run_attempts : List (Slot × Method) → M ℕ
  run_attempts [] = fail auth_failed
  run_attempts ((s, m) ∷ tries) =
      let later = run_attempts tries in check_ctx os >> (λ w. unlock_step os (m.unlock s w) later)

  try_methods-attempts :
      (s : Slot) (methods : List Method) (tries : List (Slot × Method))
      → try_methods os s methods (run_attempts tries) ≡ run_attempts (for_slot s methods ++ tries)
  unfolding try_methods run_attempts
  try_methods-attempts s [] tries = refl
  try_methods-attempts s (m ∷ ms) tries = elim (Bool-cases (m.type == s.type)) [
    | inl fits ↦ rw (fits, try_methods-attempts s ms tries)
    | inr other ↦ rw (other, try_methods-attempts s ms tries)
  ]

  try_slots-attempts :
      (methods : List Method) (slots : List Slot)
      → try_slots os methods slots ≡ run_attempts (attempts slots methods)
  unfolding try_slots run_attempts
  try_slots-attempts methods [] = refl
  try_slots-attempts methods (s ∷ slots) =
      ap (try_methods os s methods) (try_slots-attempts methods slots)
      ∙ try_methods-attempts s methods (attempts slots methods)

  unlock_step-Opens :
      {w v w' : World} {h : ℕ} (s : Slot) (m : Method) (tries : List (Slot × Method))
      → ((u : World) → run_attempts tries u ≡ (ok h, w') → Opens h w' tries u)
      → check_ctx os w ≡ (ok done, v)
      → (r : Result ℕ × World) → m.unlock s v ≡ r
      → unlock_step os r (run_attempts tries) ≡ (ok h, w')
      → Opens h w' ((s, m) ∷ tries) w
  unlock_step-Opens s m tries later checks (ok k, u) opened e = here s m tries checks (opened ∙ e)
  unlock_step-Opens s m tries later checks (err auth_failed, u) refused e =
      retry s m tries checks refused (later u e)
  unlock_step-Opens s m tries later checks (err other, u) refused e = cc

  checks-Opens :
      {w w' : World} {h : ℕ} (s : Slot) (m : Method) (tries : List (Slot × Method))
      → ((u : World) → run_attempts tries u ≡ (ok h, w') → Opens h w' tries u)
      → (r : Result Done × World) → check_ctx os w ≡ r
      → and_then r (λ _ v. unlock_step os (m.unlock s v) (run_attempts tries)) ≡ (ok h, w')
      → Opens h w' ((s, m) ∷ tries) w
  checks-Opens s m tries later (ok done, v) checks e =
      unlock_step-Opens s m tries later checks (m.unlock s v) refl e
  checks-Opens s m tries later (err x, v) checks e = cc

  run_attempts-Opens :
      {h : ℕ} {w' : World} (tries : List (Slot × Method)) (w : World)
      → run_attempts tries w ≡ (ok h, w')
      → Opens h w' tries w
  unfolding run_attempts
  run_attempts-Opens [] w e = cc
  run_attempts-Opens ((s, m) ∷ tries) w e =
      checks-Opens s m tries (run_attempts-Opens tries) (check_ctx os w) refl e

  Opens-run_attempts :
      {h : ℕ} {w' : World} (tries : List (Slot × Method)) (w : World)
      → Opens h w' tries w
      → run_attempts tries w ≡ (ok h, w')
  unfolding run_attempts
  Opens-run_attempts _ w (here s m tries checks opened) = rw (checks, opened)
  Opens-run_attempts _ w (retry s m tries checks refused later) =
      rw (checks, refused) (Opens-run_attempts tries _ later)

  attempts-none : (slots : List Slot) → attempts slots [] ≡ []
  attempts-none [] = refl
  attempts-none (s ∷ slots) = attempts-none slots

  cannot_open : {h : ℕ} {w w' : World} → Opens h w' [] w → fail no_methods w ≡ (ok h, w')
  cannot_open {h} {w} {w'} opens =
      let e : fail auth_failed w ≡ (ok h, w') =
        unfold run_attempts in Opens-run_attempts [] w opens in
      cc

  unlock-attempts :
      (e : Envelope) (m : Method) (ms : List Method)
      → unlock os e (m ∷ ms) ≡ run_attempts (attempts e.slots (m ∷ ms))
  unfolding unlock
  unlock-attempts e m ms =
      rw (ne→== (suc (length ms)) 0 (λ z. omega arith)) (try_slots-attempts (m ∷ ms) e.slots)

  -- Only the attempts matter.
  pub unlock-same :
      (e e' : Envelope) (methods : List Method)
      → attempts e.slots methods ≡ attempts e'.slots methods
      → unlock os e methods ≡ unlock os e' methods
  unfolding unlock
  unlock-same e e' [] same = refl
  unlock-same e e' (m ∷ ms) same =
      unlock-attempts e m ms ∙ ap run_attempts same ∙ sym (unlock-attempts e' m ms)

  -- Where no method is of a slot's type, none is asked.
  pub unlock-nothing :
      (e : Envelope) (m : Method) (ms : List Method)
      → attempts e.slots (m ∷ ms) ≡ []
      → unlock os e (m ∷ ms) ≡ fail auth_failed
  unfolding run_attempts
  unlock-nothing e m ms nothing = unlock-attempts e m ms ∙ ap run_attempts nothing

  -- `unlock` returns the data key `h` exactly when one of the attempts opens its slot with `h`,
  -- every attempt before it having answered `auth_failed` and the context being live at each:
  -- the attempts are the slots in file order, each with the methods of its type in the caller's
  -- order.
  pub unlock_iff :
      (e : Envelope) (methods : List Method) (w w' : World) (h : ℕ)
      → (unlock os e methods w ≡ (ok h, w')) ↔ Opens h w' (attempts e.slots methods) w
  unfolding unlock
  unlock_iff e [] w w' h = (
    λ opened. cc,
    λ opens. cannot_open (subst (λ tries. Opens h w' tries w) (attempts-none e.slots) opens),
  )
  unlock_iff e (m ∷ ms) w w' h =
      let tries = attempts e.slots (m ∷ ms) in
      let same = ap (λ f. f w) (unlock-attempts e m ms) in
      (
        λ opened. run_attempts-Opens tries w (sym same ∙ opened),
        λ opens. same ∙ Opens-run_attempts tries w opens,
      )

  unlock_step-YieldsAt :
      (v : World) (r : Result ℕ × World) (later : M ℕ)
      → YieldsAt v r
      → Yields later
      → YieldsAt v (unlock_step os r later)
  unlock_step-YieldsAt v (ok h, u) later y p = y
  unlock_step-YieldsAt v (err auth_failed, u) later y p = YieldsAt-step (later u) y (p u)
  unlock_step-YieldsAt v (err other, u) later y p = y

  try_methods-Yields :
      (s : Slot) (methods : List Method) (next : M ℕ)
      → All KeepsContract methods
      → Yields next
      → Yields (try_methods os s methods next)
  unfolding try_methods
  try_methods-Yields s [] next k p = p
  try_methods-Yields s (m ∷ ms) next (y, k) p = elim (Bool-cases (m.type == s.type)) [
    | inl fits ↦ rw fits (
        bind-Yields (check_ctx os) _ (check_ctx-Frees os) λ _ v.
          unlock_step-YieldsAt v (m.unlock s v) _ (y.unlock_yields s v)
            (try_methods-Yields s ms next k p))
    | inr other ↦ rw other (try_methods-Yields s ms next k p)
  ]

  try_slots-Yields :
      (methods : List Method) (slots : List Slot)
      → All KeepsContract methods
      → Yields (try_slots os methods slots)
  unfolding try_slots
  try_slots-Yields methods [] k = Clean-refl
  try_slots-Yields methods (s ∷ slots) k =
      try_methods-Yields s methods _ k (try_slots-Yields methods slots k)

  -- Where the methods keep to their contract, `unlock` returns one new live container, or an error,
  -- and has wiped every other container that was allocated, whatever attempts failed on the way.
  pub unlock_envelope-Yields :
      (e : Envelope) (methods : List Method)
      → All KeepsContract methods
      → Yields (unlock os e methods)
  unfolding unlock
  unlock_envelope-Yields e methods k = elim (Bool-cases (length methods == 0)) [
    | inl empty ↦ rw empty Clean-refl
    | inr some_method ↦ rw some_method (try_slots-Yields methods e.slots k)
  ]
