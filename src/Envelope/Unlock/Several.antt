-- ===== src/Envelope/Unlock/Several.antt =====
-- Unlocking with several methods, of which some may hold a wrong secret.
use go_tumbler.Base.{ℕ, ◌≡◌, inl, inr, refl, sym, ap, ◌∙◌, none, List, [], ◌∷◌, ◌++◌, Bytes, All}
use go_tumbler.Envelope.Reopen.{unlock_step-Returns}
use go_tumbler.Envelope.Unlock.{attempts, run_attempts, unlock-attempts}
use go_tumbler.Envelope.{unlock_step, unlock}
use go_tumbler.Errors.{done, auth_failed, Result, err}
use go_tumbler.Method.Contract.{KeepsContract}
use go_tumbler.Method.Frame.{check_ctx-Frees}
use go_tumbler.Method.RoundTrip.Shaped.{check_ctx-done}
use go_tumbler.Method.WrongSecret.{RightOrRefused, then-RightOrRefused}
use go_tumbler.Method.{Method, check_ctx}
use go_tumbler.Secure.Frame.{Clean, Clean-refl, Clean-trans, YieldsAt}
use go_tumbler.Secure.Returns.{Returns, then-Returns}
use go_tumbler.Secure.World.{World, System, M}
use go_tumbler.Slot.{Slot, Envelope}
use mathlib.Core.Path.{subst}

-- From `u` on, the method gets the data key out of the slot.
abbrev pub OpensSlot : Bytes → World → Slot × Method → Type 0
OpensSlot pt u t = (x : World) → Clean u x → Returns pt (t.1.unlock t.0 x)

-- From `u` on, the method gets the data key out of the slot, or is told that its secret is wrong.
abbrev pub MayOpenSlot : Bytes → World → Slot × Method → Type 0
MayOpenSlot pt u t =
    KeepsContract t.1 × ((x : World) → Clean u x → RightOrRefused pt (t.1.unlock t.0 x))

module _ (os : System) where
  refused-Returns :
      (pt : Bytes) (r : Result ℕ × World) (later : M ℕ)
      → r.0 ≡ err auth_failed
      → Returns pt (later r.1)
      → Returns pt (unlock_step os r later)
  refused-Returns pt r later e returns =
      subst (λ o. Returns pt (unlock_step os (o, r.1) later)) (sym e) returns

  refused-Clean :
      (v : World) (r : Result ℕ × World) → r.0 ≡ err auth_failed → YieldsAt v r → Clean v r.1
  refused-Clean v r e y = subst (λ o. YieldsAt v (o, r.1)) e y

  run_attempts-Returns :
      (awake : (t : ℕ) → os.ctx_err t ≡ none) (pt : Bytes) (u : World)
      (before : List (Slot × Method)) (t : Slot × Method) (after : List (Slot × Method)) (w : World)
      → Clean u w
      → All (MayOpenSlot pt u) before
      → OpensSlot pt u t
      → Returns pt (run_attempts os (before ++ t ∷ after) w)
  unfolding run_attempts
  run_attempts-Returns awake pt u [] (s, m) after w clean may opens =
      let v = (check_ctx os w).1 in
      then-Returns pt (check_ctx os) _ w done (check_ctx-done os w (awake w.tick)) (
        unlock_step-Returns os pt (m.unlock s v) _
          (opens v (Clean-trans clean (check_ctx-Frees os w))))
  run_attempts-Returns awake pt u ((s, m) ∷ before) t after w clean ((contract, answer), may)
        opens =
      let v = (check_ctx os w).1 in
      let clean_v = Clean-trans clean (check_ctx-Frees os w) in
      then-Returns pt (check_ctx os) _ w done (check_ctx-done os w (awake w.tick))
        (elim (answer v clean_v) [
          | inl returns ↦ unlock_step-Returns os pt (m.unlock s v) _ returns
          | inr refused ↦
              let left = refused-Clean v (m.unlock s v) refused (contract.unlock_yields s v) in
              refused-Returns pt (m.unlock s v) _ refused (
                run_attempts-Returns awake pt u before t after (m.unlock s v).1
                  (Clean-trans clean_v left) may opens)
        ])

  run_attempts-RightOrRefused :
      (awake : (t : ℕ) → os.ctx_err t ≡ none) (pt : Bytes) (u : World)
      (tries : List (Slot × Method)) (w : World)
      → Clean u w
      → All (MayOpenSlot pt u) tries
      → RightOrRefused pt (run_attempts os tries w)
  unfolding run_attempts
  run_attempts-RightOrRefused awake pt u [] w clean may = inr refl
  run_attempts-RightOrRefused awake pt u ((s, m) ∷ tries) w clean ((contract, answer), may) =
      let v = (check_ctx os w).1 in
      let clean_v = Clean-trans clean (check_ctx-Frees os w) in
      then-RightOrRefused os pt _ w (awake w.tick) (elim (answer v clean_v) [
        | inl returns ↦ inl (unlock_step-Returns os pt (m.unlock s v) _ returns)
        | inr refused ↦
            let left = refused-Clean v (m.unlock s v) refused (contract.unlock_yields s v) in
            subst
              (λ o.
                RightOrRefused pt (unlock_step os (o, (m.unlock s v).1) (run_attempts os tries)))
              (sym refused)
              (run_attempts-RightOrRefused awake pt u tries (m.unlock s v).1
                (Clean-trans clean_v left) may)
      ])

  pub unlock-RightOrRefused :
      (e : Envelope) (m : Method) (ms : List Method) (pt : Bytes) (u : World)
      → ((n : ℕ) → os.ctx_err n ≡ none)
      → All (MayOpenSlot pt u) (attempts e.slots (m ∷ ms))
      → RightOrRefused pt (unlock os e (m ∷ ms) u)
  unlock-RightOrRefused e m ms pt u awake may =
      subst (λ k. RightOrRefused pt (k u)) (sym (unlock-attempts os e m ms))
        (run_attempts-RightOrRefused awake pt u (attempts e.slots (m ∷ ms)) u (Clean-refl u) may)

  -- Wrong secrets do not stand in the way: `unlock` with any methods gets the data key in a new live
  -- container, where one of the attempts that it may make opens its slot, each attempt before that
  -- one opens its slot or is refused, by a method that keeps to its contract, and the context is
  -- not done.
  pub unlock-Returns :
      (e : Envelope) (m : Method) (ms : List Method) (pt : Bytes) (u : World)
      (before : List (Slot × Method)) (t : Slot × Method) (after : List (Slot × Method))
      → ((n : ℕ) → os.ctx_err n ≡ none)
      → attempts e.slots (m ∷ ms) ≡ before ++ t ∷ after
      → All (MayOpenSlot pt u) before
      → OpensSlot pt u t
      → Returns pt (unlock os e (m ∷ ms) u)
  unlock-Returns e m ms pt u before t after awake tries may opens =
      subst (λ k. Returns pt (k u)) (sym (unlock-attempts os e m ms ∙ ap (run_attempts os) tries))
        (run_attempts-Returns awake pt u before t after u (Clean-refl u) may opens)
