-- ===== src/Envelope/Unlock/Errors.antt =====
-- Why `Unlock` fails.
use go_tumbler.Base.{
  ℕ, ◌≡◌, ◌≢◌, ◌↔◌, refl, sym, ap, ◌∙◌, true, false, List, [], ◌∷◌, Bool-cases, inl, inr, arith,
}
use go_tumbler.Envelope.Unlock.{attempts, run_attempts, unlock-attempts}
use go_tumbler.Envelope.{unlock_step, unlock}
use go_tumbler.Errors.{Done, done, Error, auth_failed, is_auth_failed, Result, ok, err}
use go_tumbler.Method.{Method, check_ctx}
use go_tumbler.Secure.World.{World, System, and_then}
use go_tumbler.Slot.{Slot, Envelope}

auth_failed_only : (e : Error) → is_auth_failed e ≡ true → e ≡ auth_failed
auth_failed_only e h = ground arith

auth_failed_never : (e : Error) → is_auth_failed e ≡ false → e ≢ auth_failed
auth_failed_never e h = λ same. cc

module _ (os : System) (x : Error) (w' : World) where
  -- The attempts, begun in a store, end with the error `x` in `w'`: all of them answered
  -- `auth_failed`, and that is the error; or the context was done before one of them; or one of them
  -- failed with another error.
  pub data Stops : List (Slot × Method) → World → Type 0 where
    exhausted : {w : World} → x ≡ auth_failed → w' ≡ w → Stops [] w
    cancelled :
        {w : World} (s : Slot) (m : Method) (tries : List (Slot × Method))
        → check_ctx os w ≡ (err x, w')
        → Stops ((s, m) ∷ tries) w
    broken :
        {w v : World} (s : Slot) (m : Method) (tries : List (Slot × Method))
        → check_ctx os w ≡ (ok done, v)
        → m.unlock s v ≡ (err x, w')
        → x ≢ auth_failed
        → Stops ((s, m) ∷ tries) w
    refused :
        {w v u : World} (s : Slot) (m : Method) (tries : List (Slot × Method))
        → check_ctx os w ≡ (ok done, v)
        → m.unlock s v ≡ (err auth_failed, u)
        → Stops tries u
        → Stops ((s, m) ∷ tries) w

  failed-Stops :
      {w v : World} (s : Slot) (m : Method) (tries : List (Slot × Method))
      → ((u : World) → run_attempts os tries u ≡ (err x, w') → Stops tries u)
      → check_ctx os w ≡ (ok done, v)
      → (y : Error) (u : World) → m.unlock s v ≡ (err y, u)
      → unlock_step os (err y, u) (run_attempts os tries) ≡ (err x, w')
      → Stops ((s, m) ∷ tries) w
  failed-Stops s m tries later checks y u answers e = elim (Bool-cases (is_auth_failed y)) [
    | inl wrong ↦
        let rest : run_attempts os tries u ≡ (err x, w') = rw wrong at e in
        refused s m tries checks (answers ∙ ap (λ z. (err z, u)) (auth_failed_only y wrong))
          (later u rest)
    | inr other ↦
        let same : Path (Result ℕ × World) (err y, u) (err x, w') = rw other at e in
        let value : y ≡ x = cc in
        broken s m tries checks (answers ∙ same) (λ h. auth_failed_never y other (value ∙ h))
  ]

  step-Stops :
      {w v : World} (s : Slot) (m : Method) (tries : List (Slot × Method))
      → ((u : World) → run_attempts os tries u ≡ (err x, w') → Stops tries u)
      → check_ctx os w ≡ (ok done, v)
      → (r : Result ℕ × World) → m.unlock s v ≡ r
      → unlock_step os r (run_attempts os tries) ≡ (err x, w')
      → Stops ((s, m) ∷ tries) w
  step-Stops s m tries later checks (ok k, u) opened e = cc
  step-Stops s m tries later checks (err y, u) answers e =
      failed-Stops s m tries later checks y u answers e

  checks-Stops :
      {w : World} (s : Slot) (m : Method) (tries : List (Slot × Method))
      → ((u : World) → run_attempts os tries u ≡ (err x, w') → Stops tries u)
      → (r : Result Done × World) → check_ctx os w ≡ r
      → and_then r (λ _ v. unlock_step os (m.unlock s v) (run_attempts os tries)) ≡ (err x, w')
      → Stops ((s, m) ∷ tries) w
  checks-Stops s m tries later (ok done, v) checks e =
      step-Stops s m tries later checks (m.unlock s v) refl e
  checks-Stops s m tries later (err y, v) checks e =
      let same : y ≡ x = cc in
      let store : v ≡ w' = cc in
      cancelled s m tries (checks ∙ ap (λ z. (err z, v)) same ∙ ap (λ z. (err x, z)) store)

  run_attempts-Stops :
      (tries : List (Slot × Method)) (w : World)
      → run_attempts os tries w ≡ (err x, w')
      → Stops tries w
  unfolding run_attempts
  run_attempts-Stops [] w e =
      let same : auth_failed ≡ x = cc in let store : w ≡ w' = cc in exhausted (sym same) (sym store)
  run_attempts-Stops ((s, m) ∷ tries) w e =
      checks-Stops s m tries (run_attempts-Stops tries) (check_ctx os w) refl e

  Stops-run_attempts :
      (tries : List (Slot × Method)) (w : World)
      → Stops tries w
      → run_attempts os tries w ≡ (err x, w')
  unfolding run_attempts
  Stops-run_attempts _ w (exhausted same store) =
      ap (λ z. (err z, w)) (sym same) ∙ ap (λ z. (err x, z)) (sym store)
  Stops-run_attempts _ w (cancelled s m tries checks) = rw checks refl
  Stops-run_attempts _ w (broken s m tries checks answers other) =
      elim (Bool-cases (is_auth_failed x)) [
        | inl wrong ↦ absurd (other (auth_failed_only x wrong))
        | inr fine ↦ rw (checks, answers, fine) refl
      ]
  Stops-run_attempts _ w (refused s m tries checks answers later) =
      rw (checks, answers) (Stops-run_attempts tries _ later)

  -- `unlock`, given a method, fails with the error `x` exactly when every attempt answered
  -- `auth_failed` and so does `unlock`, or the attempts before one all answered `auth_failed` and at
  -- that one the context was done with `x` or the method failed with `x`, another error.
  pub unlock_error_iff :
      (e : Envelope) (m : Method) (ms : List Method) (w : World)
      → (unlock os e (m ∷ ms) w ≡ (err x, w')) ↔ Stops (attempts e.slots (m ∷ ms)) w
  unlock_error_iff e m ms w =
      let tries = attempts e.slots (m ∷ ms) in
      let same = ap (λ f. f w) (unlock-attempts os e m ms) in
      (
        λ failed. run_attempts-Stops tries w (sym same ∙ failed),
        λ stops. same ∙ Stops-run_attempts tries w stops,
      )
