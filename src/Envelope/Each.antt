-- ===== src/Envelope/Each.antt =====
-- What holds of each slot of an envelope because it holds of each slot that is enrolled.
use go_tumbler.Base.{ℕ, ◌≡◌, List, [], ◌∷◌, ◌++◌, All, All-append}
use go_tumbler.Envelope.Grow.{pair-value, made_of}
use go_tumbler.Envelope.{enroll_all, new_envelope}
use go_tumbler.Errors.{ok}
use go_tumbler.Method.Contract.{KeepsContract}
use go_tumbler.Method.Frame.{check_ctx-Frees}
use go_tumbler.Method.RoundTrip.{bind-ok}
use go_tumbler.Method.{Method, check_ctx}
use go_tumbler.Secure.Frame.{Clean, Clean-refl}
use go_tumbler.Secure.World.{World, System}
use go_tumbler.Slot.{Slot, Envelope}
use mathlib.Core.Path.{subst}

module _ (os : System) (P : Slot → Type 0) where
  -- Each slot that the method enrolls for the data key, from `w` on, has `P`.
  abbrev pub Gives : ℕ → World → Method → Type 0
  Gives dek w m = (s : Slot) (v v' : World) → Clean w v → m.enroll dek v ≡ (ok s, v') → P s

  enroll_all-All :
      (dek : ℕ) (methods : List Method) (slots out : List Slot) (w0 w w' : World)
      → All KeepsContract methods
      → All (Gives dek w0) methods
      → All P slots
      → Clean w0 w
      → enroll_all os dek methods slots w ≡ (ok out, w')
      → All P out
  unfolding enroll_all
  enroll_all-All dek [] slots out w0 w w' k gives all clean h =
      subst (All P) (pair-value slots out w w' h) all
  enroll_all-All dek (m ∷ ms) slots out w0 w w' (k, ks) (give, gives) all clean h =
      bind-ok w0 (check_ctx os) _ clean (check_ctx-Frees os) h λ _ v clean1 _ h1.
        bind-ok w0 (m.enroll dek) _ clean1 (k.enroll_frees dek) h1 λ s v' clean2 enrolled h2.
          enroll_all-All dek ms (slots ++ s ∷ []) out w0 v' w' ks gives
            (All-append P slots (s ∷ []) all (give s v v' clean1 enrolled, tt)) clean2 h2

  pub new_envelope-All :
      (dek policy : ℕ) (methods : List Method) (e : Envelope) (w w' : World)
      → All KeepsContract methods
      → All (Gives dek w) methods
      → new_envelope os dek policy methods w ≡ (ok e, w')
      → All P e.slots
  new_envelope-All dek policy methods e w w' k gives h =
      let (v, enrolls, _, _, _, _) = made_of os dek policy methods e w w' h in
      enroll_all-All dek methods [] e.slots w w v k gives tt (Clean-refl w) enrolls
