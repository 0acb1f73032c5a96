-- ===== src/Envelope/Lifecycle/Tries.antt =====
-- Whoever tries to open an envelope at the end of its life, with whatever secrets.
use go_tumbler.Base.{
  ℕ, ◌≡◌, inl, inr, sym, ◌∙◌, none, List, [], ◌∷◌, Bytes, All, All-append, ◌==◌, Bool-cases, ==_iff,
}
use go_tumbler.Envelope.Lifecycle.Access.{Lives-All}
use go_tumbler.Envelope.Lifecycle.{Lives}
use go_tumbler.Envelope.Unlock.Several.{MayOpenSlot, unlock-RightOrRefused}
use go_tumbler.Envelope.Unlock.{for_slot, attempts}
use go_tumbler.Envelope.{unlock}
use go_tumbler.Errors.{ok}
use go_tumbler.Method.Contract.{KeepsContract}
use go_tumbler.Method.Discerns.{Discerns}
use go_tumbler.Method.WrongSecret.{RightOrRefused}
use go_tumbler.Method.{Method}
use go_tumbler.Secure.Frame.{Clean}
use go_tumbler.Secure.World.{World, System}
use go_tumbler.Slot.{Slot, Envelope}

module _ (Q : Slot × Method → Type 0) where
  for_slot-All :
      (s : Slot) (ms : List Method)
      → All (λ m. s.type ≡ m.type → Q (s, m)) ms
      → All Q (for_slot s ms)
  for_slot-All s [] all = tt
  for_slot-All s (m ∷ ms) (one, all) = elim (Bool-cases (m.type == s.type)) [
    | inl fits ↦ rw fits (one (sym ((==_iff m.type s.type).0 fits)), for_slot-All s ms all)
    | inr other ↦ rw other (for_slot-All s ms all)
  ]

  attempts-All :
      (slots : List Slot) (ms : List Method)
      → All (λ s. All (λ m. s.type ≡ m.type → Q (s, m)) ms) slots
      → All Q (attempts slots ms)
  attempts-All [] ms all = tt
  attempts-All (s ∷ slots) ms (one, all) =
      All-append Q (for_slot s ms) (attempts slots ms) (for_slot-All s ms one)
        (attempts-All slots ms all)

-- What is asked of the methods of an envelope, for those that are tried on it.
abbrev pub AllDiscern : List Method → Bytes → World → ℕ → Method → World → Type 0
AllDiscern ms pt u dek m w = All (λ m'. m.type ≡ m'.type → Discerns pt u dek m w m') ms

tried-MayOpen :
    (pt : Bytes) (u : World) (dek : ℕ) (m : Method) (w v v' : World) (s : Slot) (ms : List Method)
    → s.type ≡ m.type
    → Clean w v
    → m.enroll dek v ≡ (ok s, v')
    → All KeepsContract ms
    → AllDiscern ms pt u dek m w
    → All (λ m'. s.type ≡ m'.type → MayOpenSlot pt u (s, m')) ms
tried-MayOpen pt u dek m w v v' s [] type clean enrolled k d = tt
tried-MayOpen pt u dek m w v v' s (m' ∷ ms) type clean enrolled (k, ks) (d, ds) = (
  λ same. (k, λ x clean_x. d (sym type ∙ same) s v v' x clean clean_x enrolled),
  tried-MayOpen pt u dek m w v v' s ms type clean enrolled ks ds,
)

-- Through the whole life of an envelope, made by at most 64 methods and then grown, cut, written and
-- read back in any order, by methods that keep to their contract and whose slots can be written,
-- nobody gets a wrong data key: where each method that is tried keeps to its contract, and opens
-- what the methods of its type enroll or is told that its secret is wrong, `unlock` with all of
-- them answers the data key in a new live container, or `auth_failed`, if the context is not done.
pub unlock-Lives-RightOrRefused :
    (os : System) (policy : ℕ) (m' : Method) (ms : List Method) (pt : Bytes) (u : World)
    {e : Envelope}
    → Lives os (AllDiscern (m' ∷ ms) pt u) policy e
    → All KeepsContract (m' ∷ ms)
    → ((n : ℕ) → os.ctx_err n ≡ none)
    → RightOrRefused pt (unlock os e (m' ∷ ms) u)
unlock-Lives-RightOrRefused os policy m' ms pt u {e} lives contracts awake =
    unlock-RightOrRefused os e m' ms pt u awake (
      attempts-All (MayOpenSlot pt u) e.slots (m' ∷ ms) (
        Lives-All os (AllDiscern (m' ∷ ms) pt u) Tried policy
          (λ dek m w v v' s fit clean enrolled.
            tried-MayOpen pt u dek m w v v' s (m' ∷ ms) (fit.0.enrolls_type dek v v' s enrolled)
              clean enrolled contracts fit.2)
          lives))
  where
    Tried : Slot → Type 0
    Tried s = All (λ m. s.type ≡ m.type → MayOpenSlot pt u (s, m)) (m' ∷ ms)
