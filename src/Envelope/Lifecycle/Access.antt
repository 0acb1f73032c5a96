-- ===== src/Envelope/Lifecycle/Access.antt =====
-- Who opens an envelope at the end of its life: what every slot has of its enrolment, through any
-- sequence of operations.
use go_tumbler.Base.{
  ℕ, ◌≡◌, ◌≢◌, ◌⊎◌, inl, inr, refl, sym, ap, ◌∙◌, none, List, [], ◌∷◌, ◌++◌, All, All-append,
  All-append_split, All-map, Bytes, ◌==◌, Bool-cases, ==_iff,
}
use go_tumbler.Envelope.Access.{added}
use go_tumbler.Envelope.Each.{new_envelope-All}
use go_tumbler.Envelope.Lifecycle.{Fits, Lives, made, grown, cut, stored, Lives-Inv, reread}
use go_tumbler.Envelope.Remove.{remove_slot_cases, All-cut}
use go_tumbler.Envelope.Remove.Access.{attempts-nothing}
use go_tumbler.Envelope.Reopen.{unlock-first}
use go_tumbler.Envelope.Unlock.{unlock-nothing}
use go_tumbler.Envelope.{unlock}
use go_tumbler.Errors.{auth_failed, ok, err, ok-injective}
use go_tumbler.Method.Frame.{check_ctx-Frees}
use go_tumbler.Method.Reopens.{Reopens}
use go_tumbler.Method.{Method, check_ctx}
use go_tumbler.Secure.Frame.{Clean, Clean-refl}
use go_tumbler.Secure.Returns.{Returns}
use go_tumbler.Secure.World.{World, System}
use go_tumbler.Slot.{Slot, Envelope}
use mathlib.Core.Path.{subst}

module _ (os : System) (asked : ℕ → Method → World → Type 0) (P : Slot → Type 0) where
  -- Each slot that a fitting method enrolls has `P`.
  abbrev pub Gives : Type 0
  Gives =
      (dek : ℕ) (m : Method) (w v v' : World) (s : Slot)
      → Fits asked dek w m
      → Clean w v
      → m.enroll dek v ≡ (ok s, v')
      → P s

  -- Every slot there is at any time has what each slot has when it is enrolled.
  pub Lives-All : (policy : ℕ) {e : Envelope} → Gives → Lives os asked policy e → All P e.slots
  Lives-All policy {e} gives (made dek methods w w' fits room h) =
      new_envelope-All os P dek policy methods e w w' (All-map (λ m f. f.0) methods fits)
        (All-map (λ m f s v v' clean enrolled. gives dek m w v v' s f clean enrolled) methods fits)
        h
  Lives-All policy {e} gives (grown {e0} dek m w w' lives fit h) =
      let (s, v, enrolled, same) = added os e0 e dek m w w' h in
      subst (λ x. All P x.slots) (sym same)
        (All-append P e0.slots (s ∷ []) (Lives-All policy gives lives)
          (gives dek m w w v s fit (Clean-refl w) enrolled, tt))
  Lives-All policy {e} gives (cut {e0} id lives h) = elim (remove_slot_cases e0 id) [
    | inl (missing, r) ↦ cc
    | inr (f, inl (last, r)) ↦ cc
    | inr (f, inr (other, r)) ↦
        let all = subst (All P) f.splits (Lives-All policy gives lives) in
        subst (λ x. All P x.slots) (ok-injective (sym r ∙ h))
          (All-cut P f.before f.after f.found all).1
  ]
  Lives-All policy {e} gives (stored {e0} b lives writes reads) =
      let inv = Lives-Inv os asked policy lives in
      subst (λ x. All P x.slots) (reread os asked policy e0 e b inv.formed writes reads)
        (Lives-All policy gives lives)

-- The first slot of a type.
record FirstOf (t : ℕ) (slots : List Slot) : Type 0 where
  before : List Slot
  found : Slot
  after : List Slot
  splits : slots ≡ before ++ found ∷ after
  others : All (λ s. s.type ≢ t) before
  of_type : found.type ≡ t

first_of : (t : ℕ) (slots : List Slot) → All (λ s. s.type ≢ t) slots ⊎ FirstOf t slots
first_of t [] = inl tt
first_of t (s ∷ slots) = elim (Bool-cases (s.type == t)) [
  | inl here ↦ inr (record {
    before = [];
    found = s;
    after = slots;
    splits = refl;
    others = tt;
    of_type = (==_iff s.type t).0 here;
  })
  | inr other ↦
      let differs : s.type ≢ t = λ e. (let h = (==_iff s.type t).1 e in (cc)) in
      elim (first_of t slots) [
        | inl none_of ↦ inl (differs, none_of)
        | inr f ↦ inr (record {
          before = s ∷ f.before;
          found = f.found;
          after = f.after;
          splits = ap (◌∷◌ s) f.splits;
          others = (differs, f.others);
          of_type = f.of_type;
        })
      ]
]

-- What is asked of the methods of the type of `m'`: that it opens what they enroll.
abbrev pub SharedWith : Method → Bytes → World → ℕ → Method → World → Type 0
SharedWith m' pt u dek m w = m.type ≡ m'.type → Reopens m m' dek pt w u

-- Through the whole life of an envelope, made by at most 64 methods and then grown, cut, written and
-- read back in any order, by methods that keep to their contract and whose slots can be written:
-- where `m'` opens what the methods of its type enroll, at the end it gets the data key in a new
-- live container, if a slot of its type is left and the context is not done; where none is left it
-- is told `auth_failed`, and nothing has changed.
pub unlock-Lives :
    (os : System) (policy : ℕ) (m' : Method) (pt : Bytes) (u : World) {e : Envelope}
    → Lives os (SharedWith m' pt u) policy e
    → os.ctx_err u.tick ≡ none
    → (All (λ s. s.type ≢ m'.type) e.slots × (unlock os e (m' ∷ []) u ≡ (err auth_failed, u)))
      ⊎ ((¬ All (λ s. s.type ≢ m'.type) e.slots) × Returns pt (unlock os e (m' ∷ []) u))
unlock-Lives os policy m' pt u {e} lives awake = elim (first_of m'.type e.slots) [
  | inl gone ↦ inl (
    gone,
    ap (λ k. k u)
        (unlock-nothing os e m' [] (
          attempts-nothing e.slots (m' ∷ [])
            (All-map (λ s other. ((λ e. other (sym e)), tt)) e.slots gone))),
  )
  | inr f ↦ inr (
    (λ all.
        (All-append_split _ f.before (f.found ∷ f.after) (subst (All _) f.splits all)).1.0
          f.of_type),
    unlock-first os e f.before f.found f.after m' u pt f.splits f.others f.of_type awake (
        (All-append_split _ f.before (f.found ∷ f.after) (subst (All _) f.splits opened)).1.0
          f.of_type),
  )
]
  where
    Opened : Slot → Type 0
    Opened s = s.type ≡ m'.type → Returns pt (m'.unlock s (check_ctx os u).1)

    opened : All Opened e.slots
    opened =
        Lives-All os (SharedWith m' pt u) Opened policy
          (λ dek m w v v' s fit clean enrolled type.
            fit.2 (sym (fit.0.enrolls_type dek v v' s enrolled) ∙ type) s v v' (check_ctx os u).1
              clean (check_ctx-Frees os u) enrolled)
          lives
