-- ===== src/Envelope/Remove/Access.antt =====
-- What `RemoveSlot` does to the envelope and to whoever opens it.
use go_tumbler.Base.{
  ℕ, ◌≤◌, ◌<◌, ◌≡◌, ◌≢◌, inl, inr, refl, sym, ap, ◌∙◌, some, List, [], ◌∷◌, ◌++◌, length, All,
  arith, Bytes, ne→==, length-append, All-map,
}
use go_tumbler.Envelope.Remove.{
  FirstWith, IsLast, IsLast-cases, remove_at_last, remove_at_other, id_eq_iff, All-cut,
  remove_slot_cases,
}
use go_tumbler.Envelope.Unlock.{for_slot, attempts, unlock-same, unlock-nothing}
use go_tumbler.Envelope.{find_slot, remove_at, remove_slot, unlock}
use go_tumbler.Errors.{ok, err, auth_failed, ok-injective}
use go_tumbler.Method.{Method}
use go_tumbler.Secure.World.{World, System}
use go_tumbler.Slot.{Slot, Envelope}
use go_tumbler.Wire.RoundTrip.{IsWellFormed}
use go_tumbler.Wire.Slots.{IsSealed}
use mathlib.Core.Path.{subst}

find_slot-there :
    (id : Bytes) (before : List Slot) (s : Slot) (after : List Slot)
    → s.id ≡ id
    → All (λ b. b.id ≢ id) before
    → find_slot id (before ++ s ∷ after) ≡ some (length before)
unfolding find_slot
find_slot-there id [] s after same first = rw ((id_eq_iff s.id id).1 same) refl
find_slot-there id (b ∷ before) s after same (other, first) =
    ground (arith, id_eq_iff b.id id, find_slot-there id before s after same first)

-- Where `remove_slot` succeeds, it takes the first slot with the id, and that slot was not the last.
pub removed :
    (e e' : Envelope) (id : Bytes) (f : FirstWith id e.slots)
    → remove_slot e id ≡ ok e'
    → (¬ IsLast e f) × (e' ≡ record e { slots = f.before ++ f.after })
unfolding remove_slot
removed e e' id f h =
    let there : find_slot id e.slots ≡ some (length f.before) =
      ap (find_slot id) f.splits
      ∙ find_slot-there id f.before f.found f.after f.has_id f.is_first in
    let at_it : remove_at e (some (length f.before)) ≡ ok e' = ap (remove_at e) (sym there) ∙ h in
    elim (IsLast-cases e id f) [
      | inl last ↦ absurd (let r = remove_at_last e id f last in (cc))
      | inr other ↦ (other, ok-injective (sym at_it ∙ remove_at_other e id f other))
    ]

-- `remove_slot` keeps an envelope well formed.
pub remove_slot-IsWellFormed :
    (e e' : Envelope) (id : Bytes) → IsWellFormed e → remove_slot e id ≡ ok e' → IsWellFormed e'
remove_slot-IsWellFormed e e' id formed h = elim (remove_slot_cases e id) [
  | inl (missing, r) ↦ cc
  | inr (f, inl (last, r)) ↦ cc
  | inr (f, inr (other, r)) ↦
      let same : record e { slots = f.before ++ f.after } ≡ e' = ok-injective (sym r ∙ h) in
      let sealed =
        All-cut IsSealed f.before f.after f.found
          (subst (All IsSealed) f.splits formed.all_sealed) in
      let many : 1 < length e.slots = below-or (length e.slots) 1 (λ only. other (inl only)) in
      let whole = ap length f.splits ∙ length-append f.before (f.found ∷ f.after) in
      let left = length-append f.before f.after in
      subst IsWellFormed same (record {
        current = formed.current;
        hint_byte = formed.hint_byte;
        all_sealed = sealed.1;
        nonempty = omega (arith, many, whole, left);
        count_le = omega (arith, whole, left, formed.count_le);
      })
]
  where
    below-or : (n k : ℕ) → (¬ (n ≤ k)) → k < n
    below-or n k h = omega (arith, h)

for_slot-none :
    (s : Slot) (methods : List Method)
    → All (λ m. m.type ≢ s.type) methods
    → for_slot s methods ≡ []
for_slot-none s [] others = refl
for_slot-none s (m ∷ ms) (other, others) =
    rw (ne→== m.type s.type other) (for_slot-none s ms others)

pub attempts-nothing :
    (slots : List Slot) (methods : List Method)
    → All (λ s. All (λ m. m.type ≢ s.type) methods) slots
    → attempts slots methods ≡ []
attempts-nothing [] methods others = refl
attempts-nothing (s ∷ slots) methods (other, others) =
    rw (for_slot-none s methods other, attempts-nothing slots methods others) refl

-- A slot that no method is tried on can go.
attempts-cut :
    (before : List Slot) (s : Slot) (after : List Slot) (methods : List Method)
    → for_slot s methods ≡ []
    → attempts (before ++ s ∷ after) methods ≡ attempts (before ++ after) methods
attempts-cut [] s after methods nothing = ap (λ t. t ++ attempts after methods) nothing
attempts-cut (b ∷ before) s after methods nothing =
    ap (◌++◌ (for_slot b methods)) (attempts-cut before s after methods nothing)

module _ (os : System) where
  -- Removing a slot takes no access from anybody else: methods none of which is of the type of the
  -- slot that went do on the new envelope exactly what they did on the old one, errors included.
  pub unlock-remove_slot :
      (e e' : Envelope) (id : Bytes) (f : FirstWith id e.slots) (methods : List Method)
      → remove_slot e id ≡ ok e'
      → All (λ m. m.type ≢ f.found.type) methods
      → unlock os e' methods ≡ unlock os e methods
  unlock-remove_slot e e' id f methods h others =
      let (_, same) = removed e e' id f h in
      unlock-same os e' e methods (
        ap (λ x. attempts x.slots methods) same
        ∙ sym (attempts-cut f.before f.found f.after methods (for_slot-none f.found methods others))
        ∙ ap (λ slots. attempts slots methods) (sym f.splits))

  -- Removing a slot revokes its method: where no other slot has its type, methods of that type
  -- alone fail with `auth_failed` on the new envelope, before any of them is asked.
  pub unlock-revoked :
      (e e' : Envelope) (id : Bytes) (f : FirstWith id e.slots) (m : Method) (ms : List Method)
      (u : World)
      → remove_slot e id ≡ ok e'
      → All (λ s. s.type ≢ f.found.type) (f.before ++ f.after)
      → All (λ x. x.type ≡ f.found.type) (m ∷ ms)
      → unlock os e' (m ∷ ms) u ≡ (err auth_failed, u)
  unlock-revoked e e' id f m ms u h others all =
      let (_, same) = removed e e' id f h in
      ap (λ k. k u)
        (unlock-nothing os e' m ms (
          ap (λ x. attempts x.slots (m ∷ ms)) same
          ∙ attempts-nothing (f.before ++ f.after) (m ∷ ms) (
              All-map (λ s other. All-map (λ x type. λ e. other (sym e ∙ type)) (m ∷ ms) all)
                (f.before ++ f.after) others)))
