-- ===== src/Envelope/Remove.antt =====
-- `RemoveSlot`: which slot goes, when it is refused, and what it keeps.
pub mod Access
use go_tumbler.Base.{
  ℕ, suc, ◌+◌, ◌≤◌, ◌≡◌, ◌≢◌, ◌↔◌, ◌⊎◌, inl, inr, refl, sym, ap, ◌∙◌, true, false, not, ◌&&◌, ◌||◌,
  none, some, List, [], ◌∷◌, ◌++◌, length, All, leb, ◌==◌, if◌then◌else◌, arith, Bool-cases, take,
  drop, Bytes, Option-cases,
}
use go_tumbler.Envelope.Policy.{Bears, effective_policy_iff}
use go_tumbler.Envelope.{
  primary_slot_count, effective_policy, id_eq, find_slot, type_at, remove_at, remove_slot,
}
use go_tumbler.Errors.{policy_unsafe, slot_not_found, ok, err, ok-injective}
use mathlib.Core.Path.{subst}
use go_tumbler.Slot.{Slot, Envelope}

id_eq_iff : (a b : Bytes) → (id_eq a b ≡ true) ↔ (a ≡ b)
unfolding id_eq
id_eq_iff (x ∷ a) (y ∷ b) = ground (arith, id_eq_iff a b)
id_eq_iff _ _ = ground arith

-- The first slot with an id, between the slots before it and those after it.
pub record FirstWith (id : Bytes) (slots : List Slot) : Type 0 where
  pub before : List Slot
  pub found : Slot
  pub after : List Slot
  pub splits : slots ≡ before ++ found ∷ after
  pub has_id : found.id ≡ id
  pub is_first : All (λ s. s.id ≢ id) before

module _ (id : Bytes) where
  find_slot-FirstWith :
      (slots : List Slot) (i : ℕ)
      → find_slot id slots ≡ some i
      → (f : FirstWith id slots) × (length f.before ≡ i)
  unfolding find_slot
  find_slot-FirstWith [] i h = cc
  find_slot-FirstWith (s ∷ slots) i h = elim (Bool-cases (id_eq s.id id)) [
    | inl here ↦ (
      record {
        before = [];
        found = s;
        after = slots;
        splits = refl;
        has_id = (id_eq_iff s.id id).0 here;
        is_first = tt;
      },
      ground arith,
    )
    | inr other ↦ elim (Option-cases (find_slot id slots)) [
      | inl missing ↦ absurd (ground arith)
      | inr (j, e) ↦
          let (f, at_j) = find_slot-FirstWith slots j e in
          (
            record {
              before = s ∷ f.before;
              found = f.found;
              after = f.after;
              splits = ap (◌∷◌ s) f.splits;
              has_id = f.has_id;
              is_first = ((λ same. ground (arith, id_eq_iff s.id id)), f.is_first);
            },
            ground arith,
          )
    ]
  ]

  find_slot-none : (slots : List Slot) → find_slot id slots ≡ none → All (λ s. s.id ≢ id) slots
  unfolding find_slot
  find_slot-none [] h = tt
  find_slot-none (s ∷ slots) h = elim (Bool-cases (id_eq s.id id)) [
    | inl here ↦ absurd (ground arith)
    | inr other ↦ elim (Option-cases (find_slot id slots)) [
      | inl missing ↦ ((λ same. ground (arith, id_eq_iff s.id id)), find_slot-none slots missing)
      | inr (j, e) ↦ absurd (ground arith)
    ]
  ]

pub primary_slot_count-append :
    (xs ys : List Slot)
    → primary_slot_count (xs ++ ys) ≡ primary_slot_count xs + primary_slot_count ys
unfolding primary_slot_count
primary_slot_count-append [] ys = omega arith
primary_slot_count-append (s ∷ xs) ys = omega (arith, primary_slot_count-append xs ys)

type_at-append : (xs ys : List Slot) (s : Slot) → type_at (xs ++ s ∷ ys) (length xs) ≡ s.type
type_at-append [] ys s = refl
type_at-append (x ∷ xs) ys s = type_at-append xs ys s

take-drop_around :
    (xs ys : List Slot) (s : Slot)
    → take (length xs) (xs ++ s ∷ ys) ++ drop (suc (length xs)) (xs ++ s ∷ ys) ≡ xs ++ ys
take-drop_around [] ys s = refl
take-drop_around (x ∷ xs) ys s = ap (◌∷◌ x) (take-drop_around xs ys s)

-- Taking `f.found` out would leave no slot, or no primary slot.
abbrev pub IsLast : (e : Envelope) {id : Bytes} → FirstWith id e.slots → Type 0
IsLast e f = (length e.slots ≤ 1) ⊎ ((f.found.type ≢ 4) × (primary_slot_count e.slots ≤ 1))

module _ (e : Envelope) (id : Bytes) (f : FirstWith id e.slots) where
  type_at_found : type_at e.slots (length f.before) ≡ f.found.type
  type_at_found =
      ap (λ xs. type_at xs (length f.before)) f.splits ∙ type_at-append f.before f.after f.found

  cut_around :
      take (length f.before) e.slots ++ drop (suc (length f.before)) e.slots ≡ f.before ++ f.after
  cut_around =
      ap (λ xs. take (length f.before) xs ++ drop (suc (length f.before)) xs) f.splits
      ∙ take-drop_around f.before f.after f.found

  remove_at_last : IsLast e f → remove_at e (some (length f.before)) ≡ err policy_unsafe
  unfolding remove_at
  remove_at_last (inl only) = ground arith
  remove_at_last (inr last) = ground (arith, type_at_found)

  remove_at_other :
      (¬ IsLast e f)
      → remove_at e (some (length f.before)) ≡ ok (record e { slots = f.before ++ f.after })
  unfolding remove_at
  remove_at_other other =
      let many : leb (length e.slots) 1 ≡ false =
        ground (arith, λ (h : length e.slots ≤ 1). other (inl h)) in
      let kept : (not (f.found.type == 4) && leb (primary_slot_count e.slots) 1) ≡ false =
        elim (Bool-cases (not (f.found.type == 4) && leb (primary_slot_count e.slots) 1)) [
          | inl last ↦ absurd (other (inr (ground arith)))
          | inr fine ↦ fine
        ] in
      rw (many, type_at_found, kept, cut_around)

  IsLast-cases : (IsLast e f) ⊎ (¬ IsLast e f)
  IsLast-cases =
      elim (Bool-cases (
        leb (length e.slots) 1
        || (not (f.found.type == 4) && leb (primary_slot_count e.slots) 1))) [
          | inl last ↦ inl (elim (Bool-cases (leb (length e.slots) 1)) [
            | inl only ↦ inl (ground arith)
            | inr many ↦ inr (ground arith)
          ])
          | inr fine ↦ inr (λ last. elim last [ inl only ↦ ground arith | inr l ↦ ground arith ])
        ]

-- `remove_slot` on every envelope and id. It fails with `slot_not_found` when no slot has the id.
-- Otherwise it is about the first slot that has it: it is refused as unsafe when that slot is the
-- only one, or a primary slot where there is no second, and in every other case exactly that slot
-- is taken out and all else stays as it was.
pub remove_slot_cases :
    (e : Envelope) (id : Bytes)
    → (All (λ s. s.id ≢ id) e.slots × (remove_slot e id ≡ err slot_not_found))
      ⊎ ((f : FirstWith id e.slots) × ((IsLast e f × (remove_slot e id ≡ err policy_unsafe))
            ⊎ ((¬ IsLast e f)
                × (remove_slot e id ≡ ok (record e { slots = f.before ++ f.after })))))
unfolding remove_slot
remove_slot_cases e id = elim (Option-cases (find_slot id e.slots)) [
  | inl missing ↦ inl (find_slot-none id e.slots missing, rw missing (unfold remove_at in refl))
  | inr (i, e_i) ↦
      let (f, at_i) = find_slot-FirstWith id e.slots i e_i in
      let there : find_slot id e.slots ≡ some (length f.before) = e_i ∙ ap some (sym at_i) in
      inr (
        f,
        elim (IsLast-cases e id f) [
          | inl last ↦ inl (last, ap (remove_at e) there ∙ remove_at_last e id f last)
          | inr other ↦ inr (other, ap (remove_at e) there ∙ remove_at_other e id f other)
        ],
      )
]

pub All-cut {ℓ} :
    (P : Slot → Type ℓ) (xs ys : List Slot) (s : Slot)
    → All P (xs ++ s ∷ ys)
    → P s × All P (xs ++ ys)
All-cut P [] ys s (p, ps) = (p, ps)
All-cut P (x ∷ xs) ys s (p, ps) = let (q, qs) = All-cut P xs ys s ps in (q, (p, qs))

-- A primary slot is left.
cut_primary :
    (e : Envelope) (id : Bytes) (f : FirstWith id e.slots)
    → (¬ IsLast e f)
    → 1 ≤ primary_slot_count e.slots
    → 1 ≤ primary_slot_count (f.before ++ f.after)
unfolding primary_slot_count
cut_primary e id f other some_primary =
    let count : primary_slot_count e.slots
        ≡ primary_slot_count f.before
          + ((if f.found.type == 4 then 0 else 1) + primary_slot_count f.after) =
      ap primary_slot_count f.splits ∙ primary_slot_count-append f.before (f.found ∷ f.after) in
    let left = primary_slot_count-append f.before f.after in
    elim (Bool-cases (f.found.type == 4)) [
      | inl recovery ↦ ground (arith, count, left)
      | inr primary ↦ elim (Bool-cases (leb (primary_slot_count e.slots) 1)) [
        | inl last ↦ absurd (other (inr (ground arith)))
        | inr more ↦ ground (arith, count, left)
      ]
    ]

-- Removing a slot keeps the effective policy of an envelope that has one.
pub remove_slot-effective_policy :
    (e e' : Envelope) (id : Bytes) (p : ℕ)
    → p ≢ 0
    → effective_policy e ≡ p
    → remove_slot e id ≡ ok e'
    → effective_policy e' ≡ p
remove_slot-effective_policy e e' id p real policy h = elim (remove_slot_cases e id) [
  | inl (missing, r) ↦ cc
  | inr (f, inl (last, r)) ↦ cc
  | inr (f, inr (other, r)) ↦
      let (some_primary, all) = (effective_policy_iff e p real).0 policy in
      let after : Envelope = record e { slots = f.before ++ f.after } in
      let same : after ≡ e' = ok-injective (sym r ∙ h) in
      let kept = All-cut (Bears p) f.before f.after f.found (subst (All (Bears p)) f.splits all) in
      ap effective_policy (sym same)
      ∙ (effective_policy_iff after p real).1 (cut_primary e id f other some_primary, kept.1)
]
