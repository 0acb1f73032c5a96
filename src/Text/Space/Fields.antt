-- ===== src/Text/Space/Fields.antt =====
-- `trim_space` against `fields`: a text whose trimmed part has no space is that one field.
use go_tumbler.Base.{
  ℕ, zero, suc, ◌-◌, ◌≤◌, ◌≡◌, ◌≢◌, refl, sym, ap, ◌∙◌, Bool, true, false, not, ◌&&◌, List, [], ◌∷◌,
  ◌++◌, Bytes, All, arith, Bool-cases, inl, inr, ◌==◌, append_assoc, append-nil,
}
use go_tumbler.Text.Space.{
  is_ascii_space, is_latin_space, is_wide_space, space_width, marked, all_space, drop_front,
  drop_back, trim_space, flush, fields_from, fields,
}

-- Not a byte of any white space.
abbrev pub IsPrinting : ℕ → Type 0
IsPrinting b = (33 ≤ b) × (b ≤ 127)

-- A byte marked as space is no printing one.
abbrev MarksSpaces : List (ℕ × Bool) → Type 0
MarksSpaces = All (λ x. x.1 ≡ true → ¬ IsPrinting x.0)

-- The first bytes are no printing ones.
abbrev Spaced : ℕ → Bytes → Type 0
Spaced zero s = Unit
Spaced (suc n) [] = Unit
Spaced (suc n) (b ∷ s) = (¬ IsPrinting b) × Spaced n s

space_width-printing : (a : ℕ) (s : Bytes) → IsPrinting a → space_width a s ≡ 0
space_width-printing a [] p = ground arith
space_width-printing a (b ∷ []) p = ground arith
space_width-printing a (b ∷ c ∷ s) p = ground arith

latin_space-IsPrinting : (b : ℕ) → is_latin_space b ≡ true → ¬ IsPrinting b
latin_space-IsPrinting b h = λ p. ground arith

wide_space-IsPrinting :
    (a b c : ℕ) → is_wide_space a b c ≡ true → (¬ IsPrinting b) × (¬ IsPrinting c)
wide_space-IsPrinting a b c h = ((λ p. ground arith), (λ p. ground arith))

and_right : (a b : Bool) → (a && b) ≡ true → b ≡ true
and_right a b h = ground arith

space_width-Spaced : (a : ℕ) (s : Bytes) → Spaced (space_width a s - 1) s
space_width-Spaced a [] = elim (Bool-cases (is_ascii_space a)) [ inl e ↦ rw e tt | inr e ↦ rw e tt ]
space_width-Spaced a (b ∷ []) = elim (Bool-cases (is_ascii_space a)) [
  | inl e ↦ rw e tt
  | inr e ↦ elim (Bool-cases (a == 0xC2 && is_latin_space b)) [
    | inl l ↦ rw (e, l) (latin_space-IsPrinting b (and_right (a == 0xC2) (is_latin_space b) l), tt)
    | inr n ↦ rw (e, n) tt
  ]
]
space_width-Spaced a (b ∷ c ∷ s) = elim (Bool-cases (is_ascii_space a)) [
  | inl e ↦ rw e tt
  | inr e ↦ elim (Bool-cases (a == 0xC2 && is_latin_space b)) [
    | inl l ↦ rw (e, l) (latin_space-IsPrinting b (and_right (a == 0xC2) (is_latin_space b) l), tt)
    | inr n ↦ elim (Bool-cases (is_wide_space a b c)) [
      | inl w ↦ let (no_b, no_c) = wide_space-IsPrinting a b c w in rw (e, n, w) (no_b, (no_c, tt))
      | inr m ↦ rw (e, n, m) tt
    ]
  ]
]

marked-MarksSpaces : (left : ℕ) (s : Bytes) → Spaced left s → MarksSpaces (marked left s)
unfolding marked
marked-MarksSpaces left [] k = tt
marked-MarksSpaces zero (b ∷ s) k = (
  (λ h p.
      let e : space_width b s ≡ 0 = space_width-printing b s p in
      let h' : not (space_width b s == 0) ≡ true = h in ground arith),
  marked-MarksSpaces (space_width b s - 1) s (space_width-Spaced b s),
)
marked-MarksSpaces (suc left) (b ∷ s) (no_b, k) = ((λ h. no_b), marked-MarksSpaces left s k)

drop_front-MarksSpaces : (m : List (ℕ × Bool)) → MarksSpaces m → MarksSpaces (drop_front m)
unfolding drop_front
drop_front-MarksSpaces [] k = tt
drop_front-MarksSpaces ((b, true) ∷ m) (k, ks) = drop_front-MarksSpaces m ks
drop_front-MarksSpaces ((b, false) ∷ m) k = k

fields_from-drop_front : (m : List (ℕ × Bool)) → fields_from [] (drop_front m) ≡ fields_from [] m
unfolding drop_front fields_from
fields_from-drop_front [] = refl
fields_from-drop_front ((b, true) ∷ m) = fields_from-drop_front m
fields_from-drop_front ((b, false) ∷ m) = refl

fields_from-all_space : (m : List (ℕ × Bool)) → all_space m ≡ true → fields_from [] m ≡ []
unfolding fields_from
fields_from-all_space [] h = refl
fields_from-all_space ((b, true) ∷ m) h = fields_from-all_space m h
fields_from-all_space ((b, false) ∷ m) h = cc

flush_append_cons :
    (cur : Bytes) (b : ℕ) (s : Bytes) (fs : List Bytes)
    → flush ((cur ++ b ∷ []) ++ s) fs ≡ flush (cur ++ b ∷ s) fs
flush_append_cons cur b s fs = ap (λ x. flush x fs) (append_assoc cur (b ∷ []) s)

fields_from-drop_back :
    (m : List (ℕ × Bool)) (cur : Bytes)
    → MarksSpaces m
    → All IsPrinting (drop_back m)
    → fields_from cur m ≡ flush (cur ++ drop_back m) []
unfolding drop_back fields_from
fields_from-drop_back [] cur k h = ap (λ x. flush x []) (sym (append-nil cur))
fields_from-drop_back ((b, true) ∷ m) cur (k, ks) h = elim (Bool-cases (all_space m)) [
  | inl blank ↦ rw (blank, fields_from-all_space m blank, append-nil cur)
  | inr text ↦ absurd (k refl (rw text at h).0)
]
fields_from-drop_back ((b, false) ∷ m) cur (k, ks) (h, hs) =
    fields_from-drop_back m (cur ++ b ∷ []) ks hs ∙ flush_append_cons cur b (drop_back m) []

flush-ne-nil : (s : Bytes) → s ≢ [] → flush s [] ≡ s ∷ []
flush-ne-nil [] ne = absurd (ne refl)
flush-ne-nil (b ∷ s) ne = refl

-- A text that holds a single run of printing bytes, trimmed, has that run for its only field.
pub fields-trim_space :
    (s : Bytes) → All IsPrinting (trim_space s) → trim_space s ≢ [] → fields s ≡ trim_space s ∷ []
unfolding fields trim_space
fields-trim_space s h ne =
    let m = drop_front (marked 0 s) in
    sym (fields_from-drop_front (marked 0 s))
    ∙ fields_from-drop_back m [] (drop_front-MarksSpaces (marked 0 s) (marked-MarksSpaces 0 s tt)) h
    ∙ flush-ne-nil (drop_back m) ne
