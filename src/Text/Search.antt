-- ===== src/Text/Search.antt =====
-- `ToLower` and `Contains`.
use go_tumbler.Base.{
  ℕ, zero, suc, ◌+◌, Bool, true, false, ◌&&◌, ◌||◌, [], ◌∷◌, ◌++◌, ◌≡◌, ◌↔◌, refl, ap, ◌∙◌, inl,
  inr, Bytes, leb, ◌==◌, if◌then◌else◌, arith, Bool-cases,
}

-- An ASCII letter.
abbrev pub lower : ℕ → ℕ
lower b = if leb b'A' b && leb b b'Z' then b + 32 else b

-- The ASCII letter that the letter at the front has for its lower case, and the bytes behind its
-- first: U+0130 is the capital of 'i' and U+212A of 'k'. The lower case of any other letter outside
-- ASCII lies outside ASCII: its bytes stay as they are.
abbrev pub lower_at : ℕ → Bytes → ℕ × ℕ
lower_at a [] = (lower a, 0)
lower_at a (b ∷ []) = if a == 0xC4 && b == 0xB0 then (b'i', 1) else (lower a, 0)
lower_at a (b ∷ c ∷ _) =
    if a == 0xC4 && b == 0xB0
    then (b'i', 1)
    else if a == 0xE2 && b == 0x84 && c == 0xAA
    then (b'k', 2)
    else (lower a, 0)

unfoldable pub lower_from : ℕ → Bytes → Bytes
lower_from left [] = []
lower_from zero (b ∷ s) = let (l, more) = lower_at b s in l ∷ lower_from more s
lower_from (suc left) (b ∷ s) = lower_from left s

unfoldable pub to_lower : Bytes → Bytes
unfolding lower_from
to_lower s = lower_from 0 s

unfoldable pub starts_with : Bytes → Bytes → Bool
starts_with [] s = true
starts_with (p ∷ ps) [] = false
starts_with (p ∷ ps) (b ∷ s) = b == p && starts_with ps s

-- text, what is looked for
unfoldable pub contains : Bytes → Bytes → Bool
unfolding starts_with
contains [] p = starts_with p []
contains (b ∷ s) p = starts_with p (b ∷ s) || contains s p

starts_with_iff : (p s : Bytes) → (starts_with p s ≡ true) ↔ ((rest : Bytes) × (s ≡ p ++ rest))
unfolding starts_with
starts_with_iff [] s = (λ _. (s, refl), λ _. refl)
starts_with_iff (p ∷ ps) [] = (λ h. cc, λ (rest, e). cc)
starts_with_iff (p ∷ ps) (b ∷ s) = (
  λ h. let (rest, e) = (starts_with_iff ps s).0 (ground arith) in (rest, ground arith),
  λ (rest, e).
      let later : starts_with ps s ≡ true = (starts_with_iff ps s).1 (rest, cc) in ground arith,
)

contains_found : (s p : Bytes) → contains s p ≡ true → (pre post : Bytes) × (s ≡ pre ++ (p ++ post))
unfolding contains
contains_found [] p h = let (rest, e) = (starts_with_iff p []).0 h in ([], rest, e)
contains_found (b ∷ s) p h = elim (Bool-cases (starts_with p (b ∷ s))) [
  | inl here ↦ let (rest, e) = (starts_with_iff p (b ∷ s)).0 here in ([], rest, e)
  | inr later ↦
      let (pre, post, e) = contains_found s p (rw later at h) in (b ∷ pre, post, ap (◌∷◌ b) e)
]

starts_with-contains : (s p : Bytes) → starts_with p s ≡ true → contains s p ≡ true
unfolding contains
starts_with-contains [] p h = h
starts_with-contains (b ∷ s) p h = rw h

contains-append : (pre p post : Bytes) → contains (pre ++ (p ++ post)) p ≡ true
unfolding contains
contains-append [] p post =
    starts_with-contains (p ++ post) p ((starts_with_iff p (p ++ post)).1 (post, refl))
contains-append (b ∷ pre) p post = ground (arith, contains-append pre p post)

-- `contains` finds exactly the texts that stand somewhere in it.
pub contains_iff :
    (s p : Bytes) → (contains s p ≡ true) ↔ ((pre post : Bytes) × (s ≡ pre ++ (p ++ post)))
contains_iff s p =
    (contains_found s p, λ (pre, post, e). ap (λ x. contains x p) e ∙ contains-append pre p post)
