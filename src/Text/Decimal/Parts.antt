-- ===== src/Text/Decimal/Parts.antt =====
-- Numbers between separators are found and read.
use go_tumbler.Base.{
  ℕ, ◌≤◌, ◌≡◌, ◌≢◌, refl, sym, ap, ◌∙◌, Bool, true, false, some, [], ◌∷◌, ◌++◌, Bytes, All,
  append_assoc, append-nil, le→leb, ne→==, ==_refl,
}
use go_tumbler.Text.Decimal.{
  all_digits, spelled, max_int, atoi, tagged, fields_func, split_from, split,
}
use go_tumbler.Text.Space.{fields_from}

-- A number that `atoi` reads.
pub record IsNumeral (s : Bytes) : Type 0 where
  pub nonempty : s ≢ []
  pub digits : all_digits s ≡ true
  pub fits : spelled 0 s ≤ max_int

pub atoi-IsNumeral : (s : Bytes) → IsNumeral s → atoi s ≡ some (spelled 0 s)
unfolding atoi
atoi-IsNumeral [] h = absurd (h.nonempty refl)
atoi-IsNumeral (c ∷ s) h = rw (h.digits, le→leb (spelled 0 (c ∷ s)) max_int h.fits)

module _ (f : ℕ → Bool) where
  -- The text ends or goes on with a separator.
  abbrev pub Ends : Bytes → Type 0
  Ends [] = Unit
  Ends (b ∷ s) = f b ≡ true

  fields_from-skip :
      (pre s : Bytes)
      → All (λ b. f b ≡ true) pre
      → fields_from [] (tagged f (pre ++ s)) ≡ fields_from [] (tagged f s)
  unfolding fields_from
  fields_from-skip [] s h = refl
  fields_from-skip (b ∷ pre) s (k, ks) = rw k (fields_from-skip pre s ks)

  fields_from-run :
      (v cur post : Bytes)
      → All (λ b. f b ≡ false) v
      → fields_from cur (tagged f (v ++ post)) ≡ fields_from (cur ++ v) (tagged f post)
  unfolding fields_from
  fields_from-run [] cur post h = ap (λ x. fields_from x (tagged f post)) (sym (append-nil cur))
  fields_from-run (b ∷ v) cur post (k, ks) =
      rw k (fields_from-run v (cur ++ b ∷ []) post ks)
      ∙ ap (λ x. fields_from x (tagged f post)) (append_assoc cur (b ∷ []) v)

  fields_from-Ends :
      (v post : Bytes)
      → v ≢ []
      → Ends post
      → fields_from v (tagged f post) ≡ v ∷ fields_from [] (tagged f post)
  unfolding fields_from
  fields_from-Ends [] post ne h = absurd (ne refl)
  fields_from-Ends (c ∷ v) [] ne h = refl
  fields_from-Ends (c ∷ v) (b ∷ s) ne h = rw h

  -- A run between separators is a field.
  pub fields_func-run :
      (pre v post : Bytes)
      → All (λ b. f b ≡ true) pre
      → All (λ b. f b ≡ false) v
      → v ≢ []
      → Ends post
      → fields_func f (pre ++ (v ++ post)) ≡ v ∷ fields_func f post
  unfolding fields_func
  fields_func-run pre v post h k ne e =
      fields_from-skip pre (v ++ post) h
      ∙ fields_from-run v [] post k
      ∙ fields_from-Ends v post ne e

module _ (sep : ℕ) where
  split_from-sep :
      (p cur rest : Bytes)
      → All (λ b. b ≢ sep) p
      → split_from sep cur (p ++ sep ∷ rest) ≡ (cur ++ p) ∷ split_from sep [] rest
  unfolding split_from
  split_from-sep [] cur rest h =
      rw (==_refl sep) (ap (λ x. x ∷ split_from sep [] rest) (sym (append-nil cur)))
  split_from-sep (b ∷ p) cur rest (k, ks) =
      rw (ne→== b sep k) (split_from-sep p (cur ++ b ∷ []) rest ks)
      ∙ ap (λ x. x ∷ split_from sep [] rest) (append_assoc cur (b ∷ []) p)

  split_from_end : (p cur : Bytes) → All (λ b. b ≢ sep) p → split_from sep cur p ≡ (cur ++ p) ∷ []
  unfolding split_from
  split_from_end [] cur h = ap (λ x. x ∷ []) (sym (append-nil cur))
  split_from_end (b ∷ p) cur (k, ks) =
      rw (ne→== b sep k) (split_from_end p (cur ++ b ∷ []) ks)
      ∙ ap (λ x. x ∷ []) (append_assoc cur (b ∷ []) p)

  pub split_three :
      (a b c : Bytes)
      → All (λ x. x ≢ sep) a
      → All (λ x. x ≢ sep) b
      → All (λ x. x ≢ sep) c
      → split (a ++ sep ∷ (b ++ sep ∷ c)) sep ≡ a ∷ b ∷ c ∷ []
  unfolding split
  split_three a b c ha hb hc =
      split_from-sep a [] (b ++ sep ∷ c) ha
      ∙ ap (◌∷◌ a) (split_from-sep b [] c hb ∙ ap (◌∷◌ b) (split_from_end c [] hc))
