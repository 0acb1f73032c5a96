-- ===== src/Transport/Ykman/Version.antt =====
-- The version of the tool: which text is read, and which version is accepted.
use go_tumbler.Base.{
  ℕ, ◌≤◌, ◌≡◌, ◌≢◌, ◌↔◌, refl, sym, ap, ◌∙◌, true, false, Option, none, some, List, [], ◌∷◌, ◌++◌,
  Bytes, All, arith, Bool-cases, inl, inr, All-append,
}
use go_tumbler.Base.Text.{codes}
use go_tumbler.Errors.{done, ok}
use go_tumbler.Secure.World.{World, System}
use go_tumbler.Text.Decimal.{all_digits, spelled, atoi, split, fields_func}
use go_tumbler.Text.Decimal.Parts.{IsNumeral, atoi-IsNumeral, Ends, fields_func-run, split_three}
use mathlib.Core.Path.{subst}
use go_tumbler.Transport.Ykman.{
  RunError, RunResult, YkmanTransport, version_less, three, version_of, or_later, first_version,
  is_version_sep, parse_ykman_version, version_checked, check_version, min_ykman_version,
}

digits-ne-dot : (s : Bytes) → all_digits s ≡ true → All (λ b. b ≢ b'.') s
digits-ne-dot [] h = tt
digits-ne-dot (c ∷ s) h = ((λ e. ground arith), digits-ne-dot s (ground arith))

digits-no_sep : (s : Bytes) → all_digits s ≡ true → All (λ b. is_version_sep b ≡ false) s
digits-no_sep [] h = tt
digits-no_sep (c ∷ s) h = (ground arith, digits-no_sep s (ground arith))

append-ne-nil : (a s : Bytes) (x : ℕ) → a ++ x ∷ s ≢ []
append-ne-nil [] s x = λ e. cc
append-ne-nil (b ∷ a) s x = λ e. cc

-- The first text of the form x.y.z, where x, y and z are numbers that fit an int, is read as these
-- numbers: it may stand behind anything but digits and dots, and must end there or go on with
-- something else than a digit or a dot.
pub parse_ykman_version-spelled :
    (pre a b c post : Bytes)
    → All (λ x. is_version_sep x ≡ true) pre
    → IsNumeral a
    → IsNumeral b
    → IsNumeral c
    → Ends is_version_sep post
    → parse_ykman_version (pre ++ ((a ++ b'.' ∷ (b ++ b'.' ∷ c)) ++ post))
      ≡ some (spelled 0 a ∷ spelled 0 b ∷ spelled 0 c ∷ [])
unfolding parse_ykman_version first_version
parse_ykman_version-spelled pre a b c post h ha hb hc e =
    let v = a ++ b'.' ∷ (b ++ b'.' ∷ c) in
    let P : ℕ → Type 0 = λ x. is_version_sep x ≡ false in
    let no_sep : All P v = All-append P a (b'.' ∷ (b ++ b'.' ∷ c)) (digits-no_sep a ha.digits) (
      refl,
      All-append P b (b'.' ∷ c) (digits-no_sep b hb.digits) (refl, digits-no_sep c hc.digits),
    ) in
    let found =
      fields_func-run is_version_sep pre v post h no_sep (append-ne-nil a (b ++ b'.' ∷ c) b'.') e in
    let parts =
      split_three b'.' a b c (digits-ne-dot a ha.digits) (digits-ne-dot b hb.digits)
        (digits-ne-dot c hc.digits) in
    let first : version_of (split v b'.') ≡ some (spelled 0 a ∷ spelled 0 b ∷ spelled 0 c ∷ []) =
      ap version_of parts ∙ rw (atoi-IsNumeral a ha, atoi-IsNumeral b hb, atoi-IsNumeral c hc) in
    ap first_version found
    ∙ ap (λ o. or_later o (first_version (fields_func is_version_sep post))) first

abbrev IsVersion : List ℕ → Type 0
IsVersion v = (a b c : ℕ) × (v ≡ a ∷ b ∷ c ∷ [])

three-IsVersion : (x y z : Option ℕ) (v : List ℕ) → three x y z ≡ some v → IsVersion v
three-IsVersion (some a) (some b) (some c) v h = (a, b, c, cc)
three-IsVersion none y z v h = cc
three-IsVersion (some a) none z v h = cc
three-IsVersion (some a) (some b) none v h = cc

version_of-IsVersion : (ps : List Bytes) (v : List ℕ) → version_of ps ≡ some v → IsVersion v
version_of-IsVersion (a ∷ b ∷ c ∷ ps) v h = three-IsVersion (atoi a) (atoi b) (atoi c) v h
version_of-IsVersion [] v h = cc
version_of-IsVersion (a ∷ []) v h = cc
version_of-IsVersion (a ∷ b ∷ []) v h = cc

or_later-IsVersion :
    (o later : Option (List ℕ)) (v : List ℕ)
    → (o ≡ some v → IsVersion v)
    → (later ≡ some v → IsVersion v)
    → or_later o later ≡ some v
    → IsVersion v
or_later-IsVersion none later v h k e = k e
or_later-IsVersion (some u) later v h k e = h e

first_version-IsVersion : (fs : List Bytes) (v : List ℕ) → first_version fs ≡ some v → IsVersion v
unfolding first_version
first_version-IsVersion [] v h = cc
first_version-IsVersion (f ∷ fs) v h =
    or_later-IsVersion (version_of (split f b'.')) (first_version fs) v
      (version_of-IsVersion (split f b'.') v) (first_version-IsVersion fs v) h

version_less-five :
    (a b c : ℕ) → (version_less (a ∷ b ∷ c ∷ []) min_ykman_version ≡ false) ↔ (5 ≤ a)
unfolding version_less
version_less-five a b c = ground arith

old_refused :
    {A : Type 0} {x y : A} (a b c p q r : ℕ)
    → version_less (a ∷ b ∷ c ∷ []) min_ykman_version ≡ true
    → some (a ∷ b ∷ c ∷ []) ≡ some (p ∷ q ∷ r ∷ [])
    → 5 ≤ p
    → x ≡ y
old_refused a b c p q r old same five =
    let first : a ≡ p = cc in
    let recent : version_less (a ∷ b ∷ c ∷ []) min_ykman_version ≡ false =
      (version_less-five a b c).1 (omega (arith, first)) in
    cc

checked_iff :
    (failure : Option RunError) (o : Option (List ℕ)) (w : World)
    → ((v : List ℕ) → o ≡ some v → IsVersion v)
    → ((version_checked failure o w).0 ≡ ok done)
      ↔ ((a b c : ℕ) × (failure ≡ none) × (o ≡ some (a ∷ b ∷ c ∷ [])) × (5 ≤ a))
checked_iff (some e) o w k = ((λ h. cc), λ (a, b, c, h, _, _). cc)
checked_iff none none w k = ((λ h. cc), λ (a, b, c, _, h, _). cc)
checked_iff none (some v) w k =
    let (a, b, c, e) = k v refl in
    subst
      (λ x. ((version_checked none (some x) w).0 ≡ ok done) ↔ (
        (p q r : ℕ) × (◌≡◌ {A = Option RunError} none none)
        × (some x ≡ some (p ∷ q ∷ r ∷ []))
        × (5 ≤ p)))
      (sym e)
      (elim (Bool-cases (version_less (a ∷ b ∷ c ∷ []) min_ykman_version)) [
        | inl old ↦
            rw old ((λ h. cc), λ (p, q, r, _, same, five). old_refused a b c p q r old same five)
        | inr fine ↦
            rw fine ((λ _. (a, b, c, refl, refl, (version_less-five a b c).0 fine)), λ _. refl)
      ])

-- The tool is accepted exactly when its version probe ran without an error and printed a version
-- whose first number is at least 5.
pub check_version_iff :
    (os : System) (t : YkmanTransport) (w u : World) (res : RunResult)
    → t.run t.path (codes "--version" ∷ []) w ≡ (res, u)
    → ((check_version os t w).0 ≡ ok done) ↔ (
        (a b c : ℕ) × (res.failure ≡ none)
        × (parse_ykman_version res.stdout ≡ some (a ∷ b ∷ c ∷ []))
        × (5 ≤ a))
unfolding check_version parse_ykman_version
check_version_iff os t w u res ran = rw ran (
    checked_iff res.failure (first_version (fields_func is_version_sep res.stdout)) u
      (first_version-IsVersion (fields_func is_version_sep res.stdout)))
