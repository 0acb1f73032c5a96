-- ===== src/Transport/Ykman/Response.antt =====
-- The response of the key in what the tool prints.
use go_tumbler.Base.{
  ℕ, ◌≡◌, ◌≢◌, ◌⊎◌, inl, inr, refl, sym, ap, ◌∙◌, Bool, true, false, ◌&&◌, Option, none, some, List,
  [], ◌∷◌, Bytes, IsByte, All, length, ◌==◌, if◌then◌else◌, arith, Bool-cases, Option-cases,
  ==_refl,
}
use go_tumbler.Errors.{bad_response, ok, err}
use go_tumbler.Method.{check_ctx}
use go_tumbler.Secure.Container.{new, new_slice}
use go_tumbler.Secure.World.{World, System, ticked}
use go_tumbler.Text.Hex.{hex_encode, hex_decode, IsLowerHex, hex_encode-hex_decode}
use go_tumbler.Text.Search.{lower, lower_at, lower_from, to_lower}
use go_tumbler.Text.Space.{trim_space, fields}
use go_tumbler.Text.Space.Fields.{IsPrinting, fields-trim_space}
use go_tumbler.Transport.{otp_slot_valid}
use go_tumbler.Transport.Ykman.{
  RunResult, YkmanTransport, is_hex, all_hex, is_hex40, only_hex40, extract_response_hex,
  is_lower_hex, all_lower_hex, decode_response, calculate_args, extracted, answered,
  challenge_response,
}

-- The tokens of forty hexadecimal digits.
abbrev pub hex_tokens : List Bytes → List Bytes
hex_tokens [] = []
hex_tokens (t ∷ ts) = if is_hex40 t then t ∷ hex_tokens ts else hex_tokens ts

-- The one token there is, in lower case.
abbrev pub the_only : List Bytes → Option Bytes
the_only (t ∷ []) = some (to_lower t)
the_only _ = none

only_hex40-some :
    (f : Bytes) (toks : List Bytes)
    → only_hex40 (some f) toks ≡ (if length (hex_tokens toks) == 0 then some f else none)
unfolding only_hex40
only_hex40-some f [] = refl
only_hex40-some f (t ∷ ts) = elim (Bool-cases (is_hex40 t)) [
  | inl hex ↦ rw hex (ground arith)
  | inr other ↦ rw other (only_hex40-some f ts)
]

only_hex40-the_only : (toks : List Bytes) → only_hex40 none toks ≡ the_only (hex_tokens toks)
unfolding only_hex40
only_hex40-the_only [] = refl
only_hex40-the_only (t ∷ ts) = elim (Bool-cases (is_hex40 t)) [
  | inl hex ↦ rw (hex, only_hex40-some (to_lower t) ts) (only_lem t (hex_tokens ts))
  | inr other ↦ rw other (only_hex40-the_only ts)
]
  where
    only_lem :
        (t : Bytes) (ts : List Bytes)
        → (if length ts == 0 then some (to_lower t) else none) ≡ the_only (t ∷ ts)
    only_lem t [] = refl
    only_lem t (u ∷ ts) = ground arith

all_hex-IsPrinting : (s : Bytes) → all_hex s ≡ true → All IsPrinting s
all_hex-IsPrinting [] h = tt
all_hex-IsPrinting (c ∷ s) h = (ground arith, all_hex-IsPrinting s (ground arith))

hex40-ne-nil : (s : Bytes) → is_hex40 s ≡ true → s ≢ []
hex40-ne-nil [] h = absurd (ground arith)
hex40-ne-nil (c ∷ s) h = λ e. cc

and_both : (a b : Bool) → a ≡ true → b ≡ true → (a && b) ≡ true
and_both a b h k = ground arith

and_right : (a b : Bool) → (a && b) ≡ true → b ≡ true
and_right a b h = ground arith

-- The shortcut of `extract_response_hex` for a response that stands alone makes no difference: it
-- returns the only token of forty hexadecimal digits, in lower case, and nothing if there is none
-- or more than one.
pub extract_response_hex-the_only :
    (stdout : Bytes) → extract_response_hex stdout ≡ the_only (hex_tokens (fields stdout))
unfolding extract_response_hex
extract_response_hex-the_only stdout = elim (Bool-cases (is_hex40 (trim_space stdout))) [
  | inl hex ↦
      let printing =
        all_hex-IsPrinting (trim_space stdout)
          (and_right (length (trim_space stdout) == 40) (all_hex (trim_space stdout)) hex) in
      let alone = fields-trim_space stdout printing (hex40-ne-nil (trim_space stdout) hex) in
      rw (alone, hex)
  | inr other ↦ rw other (only_hex40-the_only (fields stdout))
]

lower_at_hex : (c : ℕ) (s : Bytes) → is_hex c ≡ true → lower_at c s ≡ (lower c, 0)
lower_at_hex c [] h = refl
lower_at_hex c (b ∷ []) h = ground arith
lower_at_hex c (b ∷ d ∷ s) h = ground arith

lower-is_lower_hex : (c : ℕ) → is_hex c ≡ true → is_lower_hex (lower c) ≡ true
lower-is_lower_hex c h = ground arith

to_lower_hex :
    (s : Bytes)
    → all_hex s ≡ true
    → (all_lower_hex (to_lower s) ≡ true) × (length (to_lower s) ≡ length s)
unfolding to_lower lower_from
to_lower_hex [] h = (refl, refl)
to_lower_hex (c ∷ s) h =
    let (low, long) = to_lower_hex s (ground arith) in
    let digit : is_lower_hex (lower c) ≡ true = lower-is_lower_hex c (ground arith) in
    rw (lower_at_hex c s (ground arith)) (
      and_both (is_lower_hex (lower c)) (all_lower_hex (to_lower s)) digit low,
      omega (arith, long),
    )

all_lower_hex-IsLowerHex : (s : Bytes) → all_lower_hex s ≡ true → All IsLowerHex s
all_lower_hex-IsLowerHex [] h = tt
all_lower_hex-IsLowerHex (c ∷ s) h = (ground arith, all_lower_hex-IsLowerHex s (ground arith))

hex_tokens-is_hex40 : (ts : List Bytes) → All (λ t. is_hex40 t ≡ true) (hex_tokens ts)
hex_tokens-is_hex40 [] = tt
hex_tokens-is_hex40 (t ∷ ts) = elim (Bool-cases (is_hex40 t)) [
  | inl hex ↦ rw hex (hex, hex_tokens-is_hex40 ts)
  | inr other ↦ rw other (hex_tokens-is_hex40 ts)
]

the_only-lower :
    (ts : List Bytes) (out : Bytes)
    → All (λ t. is_hex40 t ≡ true) ts
    → the_only ts ≡ some out
    → (all_lower_hex out ≡ true) × (length out ≡ 40)
the_only-lower [] out k h = cc
the_only-lower (t ∷ []) out (k, _) h =
    let (low, long) = to_lower_hex t (and_right (length t == 40) (all_hex t) k) in
    let same : to_lower t ≡ out = cc in
    let forty : length t ≡ 40 = ground arith in
    (ap all_lower_hex (sym same) ∙ low, ap length (sym same) ∙ long ∙ forty)
the_only-lower (t ∷ u ∷ ts) out k h = cc

-- What `extract_response_hex` finds is the lower-case hexadecimal text of twenty bytes, which
-- `decode_response` returns: it refuses nothing that was extracted.
pub decode_response-extract_response_hex :
    (stdout out : Bytes)
    → extract_response_hex stdout ≡ some out
    → (resp : Bytes) × (decode_response out ≡ ok resp)
      × (hex_encode resp ≡ out)
      × (length resp ≡ 20)
      × All IsByte resp
unfolding decode_response
decode_response-extract_response_hex stdout out h =
    let (low, long) =
      the_only-lower (hex_tokens (fields stdout)) out (hex_tokens-is_hex40 (fields stdout))
        (sym (extract_response_hex-the_only stdout) ∙ h) in
    let (same, bytes, twenty) =
      hex_encode-hex_decode out 20 long (all_lower_hex-IsLowerHex out low) in
    (hex_decode out, rw (long, low), same, twenty, bytes)

the_only-none : (ts : List Bytes) → the_only ts ≡ none → length ts ≢ 1
the_only-none [] h = λ e. omega arith
the_only-none (t ∷ []) h = cc
the_only-none (t ∷ u ∷ ts) h = λ e. omega arith

the_only-some :
    (ts : List Bytes) (out : Bytes)
    → the_only ts ≡ some out
    → (t : Bytes) × (ts ≡ t ∷ []) × (out ≡ to_lower t)
the_only-some [] out h = cc
the_only-some (t ∷ []) out h = (t, refl, cc)
the_only-some (t ∷ u ∷ ts) out h = cc

module _ (os : System) where
  pub extracted-ok :
      (out resp : Bytes) (u : World)
      → decode_response out ≡ ok resp
      → os.mlock u.tick ≡ none
      → ((extracted os (some out) u).0 ≡ ok u.next)
        × ((extracted os (some out) u).1.cell u.next ≡ record { buf = resp; destroyed = false })
  unfolding new new_slice
  extracted-ok out resp u decoded locks = rw (decoded, locks, ==_refl u.next) (refl, refl)

  pub challenge_response-extracted :
      (t : YkmanTransport) (slot : ℕ) (challenge : Bytes) (w u : World) (res : RunResult)
      → otp_slot_valid slot ≡ true
      → os.ctx_err w.tick ≡ none
      → t.run t.path (calculate_args slot challenge) (ticked w) ≡ (res, u)
      → res.failure ≡ none
      → challenge_response os t slot challenge w ≡ extracted os (extract_response_hex res.stdout) u
  unfolding challenge_response check_ctx
  challenge_response-extracted t slot challenge w u res valid live ran fine =
      rw (valid, live)
        (ap (λ r. answered os r.0.failure r.0 r.1) ran ∙ ap (λ f. answered os f res u) fine)

-- What a run of the tool without an error gives. If it printed just one token of forty hexadecimal
-- digits, the response is the twenty bytes that the token spells, in a new live container; in any
-- other case the error is `bad_response` and no container is made. It is asked of a valid slot,
-- with a context that is not done and where memory can be locked.
pub challenge_response_cases :
    (os : System) (t : YkmanTransport) (slot : ℕ) (challenge : Bytes) (w u : World)
    (res : RunResult)
    → otp_slot_valid slot ≡ true
    → os.ctx_err w.tick ≡ none
    → t.run t.path (calculate_args slot challenge) (ticked w) ≡ (res, u)
    → res.failure ≡ none
    → os.mlock u.tick ≡ none
    → ((tok resp : Bytes) × (hex_tokens (fields res.stdout) ≡ tok ∷ [])
        × (hex_encode resp ≡ to_lower tok)
        × (length resp ≡ 20)
        × ((challenge_response os t slot challenge w).0 ≡ ok u.next)
        × ((challenge_response os t slot challenge w).1.cell u.next
            ≡ record { buf = resp; destroyed = false }))
      ⊎ ((length (hex_tokens (fields res.stdout)) ≢ 1)
          × (challenge_response os t slot challenge w ≡ (err bad_response, u)))
challenge_response_cases os t slot challenge w u res valid live ran fine locks =
    let same = challenge_response-extracted os t slot challenge w u res valid live ran fine in
    let only = extract_response_hex-the_only res.stdout in
    elim (Option-cases (extract_response_hex res.stdout)) [
      | inl missing ↦ inr (
        the_only-none (hex_tokens (fields res.stdout)) (sym only ∙ missing),
        same ∙ ap (λ x. extracted os x u) missing,
      )
      | inr (out, found) ↦
          let (tok, alone, low) =
            the_only-some (hex_tokens (fields res.stdout)) out (sym only ∙ found) in
          let (resp, decoded, spelled, twenty, bytes) =
            decode_response-extract_response_hex res.stdout out found in
          let (made, held) = extracted-ok os out resp u decoded locks in
          let whole = same ∙ ap (λ x. extracted os x u) found in
          inl (
            tok,
            resp,
            alone,
            spelled ∙ low,
            twenty,
            ap (λ r. r.0) whole ∙ made,
            ap (λ r. r.1.cell u.next) whole ∙ held,
          )
    ]
