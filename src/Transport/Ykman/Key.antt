-- ===== src/Transport/Ykman/Key.antt =====
-- The transport over ykman as the YubiKey of a method.
use go_tumbler.Base.{
  ℕ, ◌≡◌, refl, sym, ap, ◌∙◌, true, none, some, List, [], ◌∷◌, ◌⊎◌, inl, inr, arith, Bytes, IsByte,
  All,
}
use go_tumbler.Base.Text.{codes}
use go_tumbler.Errors.{Done, done, ok}
use go_tumbler.Secure.Frame.{Frees}
use go_tumbler.Method.YubiKey.Answers.{IsKey}
use go_tumbler.Method.YubiKey.{YubiKeyMethod, slot_valid}
use go_tumbler.Secure.Returns.{Returns}
use go_tumbler.Secure.World.{World, M, System, ticked}
use go_tumbler.Text.Hex.{hex_encode, hex_decode, hex_decode-hex_encode}
use go_tumbler.Text.Search.{to_lower}
use go_tumbler.Text.Space.{fields}
use go_tumbler.Transport.Ykman.Errors.{IsApart, ykman-Yields}
use go_tumbler.Transport.Ykman.Response.{
  hex_tokens, the_only, extract_response_hex-the_only, decode_response-extract_response_hex,
  challenge_response-extracted, extracted-ok,
}
use go_tumbler.Transport.Ykman.{
  YkmanTransport, digit_text, calculate_args, extracted, extract_response_hex, decode_response,
  challenge_response,
}
use mathlib.Core.Path.{subst}

-- What the tool prints has one token of forty hexadecimal digits, in either case, which spells
-- `resp`.
pub record Prints (stdout resp : Bytes) : Type 0 where
  pub tok : Bytes
  pub alone : hex_tokens (fields stdout) ≡ tok ∷ []
  pub spells : to_lower tok ≡ hex_encode resp
  pub bytes : All IsByte resp

-- How the slots of the key are written on the command line.
pub data IsSlotText : ℕ → Bytes → Type 0 where
  first : IsSlotText 1 (codes "1")
  second : IsSlotText 2 (codes "2")

-- `ykman otp calculate SLOT CHALLENGE`, the challenge in hexadecimal.
abbrev pub calculate_line : Bytes → Bytes → List Bytes
calculate_line slot_arg challenge =
    codes "otp" ∷ codes "calculate" ∷ slot_arg ∷ hex_encode challenge ∷ []

-- The tool behaves as its manual says on the command line above: it runs without an error and prints
-- the response of the key in that slot to that challenge. It has no part in the store.
pub record RunsKey (t : YkmanTransport) (respond : ℕ → Bytes → Bytes) : Type 0 where
  pub apart : IsApart t
  pub runs :
      (slot : ℕ) (slot_arg challenge : Bytes) (w : World)
      → IsSlotText slot slot_arg
      → (t.run t.path (calculate_line slot_arg challenge) w).0.failure ≡ none
  pub prints :
      (slot : ℕ) (slot_arg challenge : Bytes) (w : World)
      → IsSlotText slot slot_arg
      → Prints
          (t.run t.path (calculate_line slot_arg challenge) w).0.stdout
          (respond slot challenge)

either_slot : (slot : ℕ) → slot_valid slot ≡ true → (slot ≡ 1) ⊎ (slot ≡ 2)
either_slot slot h = ground arith

-- What the code writes for a slot is how the tool wants it.
digit_text-IsSlotText : (slot : ℕ) → slot_valid slot ≡ true → IsSlotText slot (digit_text slot)
digit_text-IsSlotText slot valid = elim (either_slot slot valid) [
  | inl one ↦ rw one first
  | inr two ↦ rw two second
]

-- The response is decoded.
Prints-decoded :
    (stdout resp : Bytes)
    → Prints stdout resp
    → (extract_response_hex stdout ≡ some (hex_encode resp))
      × (decode_response (hex_encode resp) ≡ ok resp)
Prints-decoded stdout resp p =
    let found : extract_response_hex stdout ≡ some (hex_encode resp) =
      extract_response_hex-the_only stdout ∙ ap the_only p.alone ∙ ap some p.spells in
    let (back, decoded, same, _, bytes) =
      decode_response-extract_response_hex stdout (hex_encode resp) found in
    let equal : back ≡ resp =
      sym (hex_decode-hex_encode back bytes)
      ∙ ap hex_decode same
      ∙ hex_decode-hex_encode resp p.bytes in
    (found, decoded ∙ ap ok equal)

module _ (os : System) (locks : (t : ℕ) → os.mlock t ≡ none)
    (awake : (t : ℕ) → os.ctx_err t ≡ none) where
  response-Returns :
      (t : YkmanTransport) (respond : ℕ → Bytes → Bytes) (slot : ℕ) (challenge : Bytes) (w : World)
      → RunsKey t respond
      → slot_valid slot ≡ true
      → Returns (respond slot challenge) (challenge_response os t slot challenge w)
  response-Returns t respond slot challenge w k valid =
      let ran = t.run t.path (calculate_args slot challenge) (ticked w) in
      let (found, decoded) =
        Prints-decoded ran.0.stdout (respond slot challenge) (
          k.prints slot (digit_text slot) challenge (ticked w)
            (digit_text-IsSlotText slot valid)) in
      let same =
        challenge_response-extracted os t slot challenge w ran.1 ran.0 valid (awake w.tick) refl
          (k.runs slot (digit_text slot) challenge (ticked w) (digit_text-IsSlotText slot valid)) in
      let whole = same ∙ ap (λ x. extracted os x ran.1) found in
      let made =
        extracted-ok os (hex_encode (respond slot challenge)) (respond slot challenge) ran.1 decoded
          (locks ran.1.tick) in
      subst (Returns (respond slot challenge)) (sym whole) (ran.1.next, made.0, made.1)

  -- A YubiKey method over ykman has what opening a slot relies on, where memory can be locked, the
  -- context is not done, the touch callback succeeds and leaves the store alone, and the tool, asked
  -- on its command line for the response of slot 1 or 2 to a challenge in hexadecimal, runs without
  -- an error, has no part in the store and prints the response of the key to that challenge in that
  -- slot, in either case, as its only token of forty hexadecimal digits.
  pub ykman-IsKey :
      (t : YkmanTransport) (respond : ℕ → Bytes → Bytes) (m : YubiKeyMethod)
      → RunsKey t respond
      → ((f : M Done) → m.on_touch ≡ some f → Frees f)
      → ((f : M Done) → m.on_touch ≡ some f → (w : World) → (f w).0 ≡ ok done)
      → IsKey (record m { challenge_response = challenge_response os t }) respond
  ykman-IsKey t respond m k quiet touched = record {
    tidy = record {
      transport = λ slot challenge. ykman-Yields os t slot challenge k.apart;
      callback = quiet;
    };
    answers = λ slot challenge w valid. response-Returns t respond slot challenge w k valid;
    touched = touched;
  }
