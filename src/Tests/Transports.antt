-- ===== src/Tests/Transports.antt =====
-- The transports, on samples of what the tool prints.
use go_tumbler.Base.{
  ℕ, ◌≤◌, ◌≡◌, ◌≢◌, ◌↔◌, ◌⊎◌, refl, true, false, none, some, [], ◌∷◌, ◌++◌, Bytes, arith, length,
}
use go_tumbler.Base.Text.{codes}
use go_tumbler.Errors.{done, bad_response, ok, err}
use go_tumbler.Secure.World.{ticked}
use go_tumbler.Tests.Samples.{calm, start}
use go_tumbler.Text.Decimal.{all_digits, split_from, split, fields_func, atoi}
use go_tumbler.Text.Decimal.Parts.{IsNumeral}
use go_tumbler.Text.Hex.{hex_encode}
use go_tumbler.Text.Search.{to_lower, lower_from}
use go_tumbler.Text.Space.{trim_space, drop_front, drop_back, fields, fields_from}
use go_tumbler.Transport.Fake
use go_tumbler.Transport.Fake.{FakeTransport, new_fake_transport, set_slot, fake-set_slot}
use go_tumbler.Method.{check_ctx}
use go_tumbler.Secure.Container.{new, new_slice}
use go_tumbler.Transport.Ykman
use go_tumbler.Transport.Ykman.Errors.{NeverAuthFailed, ykman-NeverAuthFailed}
use go_tumbler.Transport.Ykman.Response.{hex_tokens, challenge_response_cases}
use go_tumbler.Transport.Ykman.Version.{check_version_iff}
use go_tumbler.Transport.Ykman.{
  RunResult, YkmanTransport, extract_response_hex, only_hex40, decode_response, parse_ykman_version,
  first_version, check_version, is_version_sep,
}

abbrev answer : Bytes
answer = codes "0123456789abcdef0123456789ABCDEF01234567"

abbrev printed : RunResult
printed = record { stdout = codes "touch " ++ answer ++ 10 ∷ []; stderr = []; failure = none }

abbrev tool : YkmanTransport
tool = record { path = codes "/bin/ykman"; run = λ name args w. (printed, w) }

extracted_run : extract_response_hex printed.stdout ≡ some (to_lower answer)
unfolding extract_response_hex only_hex40 to_lower lower_from trim_space drop_front drop_back fields
    fields_from
extracted_run = refl

challenge_response_cases_example :
    ((tok resp : Bytes) × (hex_tokens (fields printed.stdout) ≡ tok ∷ [])
      × (hex_encode resp ≡ to_lower tok)
      × (length resp ≡ 20)
      × ((Ykman.challenge_response calm tool 2 (1 ∷ []) start).0 ≡ ok 3)
      × ((Ykman.challenge_response calm tool 2 (1 ∷ []) start).1.cell 3
          ≡ record { buf = resp; destroyed = false }))
    ⊎ ((length (hex_tokens (fields printed.stdout)) ≢ 1)
        × (Ykman.challenge_response calm tool 2 (1 ∷ []) start ≡ (err bad_response, ticked start)))
challenge_response_cases_example =
    challenge_response_cases calm tool 2 (1 ∷ []) start (ticked start) printed refl refl refl refl
      refl

ykman-NeverAuthFailed_example : NeverAuthFailed (Ykman.challenge_response calm tool 2 (1 ∷ []))
ykman-NeverAuthFailed_example = ykman-NeverAuthFailed calm (λ t h. cc) (λ t h. cc) tool 2 (1 ∷ [])

numeral : (c : ℕ) → all_digits (c ∷ []) ≡ true → IsNumeral (c ∷ [])
numeral c h = record { nonempty = λ e. cc; digits = h; fits = ground arith }

abbrev version_printed : RunResult
version_printed = record { stdout = codes "ykman 5.9.0"; stderr = []; failure = none }

abbrev versioned : YkmanTransport
versioned = record { path = codes "/bin/ykman"; run = λ name args w. (version_printed, w) }

check_version_iff_example : ((check_version calm versioned start).0 ≡ ok done) ↔ (
    (a b c : ℕ) × (version_printed.failure ≡ none)
    × (parse_ykman_version version_printed.stdout ≡ some (a ∷ b ∷ c ∷ []))
    × (5 ≤ a))
check_version_iff_example = check_version_iff calm versioned start start version_printed refl

version_run : parse_ykman_version version_printed.stdout ≡ some (5 ∷ 9 ∷ 0 ∷ [])
unfolding parse_ykman_version first_version fields_func fields_from split_from split atoi
version_run = refl

abbrev mac : Bytes → Bytes → Bytes
mac key text = key ++ text

abbrev fake : FakeTransport
fake = new_fake_transport 1 (7 ∷ [])

fake_run : (Fake.challenge_response calm mac (set_slot fake 2 (8 ∷ [])) 2 (1 ∷ []) start).0.0 ≡ ok 3
unfolding Fake.challenge_response Fake.touched_secret set_slot new_fake_transport check_ctx new
    new_slice
fake_run = refl
