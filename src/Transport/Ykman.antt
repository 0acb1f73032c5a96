-- ===== src/Transport/Ykman.antt =====
-- transport/ykman.go. The subprocess is the parameter `run`.
pub mod Response
pub mod Version
pub mod Errors
pub mod Key
use go_tumbler.Base.{
  ℕ, suc, ◌+◌, Bool, true, false, not, ◌&&◌, ◌||◌, Option, none, some, List, [], ◌∷◌, ◌++◌, Bytes,
  length, ltb, leb, ◌==◌, if◌then◌else◌,
}
use go_tumbler.Base.Text.{codes}
use go_tumbler.Errors.{
  Done, done, Error, tool_not_found, tool_version, tool_failure, touch_timeout, no_device,
  slot_not_configured, bad_response, external, is_auth_failed, Result, ok, err,
}
use go_tumbler.Method.{check_ctx}
use go_tumbler.Secure.Container.{new}
use go_tumbler.Secure.World.{World, System, M, pure, fail, lift, ◌>>=◌, ◌>>◌, ticked}
use go_tumbler.Text.Decimal.{is_digit, atoi, fields_func, split}
use go_tumbler.Text.Hex.{hex_encode, hex_decode}
use go_tumbler.Text.Search.{to_lower, contains}
use go_tumbler.Text.Space.{trim_space, fields}
use go_tumbler.Transport.{Transport, response_hex_len, otp_slot_valid}

-- The error of a command, numbered like `external`, and whether there is an `exec.Error` in it.
pub data RunError : Type 0 where
  exec_error other_error : ℕ → RunError

-- `runResult`
pub record RunResult : Type 0 where
  pub stdout : Bytes
  pub stderr : Bytes
  pub failure : Option RunError

-- `commandRunner`: name, arguments
abbrev pub CommandRunner : Type 0
CommandRunner = Bytes → List Bytes → World → RunResult × World

-- `YkmanTransport`
pub record YkmanTransport : Type 0 where
  pub path : Bytes
  pub run : CommandRunner

abbrev pub invoke : (World → RunResult × World) → M RunResult
invoke r w = let (res, w') = r w in (ok res, w')

abbrev pub min_ykman_version : List ℕ
min_ykman_version = 5 ∷ 0 ∷ 0 ∷ []

-- `versionLess` on arrays of three
unfoldable pub version_less : List ℕ → List ℕ → Bool
version_less (a ∷ v) (b ∷ u) = let rest = version_less v u in if not (a == b) then ltb a b else rest
version_less _ _ = false

abbrev pub three : Option ℕ → Option ℕ → Option ℕ → Option (List ℕ)
three (some a) (some b) (some c) = some (a ∷ b ∷ c ∷ [])
three _ _ _ = none

-- The version that the parts of one field spell, if they do.
abbrev pub version_of : List Bytes → Option (List ℕ)
version_of (a ∷ b ∷ c ∷ _) = three (atoi a) (atoi b) (atoi c)
version_of _ = none

-- The version is returned, or the loop goes on.
abbrev pub or_later : Option (List ℕ) → Option (List ℕ) → Option (List ℕ)
or_later (some v) later = some v
or_later none later = later

-- The loop of `parseYkmanVersion`.
unfoldable pub first_version : List Bytes → Option (List ℕ)
first_version [] = none
first_version (f ∷ fs) = or_later (version_of (split f b'.')) (first_version fs)

abbrev pub is_version_sep : ℕ → Bool
is_version_sep r = not (is_digit r) && not (r == b'.')

unfoldable pub parse_ykman_version : Bytes → Option (List ℕ)
unfolding first_version
parse_ykman_version s = first_version (fields_func is_version_sep s)

abbrev pub is_hex : ℕ → Bool
is_hex c = (leb b'0' c && leb c b'9') || (leb b'a' c && leb c b'f') || (leb b'A' c && leb c b'F')

abbrev pub all_hex : Bytes → Bool
all_hex [] = true
all_hex (c ∷ s) = is_hex c && all_hex s

-- `isHex40`
abbrev pub is_hex40 : Bytes → Bool
is_hex40 b = length b == response_hex_len && all_hex b

-- The loop of `extractResponseHex` over the tokens that are left, and what was found before.
unfoldable pub only_hex40 : Option Bytes → List Bytes → Option Bytes
only_hex40 found [] = found
only_hex40 none (tok ∷ toks) =
    let skip = only_hex40 none toks in
    let take_it = only_hex40 (some (to_lower tok)) toks in if is_hex40 tok then take_it else skip
only_hex40 (some t) (tok ∷ toks) =
    let rest = only_hex40 (some t) toks in if is_hex40 tok then none else rest

unfoldable pub extract_response_hex : Bytes → Option Bytes
unfolding only_hex40
extract_response_hex stdout =
    if is_hex40 (trim_space stdout)
    then some (to_lower (trim_space stdout))
    else only_hex40 none (fields stdout)

abbrev pub is_lower_hex : ℕ → Bool
is_lower_hex c = (leb b'0' c && leb c b'9') || (leb b'a' c && leb c b'f')

abbrev pub all_lower_hex : Bytes → Bool
all_lower_hex [] = true
all_lower_hex (c ∷ s) = is_lower_hex c && all_lower_hex s

unfoldable pub decode_response : Bytes → Result Bytes
decode_response out =
    if not (length out == response_hex_len)
    then err bad_response
    else if not (all_lower_hex out)
    then err bad_response
    else ok (hex_decode out)

-- The sentinel for what a failed tool printed, in lower case.
unfoldable pub stderr_error : Bytes → Error
stderr_error s =
    if contains s (codes "touch") && contains s (codes "timeout")
    then touch_timeout
    else if contains s (codes "no yubikey")
        || contains s (codes "failed connecting")
        || contains s (codes "failed to connect")
    then no_device
    else if contains s (codes "not configured")
        || contains s (codes "not programmed")
        || contains s (codes "no valid")
    then slot_not_configured
    else tool_failure

-- What `fmt.Errorf` makes of a sentinel and, for a second `%w`, of an error that it wraps too. A nil
-- error is not wrapped.
pub record ToolError : Type 0 where
  pub sentinel : Error
  pub wrapped : Option Error

-- The error as a caller sees it who asks for `ErrAuthFailed` by `errors.Is`, which looks into both.
unfoldable pub surfaced : ToolError → Error
surfaced x = elim x.wrapped [
  | none ↦ x.sentinel
  | some e ↦ if is_auth_failed e then e else x.sentinel
]

abbrev pub raise {ℓ} : {A : Type ℓ} → ToolError × World → Result A × World
raise (x, w) = (err (surfaced x), w)

abbrev pub digit_text : ℕ → Bytes
digit_text n = (b'0' + n) ∷ []

-- The fixed arguments; the slot is 1 or 2.
abbrev pub calculate_args : ℕ → Bytes → List Bytes
calculate_args slot challenge =
    codes "otp" ∷ codes "calculate" ∷ digit_text slot ∷ hex_encode challenge ∷ []

-- A line break and what follows it is dropped.
unfoldable pub first_line : Bytes → Bytes
first_line [] = []
first_line (c ∷ s) = let rest = first_line s in if c == 10 then [] else c ∷ rest

-- `exec.LookPath` is a parameter: the path of a tool, if it is found.
unfoldable pub resolve_tool_path : (Bytes → Option Bytes) → Bytes → Result Bytes
resolve_tool_path look_path path =
    elim (look_path (if length path == 0 then codes "ykman" else path)) [
      | none ↦ err tool_not_found
      | some abs ↦ ok abs
    ]

-- `checkVersion` on what the tool answered.
abbrev pub version_checked : Option RunError → Option (List ℕ) → M Done
version_checked (some e) v = fail tool_failure
version_checked none none = fail tool_version
version_checked none (some v) =
    if version_less v min_ykman_version then fail tool_version else pure done

module _ (os : System) where
  -- `classifyToolError` once the context has been asked: where it is done, its error is asked for
  -- once more, to be wrapped.
  abbrev pub classified : Option Error → RunError → Bytes → World → ToolError × World
  classified (some e) failure stderr w =
      (record { sentinel = touch_timeout; wrapped = os.ctx_err w.tick }, ticked w)
  classified none (exec_error n) stderr w =
      (record { sentinel = tool_not_found; wrapped = some (external n) }, w)
  classified none (other_error n) stderr w =
      (record { sentinel = stderr_error (to_lower stderr); wrapped = none }, w)

  unfoldable pub classify_tool_error : RunError → Bytes → World → ToolError × World
  unfolding stderr_error
  classify_tool_error failure stderr w = classified (os.ctx_err w.tick) failure stderr (ticked w)

  unfoldable pub check_version : YkmanTransport → M Done
  unfolding version_less parse_ykman_version
  check_version t = do
    res ← invoke (t.run t.path (codes "--version" ∷ []))
    version_checked res.failure (parse_ykman_version res.stdout)

  unfoldable pub new_ykman_transport :
      (Bytes → Option Bytes) → CommandRunner → Bytes → M YkmanTransport
  unfolding resolve_tool_path check_version
  new_ykman_transport look_path run path = do
    abs ← lift (resolve_tool_path look_path path)
    let t : YkmanTransport = record { path = abs; run = run }
    check_version t
    pure t

  abbrev pub extracted : Option Bytes → M ℕ
  extracted none = fail bad_response
  extracted (some out) = do resp ← lift (decode_response out); new os resp

  -- What follows the run of the tool.
  abbrev pub answered : Option RunError → RunResult → M ℕ
  answered (some e) res = λ w. raise (classify_tool_error e res.stderr w)
  answered none res = extracted (extract_response_hex res.stdout)

  unfoldable pub challenge_response : YkmanTransport → ℕ → Bytes → M ℕ
  unfolding classify_tool_error surfaced
  challenge_response t slot challenge =
      if not (otp_slot_valid slot) then fail slot_not_configured else (do
        check_ctx os
        res ← invoke (t.run t.path (calculate_args slot challenge))
        answered res.failure res)

  abbrev pub serial_of : Option RunError → RunResult → M Bytes
  serial_of (some e) res = λ w. raise (classify_tool_error e res.stderr w)
  serial_of none res =
      if length (trim_space res.stdout) == 0
      then fail no_device
      else pure (trim_space (first_line (trim_space res.stdout)))

  unfoldable pub serial : YkmanTransport → M Bytes
  unfolding classify_tool_error surfaced first_line
  serial t = do
    res ← invoke (t.run t.path (codes "list" ∷ codes "--serials" ∷ []))
    serial_of res.failure res

  abbrev pub is_present : Result Bytes → Bool
  is_present (err e) = false
  is_present (ok s) = not (length s == 0)

  unfoldable pub present : YkmanTransport → World → Bool × World
  unfolding serial
  present t w = let (r, w') = serial t w in (is_present r, w')

  abbrev pub as_transport : YkmanTransport → Transport
  as_transport t = record {
    challenge_response = challenge_response t;
    serial = serial t;
    present = present t;
  }
