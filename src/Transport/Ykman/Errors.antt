-- ===== src/Transport/Ykman/Errors.antt =====
-- What the transport leaves in the store, and which errors it can return.
use go_tumbler.Base.{
  ℕ, ◌≢◌, Bool, true, false, not, Option, none, some, List, Bytes, if◌then◌else◌, ◌+◌, arith, ap,
  Bool-cases, inl, inr,
}
use go_tumbler.Errors.{
  Error, auth_failed, is_auth_failed, slot_not_configured, touch_timeout, tool_not_found, external,
  Result, ok, err,
}
use go_tumbler.Method.{checked, check_ctx}
use go_tumbler.Method.Frame.{check_ctx-Frees}
use go_tumbler.Secure.Container.{new, new_slice, locked, allocate}
use go_tumbler.Secure.Frame.{
  Clean, Frees, Yields, Clean-refl, Clean-tick, Clean-trans, bind-Yields, new-Yields,
}
use go_tumbler.Secure.World.{World, System, M, fail, lift, and_then, ◌>>=◌, ticked}
use go_tumbler.Transport.{otp_slot_valid}
use go_tumbler.Transport.Ykman.{
  RunError, exec_error, other_error, RunResult, YkmanTransport, ToolError, surfaced, raise,
  classified, classify_tool_error, stderr_error, invoke, calculate_args, extracted, answered,
  extract_response_hex, decode_response, challenge_response,
}
use go_tumbler.Text.Search.{to_lower}

-- The subprocess has no part in the store.
abbrev pub IsApart : YkmanTransport → Type 0
IsApart t = (name : Bytes) (args : List Bytes) (w : World) → Clean w (t.run name args w).1

invoke-Frees :
    (t : YkmanTransport) (args : List Bytes) → IsApart t → Frees (invoke (t.run t.path args))
invoke-Frees t args k w = k t.path args w

if-Yields : (b : Bool) (k m : M ℕ) → Yields k → Yields m → Yields (if b then k else m)
if-Yields true k m p q = p
if-Yields false k m p q = q

module _ (os : System) where
  classified-Clean :
      (o : Option Error) (e : RunError) (stderr : Bytes) (u w : World)
      → Clean u w
      → Clean u (classified os o e stderr w).1
  classified-Clean (some x) e stderr u w k = Clean-trans k (Clean-tick w (w.tick + 1))
  classified-Clean none (exec_error n) stderr u w k = k
  classified-Clean none (other_error n) stderr u w k = k

  classify-Yields :
      (e : RunError) (stderr : Bytes) → Yields (λ w. raise (classify_tool_error os e stderr w))
  unfolding classify_tool_error
  classify-Yields e stderr w =
      classified-Clean (os.ctx_err w.tick) e stderr w (ticked w) (Clean-tick w (w.tick + 1))

  extracted-Yields : (o : Option Bytes) → Yields (extracted os o)
  extracted-Yields none = Clean-refl
  extracted-Yields (some out) =
      bind-Yields (lift (decode_response out)) _ Clean-refl λ resp. new-Yields os resp

  answered-Yields : (o : Option RunError) (res : RunResult) → Yields (answered os o res)
  answered-Yields (some e) res = classify-Yields e res.stderr
  answered-Yields none res = extracted-Yields (extract_response_hex res.stdout)

  -- The response comes in one new live container, or there is an error, and nothing else is left
  -- behind, where the subprocess has no part in the store.
  pub ykman-Yields :
      (t : YkmanTransport) (slot : ℕ) (challenge : Bytes)
      → IsApart t
      → Yields (challenge_response os t slot challenge)
  unfolding challenge_response
  ykman-Yields t slot challenge k = if-Yields (not (otp_slot_valid slot)) _ _ Clean-refl (
      bind-Yields (check_ctx os) _ (check_ctx-Frees os) λ _.
        bind-Yields (invoke (t.run t.path (calculate_args slot challenge))) _
          (invoke-Frees t (calculate_args slot challenge) k) λ res. answered-Yields res.failure res)

stderr_error-ne-auth_failed : (s : Bytes) → stderr_error s ≢ auth_failed
unfolding stderr_error
stderr_error-ne-auth_failed s = λ h. ground arith

decode_response-ne-auth_failed : (out : Bytes) → decode_response out ≢ err auth_failed
unfolding decode_response
decode_response-ne-auth_failed out = λ h. ground arith

-- `m` never answers that the secret was wrong.
abbrev pub NeverAuthFailed {ℓ} : {A : Type ℓ} → M A → Type ℓ
NeverAuthFailed m = (w : World) → (m w).0 ≢ err auth_failed

module _ {ℓ κ} {A : Type ℓ} {B : Type κ} where
  and_then-NeverAuthFailed :
      (r : Result A × World) (f : A → M B)
      → r.0 ≢ err auth_failed
      → ((a : A) → NeverAuthFailed (f a))
      → (and_then r f).0 ≢ err auth_failed
  and_then-NeverAuthFailed (ok a, w) f p q = q a w
  and_then-NeverAuthFailed (err e, w) f p q = λ h. p (cc)

  pub bind-NeverAuthFailed :
      (m : M A) (f : A → M B)
      → NeverAuthFailed m
      → ((a : A) → NeverAuthFailed (f a))
      → NeverAuthFailed (m >>= f)
  bind-NeverAuthFailed m f p q w = and_then-NeverAuthFailed (m w) f (p w) q

module _ (os : System) (no_ctx : (t : ℕ) → os.ctx_err t ≢ some auth_failed)
    (no_mlock : (t : ℕ) → os.mlock t ≢ some auth_failed) where
  checked-NeverAuthFailed : (o : Option Error) → o ≢ some auth_failed → NeverAuthFailed (checked o)
  checked-NeverAuthFailed (some e) k w = λ h. k (cc)
  checked-NeverAuthFailed none k w = λ h. cc

  locked-NeverAuthFailed :
      (o : Option Error) (b : Bytes)
      → o ≢ some auth_failed
      → NeverAuthFailed (locked o (allocate b))
  locked-NeverAuthFailed (some e) b k w = λ h. k (cc)
  locked-NeverAuthFailed none b k w = λ h. cc

  pub new-NeverAuthFailed : (b : Bytes) → NeverAuthFailed (new os b)
  unfolding new new_slice
  new-NeverAuthFailed b w = locked-NeverAuthFailed (os.mlock w.tick) b (no_mlock w.tick) (ticked w)

  pub check_ctx-NeverAuthFailed : NeverAuthFailed (check_ctx os)
  unfolding check_ctx
  check_ctx-NeverAuthFailed w =
      checked-NeverAuthFailed (os.ctx_err w.tick) (no_ctx w.tick) (ticked w)

  surfaced-ne-auth_failed :
      (s : Error) (o : Option Error)
      → s ≢ auth_failed
      → o ≢ some auth_failed
      → surfaced (record { sentinel = s; wrapped = o }) ≢ auth_failed
  unfolding surfaced
  surfaced-ne-auth_failed s none p q = p
  surfaced-ne-auth_failed s (some e) p q = elim (Bool-cases (is_auth_failed e)) [
    | inl same ↦ rw same (λ h. q (ap some h))
    | inr other ↦ rw other p
  ]

  classified-ne-auth_failed :
      (o : Option Error) (e : RunError) (stderr : Bytes) (w : World)
      → surfaced (classified os o e stderr w).0 ≢ auth_failed
  classified-ne-auth_failed (some x) e stderr w =
      surfaced-ne-auth_failed touch_timeout (os.ctx_err w.tick) (λ h. cc) (no_ctx w.tick)
  classified-ne-auth_failed none (exec_error n) stderr w =
      surfaced-ne-auth_failed tool_not_found (some (external n)) (λ h. cc) (λ h. cc)
  classified-ne-auth_failed none (other_error n) stderr w =
      surfaced-ne-auth_failed (stderr_error (to_lower stderr)) none
        (stderr_error-ne-auth_failed (to_lower stderr)) (λ h. cc)

  raise-ne-auth_failed :
      (r : ToolError × World) → surfaced r.0 ≢ auth_failed → (raise {A = ℕ} r).0 ≢ err auth_failed
  raise-ne-auth_failed (x, w) p = λ h. p (cc)

  extracted-NeverAuthFailed : (o : Option Bytes) → NeverAuthFailed (extracted os o)
  extracted-NeverAuthFailed none w = λ h. cc
  extracted-NeverAuthFailed (some out) w =
      bind-NeverAuthFailed (lift (decode_response out)) _ (λ w. decode_response-ne-auth_failed out)
        new-NeverAuthFailed w

  answered-NeverAuthFailed :
      (o : Option RunError) (res : RunResult) → NeverAuthFailed (answered os o res)
  unfolding classify_tool_error
  answered-NeverAuthFailed (some e) res w =
      raise-ne-auth_failed (classified os (os.ctx_err w.tick) e res.stderr (ticked w))
        (classified-ne-auth_failed (os.ctx_err w.tick) e res.stderr (ticked w))
  answered-NeverAuthFailed none res w =
      extracted-NeverAuthFailed (extract_response_hex res.stdout) w

  if-NeverAuthFailed :
      (b : Bool) (e : Error) (m : M ℕ)
      → e ≢ auth_failed
      → NeverAuthFailed m
      → NeverAuthFailed (if b then fail e else m)
  if-NeverAuthFailed true e m k p w = λ h. k (cc)
  if-NeverAuthFailed false e m k p w = p w

  -- No failure of the tool or of the key is taken for a wrong secret: `challenge_response` never
  -- answers `auth_failed`, where neither the context nor `mlock` does.
  pub ykman-NeverAuthFailed :
      (t : YkmanTransport) (slot : ℕ) (challenge : Bytes)
      → NeverAuthFailed (challenge_response os t slot challenge)
  unfolding challenge_response
  ykman-NeverAuthFailed t slot challenge =
      if-NeverAuthFailed (not (otp_slot_valid slot)) slot_not_configured _ (λ h. cc)
        (bind-NeverAuthFailed (check_ctx os) _ check_ctx-NeverAuthFailed λ _.
          bind-NeverAuthFailed (invoke (t.run t.path (calculate_args slot challenge)))
            (λ res. answered os res.failure res) (λ w h. cc)
            λ res. answered-NeverAuthFailed res.failure res)
