-- ===== src/Transport/Fake.antt =====
-- transport/fake.go: the transport that computes HMAC-SHA1 in memory, which is a parameter.
use go_tumbler.Base.{
  ℕ, ◌+◌, ◌≡◌, refl, ==_refl, Bool, true, false, not, Option, none, some, Bytes, if◌then◌else◌,
}
use go_tumbler.Base.Text.{codes}
use go_tumbler.Errors.{Done, done, Error, slot_not_configured, Result, ok, err}
use go_tumbler.Method.{check_ctx}
use go_tumbler.Secure.Container.{new, new_slice}
use go_tumbler.Secure.World.{World, System, M, pure, fail, ◌>>=◌, ◌>>◌, update}
use go_tumbler.Transport.{Transport, otp_slot_valid}

-- `FakeTransport`; the map of secrets is a function.
pub record FakeTransport : Type 0 where
  pub secrets : ℕ → Option Bytes
  -- the error or nil that the callback answers, if there is a callback
  pub touch_fn : Option (M Done)
  pub present_flag : Bool
  pub serial_value : Bytes
  pub err_inject : Option Error
  pub touches : ℕ

unfoldable pub new_fake_transport : ℕ → Bytes → FakeTransport
new_fake_transport slot secret = record {
  secrets = update (λ _. none) slot (some secret);
  touch_fn = none;
  present_flag = true;
  serial_value = codes "00000000";
  err_inject = none;
  touches = 0;
}

unfoldable pub set_slot : FakeTransport → ℕ → Bytes → FakeTransport
set_slot f slot secret = record f { secrets = update f.secrets slot (some secret) }

abbrev pub touch : Option (M Done) → M Done
touch none = pure done
touch (some fn) = fn

-- The guards in front of the response, which give the secret of the slot.
abbrev pub injected : Option Error → M Bytes → M Bytes
injected (some e) k = fail e
injected none k = k

abbrev pub configured : Option Bytes → M Bytes
configured none = fail slot_not_configured
configured (some secret) = pure secret

module _ (os : System) (hmac_sha1 : Bytes → Bytes → Bytes) where
  unfoldable pub touched_secret : FakeTransport → ℕ → M Bytes
  touched_secret f slot = injected f.err_inject (
      check_ctx os
      >> (if not (otp_slot_valid slot)
          then fail slot_not_configured
          else (do secret ← configured (f.secrets slot); touch f.touch_fn; pure secret)))

  abbrev pub respond :
      FakeTransport → Bytes → Result Bytes × World → (Result ℕ × World) × FakeTransport
  respond f challenge (err e, w) = ((err e, w), f)
  respond f challenge (ok secret, w) =
      (new os (hmac_sha1 secret challenge) w, record f { touches = f.touches + 1 })

  -- `ChallengeResponse`, with the transport as it is afterwards.
  unfoldable pub challenge_response :
      FakeTransport → ℕ → Bytes → World → (Result ℕ × World) × FakeTransport
  unfolding touched_secret
  challenge_response f slot challenge w = respond f challenge (touched_secret f slot w)

  -- `touches` is all that a response changes, and no response depends on it.
  abbrev pub as_transport : FakeTransport → Transport
  as_transport f = record {
    challenge_response = λ slot challenge w. (challenge_response f slot challenge w).0;
    serial = pure f.serial_value;
    present = λ w. (f.present_flag, w);
  }

  -- Where no error is injected, no touch callback is set, the context is not done and memory can be
  -- locked, a valid slot that was just configured answers HMAC-SHA1 of its secret and the challenge,
  -- in a new live container, and of the transport only the number of touches changes.
  pub fake-set_slot :
      (f : FakeTransport) (slot : ℕ) (secret challenge : Bytes) (w : World)
      → otp_slot_valid slot ≡ true
      → f.err_inject ≡ none
      → f.touch_fn ≡ none
      → os.ctx_err w.tick ≡ none
      → os.mlock (w.tick + 1) ≡ none
      → ((challenge_response (set_slot f slot secret) slot challenge w).0.0 ≡ ok w.next)
        × ((challenge_response (set_slot f slot secret) slot challenge w).0.1.cell w.next
            ≡ record { buf = hmac_sha1 secret challenge; destroyed = false })
        × ((challenge_response (set_slot f slot secret) slot challenge w).1
            ≡ record (set_slot f slot secret) { touches = f.touches + 1 })
  unfolding challenge_response set_slot touched_secret check_ctx new new_slice
  fake-set_slot f slot secret challenge w valid quiet untouched awake locks =
      rw (quiet, awake, valid, ==_refl slot, untouched, locks, ==_refl w.next) (refl, refl, refl)
