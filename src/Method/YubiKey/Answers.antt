-- ===== src/Method/YubiKey/Answers.antt =====
-- A YubiKey that gives the same response to the same challenge: what opening a slot relies on.
use go_tumbler.Base.{ℕ, ◌≡◌, refl, true, Option, none, some, Bytes}
use go_tumbler.Errors.{Done, done, ok}
use go_tumbler.Method.YubiKey.{YubiKeyMethod, IsTidy, run_callback, announce_touch, slot_valid}
use go_tumbler.Secure.Returns.{Returns}
use go_tumbler.Secure.World.{World, M}

-- At each valid slot the transport returns the response of the key to the challenge, and the touch
-- callback succeeds. Both leave nothing else in the store.
pub record IsKey (m : YubiKeyMethod) (respond : ℕ → Bytes → Bytes) : Type 0 where
  pub tidy : IsTidy m
  pub answers :
      (slot : ℕ) (challenge : Bytes) (w : World)
      → slot_valid slot ≡ true
      → Returns (respond slot challenge) (m.challenge_response slot challenge w)
  pub touched : (f : M Done) → m.on_touch ≡ some f → (w : World) → (f w).0 ≡ ok done

run_callback-done :
    (o : Option (M Done)) (w : World)
    → ((f : M Done) → o ≡ some f → (w : World) → (f w).0 ≡ ok done)
    → (run_callback o w).0 ≡ ok done
run_callback-done none w h = refl
run_callback-done (some f) w h = h f refl w

pub announce_touch-done :
    (m : YubiKeyMethod) (respond : ℕ → Bytes → Bytes) (w : World)
    → IsKey m respond
    → (announce_touch m w).0 ≡ ok done
announce_touch-done m respond w k = run_callback-done m.on_touch w k.touched
