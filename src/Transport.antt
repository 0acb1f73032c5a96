-- ===== src/Transport.antt =====
-- transport/transport.go: the interface of a transport, and its constants; transport/piv.go.
pub mod Ykman
pub mod Fake
use go_tumbler.Base.{ℕ, Bool, ◌||◌, Bytes, ◌==◌}
use go_tumbler.Errors.{Error, not_implemented}
use go_tumbler.Secure.World.{World, M, fail}

-- `Transport`, with the context of the system.
pub record Transport : Type 0 where
  -- slot, challenge
  pub challenge_response : ℕ → Bytes → M ℕ
  pub serial : M Bytes
  pub present : World → Bool × World

abbrev pub response_hex_len : ℕ
response_hex_len = 40

abbrev pub otp_slot_valid : ℕ → Bool
otp_slot_valid slot = slot == 1 || slot == 2

-- `PIVTransport.Decipher`: PIN, ciphertext
unfoldable pub decipher : Bytes → Bytes → M ℕ
decipher pin ciphertext = fail not_implemented
