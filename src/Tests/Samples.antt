-- ===== src/Tests/Samples.antt =====
-- Sample slots and envelopes, and a system and cryptographic functions to run the code on.
use go_tumbler.Base.{
  ℕ, zero, suc, ◌+◌, ◌≡◌, Bool, true, false, ◌&&◌, ltb, none, some, List, [], ◌∷◌, ◌++◌, Bytes,
  IsByte, All, arith, take, drop, replicate, refl,
}
use go_tumbler.Base.Text.{codes}
use go_tumbler.Combine.{Crypto}
use go_tumbler.Errors.{auth_failed, Result, ok, err}
use go_tumbler.Secure.World.{SecureBytes, World, System}
use go_tumbler.Slot.{Slot, Envelope}
use go_tumbler.Wire.{meta_bytes}

abbrev argon_params : Bytes
argon_params = 0 ∷ 0 ∷ 0 ∷ 3 ∷ 0 ∷ 1 ∷ 0 ∷ 0 ∷ 4 ∷ []

abbrev stored : Slot → Slot
stored s = record s { meta = some (meta_bytes s) }

-- A slot for a password, with Argon2id at 3 passes, 64 MiB and 4 threads.
abbrev pub password_slot : Slot
password_slot = stored record {
  type = 1;
  id = replicate 8 1;
  flags = 0;
  aead_id = 1;
  kdf_id = 1;
  yk_slot = 0;
  kdf_params = argon_params;
  kdf_salt = replicate 16 5;
  chal_salt = [];
  hkdf_salt = replicate 16 6;
  challenge = [];
  label = codes "laptop";
  nonce = replicate 12 7;
  wrapped = replicate 48 8;
  meta = none;
}

abbrev pub recovery_slot : Slot
recovery_slot = stored record {
  type = 4;
  id = replicate 8 2;
  flags = 0;
  aead_id = 1;
  kdf_id = 0;
  yk_slot = 0;
  kdf_params = [];
  kdf_salt = [];
  chal_salt = [];
  hkdf_salt = replicate 16 9;
  challenge = [];
  label = [];
  nonce = replicate 12 3;
  wrapped = replicate 48 4;
  meta = none;
}

abbrev pub two_slots : Envelope
two_slots = record { version = 1; policy_hint = 1; slots = password_slot ∷ recovery_slot ∷ [] }

-- Nothing fails: memory can be locked, and the context is never done.
abbrev pub calm : System
calm = record {
  mlock = λ t. none;
  munlock = λ t. none;
  rand = λ t n. ok (replicate n (t + 1));
  ctx_err = λ t. none;
}

-- Stand-ins of the right shape: the cipher prefixes the key.
abbrev opened_with : Bytes → Bytes → Result Bytes
opened_with [] ct = ok ct
opened_with (k ∷ key) [] = err auth_failed
opened_with (k ∷ key) (b ∷ ct) = opened_with key ct

abbrev pub plain : Crypto
plain = record {
  hkdf_extract = λ ikm salt. ok (drop 14 ikm);
  hkdf_expand = λ prk info n. ok (take n (prk ++ replicate n 0));
  aead_new = λ key. none;
  aead_seal = λ key nonce pt aad. key ++ pt;
  aead_open = λ key nonce ct aad. opened_with key ct;
  argon2_id_key = λ pw salt t m p n. take n (pw ++ replicate n 1);
  scrypt_key = λ pw salt n r p len. ok (take len (pw ++ replicate len 2));
}

opened_with-append : (key pt : Bytes) → opened_with key (key ++ pt) ≡ ok pt
opened_with-append [] pt = refl
opened_with-append (k ∷ key) pt = opened_with-append key pt

pub plain-opens :
    (key nonce p aad : Bytes)
    → plain.aead_new key ≡ none
    → plain.aead_open key nonce (plain.aead_seal key nonce p aad) aad ≡ ok p
plain-opens key nonce p aad accepted = opened_with-append key p

abbrev cells : List SecureBytes → ℕ → SecureBytes
cells [] i = record { buf = []; destroyed = true }
cells (c ∷ cs) zero = c
cells (c ∷ cs) (suc i) = cells cs i

abbrev alive : Bytes → SecureBytes
alive b = record { buf = b; destroyed = false }

-- Container 0 is the data key, 1 a password, 2 a recovery code.
abbrev pub start : World
start = record {
  next = 3;
  cell = cells (alive (replicate 32 42) ∷ alive (codes "secret") ∷ alive (replicate 32 9) ∷ []);
  tick = 0;
}

-- All members are bytes, as a test.
abbrev pub all_bytes : Bytes → Bool
all_bytes [] = true
all_bytes (x ∷ xs) = ltb x 256 && all_bytes xs

pub all_bytes-All : (xs : Bytes) → all_bytes xs ≡ true → All IsByte xs
all_bytes-All [] h = tt
all_bytes-All (x ∷ xs) h = (ground arith, all_bytes-All xs (ground arith))
