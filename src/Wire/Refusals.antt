-- ===== src/Wire/Refusals.antt =====
-- The errors that `ParseEnvelope` answers.
use go_tumbler.Base.{ℕ, zero, suc, ◌≡◌, inl, inr, refl, sym, Bool, true, false, Bytes}
use go_tumbler.Errors.{
  Error, done, bad_magic, bad_version, malformed, short_data, unsupported_aead, unsupported_kdf,
  kdf_params, Result, ok, err, guard, ◌>>=◌,
}
use go_tumbler.Kdf.Bounds.{parse_kdf_error}
use go_tumbler.Kdf.{parse_kdf}
use mathlib.Core.Path.{subst}
use go_tumbler.Slot.{Slot}
use go_tumbler.Wire.Reader.{Reader, u8, u16, u32, take_bytes, take_u16}
use go_tumbler.Wire.Parse.{
  validate_slot_shape, parse_fields, finish_slot, parse_slot, parse_slots, parse_envelope,
}

-- What the bytes alone can be refused with.
abbrev pub is_parse_error : Error → Bool
is_parse_error bad_magic = true
is_parse_error bad_version = true
is_parse_error short_data = true
is_parse_error malformed = true
is_parse_error unsupported_aead = true
is_parse_error unsupported_kdf = true
is_parse_error kdf_params = true
is_parse_error _ = false

abbrev pub Refuses {ℓ} : {A : Type ℓ} → Result A → Type ℓ
Refuses r = (x : Error) → r ≡ err x → is_parse_error x ≡ true

bind-Refuses {ℓ} :
    {A B : Type ℓ} (r : Result A) (f : A → Result B)
    → Refuses r
    → ((a : A) → Refuses (f a))
    → Refuses (r >>= f)
bind-Refuses (ok a) f p q x e = q a x e
bind-Refuses (err y) f p q x e = p x (cc)

ok-Refuses {ℓ} : {A : Type ℓ} (a : A) → Refuses (ok a)
ok-Refuses a x e = cc

guard-Refuses {ℓ} :
    {A : Type ℓ} (t : Bool) (y : Error) (k : Result A)
    → is_parse_error y ≡ true
    → Refuses k
    → Refuses (guard t y >>= λ _. k)
guard-Refuses true y k p q x e = q x e
guard-Refuses false y k p q x e =
    (let same : y ≡ x = (cc) in subst (λ z. is_parse_error z ≡ true) same p)

u8-Refuses : (r : Reader) → Refuses (u8 r)
unfolding u8
u8-Refuses r = guard-Refuses _ short_data _ refl (ok-Refuses _)

u16-Refuses : (r : Reader) → Refuses (u16 r)
unfolding u16
u16-Refuses r = guard-Refuses _ short_data _ refl (ok-Refuses _)

u32-Refuses : (r : Reader) → Refuses (u32 r)
unfolding u32
u32-Refuses r = guard-Refuses _ short_data _ refl (ok-Refuses _)

take_bytes-Refuses : (n : ℕ) (r : Reader) → Refuses (take_bytes n r)
unfolding take_bytes
take_bytes-Refuses n r = guard-Refuses _ short_data _ refl (ok-Refuses _)

take_u16-Refuses : (n : ℕ) (r : Reader) → Refuses (take_u16 n r)
unfolding take_u16
take_u16-Refuses n r =
    bind-Refuses (u16 r) _ (u16-Refuses r)
      λ (k, r'). guard-Refuses _ malformed _ refl (take_bytes-Refuses k r')

parse_kdf-Refuses : (id : ℕ) (params : Bytes) → Refuses (parse_kdf id params)
parse_kdf-Refuses id params x e = elim (parse_kdf_error id params x e) [
  | inl (same, _) ↦ subst (λ z. is_parse_error z ≡ true) (sym same) refl
  | inr (same, _) ↦ subst (λ z. is_parse_error z ≡ true) (sym same) refl
]

validate_slot_shape-Refuses : (s : Slot) → Refuses (validate_slot_shape s)
unfolding validate_slot_shape
validate_slot_shape-Refuses s = guard-Refuses _ malformed _ refl (
    guard-Refuses _ malformed _ refl (
      bind-Refuses (parse_kdf s.kdf_id s.kdf_params) _ (parse_kdf-Refuses s.kdf_id s.kdf_params)
        (λ _. ok-Refuses done)))

parse_fields-Refuses : (r : Reader) → Refuses (parse_fields r)
unfolding parse_fields
parse_fields-Refuses r = bind-Refuses (u8 r) _ (u8-Refuses r) λ (t, r1).
    guard-Refuses _ malformed _ refl (
      bind-Refuses (take_bytes 8 r1) _ (take_bytes-Refuses 8 r1) λ (id, r2).
        bind-Refuses (u8 r2) _ (u8-Refuses r2) λ (flags, r3).
          bind-Refuses (u8 r3) _ (u8-Refuses r3) λ (aead, r4).
            guard-Refuses _ unsupported_aead _ refl (
              bind-Refuses (u8 r4) _ (u8-Refuses r4) λ (kdf, r5).
                bind-Refuses (u8 r5) _ (u8-Refuses r5) λ (yk, r6).
                  bind-Refuses (take_u16 64 r6) _ (take_u16-Refuses 64 r6) λ (a, r7).
                    bind-Refuses (take_u16 64 r7) _ (take_u16-Refuses 64 r7) λ (b, r8).
                      bind-Refuses (take_u16 64 r8) _ (take_u16-Refuses 64 r8) λ (c, r9).
                        bind-Refuses (take_bytes 16 r9) _ (take_bytes-Refuses 16 r9) λ (d, r10).
                          bind-Refuses (take_u16 64 r10) _ (take_u16-Refuses 64 r10) λ (e, r11).
                            bind-Refuses (take_u16 256 r11) _ (take_u16-Refuses 256 r11) λ (f, r12).
                              bind-Refuses (take_bytes 12 r12) _ (take_bytes-Refuses 12 r12)
                                λ (n, r13). ok-Refuses _))

finish_slot-Refuses :
    (r : Reader) (n : ℕ) (s : Slot) (body : Reader) → Refuses (finish_slot r n s body)
unfolding finish_slot
finish_slot-Refuses r n s body =
    guard-Refuses _ malformed _ refl
      (bind-Refuses (validate_slot_shape _) _ (validate_slot_shape-Refuses _) (λ _. ok-Refuses _))

parse_slot-Refuses : (r : Reader) → Refuses (parse_slot r)
unfolding parse_slot
parse_slot-Refuses r0 = bind-Refuses (u32 r0) _ (u32-Refuses r0) λ (n, r).
    guard-Refuses _ malformed _ refl (
      guard-Refuses _ short_data _ refl (
        bind-Refuses (parse_fields _) _ (parse_fields-Refuses _)
          λ (s, body). finish_slot-Refuses r n s body))

parse_slots-Refuses : (n : ℕ) (r : Reader) → Refuses (parse_slots n r)
unfolding parse_slots
parse_slots-Refuses zero r = ok-Refuses _
parse_slots-Refuses (suc n) r =
    bind-Refuses (parse_slot r) _ (parse_slot-Refuses r)
      λ (s, r'). bind-Refuses (parse_slots n r') _ (parse_slots-Refuses n r') λ _. ok-Refuses _

-- Bytes that `parse_envelope` refuses are refused for what they are: the error is one of the seven
-- for the magic, the version, the length, the shape, the cipher, the KDF and its parameters. No
-- bytes at all are answered with `auth_failed`, and none depend on the system.
pub parse_envelope-Refuses :
    (b : Bytes) (x : Error) → parse_envelope b ≡ err x → is_parse_error x ≡ true
unfolding parse_envelope
parse_envelope-Refuses b = guard-Refuses _ malformed _ refl (
    guard-Refuses _ short_data _ refl (
      guard-Refuses _ bad_magic _ refl (
        guard-Refuses _ bad_version _ refl (
          guard-Refuses _ malformed _ refl (
            bind-Refuses (parse_slots _ _) _ (parse_slots-Refuses _ _)
              λ (slots, r). guard-Refuses _ malformed _ refl (ok-Refuses _))))))
