-- ===== src/Method/Sealed.antt =====
-- The slots that the methods enroll are within the bounds of the wire format.
use go_tumbler.Base.{
  ℕ, ◌+◌, ◌≤◌, ◌≡◌, ◌⊎◌, inl, inr, refl, ap, ◌∙◌, false, Option, none, some, List, [], ◌∷◌, Bytes,
  length, ◌==◌, arith,
}
use go_tumbler.Combine.{Crypto}
use go_tumbler.Errors.{done, ok}
use go_tumbler.Kdf.{Kdf, kdf_id, parse_kdf}
use go_tumbler.Kdf.Bounds.{WithinBounds}
use go_tumbler.Kdf.RoundTrip.{parse_kdf-marshal_params}
use go_tumbler.Method.Password
use go_tumbler.Method.Password.{PasswordMethod}
use go_tumbler.Method.RecoveryCode
use go_tumbler.Method.RecoveryCode.{RecoveryCodeMethod}
use go_tumbler.Method.RoundTrip.{IsWrapped}
use go_tumbler.Method.RoundTrip.ByPassword.{enroll-IsEnrolled_password}
use go_tumbler.Method.RoundTrip.ByRecoveryCode.{enroll-IsWrapped_recovery}
use go_tumbler.Method.RoundTrip.Shaped.{IsDrawn}
use go_tumbler.Method.RoundTrip.Stretched.{IsStretched}
use go_tumbler.Method.{Method}
use go_tumbler.Secure.Frame.{Clean}
use go_tumbler.Secure.Returns.{Holds, Holds-Clean}
use go_tumbler.Secure.World.{World, System}
use go_tumbler.Slot.{Slot}
use go_tumbler.Wire.{marshal_meta, meta_bytes, validate_slot_shape}
use go_tumbler.Wire.Fields.{IsMeta}
use go_tumbler.Wire.Slots.{IsSealed}

-- Each slot that `m` enrolls for the data key `dek`, from `w` on, can be written and read.
abbrev pub Seals : Method → ℕ → World → Type 0
Seals m dek w = (s : Slot) (v v' : World) → Clean w v → m.enroll dek v ≡ (ok s, v') → IsSealed s

-- What is documented of the random source and of the cipher.
pub record KeepsLengths (os : System) (c : Crypto) : Type 0 where
  pub drawn : (t n : ℕ) (b : Bytes) → os.rand t n ≡ ok b → length b ≡ n
  pub tagged : (key nonce p aad : Bytes) → length (c.aead_seal key nonce p aad) ≡ length p + 16

marshal_meta-IsMeta :
    (s : Slot) (b : Bytes)
    → marshal_meta s ≡ ok b
    → length s.id ≡ 8
    → length s.hkdf_salt ≡ 16
    → length s.nonce ≡ 12
    → IsMeta s
unfolding marshal_meta
marshal_meta-IsMeta s b h l1 l2 l3 = record {
  type_valid = ground arith;
  aead_known = ground arith;
  length_id = l1;
  length_hkdf_salt = l2;
  length_nonce = l3;
  kdf_params_le = ground arith;
  kdf_salt_le = ground arith;
  chal_salt_le = ground arith;
  challenge_le = ground arith;
  label_le = ground arith;
}

-- A slot for a factor that is not stretched.
shape-unstretched :
    (s : Slot)
    → (s.type ≡ 2) ⊎ (s.type ≡ 4)
    → s.kdf_id ≡ 0
    → s.kdf_params ≡ []
    → validate_slot_shape s ≡ ok done
unfolding validate_slot_shape parse_kdf
shape-unstretched s (inl t) id params = rw (t, id, params) refl
shape-unstretched s (inr t) id params = rw (t, id, params) refl

-- A slot for a password, with the parameters of a KDF within the bounds.
shape-stretched :
    (s : Slot) (k : Kdf)
    → (s.type ≡ 1) ⊎ (s.type ≡ 3)
    → (kdf_id k == 0) ≡ false
    → parse_kdf s.kdf_id s.kdf_params ≡ ok (some k)
    → s.kdf_id ≡ kdf_id k
    → validate_slot_shape s ≡ ok done
unfolding validate_slot_shape
shape-stretched s k (inl t) real parsed id = rw (t, parsed, id, real) refl
shape-stretched s k (inr t) real parsed id = rw (t, parsed, id, real) refl

real_kdf : (k : Kdf) → (kdf_id k == 0) ≡ false
unfolding kdf_id
real_kdf k = ground arith

module _ (os : System) (c : Crypto) (locks : (t : ℕ) → os.mlock t ≡ none)
    (lengths : KeepsLengths os c) where
  drawn-IsSealed :
      (s : Slot) (pt : Bytes) (secrets : List (Option Bytes))
      → IsDrawn os s
      → IsWrapped os c locks s pt secrets
      → length pt ≤ 240
      → validate_slot_shape s ≡ ok done
      → IsSealed s
  drawn-IsSealed s pt secrets d w fits shape =
      let long : length s.wrapped ≡ length pt + 16 =
        ap length w.sealed ∙ lengths.tagged w.key s.nonce pt w.aad in
      record {
        fields =
            marshal_meta-IsMeta s (meta_bytes s) d.checked (lengths.drawn d.id.0 8 s.id d.id.1)
              (lengths.drawn d.hkdf_salt.0 16 s.hkdf_salt d.hkdf_salt.1)
              (lengths.drawn d.nonce.0 12 s.nonce d.nonce.1);
        stored = d.stored;
        wrapped_ge = omega arith;
        wrapped_le = omega arith;
        shape = shape;
      }

  pub stretched-IsSealed :
      (s : Slot) (k : Kdf) (pt pw raw : Bytes) (secrets : List (Option Bytes))
      → (s.type ≡ 1) ⊎ (s.type ≡ 3)
      → WithinBounds k
      → IsDrawn os s
      → IsStretched os c s k pw raw
      → IsWrapped os c locks s pt secrets
      → length pt ≤ 240
      → IsSealed s
  stretched-IsSealed s k pt pw raw secrets type within d p w fits =
      let parsed : parse_kdf s.kdf_id s.kdf_params ≡ ok (some k) =
        ap (λ x. parse_kdf x s.kdf_params) p.id
        ∙ ap (parse_kdf (kdf_id k)) p.params
        ∙ parse_kdf-marshal_params k within in
      drawn-IsSealed s pt secrets d w fits (shape-stretched s k type (real_kdf k) parsed p.id)

  pub unstretched-IsSealed :
      (s : Slot) (pt : Bytes) (secrets : List (Option Bytes))
      → (s.type ≡ 2) ⊎ (s.type ≡ 4)
      → (s.kdf_id ≡ 0) × (s.kdf_params ≡ [])
      → IsDrawn os s
      → IsWrapped os c locks s pt secrets
      → length pt ≤ 240
      → IsSealed s
  unstretched-IsSealed s pt secrets type (id, params) d w fits =
      drawn-IsSealed s pt secrets d w fits (shape-unstretched s type id params)

  pub password-Seals :
      (m : PasswordMethod) (k : Kdf) (dek : ℕ) (w : World) (pt pw : Bytes)
      → m.kdf ≡ some k
      → WithinBounds k
      → Holds w dek pt
      → Holds w m.password pw
      → length pt ≤ 240
      → Seals (Password.as_method os c m) dek w
  password-Seals m k dek w pt pw kdf within at_dek at_pw fits s v v' clean h =
      let p =
        enroll-IsEnrolled_password os c locks m k dek s v v' pt pw kdf (Holds-Clean clean at_dek)
          (Holds-Clean clean at_pw) h in
      stretched-IsSealed s k pt pw p.raw (some p.raw ∷ none ∷ none ∷ []) (inl p.type) within p.drawn
        p.stretched p.wrapped fits

  pub recovery-Seals :
      (m : RecoveryCodeMethod) (dek : ℕ) (w : World) (pt code : Bytes)
      → Holds w dek pt
      → Holds w m.code code
      → length pt ≤ 240
      → Seals (RecoveryCode.as_method os c m) dek w
  recovery-Seals m dek w pt code at_dek at_code fits s v v' clean h =
      let (shape, wrapped) =
        enroll-IsWrapped_recovery os c locks m dek s v v' pt code (Holds-Clean clean at_dek)
          (Holds-Clean clean at_code) h in
      unstretched-IsSealed s pt (none ∷ none ∷ some code ∷ []) (inr shape.type)
        (shape.kdf_id, shape.kdf_params) shape.drawn wrapped fits
