-- ===== src/Method/RoundTrip.antt =====
-- Wrapping a data key and unwrapping it again.
pub mod Shaped
pub mod Stretched
pub mod ByPassword
pub mod ByRecoveryCode
use go_tumbler.Base.{
  ℕ, ◌≡◌, refl, sym, ap, ◌∙◌, false, Option, none, some, List, Bytes, All, arith, Option-cases, inl,
  inr,
}
use go_tumbler.Combine.{
  Crypto, IkmInputs, roles, hkdf_sha256_extract_expand, kek_info, derive_kek, seal, open_wrapped,
  opened,
}
use go_tumbler.Combine.Frame.{derive_kek-Yields}
use go_tumbler.Combine.Ikm.{IsLive, held, ikm_bytes, held-below, IsLive-below}
use go_tumbler.Errors.{Result, ok}
use go_tumbler.Method.Frame.{rand_bytes-Frees}
use go_tumbler.Method.{SlotShape, shaped, rand_bytes, wrap_dek, unwrap_dek}
use go_tumbler.Secure.Container.{new, destroy, defer_destroy, borrow}
use go_tumbler.Secure.Frame.{Clean, Fresh, Frees, Clean-refl, Clean-trans, YieldsAt}
use go_tumbler.Secure.World.{World, System, M, pure, fail, lift, and_then, and_then-ok, ◌>>=◌}
use go_tumbler.Slot.{Slot}
use go_tumbler.Wire.{marshal_meta, slot_meta}
use mathlib.Core.Path.{subst}
use go_tumbler.Combine.Kek.{new-destroy, derive_kek-ok, derive_kek-key}
use go_tumbler.Secure.Returns.{Returns, alive, with_value, cell_alive, value-Fresh}

-- The first step of a chain that succeeded, where it leaves the store clean.
pub bind-ok {ℓ κ μ} :
    {A : Type ℓ} {B : Type κ} {C : Type μ} (w : World) (m : M A) (f : A → M B) {u w' : World}
    {b : B}
    → Clean w u
    → Frees m
    → (m >>= f) u ≡ (ok b, w')
    → ((a : A) (v : World) → Clean w v → m u ≡ (ok a, v) → f a v ≡ (ok b, w') → C)
    → C
bind-ok w m f {u} {w'} {b} clean frees h later =
    let (a, v, ran, rest) = and_then-ok (m u) f b w' h in
    later a v (Clean-trans clean (subst (λ r. Clean u r.1) ran (frees u))) ran rest

pub derived-ok {ℓ κ μ} :
    {A : Type ℓ} {B : Type κ} {C : Type μ} (r : Result A × World) (f : A → M B) {w' : World} {b : B}
    → and_then r f ≡ (ok b, w')
    → ((a : A) (v : World) → r ≡ (ok a, v) → f a v ≡ (ok b, w') → C)
    → C
derived-ok r f {w'} {b} h later =
    let (a, v, ran, rest) = and_then-ok r f b w' h in later a v ran rest

module _ (os : System) (c : Crypto) (locks : (t : ℕ) → os.mlock t ≡ none) where
  seal-ok :
      (kek dek : ℕ) (nonce aad : Bytes) (u u' : World) (key pt out : Bytes)
      → u.cell kek ≡ alive key
      → u.cell dek ≡ alive pt
      → seal os c kek dek nonce aad u ≡ (ok out, u')
      → (c.aead_new key ≡ none) × (out ≡ c.aead_seal key nonce pt aad)
  unfolding seal borrow
  seal-ok kek dek nonce aad u u' key pt out at_kek at_dek h = elim (Option-cases (c.aead_new key)) [
    | inl fine ↦
        let ran : pure (c.aead_seal key nonce pt aad) u ≡ (ok out, u') =
          rw (at_kek, fine, at_dek) at h in
        (fine, cc)
    | inr (e, refused) ↦ let failed : fail e u ≡ (ok out, u') = rw (at_kek, refused) at h in cc
  ]

  open_wrapped-opened :
      (kek : ℕ) (nonce ct aad : Bytes) (u : World) (key : Bytes)
      → u.cell kek ≡ alive key
      → c.aead_new key ≡ none
      → open_wrapped os c kek nonce ct aad u ≡ opened os c (c.aead_open key nonce ct aad) u
  unfolding open_wrapped borrow
  open_wrapped-opened kek nonce ct aad u key at_kek fine = rw (at_kek, fine) refl

  -- The slot was sealed around the data key `pt` by factors that hold `secrets`.
  pub record IsWrapped (s : Slot) (pt : Bytes) (secrets : List (Option Bytes)) : Type 0 where
    pub key : Bytes
    pub derived :
        hkdf_sha256_extract_expand os c
          (ikm_bytes secrets)
          s.hkdf_salt
          (kek_info os c 1 s.type s.id)
          32
        ≡ ok key
    pub accepted : c.aead_new key ≡ none
    pub aad : Bytes
    pub stored : s.meta ≡ some aad
    pub sealed : s.wrapped ≡ c.aead_seal key s.nonce pt aad

  -- Unwrapping comes down to one call of the cipher, with the key that the factors give.
  pub unwrap_dek-opened :
      (s : Slot) (j : IkmInputs) (u : World) (key aad : Bytes)
      → All (IsLive u) (roles j)
      → hkdf_sha256_extract_expand os c
          (ikm_bytes (held (roles j) u))
          s.hkdf_salt
          (kek_info os c 1 s.type s.id)
          32
        ≡ ok key
      → c.aead_new key ≡ none
      → s.meta ≡ some aad
      → (kek : ℕ) × (v : World) × Fresh u kek v
        × (unwrap_dek os c s j u
            ≡ defer_destroy os kek (opened os c (c.aead_open key s.nonce s.wrapped aad)) v)
  unfolding unwrap_dek defer_destroy slot_meta
  unwrap_dek-opened s j u key aad live derived accepted stored =
      let (kek, value, cell) =
        derive_kek-ok os c locks j s.hkdf_salt 1 s.type s.id u live key derived in
      let v = (derive_kek os c j s.hkdf_salt 1 s.type s.id u).1 in
      let fresh : Fresh u kek v =
        value-Fresh u kek (derive_kek os c j s.hkdf_salt 1 s.type s.id u) value
          (derive_kek-Yields os c j s.hkdf_salt 1 s.type s.id u) in
      (
        kek,
        v,
        fresh,
        ap
              (λ r. and_then r (λ k.
                defer_destroy os k (
                  lift (slot_meta s s.meta) >>= λ meta.
                  open_wrapped os c k s.nonce s.wrapped meta)))
              (with_value (derive_kek os c j s.hkdf_salt 1 s.type s.id u) kek value)
            ∙ ap
                (λ m.
                  defer_destroy os kek
                    (lift (slot_meta s m) >>= λ meta. open_wrapped os c kek s.nonce s.wrapped meta)
                    v)
                stored
            ∙ ap (λ r. (r.0, (destroy os kek r.1).1))
                (open_wrapped-opened kek s.nonce s.wrapped aad v key cell accepted),
      )

  -- Unwrapping a slot that was sealed by the same secrets.
  pub unwrap_dek-IsWrapped :
      (s : Slot) (pt : Bytes) (j : IkmInputs) (u : World)
      → ((key nonce p aad : Bytes)
          → c.aead_new key ≡ none
          → c.aead_open key nonce (c.aead_seal key nonce p aad) aad ≡ ok p)
      → All (IsLive u) (roles j)
      → IsWrapped s pt (held (roles j) u)
      → (h : ℕ) × ((unwrap_dek os c s j u).0 ≡ ok h) × ((unwrap_dek os c s j u).1.cell h ≡ alive pt)
  unfolding defer_destroy
  unwrap_dek-IsWrapped s pt j u correct live w =
      let (kek, v, fresh, ran) =
        unwrap_dek-opened s j u w.key w.aad live w.derived w.accepted w.stored in
      let opens : c.aead_open w.key s.nonce s.wrapped w.aad ≡ ok pt =
        ap (λ x. c.aead_open w.key s.nonce x w.aad) w.sealed
        ∙ correct w.key s.nonce pt w.aad w.accepted in
      let (ok_new, at_new) = new-destroy os c locks u v kek pt fresh in
      let same : unwrap_dek os c s j u ≡ defer_destroy os kek (new os pt) v =
        ran ∙ ap (λ r. defer_destroy os kek (opened os c r) v) opens in
      (v.next, ap (λ r. r.0) same ∙ ok_new, ap (λ r. r.1.cell v.next) same ∙ at_new)

  -- The step of `wrap_dek` behind the deferred `Destroy` of the key-encryption key.
  abbrev sealing : ℕ → Slot → Bytes → ℕ → M Slot
  sealing dek s meta kek = seal os c kek dek s.nonce meta >>= λ wrapped.
      pure (record s { wrapped = wrapped; meta = some meta })

  sealing-IsWrapped :
      (dek : ℕ) (s0 s : Slot) (meta pt : Bytes) (i : IkmInputs) (w u v : World) (k : ℕ)
      → Clean w u
      → All (IsLive w) (roles i)
      → IsLive w (some dek)
      → (w.cell dek).buf ≡ pt
      → derive_kek os c i s0.hkdf_salt 1 s0.type s0.id u ≡ (ok k, v)
      → (sealing dek s0 meta k v).0 ≡ ok s
      → IsWrapped s pt (held (roles i) w)
  sealing-IsWrapped dek s0 s meta pt i w u v k clean live dek_live at_dek derives h =
      let (key, derived, at_kek) =
        derive_kek-key os c locks i s0.hkdf_salt 1 s0.type s0.id u
          (IsLive-below (roles i) w u clean.grew clean.kept live) k (ap (λ r. r.0) derives) in
      let fresh : Fresh u k v =
        subst (YieldsAt u) derives (derive_kek-Yields os c i s0.hkdf_salt 1 s0.type s0.id u) in
      let dek_cell : v.cell dek ≡ alive pt =
        fresh.kept dek (omega (arith, dek_live.0, clean.grew))
        ∙ clean.kept dek dek_live.0
        ∙ cell_alive (w.cell dek) pt at_dek dek_live.1 in
      let kek_cell : v.cell k ≡ alive key = ap (λ r. r.1.cell k) (sym derives) ∙ at_kek in
      let (wrapped, x, seals, rest) =
        and_then-ok (seal os c k dek s0.nonce meta v) _ s (sealing dek s0 meta k v).1
          (with_value (sealing dek s0 meta k v) s h) in
      let (accepted, out) =
        seal-ok k dek s0.nonce meta v x key pt wrapped kek_cell dek_cell seals in
      let same : record s0 { wrapped = wrapped; meta = some meta } ≡ s = cc in
      let secrets : held (roles i) u ≡ held (roles i) w =
        held-below (roles i) w u clean.kept live in
      subst (λ t. IsWrapped t pt (held (roles i) w)) same
        record {
          key = key;
          derived =
              subst
                (λ x.
                  hkdf_sha256_extract_expand os c (ikm_bytes x) s0.hkdf_salt
                    (kek_info os c 1 s0.type s0.id) 32
                  ≡ ok key)
                secrets derived;
          accepted = accepted;
          aad = meta;
          stored = refl;
          sealed = out;
        }

  pub wrap_dek-IsWrapped :
      (dek : ℕ) (i : IkmInputs) (sh : SlotShape) (s : Slot) (w w' : World)
      → All (IsLive w) (roles i)
      → IsLive w (some dek)
      → wrap_dek os c dek i sh w ≡ (ok s, w')
      → IsWrapped s (w.cell dek).buf (held (roles i) w)
  unfolding wrap_dek defer_destroy
  wrap_dek-IsWrapped dek i sh s w w' live dek_live h =
      bind-ok w (rand_bytes os 8) _ (Clean-refl w) (rand_bytes-Frees os 8) h λ id u1 clean1 _ h1.
        bind-ok w (rand_bytes os 16) _ clean1 (rand_bytes-Frees os 16) h1 λ salt u2 clean2 _ h2.
          bind-ok w (rand_bytes os 12) _ clean2 (rand_bytes-Frees os 12) h2 λ nonce u3 clean3 _ h3.
            bind-ok w (lift (marshal_meta (shaped sh id salt nonce))) _ clean3 Clean-refl h3
              λ meta u4 clean4 _ h4.
                derived-ok (derive_kek os c i salt 1 sh.mt id u4) _ h4 λ kek u5 derives h5.
                  sealing-IsWrapped dek (shaped sh id salt nonce) s meta (w.cell dek).buf i w u4 u5
                    kek clean4 live dek_live refl derives (ap (λ r. r.0) h5)

-- Where locking memory never fails and the cipher opens what it sealed, a data key that `wrap_dek`
-- wrapped is what `unwrap_dek` returns, in a new live container, from the slot alone: in any later
-- store, with any live factors that hold the same secrets.
pub unwrap_dek-wrap_dek :
    (os : System) (c : Crypto) (dek : ℕ) (i j : IkmInputs) (sh : SlotShape) (s : Slot)
    (w w' u : World)
    → ((t : ℕ) → os.mlock t ≡ none)
    → ((key nonce p aad : Bytes)
        → c.aead_new key ≡ none
        → c.aead_open key nonce (c.aead_seal key nonce p aad) aad ≡ ok p)
    → All (IsLive w) (roles i)
    → IsLive w (some dek)
    → All (IsLive u) (roles j)
    → held (roles j) u ≡ held (roles i) w
    → wrap_dek os c dek i sh w ≡ (ok s, w')
    → (h : ℕ) × ((unwrap_dek os c s j u).0 ≡ ok h)
      × ((unwrap_dek os c s j u).1.cell h ≡ record { buf = (w.cell dek).buf; destroyed = false })
unwrap_dek-wrap_dek os c dek i j sh s w w' u locks correct live dek_live live' same h =
    unwrap_dek-IsWrapped os c locks s (w.cell dek).buf j u correct live' (
      subst (IsWrapped os c locks s (w.cell dek).buf) (sym same)
        (wrap_dek-IsWrapped os c locks dek i sh s w w' live dek_live h))
