-- ===== src/Method/Tamper.antt =====
-- A slot whose metadata was changed is not unwrapped: the wrapped key is bound to it.
use go_tumbler.Base.{
  ℕ, ◌≡◌, refl, sym, ap, ◌∙◌, none, some, Bytes, All, Bool-cases, Option-cases, inl, inr,
}
use go_tumbler.Combine.{Crypto, IkmInputs, roles, derive_kek, open_wrapped, opened}
use go_tumbler.Combine.Ikm.{IsLive}
use go_tumbler.Errors.{Result, ok, err}
use go_tumbler.Method.RoundTrip.{derived-ok, wrap_dek-IsWrapped}
use go_tumbler.Method.RoundTrip.Shaped.{wrap_dek-IsShaped}
use go_tumbler.Method.{SlotShape, wrap_dek, unwrap_dek}
use go_tumbler.Secure.Container.{defer_destroy, borrow}
use go_tumbler.Secure.Returns.{with_value}
use go_tumbler.Secure.World.{World, System}
use go_tumbler.Slot.{Slot}
use go_tumbler.Wire.Binding.{marshal_meta-injective}
use go_tumbler.Wire.Fields.{IsMeta, marshal_meta-IsMeta}
use go_tumbler.Wire.{meta_bytes, slot_meta}

module _ (os : System) (c : Crypto) where
  -- Where a wrapped key was opened, the cipher opened it with the associated data.
  abbrev Opened : Bytes → Bytes → Bytes → Type 0
  Opened nonce ct aad = (key : Bytes) × (pt : Bytes) × (c.aead_open key nonce ct aad ≡ ok pt)

  opened-ok :
      (r : Result Bytes) (u : World) (h : ℕ)
      → (opened os c r u).0 ≡ ok h
      → (pt : Bytes) × (r ≡ ok pt)
  opened-ok (ok pt) u h e = (pt, refl)
  opened-ok (err x) u h e = cc

  open_wrapped-Opened :
      (kek : ℕ) (nonce ct aad : Bytes) (u : World) (h : ℕ)
      → (open_wrapped os c kek nonce ct aad u).0 ≡ ok h
      → Opened nonce ct aad
  unfolding open_wrapped borrow
  open_wrapped-Opened kek nonce ct aad u h e = elim (Bool-cases (u.cell kek).destroyed) [
    | inl dead ↦ (let failed = rw dead at e in (cc))
    | inr live ↦
        let key = (u.cell kek).buf in
        elim (Option-cases (c.aead_new key)) [
          | inl fine ↦
              let (pt, opens) =
                opened-ok (c.aead_open key nonce ct aad) u h (rw (live, fine) at e) in
              (key, pt, opens)
          | inr (x, refused) ↦ (let failed = rw (live, refused) at e in (cc))
        ]
  ]

  unwrap_dek-Opened :
      (s : Slot) (j : IkmInputs) (u : World) (h : ℕ)
      → s.meta ≡ some (meta_bytes s)
      → (unwrap_dek os c s j u).0 ≡ ok h
      → Opened s.nonce s.wrapped (meta_bytes s)
  unfolding unwrap_dek defer_destroy slot_meta
  unwrap_dek-Opened s j u h stored e =
      derived-ok (derive_kek os c j s.hkdf_salt 1 s.type s.id u) _
        (with_value (unwrap_dek os c s j u) h e)
        λ kek v _ rest.
          open_wrapped-Opened kek s.nonce s.wrapped (meta_bytes s) v h
            (rw stored at (ap (λ r. r.0) rest))

-- A slot that was read from bytes, with the wrapped key of one that `wrap_dek` returned, is that very
-- slot if `unwrap_dek` gets a data key out of it, whatever factors it is given: no field of the
-- metadata can have been changed. The cipher is taken to authenticate the associated data: what it
-- sealed with some does not open with other. Memory can be locked, the factors and the data key are
-- live, and the slots' fields fit the format.
pub unwrap_dek-untampered :
    (os : System) (c : Crypto) (dek : ℕ) (i j : IkmInputs) (sh : SlotShape) (s t : Slot)
    (w w' u : World) (h : ℕ)
    → ((n : ℕ) → os.mlock n ≡ none)
    → ((key key' nonce nonce' p p' aad aad' : Bytes)
        → c.aead_open key' nonce' (c.aead_seal key nonce p aad) aad' ≡ ok p'
        → aad' ≡ aad)
    → All (IsLive w) (roles i)
    → IsLive w (some dek)
    → wrap_dek os c dek i sh w ≡ (ok s, w')
    → IsMeta s
    → IsMeta t
    → t.meta ≡ some (meta_bytes t)
    → t.wrapped ≡ s.wrapped
    → (unwrap_dek os c t j u).0 ≡ ok h
    → t ≡ s
unwrap_dek-untampered os c dek i j sh s t w w' u h locks authentic live dek_live wraps meta meta'
      stored same unwraps =
    let sealed = wrap_dek-IsWrapped os c locks dek i sh s w w' live dek_live wraps in
    let drawn = (wrap_dek-IsShaped os c dek i sh s w w' wraps).drawn in
    let (key, pt, opens) = unwrap_dek-Opened os c t j u h stored unwraps in
    let opens_sealed : c.aead_open key t.nonce
          (c.aead_seal sealed.key s.nonce (w.cell dek).buf sealed.aad) (meta_bytes t)
        ≡ ok pt =
      ap (λ x. c.aead_open key t.nonce x (meta_bytes t)) (sym (same ∙ sealed.sealed)) ∙ opens in
    let bound : meta_bytes t ≡ sealed.aad =
      authentic sealed.key key s.nonce t.nonce (w.cell dek).buf pt sealed.aad (meta_bytes t)
        opens_sealed in
    let own : s.meta ≡ t.meta = sealed.stored ∙ ap some (sym bound) ∙ sym stored in
    let bytes : meta_bytes t ≡ meta_bytes s =
      (let e : some (meta_bytes t) ≡ some (meta_bytes s) = sym stored ∙ sym own ∙ drawn.stored in
        (cc)) in
    let fields =
      marshal_meta-injective t s meta' meta
        (marshal_meta-IsMeta t meta' ∙ ap ok bytes ∙ sym (marshal_meta-IsMeta s meta)) in
    λ k. record (fields k) { wrapped = same k; meta = sym own k }
