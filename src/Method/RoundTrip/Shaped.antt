-- ===== src/Method/RoundTrip/Shaped.antt =====
-- The fields of a slot that `wrap_dek` fills from its shape, and the steps that the methods share.
use go_tumbler.Base.{ℕ, ◌≡◌, refl, sym, ap, ◌∙◌, Option, arith, none, some, List, Bytes, All}
use go_tumbler.Combine.{Crypto, IkmInputs, roles, derive_kek, seal}
use go_tumbler.Combine.Ikm.{IsLive, held}
use mathlib.Core.Path.{subst}
use go_tumbler.Errors.{done, ok}
use go_tumbler.Method.RoundTrip.{derived-ok, IsWrapped, wrap_dek-IsWrapped, unwrap_dek-IsWrapped}
use go_tumbler.Method.{SlotShape, shaped, check_ctx, rand_bytes, wrap_dek, unwrap_dek}
use go_tumbler.Secure.Container.{defer_destroy}
use go_tumbler.Secure.Returns.{Returns, Holds, with_value}
use go_tumbler.Secure.World.{World, System, M, pure, lift, ◌>>=◌}
use go_tumbler.Slot.{Slot}
use go_tumbler.Wire.{meta_bytes, marshal_meta}

-- The random fields are answers of the random source, and the metadata passed its checks and is
-- stored.
pub record IsDrawn (os : System) (s : Slot) : Type 0 where
  pub id : (t : ℕ) × (os.rand t 8 ≡ ok s.id)
  pub hkdf_salt : (t : ℕ) × (os.rand t 16 ≡ ok s.hkdf_salt)
  pub nonce : (t : ℕ) × (os.rand t 12 ≡ ok s.nonce)
  pub checked : marshal_meta s ≡ ok (meta_bytes s)
  pub stored : s.meta ≡ some (meta_bytes s)

-- The fields that come from the shape, and those that are drawn.
pub record IsShaped (os : System) (sh : SlotShape) (s : Slot) : Type 0 where
  pub type : s.type ≡ sh.mt
  pub kdf_id : s.kdf_id ≡ sh.kdf_id
  pub kdf_params : s.kdf_params ≡ sh.kdf_params
  pub kdf_salt : s.kdf_salt ≡ sh.kdf_salt
  pub chal_salt : s.chal_salt ≡ sh.chal_salt
  pub challenge : s.challenge ≡ sh.challenge
  pub yk_slot : s.yk_slot ≡ sh.yk_slot
  pub drawn : IsDrawn os s

shaped-IsShaped :
    (os : System) (sh : SlotShape) (id salt nonce wrapped meta : Bytes) (t1 t2 t3 : ℕ)
    → os.rand t1 8 ≡ ok id
    → os.rand t2 16 ≡ ok salt
    → os.rand t3 12 ≡ ok nonce
    → marshal_meta (shaped sh id salt nonce) ≡ ok meta
    → IsShaped os sh (record (shaped sh id salt nonce) { wrapped = wrapped; meta = some meta })
unfolding marshal_meta
shaped-IsShaped os sh id salt nonce wrapped meta t1 t2 t3 e1 e2 e3 h =
    let same : meta ≡ meta_bytes (shaped sh id salt nonce) = ground arith in
    record {
      type = refl;
      kdf_id = refl;
      kdf_params = refl;
      kdf_salt = refl;
      chal_salt = refl;
      challenge = refl;
      yk_slot = refl;
      drawn = record {
        id = (t1, e1);
        hkdf_salt = (t2, e2);
        nonce = (t3, e3);
        checked = h ∙ ap ok same;
        stored = ap some same;
      };
    }

module _ (os : System) (c : Crypto) where
  pub wrap_dek-IsShaped :
      (dek : ℕ) (i : IkmInputs) (sh : SlotShape) (s : Slot) (w w' : World)
      → wrap_dek os c dek i sh w ≡ (ok s, w')
      → IsShaped os sh s
  unfolding wrap_dek rand_bytes defer_destroy
  wrap_dek-IsShaped dek i sh s w w' h = derived-ok (rand_bytes os 8 w) _ h λ id u1 e1 h1.
      derived-ok (rand_bytes os 16 u1) _ h1 λ salt u2 e2 h2.
        derived-ok (rand_bytes os 12 u2) _ h2 λ nonce u3 e3 h3.
          derived-ok (lift (marshal_meta (shaped sh id salt nonce)) u3) _ h3 λ meta u4 e4 h4.
            derived-ok (derive_kek os c i salt 1 sh.mt id u4) _ h4 λ kek u5 _ h5.
              let sealing : M Slot = seal os c kek dek nonce meta >>= λ wrapped.
              pure (record (shaped sh id salt nonce) { wrapped = wrapped; meta = some meta }) in
              derived-ok (seal os c kek dek nonce meta u5) _
                (with_value (sealing u5) s (ap (λ r. r.0) h5))
                λ wrapped u6 _ h6.
                  let same : record (shaped sh id salt nonce) {
                    wrapped = wrapped;
                    meta = some meta;
                  }
                      ≡ s =
                    cc in
                  subst (IsShaped os sh) same (
                    shaped-IsShaped os sh id salt nonce wrapped meta w.tick u1.tick u2.tick
                      (ap (λ r. r.0) e1) (ap (λ r. r.0) e2) (ap (λ r. r.0) e3) (ap (λ r. r.0) e4))

pub check_ctx-done :
    (os : System) (w : World) → os.ctx_err w.tick ≡ none → (check_ctx os w).0 ≡ ok done
unfolding check_ctx
check_ctx-done os w awake = rw awake

pub Holds-IsLive : (w : World) (h : ℕ) (b : Bytes) → Holds w h b → IsLive w (some h)
Holds-IsLive w h b (below, cell) = (below, ap (λ x. x.destroyed) cell)

module _ (os : System) (c : Crypto) (locks : (t : ℕ) → os.mlock t ≡ none) where
  pub wrap_dek-secrets :
      (dek : ℕ) (i : IkmInputs) (sh : SlotShape) (s : Slot) (w w' : World) (pt : Bytes)
      (secrets : List (Option Bytes))
      → All (IsLive w) (roles i)
      → held (roles i) w ≡ secrets
      → Holds w dek pt
      → wrap_dek os c dek i sh w ≡ (ok s, w')
      → IsWrapped os c locks s pt secrets
  wrap_dek-secrets dek i sh s w w' pt secrets live same at_dek h =
      subst (λ b. IsWrapped os c locks s b secrets) (ap (λ x. x.buf) at_dek.1)
        (subst (IsWrapped os c locks s (w.cell dek).buf) same
          (wrap_dek-IsWrapped os c locks dek i sh s w w' live (Holds-IsLive w dek pt at_dek) h))

  pub unwrap_dek-secrets :
      (s : Slot) (pt : Bytes) (j : IkmInputs) (u : World) (secrets : List (Option Bytes))
      → ((key nonce p aad : Bytes)
          → c.aead_new key ≡ none
          → c.aead_open key nonce (c.aead_seal key nonce p aad) aad ≡ ok p)
      → All (IsLive u) (roles j)
      → held (roles j) u ≡ secrets
      → IsWrapped os c locks s pt secrets
      → Returns pt (unwrap_dek os c s j u)
  unwrap_dek-secrets s pt j u secrets correct live same w =
      unwrap_dek-IsWrapped os c locks s pt j u correct live
        (subst (IsWrapped os c locks s pt) (sym same) w)
