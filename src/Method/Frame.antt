-- ===== src/Method/Frame.antt =====
-- What wrapping and unwrapping leave in the store.
use go_tumbler.Base.{ℕ, ◌+◌, Option, none, some}
use go_tumbler.Combine.{Crypto, IkmInputs, derive_kek, seal}
use go_tumbler.Combine.Frame.{derive_kek-Yields, seal-Frees, open_wrapped-Yields}
use go_tumbler.Errors.{Error}
use go_tumbler.Method.{SlotShape, checked, check_ctx, rand_bytes, wrap_dek, unwrap_dek}
use go_tumbler.Secure.World.{System, lift, ticked}
use go_tumbler.Secure.Frame.{
  Frees, Yields, Clean-refl, Clean-tick, Clean-trans, bind-Frees, bind-Yields, scoped-Frees,
  scoped-Yields,
}
use go_tumbler.Slot.{Slot}

checked-Frees : (o : Option Error) → Frees (checked o)
checked-Frees (some e) = Clean-refl
checked-Frees none = Clean-refl

module _ (os : System) where
  pub check_ctx-Frees : Frees (check_ctx os)
  unfolding check_ctx
  check_ctx-Frees w =
      Clean-trans (Clean-tick w (w.tick + 1)) (checked-Frees (os.ctx_err w.tick) (ticked w))

  pub rand_bytes-Frees : (n : ℕ) → Frees (rand_bytes os n)
  unfolding rand_bytes
  rand_bytes-Frees n w = Clean-tick w (w.tick + 1)

module _ (os : System) (c : Crypto) where
  pub wrap_dek-Frees : (dek : ℕ) (i : IkmInputs) (sh : SlotShape) → Frees (wrap_dek os c dek i sh)
  unfolding wrap_dek
  wrap_dek-Frees dek i sh = bind-Frees (rand_bytes os 8) _ (rand_bytes-Frees os 8) λ id.
      bind-Frees (rand_bytes os 16) _ (rand_bytes-Frees os 16) λ salt.
        bind-Frees (rand_bytes os 12) _ (rand_bytes-Frees os 12) λ nonce.
          bind-Frees (lift _) _ Clean-refl λ meta.
            scoped-Frees os (derive_kek os c i salt 1 sh.mt id) _
              (derive_kek-Yields os c i salt 1 sh.mt id)
              λ kek.
                bind-Frees (seal os c kek dek nonce meta) _ (seal-Frees os c kek dek nonce meta)
                  λ wrapped. Clean-refl

  pub unwrap_dek-Yields : (s : Slot) (i : IkmInputs) → Yields (unwrap_dek os c s i)
  unfolding unwrap_dek
  unwrap_dek-Yields s i =
      scoped-Yields os (derive_kek os c i s.hkdf_salt 1 s.type s.id) _
        (derive_kek-Yields os c i s.hkdf_salt 1 s.type s.id)
        λ kek.
          bind-Yields (lift _) _ Clean-refl
            λ meta. open_wrapped-Yields os c kek s.nonce s.wrapped meta
