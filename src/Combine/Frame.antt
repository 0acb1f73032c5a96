-- ===== src/Combine/Frame.antt =====
-- What combine.go leaves in the store: of all containers that it allocates, only the one that it
-- returns outlives the call.
use go_tumbler.Base.{ℕ, Option, none, some, List, [], ◌∷◌, Bytes}
use go_tumbler.Errors.{Error, Result, ok, err}
use go_tumbler.Secure.World.{System, M, pure, lift}
use go_tumbler.Secure.Container.{borrow}
use go_tumbler.Secure.Frame.{
  Frees, Yields, Clean-refl, fail-Yields, bind-Frees, bind-Yields, borrow-Frees, borrow-Yields,
  scoped-Yields, new-Yields,
}
use go_tumbler.Secure.Frame.Fill.{new_filled-Yields}
use go_tumbler.Combine.{
  Crypto, IkmInputs, roles, write_roles, build_ikm, derive_kek, with_aead, seal, opened,
  open_wrapped,
}

write_roles-Frees : (rs : List (Option ℕ)) → Frees (write_roles rs)
unfolding write_roles
write_roles-Frees [] = Clean-refl
write_roles-Frees (none ∷ rs) =
    bind-Frees (write_roles rs) _ (write_roles-Frees rs) (λ later. Clean-refl)
write_roles-Frees (some h ∷ rs) =
    bind-Frees (borrow h pure) _ (borrow-Frees h pure (λ b. Clean-refl))
      λ s. bind-Frees (write_roles rs) _ (write_roles-Frees rs) λ later. Clean-refl

module _ (os : System) (c : Crypto) where
  pub build_ikm-Yields : (i : IkmInputs) → Yields (build_ikm os c i)
  unfolding build_ikm
  build_ikm-Yields i w =
      new_filled-Yields os _ _
        (bind-Frees (write_roles (roles i)) _ (write_roles-Frees (roles i)) (λ later. Clean-refl)) w

  pub derive_kek-Yields :
      (i : IkmInputs) (salt : Bytes) (version mt : ℕ) (id : Bytes)
      → Yields (derive_kek os c i salt version mt id)
  unfolding derive_kek
  derive_kek-Yields i salt version mt id =
      scoped-Yields os (build_ikm os c i) _ (build_ikm-Yields i)
        λ ikm. borrow-Yields ikm _ λ b. bind-Yields (lift _) _ Clean-refl λ raw. new-Yields os raw

  with_aead-Frees {ℓ} :
      {A : Type ℓ} (o : Option Error) (k : M A) → Frees k → Frees (with_aead os c o k)
  with_aead-Frees (some e) k p w = Clean-refl w
  with_aead-Frees none k p w = p w

  with_aead-Yields : (o : Option Error) (k : M ℕ) → Yields k → Yields (with_aead os c o k)
  with_aead-Yields (some e) k p = fail-Yields e
  with_aead-Yields none k p = p

  pub seal-Frees : (kek dek : ℕ) (nonce aad : Bytes) → Frees (seal os c kek dek nonce aad)
  unfolding seal
  seal-Frees kek dek nonce aad =
      borrow-Frees kek _
        λ key. with_aead-Frees (c.aead_new key) _ (borrow-Frees dek _ (λ pt. Clean-refl))

  opened-Yields : (r : Result Bytes) → Yields (opened os c r)
  opened-Yields (ok pt) = new-Yields os pt
  opened-Yields (err e) = Clean-refl

  pub open_wrapped-Yields :
      (kek : ℕ) (nonce ct aad : Bytes) → Yields (open_wrapped os c kek nonce ct aad)
  unfolding open_wrapped
  open_wrapped-Yields kek nonce ct aad =
      borrow-Yields kek _ λ key. with_aead-Yields (c.aead_new key) _ (opened-Yields _)
