-- ===== src/Combine/Kek.antt =====
-- The key-encryption key: the container that `derive_kek` returns holds what HKDF gives for the
-- keying material of the factors.
use go_tumbler.Base.{ℕ, ◌≡◌, refl, ap, ◌∙◌, false, none, Bytes, All, arith, ==_refl, ne→==}
use go_tumbler.Combine.{
  Crypto, IkmInputs, roles, build_ikm, hkdf_sha256_extract_expand, kek_info, derive_kek,
}
use go_tumbler.Combine.Frame.{build_ikm-Yields}
use go_tumbler.Combine.Ikm.{IsLive, held, ikm_bytes, build_ikm-ikm_bytes}
use go_tumbler.Errors.{Result, ok, err}
use go_tumbler.Secure.Container.{new, new_slice, destroy, defer_destroy, borrow}
use go_tumbler.Secure.Frame.{Fresh}
use go_tumbler.Secure.Returns.{alive, with_value, value-Fresh}
use go_tumbler.Secure.World.{World, System, lift, and_then, ◌>>=◌}
use mathlib.Core.Path.{subst}

module _ (os : System) (c : Crypto) (locks : (t : ℕ) → os.mlock t ≡ none) where
  -- A container `h` made first, a second one made from it, and the first one destroyed.
  pub new-destroy :
      (u v : World) (h : ℕ) (b : Bytes)
      → Fresh u h v
      → ((defer_destroy os h (new os b) v).0 ≡ ok v.next)
        × ((defer_destroy os h (new os b) v).1.cell v.next ≡ alive b)
  unfolding defer_destroy new new_slice destroy
  new-destroy u v h b p =
      rw
        (
          locks v.tick,
          ne→== v.next h (λ e. omega (arith, p.below)),
          p.live,
          ne→== h v.next (λ e. omega (arith, p.below)),
          ==_refl v.next,
        )
        (refl, refl)

  module _ (i : IkmInputs) (salt : Bytes) (version mt : ℕ) (id : Bytes) (w : World) where
    abbrev pub raw_kek : Result Bytes
    raw_kek =
        hkdf_sha256_extract_expand os c (ikm_bytes (held (roles i) w)) salt
          (kek_info os c version mt id) 32

    borrowed_ikm :
        (v : World) (h : ℕ)
        → (v.cell h).destroyed ≡ false
        → (v.cell h).buf ≡ ikm_bytes (held (roles i) w)
        → borrow h
            (λ b.
              lift (hkdf_sha256_extract_expand os c b salt (kek_info os c version mt id) 32)
              >>= λ raw. new os raw)
            v
          ≡ (lift raw_kek >>= λ raw. new os raw) v
    unfolding borrow
    borrowed_ikm v h live bytes = rw (live, bytes)

    module _ (live : All (IsLive w) (roles i)) where
      ikm_value : (build_ikm os c i w).0 ≡ ok w.next
      ikm_value = (build_ikm-ikm_bytes os c i w (locks w.tick) live).0

      ikm-Fresh : Fresh w w.next (build_ikm os c i w).1
      ikm-Fresh = value-Fresh w w.next (build_ikm os c i w) ikm_value (build_ikm-Yields os c i w)

      derive_kek-raw_kek :
          derive_kek os c i salt version mt id w
          ≡ defer_destroy os w.next (lift raw_kek >>= λ raw. new os raw) (build_ikm os c i w).1
      unfolding derive_kek defer_destroy
      derive_kek-raw_kek =
          ap
            (λ r. and_then r (λ ikm. defer_destroy os ikm (
              borrow ikm (λ b.
                lift (hkdf_sha256_extract_expand os c b salt (kek_info os c version mt id) 32)
                >>= λ raw. new os raw))))
            (with_value (build_ikm os c i w) w.next ikm_value)
          ∙ ap (λ r. (r.0, (destroy os w.next r.1).1))
              (borrowed_ikm (build_ikm os c i w).1 w.next ikm-Fresh.live
                (build_ikm-ikm_bytes os c i w (locks w.tick) live).1)

      -- The key-encryption key that HKDF gives is returned in a live container.
      pub derive_kek-ok :
          (key : Bytes)
          → raw_kek ≡ ok key
          → (k : ℕ) × ((derive_kek os c i salt version mt id w).0 ≡ ok k)
            × ((derive_kek os c i salt version mt id w).1.cell k ≡ alive key)
      unfolding defer_destroy
      derive_kek-ok key derived =
          let v = (build_ikm os c i w).1 in
          let same : derive_kek os c i salt version mt id w
              ≡ defer_destroy os w.next (new os key) v =
            derive_kek-raw_kek
            ∙ ap (λ r. defer_destroy os w.next (lift r >>= λ raw. new os raw) v) derived in
          let (value, cell) = new-destroy w v w.next key ikm-Fresh in
          (v.next, ap (λ r. r.0) same ∙ value, ap (λ r. r.1.cell v.next) same ∙ cell)

      raw_kek-ok :
          (r : Result Bytes)
          → raw_kek ≡ r
          → (k : ℕ) → (derive_kek os c i salt version mt id w).0 ≡ ok k
          → (key : Bytes) × (raw_kek ≡ ok key)
      unfolding defer_destroy
      raw_kek-ok (ok key) e k h = (key, e)
      raw_kek-ok (err x) e k h =
          let failed : (derive_kek os c i salt version mt id w).0 ≡ err x =
            ap (λ r. r.0) derive_kek-raw_kek
            ∙ ap
                (λ r.
                  (defer_destroy os w.next (lift r >>= λ raw. new os raw) (build_ikm os c i w).1).0)
                e in
          cc

      -- Where `derive_kek` returned a container, HKDF gave a key and the container holds it.
      pub derive_kek-key :
          (k : ℕ)
          → (derive_kek os c i salt version mt id w).0 ≡ ok k
          → (key : Bytes) × (raw_kek ≡ ok key)
            × ((derive_kek os c i salt version mt id w).1.cell k ≡ alive key)
      derive_kek-key k h =
          let (key, derived) = raw_kek-ok raw_kek refl k h in
          let (j, value, cell) = derive_kek-ok key derived in
          let same : j ≡ k = cc in
          (
            key,
            derived,
            subst (λ x. (derive_kek os c i salt version mt id w).1.cell x ≡ alive key) same cell,
          )
