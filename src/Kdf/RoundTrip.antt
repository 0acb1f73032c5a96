-- ===== src/Kdf/RoundTrip.antt =====
-- `marshal_params` and `parse_kdf` are inverse to one another.
use go_tumbler.Base.{ℕ, ◌≡◌, ◌↔◌, sym, some, [], ◌∷◌, arith, Bytes, IsByte, All}
use go_tumbler.Base.Binary.{uint32-be32, be32-uint32}
use go_tumbler.Errors.{ok}
use go_tumbler.Kdf.Bounds.{WithinBounds, parse_kdf-WithinBounds, scrypt_memory_exact}
use go_tumbler.Kdf.{
  Kdf, argon2id, scrypt, kdf_id, marshal_params, parse_kdf, parse_argon2id, parse_scrypt,
}

-- The parser reads back the parameters of every KDF within the bounds.
pub parse_kdf-marshal_params :
    (k : Kdf) → WithinBounds k → parse_kdf (kdf_id k) (marshal_params k) ≡ ok (some k)
unfolding parse_kdf kdf_id marshal_params
parse_kdf-marshal_params (argon2id t m p) h = ground (arith, uint32-be32 t [], uint32-be32 m [])
parse_kdf-marshal_params (scrypt n r p) h =
    let (_, n_le, _, r_le, _, _, _) = h in
    ground (arith, scrypt_memory_exact n r n_le r_le, uint32-be32 r [], uint32-be32 p [])

parse_argon2id-params :
    (params : Bytes) (k : Kdf)
    → All IsByte params
    → parse_argon2id params ≡ ok (some k)
    → params ≡ marshal_params k
unfolding parse_argon2id marshal_params
parse_argon2id-params (a ∷ b ∷ c ∷ d ∷ e ∷ f ∷ g ∷ h ∷ i ∷ []) k bytes ok_k =
    ground (arith, be32-uint32 a b c d, be32-uint32 e f g h)
parse_argon2id-params _ k bytes ok_k = ground arith

parse_scrypt-params :
    (params : Bytes) (k : Kdf)
    → All IsByte params
    → parse_scrypt params ≡ ok (some k)
    → params ≡ marshal_params k
unfolding parse_scrypt marshal_params
parse_scrypt-params (a ∷ b ∷ c ∷ d ∷ e ∷ f ∷ g ∷ h ∷ i ∷ []) k bytes ok_k =
    ground (arith, be32-uint32 b c d e, be32-uint32 f g h i)
parse_scrypt-params _ k bytes ok_k = ground arith

parse_kdf-params :
    (id : ℕ) (params : Bytes) (k : Kdf)
    → All IsByte params
    → parse_kdf id params ≡ ok (some k)
    → params ≡ marshal_params k
unfolding parse_kdf
parse_kdf-params id params k bytes h =
    ground (arith, parse_argon2id-params params k bytes, parse_scrypt-params params k bytes)

-- On bytes, `parse_kdf` answers with the KDF `k` exactly when the id is that of `k`, the bytes are
-- those that `marshal_params` writes for `k`, and `k` is within the safety bounds.
pub parse_kdf_iff :
    (id : ℕ) (params : Bytes) (k : Kdf)
    → All IsByte params
    → (parse_kdf id params ≡ ok (some k))
      ↔ ((id ≡ kdf_id k) × (params ≡ marshal_params k) × WithinBounds k)
parse_kdf_iff id params k bytes = (
  λ h.
      let (same, within) = parse_kdf-WithinBounds id params k bytes h in
      (sym same, parse_kdf-params id params k bytes h, within),
  λ (i, p, within). rw (i, p) (parse_kdf-marshal_params k within),
)
