-- ===== src/Wire/Cursor.antt =====
-- The reader between what it has read and what it has not: each accessor steps over the bytes
-- that it returns, and succeeds exactly where those bytes are there.
use go_tumbler.Base.{
  ℕ, ◌+◌, ◌*◌, ◌≤◌, ◌<◌, ◌≡◌, refl, sym, ap, ◌∙◌, not, [], ◌∷◌, ◌++◌, Bytes, IsByte, All, length,
  take, drop, ltb, arith, append_assoc, length-append, length-take, take-append-drop, drop-append,
  take-append, get_or-append,
}
use go_tumbler.Base.Binary.{be16, be32, uint16-be16, uint32-be32, be16-uint16, be32-uint32}
use go_tumbler.Errors.{malformed, Result, ok, ◌>>=◌, first_ok, guard-bind, ok-injective}
use mathlib.Core.Path.{subst, ap₂}
use go_tumbler.Wire.Reader.{Reader, u8, u16, u32, take_bytes, take_u16}

abbrev pub at : Bytes → Bytes → Reader
at pre rest = record { b = pre ++ rest; off = length pre }

pub at-append :
    (pre xs rest : Bytes)
    → at (pre ++ xs) rest ≡ record { b = pre ++ (xs ++ rest); off = length pre + length xs }
at-append pre xs rest = λ i. record { b = append_assoc pre xs rest i; off = length-append pre xs i }

pub u8-at : (pre rest : Bytes) (c : ℕ) → u8 (at pre (c ∷ rest)) ≡ ok (c, at (pre ++ c ∷ []) rest)
unfolding u8
u8-at pre rest c =
    rw at-append (ground (arith, get_or-append pre rest c 0, length-append pre (c ∷ rest)))

pub take_bytes-at :
    (pre xs rest : Bytes)
    → take_bytes (length xs) (at pre (xs ++ rest)) ≡ ok (xs, at (pre ++ xs) rest)
unfolding take_bytes
take_bytes-at pre xs rest =
    rw (at-append, drop-append, take-append)
      (ground (arith, length-append pre (xs ++ rest), length-append xs rest))

pub take_bytes-at-length :
    (n : ℕ) (pre xs rest : Bytes)
    → length xs ≡ n
    → take_bytes n (at pre (xs ++ rest)) ≡ ok (xs, at (pre ++ xs) rest)
take_bytes-at-length n pre xs rest long = rw (← long) (take_bytes-at pre xs rest)

pub u16-at :
    (pre rest : Bytes) (n : ℕ)
    → n < 65536
    → u16 (at pre (be16 n ++ rest)) ≡ ok (n, at (pre ++ be16 n) rest)
unfolding u16
u16-at pre rest n h =
    rw (at-append, drop-append)
      (ground (arith, length-append pre (be16 n ++ rest), uint16-be16 n rest))

pub u32-at :
    (pre rest : Bytes) (n : ℕ)
    → n < 4294967296
    → u32 (at pre (be32 n ++ rest)) ≡ ok (n, at (pre ++ be32 n) rest)
unfolding u32
u32-at pre rest n h =
    rw (at-append, drop-append)
      (ground (arith, length-append pre (be32 n ++ rest), uint32-be32 n rest))

pub take_u16-at :
    (pre xs rest : Bytes) (max_len : ℕ)
    → max_len < 65536
    → length xs ≤ max_len
    → take_u16 max_len (at pre (be16 (length xs) ++ xs ++ rest))
      ≡ ok (xs, at (pre ++ (be16 (length xs) ++ xs)) rest)
take_u16-at pre xs rest max_len small fits = rw (← append_assoc pre (be16 (length xs)) xs) (
    unfold take_u16 in
    ground
      (arith, u16-at pre (xs ++ rest) (length xs), take_bytes-at (pre ++ be16 (length xs)) xs rest))

-- The same, read backwards. An access that returned `v` took the bytes that `write` gives for its
-- value from the front of what was unread, and `P` holds of the value.
abbrev pub Took {ℓ} :
    {A : Type 0} (P : A → Type ℓ) (write : A → Bytes) (pre rest : Bytes) → A × Reader → Type ℓ
Took P write pre rest v =
    (rest' : Bytes) × P v.0 × (rest ≡ write v.0 ++ rest') × (v.1 ≡ at (pre ++ write v.0) rest')

abbrev pub Any : {A : Type 0} → A → Type 0
Any _ = Unit

u8-Took :
    (pre rest : Bytes) (v : ℕ × Reader)
    → u8 (at pre rest) ≡ ok v
    → Took Any (λ c. c ∷ []) pre rest v
u8-Took pre [] v h = absurd (unfold u8 in ground (arith, length-append pre []))
u8-Took pre (c ∷ rest) v h =
    subst (Took Any (λ c. c ∷ []) pre (c ∷ rest)) (ok-injective (sym (u8-at pre rest c) ∙ h))
      (rest, tt, refl, refl)

u16-Took :
    (pre rest : Bytes) (v : ℕ × Reader)
    → All IsByte rest
    → u16 (at pre rest) ≡ ok v
    → Took (λ n. n < 65536) be16 pre rest v
u16-Took pre (x ∷ y ∷ rest) v (bx, (by, bytes)) h =
    let write = be16-uint16 x y bx by in
    subst (Took (λ n. n < 65536) be16 pre (x ∷ y ∷ rest))
      (ok-injective (
        sym (u16-at pre rest (x * 256 + y) (omega arith))
        ∙ ap (λ xs. u16 (at pre (xs ++ rest))) write
        ∙ h))
      (rest, omega arith, ap (λ xs. xs ++ rest) (sym write), refl)
u16-Took pre rest v bytes h = absurd (unfold u16 in ground (arith, length-append pre rest))

u32-Took :
    (pre rest : Bytes) (v : ℕ × Reader)
    → All IsByte rest
    → u32 (at pre rest) ≡ ok v
    → Took (λ n. n < 4294967296) be32 pre rest v
u32-Took pre (x ∷ y ∷ z ∷ w ∷ rest) v (bx, (by, (bz, (bw, bytes)))) h =
    let write = be32-uint32 x y z w bx by bz bw in
    subst (Took (λ n. n < 4294967296) be32 pre (x ∷ y ∷ z ∷ w ∷ rest))
      (ok-injective (
        sym (u32-at pre rest (x * 16777216 + y * 65536 + z * 256 + w) (omega arith))
        ∙ ap (λ xs. u32 (at pre (xs ++ rest))) write
        ∙ h))
      (rest, omega arith, ap (λ xs. xs ++ rest) (sym write), refl)
u32-Took pre rest v bytes h = absurd (unfold u32 in ground (arith, length-append pre rest))

take_bytes-fits :
    (n : ℕ) (pre rest : Bytes) (v : Bytes × Reader)
    → take_bytes n (at pre rest) ≡ ok v
    → n ≤ length rest
unfolding take_bytes
take_bytes-fits n pre rest v h = ground (arith, length-append pre rest)

pub take_bytes-Took :
    (n : ℕ) (pre rest : Bytes) (v : Bytes × Reader)
    → take_bytes n (at pre rest) ≡ ok v
    → Took (λ xs. length xs ≡ n) (λ xs. xs) pre rest v
take_bytes-Took n pre rest v h =
    let fits = take_bytes-fits n pre rest v h in
    let long : length (take n rest) ≡ n = omega (arith, length-take n rest) in
    let parts = take-append-drop n rest in
    let ran : take_bytes n (at pre rest) ≡ ok (take n rest, at (pre ++ take n rest) (drop n rest)) =
      ap₂ (λ k xs. take_bytes k (at pre xs)) (sym long) (sym parts)
      ∙ take_bytes-at pre (take n rest) (drop n rest) in
    subst (Took (λ xs. length xs ≡ n) (λ xs. xs) pre rest) (ok-injective (sym ran ∙ h))
      (drop n rest, long, sym parts, refl)

-- A step of a chain of accesses that succeeded as a whole. What follows is proved from the value
-- that was read, the bytes that are left, and the success of the later steps.
abbrev pub Later {ℓ κ μ} :
    {A : Type 0} {B : Type κ} (P : A → Type ℓ) (write : A → Bytes) (pre rest : Bytes)
    → (A × Reader → Result B)
    → B
    → Type μ
    → Type (ℓ ⊔ κ ⊔ μ)
Later {A} P write pre rest k z C =
    (a : A) (rest' : Bytes)
    → P a
    → rest ≡ write a ++ rest'
    → k (a, at (pre ++ write a) rest') ≡ ok z
    → C

pub Took-bind {ℓ κ μ} :
    {A : Type 0} {B : Type κ} {C : Type μ} (P : A → Type ℓ) (write : A → Bytes) (pre rest : Bytes)
    (m : Result (A × Reader)) (k : A × Reader → Result B) {z : B}
    → ((v : A × Reader) → m ≡ ok v → Took P write pre rest v)
    → (m >>= k) ≡ ok z
    → Later P write pre rest k z C
    → C
Took-bind P write pre rest m k {z} took h later =
    let (v, ran, rest_ran) = first_ok m k h in
    let (rest', p, split, moved) = took v ran in
    later v.0 rest' p split (subst (λ r. k (v.0, r) ≡ ok z) moved rest_ran)

module _ {κ μ} {B : Type κ} {C : Type μ} (pre rest : Bytes) (k : ℕ × Reader → Result B)
    {z : B} where
  pub u8-bind : u8 (at pre rest) >>= k ≡ ok z → Later Any (λ c. c ∷ []) pre rest k z C → C
  u8-bind = Took-bind _ _ pre rest _ k (u8-Took pre rest)

  pub u16-bind :
      All IsByte rest
      → u16 (at pre rest) >>= k ≡ ok z
      → Later (λ n. n < 65536) be16 pre rest k z C
      → C
  u16-bind bytes = Took-bind _ _ pre rest _ k (λ v. u16-Took pre rest v bytes)

  pub u32-bind :
      All IsByte rest
      → u32 (at pre rest) >>= k ≡ ok z
      → Later (λ n. n < 4294967296) be32 pre rest k z C
      → C
  u32-bind bytes = Took-bind _ _ pre rest _ k (λ v. u32-Took pre rest v bytes)

take_u16-Took :
    (max_len : ℕ) (pre rest : Bytes) (v : Bytes × Reader)
    → All IsByte rest
    → take_u16 max_len (at pre rest) ≡ ok v
    → Took (λ xs. length xs ≤ max_len) (λ xs. be16 (length xs) ++ xs) pre rest v
unfolding take_u16
take_u16-Took max_len pre rest v bytes h = u16-bind pre rest _ bytes h λ n rest' small split later.
    guard-bind (not (ltb max_len n)) malformed _ later λ fits took.
      let (rest'', long, split', moved) = take_bytes-Took n (pre ++ be16 n) rest' v took in
      (
        rest'',
        ground arith,
        split ∙ ap (λ xs. be16 n ++ xs) split' ∙ ap (λ j. be16 j ++ (v.0 ++ rest'')) (sym long),
        moved
            ∙ ap (λ p. at p rest'')
                (append_assoc pre (be16 n) v.0 ∙ ap (λ j. pre ++ (be16 j ++ v.0)) (sym long)),
      )

module _ {κ μ} {B : Type κ} {C : Type μ} (n : ℕ) (pre rest : Bytes) (k : Bytes × Reader → Result B)
    {z : B} where
  pub take_bytes-bind :
      take_bytes n (at pre rest) >>= k ≡ ok z
      → Later (λ xs. length xs ≡ n) (λ xs. xs) pre rest k z C
      → C
  take_bytes-bind = Took-bind _ _ pre rest _ k (take_bytes-Took n pre rest)

  pub take_u16-bind :
      All IsByte rest
      → take_u16 n (at pre rest) >>= k ≡ ok z
      → Later (λ xs. length xs ≤ n) (λ xs. be16 (length xs) ++ xs) pre rest k z C
      → C
  take_u16-bind bytes = Took-bind _ _ pre rest _ k (λ v. take_u16-Took n pre rest v bytes)
