-- ===== src/Base/Binary.antt =====
-- Go's `binary.BigEndian`: a number as two or four bytes, most significant first, and back.
use Prim.Native.Nat.{ℕ, ◌+◌, ◌*◌, ◌/◌, ◌%◌, ◌<◌}
use mathlib.Core.Path.{◌≡◌}
use mathlib.Core.List.{[], ◌∷◌, ◌++◌}
use native.Mathlib.Omega.{arith}
use go_tumbler.Base.Lists.{Bytes, IsByte, All}

-- `AppendUint16` and `PutUint16` write these bytes.
abbrev pub be16 : ℕ → Bytes
be16 n = n / 256 % 256 ∷ n % 256 ∷ []

abbrev pub be32 : ℕ → Bytes
be32 n = n / 16777216 % 256 ∷ n / 65536 % 256 ∷ n / 256 % 256 ∷ n % 256 ∷ []

-- `Uint16` and `Uint32`. On fewer bytes Go panics; the program reads only where there are enough.
abbrev pub uint16 : Bytes → ℕ
uint16 (x ∷ y ∷ _) = x * 256 + y
uint16 _ = 0

abbrev pub uint32 : Bytes → ℕ
uint32 (x ∷ y ∷ z ∷ w ∷ _) = x * 16777216 + y * 65536 + z * 256 + w
uint32 _ = 0

pub uint16-be16 : (n : ℕ) (rest : Bytes) → n < 65536 → uint16 (be16 n ++ rest) ≡ n
uint16-be16 n rest h = omega arith

pub uint32-be32 : (n : ℕ) (rest : Bytes) → n < 4294967296 → uint32 (be32 n ++ rest) ≡ n
uint32-be32 n rest h = omega arith

pub be16-uint16 : (x y : ℕ) → IsByte x → IsByte y → be16 (x * 256 + y) ≡ x ∷ y ∷ []
be16-uint16 x y hx hy = ground arith

pub be32-uint32 :
    (x y z w : ℕ)
    → IsByte x
    → IsByte y
    → IsByte z
    → IsByte w
    → be32 (x * 16777216 + y * 65536 + z * 256 + w) ≡ x ∷ y ∷ z ∷ w ∷ []
be32-uint32 x y z w hx hy hz hw = ground arith

pub be16-IsByte : (n : ℕ) → All IsByte (be16 n)
be16-IsByte n = omega arith

pub be32-IsByte : (n : ℕ) → All IsByte (be32 n)
be32-IsByte n = omega arith
