-- ===== src/Secure/World.antt =====
-- The store of secret containers, the system below the program, and computations over both.
use go_tumbler.Base.{ℕ, ◌+◌, ◌≡◌, refl, Bool, Option, Bytes, ◌==◌, if◌then◌else◌}
use go_tumbler.Errors.{Error, Result, ok, err}

-- `SecureBytes`
pub record SecureBytes : Type 0 where
  pub buf : Bytes
  pub destroyed : Bool

-- Cells below `next` have been allocated. `tick` counts the calls of the system, so that one call
-- may answer otherwise than the call before it.
pub record World : Type 0 where
  pub next : ℕ
  pub cell : ℕ → SecureBytes
  pub tick : ℕ

-- What the system answers at each tick: `mlock` and `munlock` of the operating system, crypto/rand,
-- and the error of the caller's context.
pub record System : Type 0 where
  pub mlock : ℕ → Option Error
  pub munlock : ℕ → Option Error
  pub rand : ℕ → ℕ → Result Bytes
  pub ctx_err : ℕ → Option Error

abbrev pub M {ℓ} : Type ℓ → Type ℓ
M A = World → Result A × World

abbrev pub pure {ℓ} : {A : Type ℓ} → A → M A
pure a w = (ok a, w)

abbrev pub fail {ℓ} : {A : Type ℓ} → Error → M A
fail e w = (err e, w)

abbrev pub and_then {ℓ κ} :
    {A : Type ℓ} {B : Type κ} → Result A × World → (A → M B) → Result B × World
and_then (ok a, w) f = f a w
and_then (err e, w) f = (err e, w)

infixl 5 ◌>>=◌ ◌>>◌
abbrev pub ◌>>=◌ {ℓ κ} : {A : Type ℓ} {B : Type κ} → M A → (A → M B) → M B
◌>>=◌ m f w = and_then (m w) f

abbrev pub ◌>>◌ {ℓ κ} : {A : Type ℓ} {B : Type κ} → M A → M B → M B
m >> k = m >>= λ _. k

-- A step that changes no state.
abbrev pub lift {ℓ} : {A : Type ℓ} → Result A → M A
lift r w = (r, w)

abbrev pub update {ℓ} : {A : Type ℓ} → (ℕ → A) → ℕ → A → ℕ → A
update f p v q = if p == q then v else f q

abbrev pub ticked : World → World
ticked w = record w { tick = w.tick + 1 }

-- A call of the system that returns an error or nil.
abbrev pub call : (ℕ → Option Error) → M (Option Error)
call answer w = (ok (answer w.tick), ticked w)

-- A step that succeeded before the whole did.
pub and_then-ok {ℓ κ} :
    {A : Type ℓ} {B : Type κ} (r : Result A × World) (f : A → M B) (b : B) (w : World)
    → and_then r f ≡ (ok b, w)
    → (a : A) × (v : World) × (r ≡ (ok a, v)) × (f a v ≡ (ok b, w))
and_then-ok (ok a, v) f b w e = (a, v, refl, e)
and_then-ok (err x, v) f b w e = cc
