-- ===== src/Secure/Locking.antt =====
-- securebytes/securebytes_unix.go. The system calls are parameters.
use go_tumbler.Base.{
  ℕ, ◌≤◌, ◌≡◌, ◌⊎◌, inl, inr, refl, ap, ◌∙◌, Option, none, Bytes, length, leb, ◌==◌, if◌then◌else◌,
  arith, Bool-cases,
}
use go_tumbler.Errors.{Error, Result, ok, err}

-- `mlock` and `munlock`, over the call of the system: an empty slice is not passed on.
abbrev pub unless_empty : (Bytes → Option Error) → Bytes → Option Error
unless_empty system b = if length b == 0 then none else system b

-- `unix.Rlimit`: the soft and the hard limit, of 64 bits each
pub record Rlimit : Type 0 where
  pub cur : ℕ
  pub max : ℕ

module _ {Kernel : Type 0} (getrlimit : Kernel → Result Rlimit)
    (setrlimit : Rlimit → Kernel → Kernel) where
  -- What follows the call of `getrlimit`.
  abbrev pub raised : Result Rlimit → Kernel → Kernel
  raised (err e) k = k
  raised (ok lim) k = if leb lim.max lim.cur then k else setrlimit (record lim { cur = lim.max }) k

  unfoldable pub raise_memlock_limit : Kernel → Kernel
  raise_memlock_limit k = raised (getrlimit k) k

  -- What is documented of the calls: the limits of the kernel are read, and setting them either
  -- does so or changes nothing.
  pub record KeepsLimits (limits : Kernel → Rlimit) : Type 0 where
    pub gets : (k : Kernel) (lim : Rlimit) → getrlimit k ≡ ok lim → lim ≡ limits k
    pub sets :
        (lim : Rlimit) (k : Kernel)
        → (limits (setrlimit lim k) ≡ lim) ⊎ (limits (setrlimit lim k) ≡ limits k)

  raised_bounds :
      (limits : Kernel → Rlimit) (k : Kernel) (r : Result Rlimit)
      → KeepsLimits limits
      → getrlimit k ≡ r
      → ((limits (raised r k)).max ≡ (limits k).max)
        × ((limits k).cur ≤ (limits (raised r k)).cur)
        × (((limits (raised r k)).cur ≡ (limits k).cur)
            ⊎ ((limits (raised r k)).cur ≡ (limits k).max))
  raised_bounds limits k (err e) laws read = (refl, omega arith, inl refl)
  raised_bounds limits k (ok lim) laws read =
      let same : lim ≡ limits k = laws.gets k lim read in
      elim (Bool-cases (leb lim.max lim.cur)) [
        | inl high ↦ rw high (refl, omega arith, inl refl)
        | inr low ↦ rw low (elim (laws.sets (record lim { cur = lim.max }) k) [
          | inl set ↦ (
            ap (λ l. l.max) set ∙ ap (λ l. l.max) same,
            ground (arith, ap (λ l. l.cur) set, ap (λ l. l.cur) same),
            inr (ap (λ l. l.cur) set ∙ ap (λ l. l.max) same),
          )
          | inr kept ↦ (
            ap (λ l. l.max) kept,
            omega (arith, ap (λ l. l.cur) kept),
            inl (ap (λ l. l.cur) kept),
          )
        ])
      ]

  -- Whatever the system answers, raising the limit of locked memory leaves the hard limit alone, does
  -- not lower the soft limit, and leaves it as it was or makes it the hard limit, where the calls
  -- read and set the limits as documented.
  pub raise_memlock_limit_bounds :
      (limits : Kernel → Rlimit) (k : Kernel)
      → KeepsLimits limits
      → ((limits (raise_memlock_limit k)).max ≡ (limits k).max)
        × ((limits k).cur ≤ (limits (raise_memlock_limit k)).cur)
        × (((limits (raise_memlock_limit k)).cur ≡ (limits k).cur)
            ⊎ ((limits (raise_memlock_limit k)).cur ≡ (limits k).max))
  unfolding raise_memlock_limit
  raise_memlock_limit_bounds limits k laws = raised_bounds limits k (getrlimit k) laws refl
