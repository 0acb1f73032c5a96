-- ===== src/Secure/Lifecycle.antt =====
-- A container from `New` to `Destroy`.
use go_tumbler.Base.{
  ℕ, ◌+◌, ◌<◌, ◌≡◌, ◌≢◌, ◌⊎◌, inl, inr, refl, sym, false, Bytes, arith, length, replicate, ==_refl,
  ne→==, Bool-cases, Option-cases,
}
use go_tumbler.Errors.{done, Error, destroyed, ok, err}
use go_tumbler.Secure.World.{World, System, M, update, ticked}
use go_tumbler.Secure.Container.{zero_bytes, new_slice, destroy, borrow, len}

module _ (os : System) where
  -- After `destroy`, whatever it returned and also where `munlock` failed, the container is
  -- destroyed: `borrow` fails with `destroyed` and does not run its callback, the length is 0 and
  -- another `destroy` does nothing. A container other than it has not changed.
  pub destroy_closes {ℓ} :
      {A : Type ℓ} (h i : ℕ) (f : Bytes → M A) (w : World)
      → i ≢ h
      → (borrow h f (destroy os h w).1 ≡ (err destroyed, (destroy os h w).1))
        × (len h (destroy os h w).1 ≡ 0)
        × (destroy os h (destroy os h w).1 ≡ (ok done, (destroy os h w).1))
        × ((destroy os h w).1.cell i ≡ w.cell i)
  unfolding destroy borrow len
  destroy_closes h i f w ne = elim (Bool-cases (w.cell h).destroyed) [
    | inl dead ↦ rw (dead, dead) (refl, refl, refl, refl)
    | inr live ↦ rw (live, ==_refl h) (refl, refl, refl, rw (ne→== h i (λ e. ne (sym e))))
  ]

  -- `new_slice` either fails with the error of `mlock`, leaves the caller's slice as it was and
  -- allocates nothing, or returns a new live container that holds what the slice held and leaves
  -- the slice zeroed, as long as it was. A container allocated before has not changed.
  pub new_slice_cases :
      (b : Bytes) (i : ℕ) (w : World)
      → i < w.next
      → ((e : Error) × (new_slice os b w ≡ ((err e, ticked w), b)))
        ⊎ ((v : World) × (new_slice os b w ≡ ((ok w.next, v), replicate (length b) 0))
            × (v.cell w.next ≡ record { buf = b; destroyed = false })
            × (len w.next v ≡ length b)
            × (v.cell i ≡ w.cell i))
  unfolding new_slice zero_bytes len
  new_slice_cases b i w below = elim (Option-cases (os.mlock w.tick)) [
    | inl locks ↦ inr (
      record (ticked w) {
        next = w.next + 1;
        cell = update w.cell w.next (record { buf = b; destroyed = false });
      },
      rw locks,
      rw (==_refl w.next),
      rw (==_refl w.next),
      rw (ne→== w.next i (λ e. omega arith)),
    )
    | inr (e, fails) ↦ inl (e, rw fails)
  ]
