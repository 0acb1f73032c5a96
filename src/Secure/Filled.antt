-- ===== src/Secure/Filled.antt =====
-- What `new_filled` answers, and what its container then holds.
use go_tumbler.Base.{
  ℕ, ◌+◌, ◌≡◌, refl, sym, ◌∙◌, false, none, some, Bytes, length, replicate, ==_refl,
  length-replicate, take-append,
}
use go_tumbler.Errors.{Error, ok, err}
use go_tumbler.Secure.Container.{new_zero, borrow_fill, new_filled, copy_into}
use go_tumbler.Secure.World.{World, System, M, update, ticked}

copy_into_all : (dst src : Bytes) → length dst ≡ length src → copy_into dst src ≡ src
copy_into_all dst src e = rw e (take-append src _)

-- The store after a successful `new_zero`.
abbrev pub zeroed : ℕ → World → World
zeroed size w = record w {
  next = w.next + 1;
  cell = update w.cell w.next (record { buf = replicate size 0; destroyed = false });
  tick = w.tick + 1;
}

module _ (os : System) where
  -- Where the memory can be locked and the callback fills all of it, which may call the
  -- system, the container is live and holds what the callback wrote.
  pub new_filled-ok :
      (size : ℕ) (f : M Bytes) (src : Bytes) (t : ℕ) (w : World)
      → os.mlock w.tick ≡ none
      → f (zeroed size w) ≡ (ok src, record (zeroed size w) { tick = t })
      → length src ≡ size
      → ((new_filled os size f w).0 ≡ ok w.next)
        × ((((new_filled os size f w).1).cell w.next).buf ≡ src)
        × ((((new_filled os size f w).1).cell w.next).destroyed ≡ false)
  unfolding new_filled new_zero borrow_fill
  new_filled-ok size f src t w locks fills long =
      let e : copy_into (replicate size 0) src ≡ src =
        copy_into_all (replicate size 0) src (length-replicate size 0 ∙ sym long) in
      rw (locks, ==_refl w.next, fills, ==_refl w.next, e) (refl, refl, refl)

  -- Where the memory cannot be locked, the error is returned and nothing is made.
  pub new_filled-locked :
      (size : ℕ) (f : M Bytes) (e : Error) (w : World)
      → os.mlock w.tick ≡ some e
      → new_filled os size f w ≡ (err e, ticked w)
  unfolding new_filled new_zero
  new_filled-locked size f e w refuses = rw refuses

  -- Where the callback fails, its error is returned.
  pub new_filled-err :
      (size : ℕ) (f : M Bytes) (e : Error) (w u : World)
      → os.mlock w.tick ≡ none
      → f (zeroed size w) ≡ (err e, u)
      → (new_filled os size f w).0 ≡ err e
  unfolding new_filled new_zero borrow_fill
  new_filled-err size f e w u locks fails = rw (locks, ==_refl w.next, fails)
