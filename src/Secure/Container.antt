-- ===== src/Secure/Container.antt =====
-- `New`, `NewZero`, `Clone`, `Use`, `Len` and `Destroy`.
use go_tumbler.Base.{
  ℕ, ◌+◌, true, false, Option, none, some, [], ◌++◌, Bytes, length, replicate, take, drop,
  if◌then◌else◌, ℤ, pos, negsuc,
}
use go_tumbler.Errors.{Done, done, Error, destroyed, negative_size, Result, ok, err}
use go_tumbler.Secure.World.{World, System, M, pure, fail, and_then, ◌>>=◌, ◌>>◌, update, ticked}

-- `zero` and `zeroBytes`: every byte of the slice is overwritten.
unfoldable pub zero_bytes : Bytes → Bytes
zero_bytes b = replicate (length b) 0

-- The container is made in a fresh cell.
abbrev pub allocate : Bytes → M ℕ
allocate buf w = (
  ok w.next,
  record w {
    next = w.next + 1;
    cell = update w.cell w.next (record { buf = buf; destroyed = false });
  },
)

-- `if err := mlockFn(buf); err != nil { return nil, err }`, and the rest of a constructor.
abbrev pub locked : Option Error → M ℕ → M ℕ
locked (some e) k = fail e
locked none k = k

-- The caller's slice after `New`: zeroed, or left alone if the constructor failed.
abbrev pub slice_after : Option Error → Bytes → Bytes
slice_after (some e) b = b
slice_after none b = zero_bytes b

module _ (os : System) where
  -- `New` on the caller's slice `b`; with the result, the slice as the caller finds it afterwards.
  unfoldable pub new_slice : Bytes → World → (Result ℕ × World) × Bytes
  unfolding zero_bytes
  new_slice b w =
      (locked (os.mlock w.tick) (allocate b) (ticked w), slice_after (os.mlock w.tick) b)

  -- `New` where the caller's slice is not looked at again.
  unfoldable pub new : Bytes → M ℕ
  unfolding new_slice
  new b w = (new_slice b w).0

  -- `NewZero`
  unfoldable pub new_zero : ℤ → M ℕ
  new_zero (negsuc _) w = fail negative_size w
  new_zero (pos size) w = locked (os.mlock w.tick) (allocate (replicate size 0)) (ticked w)

  -- `Destroy`: the payload is zeroed and dropped also where `munlock` fails.
  unfoldable pub destroy : ℕ → M Done
  destroy h w = if (w.cell h).destroyed then (ok done, w) else (
    elim (os.munlock w.tick) [ some e ↦ err e | none ↦ ok done ],
    record w { cell = update w.cell h (record { buf = []; destroyed = true }); tick = w.tick + 1 },
  )

  -- `finalize`, which the runtime calls when a container is not reachable.
  abbrev pub finalize : ℕ → World → World
  finalize h w = (destroy h w).1

  -- `defer func() { _ = h.Destroy() }()` over the rest of a function.
  unfoldable pub defer_destroy {ℓ} : {A : Type ℓ} → ℕ → M A → M A
  unfolding destroy
  defer_destroy h m w = let after = m w in (after.0, (destroy h after.1).1)

-- `Use` with a callback that reads the payload.
unfoldable pub borrow {ℓ} : {A : Type ℓ} → ℕ → (Bytes → M A) → M A
borrow h f w = if (w.cell h).destroyed then (err destroyed, w) else f (w.cell h).buf w

-- `copy(dst, src)`, as what `dst` is afterwards.
abbrev pub copy_into : Bytes → Bytes → Bytes
copy_into dst src = take (length dst) (src ++ drop (length src) dst)

-- `Use` with a callback that computes bytes and copies them to the front of the payload.
unfoldable pub borrow_fill : ℕ → M Bytes → M Done
borrow_fill h f w =
    if (w.cell h).destroyed
    then (err destroyed, w)
    else and_then (f w) λ src w'. (
      ok done,
      record w' {
        cell = update w'.cell h (record { buf = copy_into (w'.cell h).buf src; destroyed = false });
      },
    )

-- `Len`
unfoldable pub len : ℕ → World → ℕ
len h w = if (w.cell h).destroyed then 0 else length (w.cell h).buf

unfoldable pub clone : System → ℕ → M ℕ
clone os h = borrow h (λ b. new os b)

-- `if err != nil { _ = h.Destroy(); return err }` after a step.
abbrev pub destroy_on_error {ℓ} : {A : Type ℓ} → System → ℕ → Result A × World → Result A × World
destroy_on_error os h (ok a, w) = (ok a, w)
destroy_on_error os h (err e, w) = (err e, (destroy os h w).1)

-- A buffer of `size` bytes that a callback fills in place: `NewZero`, then `Use`, and `Destroy` if
-- the filling fails.
unfoldable pub new_filled : System → ℕ → M Bytes → M ℕ
unfolding new_zero borrow_fill destroy
new_filled os size f = do
  h ← new_zero os (pos size)
  λ w. destroy_on_error os h (borrow_fill h f w)
  pure h
