-- ===== src/Secure/Frame/Fill.antt =====
-- A container that is filled in place and given up if the filling fails.
use go_tumbler.Base.{ℕ, pos, sym, false, Bytes, arith, ne→==, ==_refl}
use go_tumbler.Errors.{Done, done, Result, ok, err}
use go_tumbler.Secure.World.{World, System, M, pure, and_then, update}
use go_tumbler.Secure.Container.{new_zero, borrow_fill, new_filled, copy_into, destroy_on_error}
use go_tumbler.Secure.Frame.{
  Fresh, Frees, Yields, YieldsAt, new_zero-Yields, destroy-Fresh, Fresh-Clean,
}

Fresh-update :
    (u v : World) (h : ℕ) (b : Bytes)
    → Fresh u h v
    → Fresh u h (record v { cell = update v.cell h (record { buf = b; destroyed = false }) })
Fresh-update u v h b p = record {
  above = p.above;
  below = p.below;
  kept = λ i below. rw (ne→== h i (λ e. omega (arith, p.above))) (p.kept i below);
  live = rw (==_refl h);
  gone = λ i lo hi ne. rw (ne→== h i (λ e. ne (sym e))) (p.gone i lo hi ne);
}

stored-Fresh :
    (u : World) (h : ℕ) (r : Result Bytes × World)
    → Fresh u h r.1
    → Fresh u h
        (and_then r λ src w'. (
          ok done,
          record w' {
            cell =
                update w'.cell h
                  (record { buf = copy_into (w'.cell h).buf src; destroyed = false });
          },
        )).1
stored-Fresh u h (ok src, w) p = Fresh-update u w h (copy_into (w.cell h).buf src) p
stored-Fresh u h (err e, w) p = p

borrow_fill-Fresh :
    (u v : World) (h : ℕ) (f : M Bytes) → Fresh u h v → Frees f → Fresh u h (borrow_fill h f v).1
unfolding borrow_fill
borrow_fill-Fresh u v h f p q = rw p.live (stored-Fresh u h (f v) (Fresh-Clean p (q v)))

finished-YieldsAt :
    (os : System) (u : World) (h : ℕ) (r : Result Done × World)
    → Fresh u h r.1
    → YieldsAt u (and_then (destroy_on_error os h r) (λ _. pure h))
finished-YieldsAt os u h (ok d, w) p = p
finished-YieldsAt os u h (err e, w) p = destroy-Fresh os u w h p

filled-YieldsAt :
    (os : System) (u : World) (r : Result ℕ × World) (f : M Bytes)
    → YieldsAt u r
    → Frees f
    → YieldsAt u
        (and_then r (λ h w. and_then (destroy_on_error os h (borrow_fill h f w)) (λ _. pure h)))
filled-YieldsAt os u (ok h, v) f p q =
    finished-YieldsAt os u h (borrow_fill h f v) (borrow_fill-Fresh u v h f p q)
filled-YieldsAt os u (err e, v) f p q = p

pub new_filled-Yields :
    (os : System) (size : ℕ) (f : M Bytes) → Frees f → Yields (new_filled os size f)
unfolding new_filled
new_filled-Yields os size f q w =
    filled-YieldsAt os w (new_zero os (pos size) w) f (new_zero-Yields os (pos size) w) q
