-- ===== src/Secure/Refinement.antt =====
-- Containers keep the contract of Vault, over any sequence of operations.
use go_tumbler.Base.{
  ℕ, pos, negsuc, ◌+◌, ◌<◌, ◌≡◌, refl, sym, true, false, Option, none, some, List, [], ◌∷◌, Bytes,
  replicate, arith, ◌==◌, inl, inr, Bool-cases, ==_refl, if◌then◌else◌,
}
use go_tumbler.Errors.{Error, destroyed, Result, ok, err}
use go_tumbler.Secure.Container.{
  new, new_slice, new_zero, locked, allocate, destroy, borrow, len, clone,
}
use go_tumbler.Secure.Vault.{
  Op, make, make_zero, copy, wipe, read, size, Output, container, payload, bytes_long, wiped_with,
  failed, Vault, put, close, Step, makes, make_refused, makes_zero, make_zero_refused,
  make_zero_negative, copies, copy_refused, copy_closed, wipes, wiped_before, reads, read_closed,
  measures, measure_closed, Steps, no_step, then_step, IsClosed, Steps-IsClosed,
}
use go_tumbler.Secure.World.{SecureBytes, World, System, pure, update, ticked}
use mathlib.Core.Path.{subst}

-- The payload of a container that is not destroyed.
abbrev pub visible : SecureBytes → Option Bytes
visible s = if s.destroyed then none else some s.buf

-- The store as the contract sees it.
abbrev pub view : World → Vault
view w = record { count = w.next; open_payload = λ h. visible (w.cell h) }

abbrev made_output : Result ℕ → Output
made_output (ok h) = container h
made_output (err e) = failed e

abbrev read_output : Result Bytes → Output
read_output (ok b) = payload b
read_output (err e) = failed e

hidden : (s : SecureBytes) → visible s ≡ none → s.destroyed ≡ true
hidden s h = ground arith

module _ (os : System) where
  -- An operation of the code, with its answer.
  unfoldable pub run : Op → World → Output × World
  run (make b) w = let r = new os b w in (made_output r.0, r.1)
  run (make_zero n) w = let r = new_zero os n w in (made_output r.0, r.1)
  run (copy h) w = let r = clone os h w in (made_output r.0, r.1)
  run (wipe h) w = let r = destroy os h w in (wiped_with r.0, r.1)
  run (read h) w = let r = borrow h pure w in (read_output r.0, r.1)
  run (size h) w = (bytes_long (len h w), w)

  -- The operations one after the other.
  unfoldable pub run_all : List Op → World → List Output × World
  unfolding run
  run_all [] w = ([], w)
  run_all (op ∷ ops) w =
      let first = run op w in let rest = run_all ops first.1 in (first.0 ∷ rest.0, rest.1)

  view-update :
      (w : World) (h : ℕ) (s : SecureBytes)
      → (i : ℕ) → visible (update w.cell h s i) ≡ update (λ j. visible (w.cell j)) h (visible s) i
  view-update w h s i = elim (Bool-cases (h == i)) [
    | inl same ↦ rw same refl
    | inr other ↦ rw other refl
  ]

  allocated : (b : Bytes) (w : World) → view (allocate b w).1 ≡ put (view w) b
  allocated b w = λ i. record {
    count = w.next + 1;
    open_payload = λ h. view-update w w.next (record { buf = b; destroyed = false }) h i;
  }

  closed_view :
      (h : ℕ) (w : World)
      → view (record w {
        cell = update w.cell h (record { buf = []; destroyed = true });
        tick = w.tick + 1;
      })
        ≡ close (view w) h
  closed_view h w = λ i. record {
    count = w.next;
    open_payload = λ j. view-update w h (record { buf = []; destroyed = true }) j i;
  }

  locked-Step :
      (op : Op) (b : Bytes) (w : World)
      → Step (view w) op (container w.next) (put (view w) b)
      → ((e : Error) → Step (view w) op (failed e) (view w))
      → (o : Option Error)
      → Step
          (view w)
          op
          (made_output (locked o (allocate b) (ticked w)).0)
          (view (locked o (allocate b) (ticked w)).1)
  locked-Step op b w s f (some e) = f e
  locked-Step op b w s f none = subst (Step (view w) op (container w.next)) (sym (allocated b w)) s

  run-Step : (op : Op) (w : World) → Step (view w) op (run op w).0 (view (run op w).1)
  unfolding run new new_slice new_zero clone borrow destroy len
  run-Step (make b) w = locked-Step (make b) b w (makes b) (λ e. make_refused b e) (os.mlock w.tick)
  run-Step (make_zero (negsuc n)) w = make_zero_negative n
  run-Step (make_zero (pos n)) w =
      locked-Step (make_zero (pos n)) (replicate n 0) w (makes_zero n) (λ e. make_zero_refused n e)
        (os.mlock w.tick)
  run-Step (copy h) w = elim (Bool-cases (w.cell h).destroyed) [
    | inl dead ↦ rw dead (copy_closed h (rw dead refl))
    | inr live ↦ rw live (
        locked-Step (copy h) (w.cell h).buf w (copies h (w.cell h).buf (rw live refl))
          (λ e. copy_refused h (w.cell h).buf e (rw live refl)) (os.mlock w.tick))
  ]
  run-Step (wipe h) w = elim (Bool-cases (w.cell h).destroyed) [
    | inl dead ↦ rw dead (wiped_before h (rw dead refl))
    | inr live ↦ rw live (
        subst (Step (view w) (wipe h) _) (sym (closed_view h w))
          (wipes h (w.cell h).buf _ (rw live refl)))
  ]
  run-Step (read h) w = elim (Bool-cases (w.cell h).destroyed) [
    | inl dead ↦ rw dead (read_closed h (rw dead refl))
    | inr live ↦ rw live (reads h (w.cell h).buf (rw live refl))
  ]
  run-Step (size h) w = elim (Bool-cases (w.cell h).destroyed) [
    | inl dead ↦ rw dead (measure_closed h (rw dead refl))
    | inr live ↦ rw live (measures h (w.cell h).buf (rw live refl))
  ]

  -- Whatever operations are run on containers, in whatever order, and whatever the system answers,
  -- the contract allows the answers, and ends at what the store then shows.
  pub run_all-Steps :
      (ops : List Op) (w : World) → Steps (view w) ops (run_all ops w).0 (view (run_all ops w).1)
  unfolding run_all
  run_all-Steps [] w = no_step (view w)
  run_all-Steps (op ∷ ops) w = then_step (run-Step op w) (run_all-Steps ops (run op w).1)

  destroy-IsClosed : (h : ℕ) (w : World) → h < w.next → IsClosed (view (destroy os h w).1) h
  unfolding destroy
  destroy-IsClosed h w made = elim (Bool-cases (w.cell h).destroyed) [
    | inl dead ↦ rw dead (record { made = made; closed = rw dead refl })
    | inr live ↦ rw live (record { made = made; closed = rw (==_refl h) refl })
  ]

  -- Once `destroy` was called on a container that was made, no sequence of operations brings its
  -- payload back: reading it fails with `destroyed` and its length is 0 from then on.
  pub wiped_for_good :
      (h : ℕ) (ops : List Op) (w : World)
      → h < w.next
      → ((run (read h) (run_all (wipe h ∷ ops) w).1).0 ≡ failed destroyed)
        × ((run (size h) (run_all (wipe h ∷ ops) w).1).0 ≡ bytes_long 0)
  unfolding run run_all borrow len
  wiped_for_good h ops w made =
      let v = (destroy os h w).1 in
      let later = Steps-IsClosed h (run_all-Steps ops v) (destroy-IsClosed h w made) in
      let dead = hidden ((run_all ops v).1.cell h) later.closed in rw dead (refl, refl)
