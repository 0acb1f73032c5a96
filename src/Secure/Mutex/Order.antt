-- ===== src/Secure/Mutex/Order.antt =====
-- A container that goroutines share behaves as if its calls were made one after the other.
use go_tumbler.Base.{
  ℕ, ◌≡◌, refl, sym, ap, ◌∙◌, true, none, List, [], ◌∷◌, ◌++◌, map, All, inl, inr, Bool-cases,
  ==_refl,
}
use go_tumbler.Secure.Container.{destroy}
use go_tumbler.Secure.Mutex.Invariant.{Reach-Inv, one_inside}
use go_tumbler.Secure.Mutex.Progress.{IsZeroed, refused}
use go_tumbler.Secure.Mutex.{
  Call, Answer, refusal, wipe, Phase, inside, Shared, Reach, alone, one_by_one,
}
use go_tumbler.Secure.World.{World, System}
use mathlib.Core.Path.{subst}

module _ (os : System) (h : ℕ) where
  -- However goroutines interleave on a container, whenever its mutex is free the calls that have
  -- returned gave the answers that the same calls give when they are made one after the other, in
  -- the order in which they let the mutex go, the store is where those leave it, and every buffer
  -- that `Destroy` let go of was zeroed throughout.
  pub shared-one_by_one :
      {w : World} {s : Shared os h}
      → Reach os h w s
      → s.holder ≡ none
      → (one_by_one os h (map (λ x. x.0) s.log) w ≡ (s.log, s.world)) × All IsZeroed s.dropped
  shared-one_by_one r free =
      let k = Reach-Inv os h r in ((λ i. (k.past i, sym (k.free free) i)), k.all_zeroed)

  -- However goroutines interleave on a container, no two are between `Lock` and `Unlock` at once.
  pub at_most_one_inside :
      {w : World} {s : Shared os h} (i j : ℕ) (c c' : Call) (p p' : Phase)
      → Reach os h w s
      → s.pc i ≡ inside c p
      → s.pc j ≡ inside c' p'
      → i ≡ j
  at_most_one_inside i j c c' p p' r at at' =
      one_inside os h i j c c' p p' (Reach-Inv os h r) at at'

  split_log :
      (c : Call) (a b : Answer) (r : List (Call × Answer)) {log : List (Call × Answer)}
      → (c, a) ∷ r ≡ (c, b) ∷ log
      → (a ≡ b) × (r ≡ log)
  split_log c a b r e = (cc, cc)

  destroyed_after : (w : World) → ((destroy os h w).1.cell h).destroyed ≡ true
  unfolding destroy
  destroyed_after w = elim (Bool-cases (w.cell h).destroyed) [
    | inl dead ↦ rw dead dead
    | inr live ↦ rw live (rw (==_refl h) refl)
  ]

  dead_log :
      (w : World) (log : List (Call × Answer))
      → (w.cell h).destroyed ≡ true
      → (one_by_one os h (map (λ x. x.0) log) w).0 ≡ log
      → All (λ x. x.1 ≡ refusal x.0) log
  unfolding one_by_one
  dead_log w [] dead e = tt
  dead_log w ((c, a) ∷ log) dead e =
      let alone_c = refused os h w c dead in
      let (answers, later) = split_log _ _ _ _ e in
      (
        sym answers ∙ ap (λ r. r.0) alone_c,
        dead_log w log dead (
            subst (λ v. (one_by_one os h (map (λ x. x.0) log) v).0 ≡ log) (ap (λ r. r.1) alone_c)
              later),
      )

  wiped_log :
      (before : List (Call × Answer)) (a : Answer) (log : List (Call × Answer)) (w : World)
      → (one_by_one os h (map (λ x. x.0) (before ++ (wipe, a) ∷ log)) w).0
        ≡ before ++ (wipe, a) ∷ log
      → All (λ x. x.1 ≡ refusal x.0) log
  unfolding one_by_one alone destroy
  wiped_log [] a log w e =
      dead_log (destroy os h w).1 log (destroyed_after w) (split_log _ _ _ _ e).1
  wiped_log (x ∷ before) a log w e = wiped_log before a log _ (split_log _ _ _ _ e).1

  -- However goroutines interleave on a container, every call that returned after a `Destroy` was
  -- refused: no read and no copy gave a payload, no bytes were copied in, and the length was 0.
  pub refused_after_wipe :
      {w : World} {s : Shared os h} (before : List (Call × Answer)) (a : Answer)
      (log : List (Call × Answer))
      → Reach os h w s
      → s.log ≡ before ++ (wipe, a) ∷ log
      → All (λ x. x.1 ≡ refusal x.0) log
  refused_after_wipe {w} before a log r splits = wiped_log before a log w (
      ap (λ l. (one_by_one os h (map (λ x. x.0) l) w).0) (sym splits)
      ∙ (Reach-Inv os h r).past
      ∙ splits)
