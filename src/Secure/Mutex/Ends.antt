-- ===== src/Secure/Mutex/Ends.antt =====
-- A call that holds the mutex comes to its end.
use go_tumbler.Base.{
  ℕ, zero, suc, ◌+◌, ◌-◌, ◌≤◌, ◌<◌, ◌≡◌, ◌⊎◌, inl, inr, refl, ap, false, [], ◌∷◌, ◌++◌, Bytes, List,
  length, get_or, arith, Bool-cases, length-append, ==_refl, none, ◌∙◌,
}
use go_tumbler.Secure.Mutex.Invariant.{Reach-Inv}
use go_tumbler.Secure.Mutex.Progress.{Progress}
use go_tumbler.Secure.Mutex.{
  Call, copy, copying, begin_copy, copy_byte, end_copy, read, measure, wipe, fill, Answer, Phase,
  entered, reading, filling, wiping, leaving, inside, set_at, set_buf, Move, refuse, begin_read,
  read_byte, end_read, begin_fill, fill_byte, end_fill, begin_measure, begin_wipe, wipe_byte,
  end_wipe, Shared, Reach, idle, after, moves,
}
use go_tumbler.Secure.World.{World, System, update}
use native.Mathlib.Decide.{dec_lt}

length-set_at : (n x : ℕ) (b : Bytes) → length (set_at n x b) ≡ length b
length-set_at n x [] = refl
length-set_at zero x (y ∷ b) = refl
length-set_at (suc n) x (y ∷ b) = ap suc (length-set_at n x b)

module _ (os : System) (h : ℕ) where
  -- The steps that a call has left before it lets the mutex go, at most.
  abbrev pub remaining : World → Phase → ℕ
  remaining w entered = length (w.cell h).buf + 2
  remaining w (reading acc) = (length (w.cell h).buf - length acc) + 1
  remaining w (copying acc) = (length (w.cell h).buf - length acc) + 1
  remaining w (filling n) = (length (w.cell h).buf - n) + 1
  remaining w (wiping n) = (length (w.cell h).buf - n) + 1
  remaining w (leaving a) = 0

  length-set_buf : (w : World) (b : Bytes) → length ((set_buf os h w b).cell h).buf ≡ length b
  length-set_buf w b = rw (==_refl h) refl

  Move-fewer :
      (w v : World) (c : Call) (p p' : Phase) (d : List Bytes)
      → Move os h w c p v p' d
      → remaining v p' < remaining w p
  Move-fewer w _ _ _ _ _ (refuse c dead) = omega arith
  Move-fewer w _ _ _ _ _ (begin_read live) = omega arith
  Move-fewer w _ _ _ _ _ (read_byte acc more) =
      omega (arith, more, length-append acc (get_or (w.cell h).buf (length acc) 0 ∷ []))
  Move-fewer w _ _ _ _ _ (end_read acc all) = omega arith
  Move-fewer w _ _ _ _ _ (begin_fill src live) = omega arith
  Move-fewer w _ _ _ _ _ (fill_byte src n more room) =
      let b = (w.cell h).buf in
      omega (
        arith,
        room,
        length-set_buf w (set_at n (get_or src n 0) b),
        length-set_at n (get_or src n 0) b,
      )
  Move-fewer w _ _ _ _ _ (end_fill src n over) = omega arith
  Move-fewer w _ _ _ _ _ (begin_measure live) = omega arith
  Move-fewer w _ _ _ _ _ (begin_copy live) = omega arith
  Move-fewer w _ _ _ _ _ (copy_byte acc more) =
      omega (arith, more, length-append acc (get_or (w.cell h).buf (length acc) 0 ∷ []))
  Move-fewer w _ _ _ _ _ (end_copy acc all) = omega arith
  Move-fewer w _ _ _ _ _ (begin_wipe live) = omega arith
  Move-fewer w _ _ _ _ _ (wipe_byte n more) =
      let b = (w.cell h).buf in
      omega (arith, more, length-set_buf w (set_at n 0 b), length-set_at n 0 b)
  Move-fewer w _ _ _ _ _ (end_wipe n all) = omega arith

  -- A call that has a next step, or is about to let the mutex go.
  abbrev pub CanMove : World → Call → Phase → Type 0
  CanMove w c p =
      ((a : Answer) × (p ≡ leaving a))
      ⊎ ((v : World) × (p' : Phase) × (d : List Bytes) × Move os h w c p v p' d)

  can_enter : (w : World) (c : Call) → CanMove w c entered
  can_enter w c = elim (Bool-cases (w.cell h).destroyed) [
    | inl dead ↦ inr (w, leaving _, [], refuse c dead)
    | inr live ↦ inr (enters c live)
  ]
    where
      enters :
          (c : Call)
          → (w.cell h).destroyed ≡ false
          → (v : World) × (p' : Phase) × (d : List Bytes) × Move os h w c entered v p' d
      enters read live = (w, _, [], begin_read live)
      enters (fill src) live = (w, _, [], begin_fill src live)
      enters measure live = (w, _, [], begin_measure live)
      enters copy live = (w, _, [], begin_copy live)
      enters wipe live = (w, _, [], begin_wipe live)

  can_read : (w : World) (acc : Bytes) → CanMove w read (reading acc)
  can_read w acc = elim (dec_lt (length acc) (length (w.cell h).buf)) [
    | yes more ↦ inr (w, _, [], read_byte acc more)
    | no all ↦ inr (w, _, [], end_read acc (omega (arith, all)))
  ]

  can_copy : (w : World) (acc : Bytes) → CanMove w copy (copying acc)
  can_copy w acc = elim (dec_lt (length acc) (length (w.cell h).buf)) [
    | yes more ↦ inr (w, _, [], copy_byte acc more)
    | no all ↦ inr (_, _, [], end_copy acc (omega (arith, all)))
  ]

  can_fill : (w : World) (src : Bytes) (n : ℕ) → CanMove w (fill src) (filling n)
  can_fill w src n = elim (dec_lt n (length src)) [
    | yes more ↦ elim (dec_lt n (length (w.cell h).buf)) [
      | yes room ↦ inr (_, _, [], fill_byte src n more room)
      | no full ↦ inr (w, _, [], end_fill src n (inr (omega (arith, full))))
    ]
    | no short ↦ inr (w, _, [], end_fill src n (inl (omega (arith, short))))
  ]

  can_wipe : (w : World) (n : ℕ) → CanMove w wipe (wiping n)
  can_wipe w n = elim (dec_lt n (length (w.cell h).buf)) [
    | yes more ↦ inr (_, _, [], wipe_byte n more)
    | no all ↦ inr (_, _, _, end_wipe n (omega (arith, all)))
  ]

  Progress-CanMove : (w v : World) (c : Call) (p : Phase) → Progress os h w c p v → CanMove v c p
  Progress-CanMove w v c entered k = can_enter v c
  Progress-CanMove w v read (reading acc) k = can_read v acc
  Progress-CanMove w v copy (copying acc) k = can_copy v acc
  Progress-CanMove w v (fill src) (filling n) k = can_fill v src n
  Progress-CanMove w v wipe (wiping n) k = can_wipe v n
  Progress-CanMove w v c (leaving a) k = inl (a, refl)
  Progress-CanMove w v copy (reading acc) k = absurd k
  Progress-CanMove w v copy (filling n) k = absurd k
  Progress-CanMove w v copy (wiping n) k = absurd k
  Progress-CanMove w v read (copying acc) k = absurd k
  Progress-CanMove w v measure (copying acc) k = absurd k
  Progress-CanMove w v wipe (copying acc) k = absurd k
  Progress-CanMove w v (fill src) (copying acc) k = absurd k
  Progress-CanMove w v measure (reading acc) k = absurd k
  Progress-CanMove w v wipe (reading acc) k = absurd k
  Progress-CanMove w v (fill src) (reading acc) k = absurd k
  Progress-CanMove w v read (filling n) k = absurd k
  Progress-CanMove w v measure (filling n) k = absurd k
  Progress-CanMove w v wipe (filling n) k = absurd k
  Progress-CanMove w v read (wiping n) k = absurd k
  Progress-CanMove w v measure (wiping n) k = absurd k
  Progress-CanMove w v (fill src) (wiping n) k = absurd k

  -- What a goroutine does on its own in so many steps, until it has let the mutex go.
  pub data Own (i : ℕ) : Shared os h → ℕ → Shared os h → Type 0 where
    lets_go :
        {s : Shared os h} (c : Call) (a : Answer)
        → s.pc i ≡ inside c (leaving a)
        → Own i s 1
            (record s { holder = none; pc = update s.pc i idle; log = s.log ++ (c, a) ∷ [] })
    goes_on :
        {s t : Shared os h} (c : Call) (p : Phase) {p' : Phase} {w' : World} {d : List Bytes}
        {n : ℕ}
        → s.pc i ≡ inside c p
        → Move os h s.world c p w' p' d
        → Own i
            (record s { world = w'; pc = update s.pc i (inside c p'); dropped = d ++ s.dropped })
            n
            t
        → Own i s (suc n) t

  -- An own run of `k` steps at most to where the mutex is free.
  abbrev pub ComesOut : ℕ → Shared os h → ℕ → Type 0
  ComesOut i s k = (n : ℕ) × (t : Shared os h) × Own i s n t × (n ≤ k) × (t.holder ≡ none)

  comes_out :
      (w : World) (i : ℕ) (k : ℕ) (s : Shared os h) (c : Call) (p : Phase)
      → Reach os h w s
      → s.pc i ≡ inside c p
      → remaining s.world p ≤ k
      → ComesOut i s (suc k)
  comes_out w i zero s c p r at bound =
      elim (Progress-CanMove _ s.world c p ((Reach-Inv os h r).held i c p at).1) [
        | inl (a, same) ↦ (1, _, lets_go c a (at ∙ ap (inside c) same), omega arith, refl)
        | inr (v, p', d, move) ↦ absurd (omega (arith, Move-fewer s.world v c p p' d move, bound))
      ]
  comes_out w i (suc k) s c p r at bound =
      elim (Progress-CanMove _ s.world c p ((Reach-Inv os h r).held i c p at).1) [
        | inl (a, same) ↦ (1, _, lets_go c a (at ∙ ap (inside c) same), omega arith, refl)
        | inr (v, p', d, move) ↦
            let (n, t, run, fits, free) =
              comes_out w i k _ c p' (after r (moves i c p at move)) (rw (==_refl i) refl)
                (omega (arith, Move-fewer s.world v c p p' d move, bound)) in
            (suc n, t, goes_on c p at move run, omega (arith, fits), free)
      ]

  -- However goroutines interleave on a container, the call that holds the mutex lets it go by its own
  -- steps alone, of which it makes at most three more than the buffer has bytes.
  pub critical_section_ends :
      {w : World} {s : Shared os h} (i : ℕ) (c : Call) (p : Phase)
      → Reach os h w s
      → s.pc i ≡ inside c p
      → ComesOut i s (length (s.world.cell h).buf + 3)
  critical_section_ends {w} {s} i c p r at =
      let k = length (s.world.cell h).buf + 2 in
      let (n, t, run, fits, free) = comes_out w i k s c p r at (at_most p) in
      (n, t, run, omega (arith, fits), free)
    where
      at_most : (p : Phase) → remaining s.world p ≤ length (s.world.cell h).buf + 2
      at_most entered = omega arith
      at_most (reading acc) = omega arith
      at_most (copying acc) = omega arith
      at_most (filling n) = omega arith
      at_most (wiping n) = omega arith
      at_most (leaving a) = omega arith
