-- ===== src/Secure/Mutex.antt =====
-- One container that several goroutines share: `Use`, `Len`, `Clone` and `Destroy` hold its mutex
-- from the first statement to the return, and work on its buffer one byte at a time in between.
pub mod Bytewise
pub mod Progress
pub mod Invariant
pub mod Order
pub mod Ends
use go_tumbler.Base.{
  ℕ, zero, suc, ◌+◌, ◌≤◌, ◌<◌, ◌≡◌, ◌⊎◌, true, false, Option, none, some, List, [], ◌∷◌, ◌++◌,
  Bytes, length, get_or,
}
use go_tumbler.Errors.{Done, done, destroyed, Result, ok, err}
use go_tumbler.Secure.Container.{destroy, borrow, borrow_fill, len, new, clone}
use go_tumbler.Secure.World.{World, System, pure, update}

-- `Use` with a callback that reads the payload, `Use` with one that copies bytes to the front of
-- it, `Len`, `Clone` and `Destroy`.
pub data Call : Type 0 where
  read measure copy wipe : Call
  fill : Bytes → Call

pub data Answer : Type 0 where
  got : Result Bytes → Answer
  status : Result Done → Answer
  number : ℕ → Answer
  container : Result ℕ → Answer

-- Where a call stands that holds the mutex: before the test of `destroyed`, in a callback, in the
-- loop that zeroes the buffer, or before the deferred `Unlock`.
pub data Phase : Type 0 where
  entered : Phase
  reading copying : Bytes → Phase
  filling wiping : ℕ → Phase
  leaving : Answer → Phase

-- Where a goroutine stands: outside, before `Lock`, or behind it.
pub data Pc : Type 0 where
  idle : Pc
  waiting : Call → Pc
  inside : Call → Phase → Pc

-- `sb.buf[n] = x`
abbrev pub set_at : ℕ → ℕ → Bytes → Bytes
set_at n x [] = []
set_at zero x (y ∷ ys) = x ∷ ys
set_at (suc n) x (y ∷ ys) = y ∷ set_at n x ys

-- What a call answers on a container that was destroyed.
abbrev pub refusal : Call → Answer
refusal read = got (err destroyed)
refusal (fill src) = status (err destroyed)
refusal measure = number 0
refusal copy = container (err destroyed)
refusal wipe = status (ok done)

module _ (os : System) (h : ℕ) where
  abbrev pub set_buf : World → Bytes → World
  set_buf w b = record w { cell = update w.cell h (record { buf = b; destroyed = false }) }

  -- A step of a call that holds the mutex, with the buffers that it lets go of.
  pub data Move (w : World) : Call → Phase → World → Phase → List Bytes → Type 0 where
    refuse : (c : Call) → (w.cell h).destroyed ≡ true → Move w c entered w (leaving (refusal c)) []
    begin_read : (w.cell h).destroyed ≡ false → Move w read entered w (reading []) []
    read_byte :
        (acc : Bytes)
        → length acc < length (w.cell h).buf
        → Move w read
            (reading acc)
            w
            (reading (acc ++ get_or (w.cell h).buf (length acc) 0 ∷ []))
            []
    end_read :
        (acc : Bytes)
        → length (w.cell h).buf ≤ length acc
        → Move w read (reading acc) w (leaving (got (ok acc))) []
    begin_fill :
        (src : Bytes) → (w.cell h).destroyed ≡ false → Move w (fill src) entered w (filling 0) []
    fill_byte :
        (src : Bytes) (n : ℕ)
        → n < length src
        → n < length (w.cell h).buf
        → Move w
            (fill src)
            (filling n)
            (set_buf w (set_at n (get_or src n 0) (w.cell h).buf))
            (filling (suc n))
            []
    end_fill :
        (src : Bytes) (n : ℕ)
        → (length src ≤ n) ⊎ (length (w.cell h).buf ≤ n)
        → Move w (fill src) (filling n) w (leaving (status (ok done))) []
    begin_measure :
        (w.cell h).destroyed ≡ false
        → Move w measure entered w (leaving (number (length (w.cell h).buf))) []
    begin_copy : (w.cell h).destroyed ≡ false → Move w copy entered w (copying []) []
    copy_byte :
        (acc : Bytes)
        → length acc < length (w.cell h).buf
        → Move w copy
            (copying acc)
            w
            (copying (acc ++ get_or (w.cell h).buf (length acc) 0 ∷ []))
            []
    end_copy :
        (acc : Bytes)
        → length (w.cell h).buf ≤ length acc
        → Move w copy (copying acc) (new os acc w).1 (leaving (container (new os acc w).0)) []
    begin_wipe : (w.cell h).destroyed ≡ false → Move w wipe entered w (wiping 0) []
    wipe_byte :
        (n : ℕ)
        → n < length (w.cell h).buf
        → Move w wipe (wiping n) (set_buf w (set_at n 0 (w.cell h).buf)) (wiping (suc n)) []
    end_wipe :
        (n : ℕ)
        → length (w.cell h).buf ≤ n
        → Move w wipe
            (wiping n)
            (record w {
              cell = update w.cell h (record { buf = []; destroyed = true });
              tick = w.tick + 1;
            })
            (leaving (status (elim (os.munlock w.tick) [ some e ↦ err e | none ↦ ok done ])))
            ((w.cell h).buf ∷ [])

  -- The mutex, the goroutines, the calls that have returned with their answers, and the buffers that
  -- were let go of.
  pub record Shared : Type 0 where
    pub world : World
    pub holder : Option ℕ
    pub pc : ℕ → Pc
    pub log : List (Call × Answer)
    pub dropped : List Bytes

  pub data Step (s : Shared) : Shared → Type 0 where
    calls :
        (i : ℕ) (c : Call) → s.pc i ≡ idle → Step s (record s { pc = update s.pc i (waiting c) })
    locks :
        (i : ℕ) (c : Call)
        → s.pc i ≡ waiting c
        → s.holder ≡ none
        → Step s (record s { holder = some i; pc = update s.pc i (inside c entered) })
    moves :
        (i : ℕ) (c : Call) (p : Phase) {p' : Phase} {w' : World} {d : List Bytes}
        → s.pc i ≡ inside c p
        → Move s.world c p w' p' d
        → Step s
            (record s { world = w'; pc = update s.pc i (inside c p'); dropped = d ++ s.dropped })
    unlocks :
        (i : ℕ) (c : Call) (a : Answer)
        → s.pc i ≡ inside c (leaving a)
        → Step s (record s { holder = none; pc = update s.pc i idle; log = s.log ++ (c, a) ∷ [] })

  abbrev pub begin : World → Shared
  begin w = record { world = w; holder = none; pc = λ i. idle; log = []; dropped = [] }

  pub data Reach (w : World) : Shared → Type 0 where
    at_first : Reach w (begin w)
    after : {s t : Shared} → Reach w s → Step s t → Reach w t

  -- A call on its own, as the rest of the development takes it.
  unfoldable pub alone : Call → World → Answer × World
  alone read w = let r = borrow h pure w in (got r.0, r.1)
  alone (fill src) w = let r = borrow_fill h (pure src) w in (status r.0, r.1)
  alone measure w = (number (len h w), w)
  alone copy w = let r = clone os h w in (container r.0, r.1)
  alone wipe w = let r = destroy os h w in (status r.0, r.1)

  -- Calls one after the other, each with its answer.
  unfoldable pub one_by_one : List Call → World → List (Call × Answer) × World
  unfolding alone
  one_by_one [] w = ([], w)
  one_by_one (c ∷ cs) w =
      let first = alone c w in let rest = one_by_one cs first.1 in ((c, first.0) ∷ rest.0, rest.1)
