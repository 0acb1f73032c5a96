-- ===== src/Secure/Mutex/Invariant.antt =====
-- What holds while goroutines share a container: where the calls that have returned, run one after
-- the other, have led, and how far the call that holds the mutex has got from there.
use go_tumbler.Base.{
  ℕ, ◌≡◌, inl, inr, refl, sym, ap, ◌∙◌, none, some, List, [], ◌∷◌, ◌++◌, map, Bytes, All,
  All-append,
}
use go_tumbler.Secure.Mutex.Progress.{update-cases, IsZeroed, Progress, Move-Progress}
use go_tumbler.Secure.Mutex.{
  Call, Answer, Phase, entered, leaving, Pc, inside, idle, waiting, Move, Shared, Step, calls,
  locks, moves, unlocks, Reach, at_first, after, alone, one_by_one,
}
use go_tumbler.Secure.World.{World, System, update}
use mathlib.Core.Path.{subst}

module _ (os : System) (h : ℕ) where
  -- The calls that have returned.
  abbrev pub returned : Shared os h → List Call
  returned s = map (λ x. x.0) s.log

  -- Where they lead when they are run one after the other.
  abbrev pub so_far : World → Shared os h → World
  so_far w s = (one_by_one os h (returned s) w).1

  pub record Inv (w : World) (s : Shared os h) : Type 0 where
    pub past : (one_by_one os h (returned s) w).0 ≡ s.log
    pub free : s.holder ≡ none → s.world ≡ so_far w s
    pub held :
        (i : ℕ) (c : Call) (p : Phase)
        → s.pc i ≡ inside c p
        → (s.holder ≡ some i) × Progress os h (so_far w s) c p s.world
    pub there : (i : ℕ) → s.holder ≡ some i → (c : Call) × (p : Phase) × (s.pc i ≡ inside c p)
    pub all_zeroed : All IsZeroed s.dropped

  one_by_one-append :
      (cs : List Call) (c : Call) (w : World)
      → one_by_one os h (cs ++ c ∷ []) w ≡ (
        (one_by_one os h cs w).0 ++ (c, (alone os h c (one_by_one os h cs w).1).0) ∷ [],
        (alone os h c (one_by_one os h cs w).1).1,
      )
  unfolding one_by_one
  one_by_one-append [] c w = refl
  one_by_one-append (x ∷ cs) c w =
      let v = (alone os h x w).1 in
      ap (λ r. ((x, (alone os h x w).0) ∷ r.0, r.1)) (one_by_one-append cs c v)

  map-append {ℓ κ} :
      {A : Type ℓ} {B : Type κ} (f : A → B) (xs ys : List A)
      → map f (xs ++ ys) ≡ map f xs ++ map f ys
  map-append f [] ys = refl
  map-append f (x ∷ xs) ys = ap (◌∷◌ (f x)) (map-append f xs ys)

  -- How far the call has got of a goroutine that stands at `q`.
  abbrev At : World → Pc → World → Type 0
  At w (inside c p) v = Progress os h w c p v
  At w q v = Unit

  -- No two goroutines are inside.
  pub one_inside :
      {w : World} {s : Shared os h} (i j : ℕ) (c c' : Call) (p p' : Phase)
      → Inv w s
      → s.pc i ≡ inside c p
      → s.pc j ≡ inside c' p'
      → i ≡ j
  one_inside i j c c' p p' k at at' =
      let here = (k.held i c p at).0 in let there = (k.held j c' p' at').0 in (cc)

  calls-Inv :
      (w : World) (s : Shared os h) (i : ℕ) (c : Call)
      → s.pc i ≡ idle
      → Inv w s
      → Inv w (record s { pc = update s.pc i (waiting c) })
  calls-Inv w s i c at k = record {
    past = k.past;
    free = k.free;
    held = λ j c' p e. elim (update-cases s.pc i (waiting c) j) [
      | inl (_, here) ↦ cc
      | inr (_, there) ↦ k.held j c' p (sym there ∙ e)
    ];
    there = λ j e.
        let (c', p, at') = k.there j e in
        elim (update-cases s.pc i (waiting c) j) [
          | inl (same, here) ↦ absurd (let g = ap s.pc same in (cc))
          | inr (_, there) ↦ (c', p, there ∙ at')
        ];
    all_zeroed = k.all_zeroed;
  }

  locks-Inv :
      (w : World) (s : Shared os h) (i : ℕ) (c : Call)
      → s.pc i ≡ waiting c
      → s.holder ≡ none
      → Inv w s
      → Inv w (record s { holder = some i; pc = update s.pc i (inside c entered) })
  locks-Inv w s i c at none_holds k = record {
    past = k.past;
    free = λ e. cc;
    held = λ j c' p e. elim (update-cases s.pc i (inside c entered) j) [
      | inl (same, here) ↦
          (ap some same, subst (λ q. At (so_far w s) q s.world) (sym here ∙ e) (k.free none_holds))
      | inr (_, there) ↦ absurd (let g = (k.held j c' p (sym there ∙ e)).0 in (cc))
    ];
    there = λ j e. elim (update-cases s.pc i (inside c entered) j) [
      | inl (same, here) ↦ (c, entered, here)
      | inr (other, there) ↦ absurd (other (cc))
    ];
    all_zeroed = k.all_zeroed;
  }

  moves-Inv :
      (w : World) (s : Shared os h) (i : ℕ) (c : Call) (p p' : Phase) (v : World) (d : List Bytes)
      → s.pc i ≡ inside c p
      → Move os h s.world c p v p' d
      → Inv w s
      → Inv w (record s { world = v; pc = update s.pc i (inside c p'); dropped = d ++ s.dropped })
  moves-Inv w s i c p p' v d at move k =
      let (holds, sofar) = k.held i c p at in
      let (further, zeros) = Move-Progress os h (so_far w s) s.world v c p p' d move sofar in
      record {
        past = k.past;
        free = λ e. cc;
        held = λ j c' q e. elim (update-cases s.pc i (inside c p') j) [
          | inl (same, here) ↦
              (holds ∙ ap some same, subst (λ q. At (so_far w s) q v) (sym here ∙ e) further)
          | inr (other, there) ↦ absurd (other (one_inside i j c c' p q k at (sym there ∙ e)))
        ];
        there = λ j e. elim (update-cases s.pc i (inside c p') j) [
          | inl (same, here) ↦ (c, p', here)
          | inr (other, there) ↦ absurd (other (cc))
        ];
        all_zeroed = All-append IsZeroed d s.dropped zeros k.all_zeroed;
      }

  unlocks-Inv :
      (w : World) (s : Shared os h) (i : ℕ) (c : Call) (a : Answer)
      → s.pc i ≡ inside c (leaving a)
      → Inv w s
      → Inv w (record s { holder = none; pc = update s.pc i idle; log = s.log ++ (c, a) ∷ [] })
  unlocks-Inv w s i c a at k =
      let (holds, done_with) = k.held i c (leaving a) at in
      let run =
        ap (λ cs. one_by_one os h cs w) (map-append (λ x. x.0) s.log ((c, a) ∷ []))
        ∙ one_by_one-append (returned s) c w in
      record {
        past =
            ap (λ r. r.0) run
            ∙ ap (λ l. l ++ (c, (alone os h c (so_far w s)).0) ∷ []) k.past
            ∙ ap (λ r. s.log ++ (c, r.0) ∷ []) done_with;
        free = λ e. sym (ap (λ r. r.1) run ∙ ap (λ r. r.1) done_with);
        held = λ j c' q e. elim (update-cases s.pc i idle j) [
          | inl (same, here) ↦ cc
          | inr (other, there) ↦
              absurd (other (one_inside i j c c' (leaving a) q k at (sym there ∙ e)))
        ];
        there = λ j e. cc;
        all_zeroed = k.all_zeroed;
      }

  Step-Inv : {w : World} {s t : Shared os h} → Step os h s t → Inv w s → Inv w t
  Step-Inv {w} {s} (calls i c at) k = calls-Inv w s i c at k
  Step-Inv {w} {s} (locks i c at none_holds) k = locks-Inv w s i c at none_holds k
  Step-Inv {w} {s} (moves i c p {p'} {w'} {d} at move) k = moves-Inv w s i c p p' w' d at move k
  Step-Inv {w} {s} (unlocks i c a at) k = unlocks-Inv w s i c a at k

  pub Reach-Inv : {w : World} {s : Shared os h} → Reach os h w s → Inv w s
  unfolding one_by_one
  Reach-Inv at_first = record {
    past = refl;
    free = λ e. refl;
    held = λ i c p e. cc;
    there = λ i e. cc;
    all_zeroed = tt;
  }
  Reach-Inv (after r step) = Step-Inv step (Reach-Inv r)
