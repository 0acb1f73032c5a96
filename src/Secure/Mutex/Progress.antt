-- ===== src/Secure/Mutex/Progress.antt =====
-- How far a call has got that holds the mutex, and that each of its steps gets it further.
use go_tumbler.Base.{
  ℕ, ◌+◌, ◌≤◌, ◌≡◌, ◌≢◌, ◌⊎◌, inl, inr, refl, sym, ap, ◌∙◌, true, false, none, some, List, [],
  Bytes, length, take, replicate, get_or, All, ◌==◌, Bool-cases, ==_iff, ==_refl, arith,
  length-replicate,
}
use go_tumbler.Errors.{done, ok, err}
use go_tumbler.Secure.Container.{copy_into, destroy, borrow, borrow_fill, len, new, clone}
use go_tumbler.Secure.Mutex.Bytewise.{
  read-next, take-whole, copied, copy_into-nil, copy_into-next, length-copy_into, zeroed,
  zeroed-next, zeroed-all,
}
use go_tumbler.Secure.Mutex.{
  Call, copy, container, copying, begin_copy, copy_byte, end_copy, read, measure, wipe, fill,
  Answer, status, Phase, entered, reading, filling, wiping, leaving, set_at, Move, refuse,
  begin_read, read_byte, end_read, begin_fill, fill_byte, end_fill, begin_measure, begin_wipe,
  wipe_byte, end_wipe, alone, refusal, got, number, set_buf,
}
use go_tumbler.Secure.World.{SecureBytes, World, System, update}
use mathlib.Core.Path.{subst}

pub update-cases {ℓ} :
    {A : Type ℓ} (f : ℕ → A) (i : ℕ) (x : A) (j : ℕ)
    → ((i ≡ j) × (update f i x j ≡ x)) ⊎ ((i ≢ j) × (update f i x j ≡ f j))
update-cases f i x j = elim (Bool-cases (i == j)) [
  | inl same ↦ inl ((==_iff i j).0 same, rw same refl)
  | inr other ↦ inr ((λ e. (let h = (==_iff i j).1 e in (cc))), rw other refl)
]

update-again {ℓ} :
    {A : Type ℓ} (f : ℕ → A) (i : ℕ) (x y : A) → update (update f i x) i y ≡ update f i y
update-again f i x y = λ k j. again j k
  where
    again : (j : ℕ) → update (update f i x) i y j ≡ update f i y j
    again j = elim (Bool-cases (i == j)) [ inl same ↦ rw same refl | inr other ↦ rw other refl ]

-- Every byte of a buffer is zero.
abbrev pub IsZeroed : Bytes → Type 0
IsZeroed b = b ≡ replicate (length b) 0

module _ (os : System) (h : ℕ) where
  -- How far a call has got that took the mutex in `w`, if the store is `v` now.
  abbrev pub Progress : World → Call → Phase → World → Type 0
  Progress w c entered v = v ≡ w
  Progress w read (reading acc) v =
      (v ≡ w) × ((v.cell h).destroyed ≡ false) × (acc ≡ take (length acc) (v.cell h).buf)
  Progress w copy (copying acc) v =
      (v ≡ w) × ((v.cell h).destroyed ≡ false) × (acc ≡ take (length acc) (v.cell h).buf)
  Progress w (fill src) (filling n) v =
      ((w.cell h).destroyed ≡ false) × (v ≡ set_buf os h w (copy_into (w.cell h).buf (take n src)))
  Progress w wipe (wiping n) v =
      ((w.cell h).destroyed ≡ false) × (v ≡ set_buf os h w (zeroed n (w.cell h).buf))
  Progress w c (leaving a) v = alone os h c w ≡ (a, v)
  Progress w c p v = ⊥

  set_buf-buf : (w : World) (b : Bytes) → ((set_buf os h w b).cell h).buf ≡ b
  set_buf-buf w b = rw (==_refl h) refl

  set_buf-again : (w : World) (a b : Bytes) → set_buf os h (set_buf os h w a) b ≡ set_buf os h w b
  set_buf-again w a b =
      ap (λ f. record w { cell = f })
        (update-again w.cell h (record { buf = a; destroyed = false })
          (record { buf = b; destroyed = false }))

  record_of :
      (s : SecureBytes) → s.destroyed ≡ false → s ≡ record { buf = s.buf; destroyed = false }
  record_of s live = λ k. record { buf = s.buf; destroyed = live k }

  set_buf-same : (w : World) → (w.cell h).destroyed ≡ false → w ≡ set_buf os h w (w.cell h).buf
  set_buf-same w live = λ k. record w { cell = λ j. same j k }
    where
      same :
          (j : ℕ)
          → w.cell j ≡ update w.cell h (record { buf = (w.cell h).buf; destroyed = false }) j
      same j = elim (update-cases w.cell h (record { buf = (w.cell h).buf; destroyed = false }) j) [
        | inl (here, e) ↦
            subst (λ i. w.cell i ≡ record { buf = (w.cell h).buf; destroyed = false }) here
              (record_of (w.cell h) live)
            ∙ sym e
        | inr (other, e) ↦ sym e
      ]

  pub refused :
      (w : World) (c : Call) → (w.cell h).destroyed ≡ true → alone os h c w ≡ (refusal c, w)
  unfolding alone borrow borrow_fill len destroy clone
  refused w read dead = rw dead refl
  refused w (fill src) dead = rw dead refl
  refused w measure dead = rw dead refl
  refused w copy dead = rw dead refl
  refused w wipe dead = rw dead refl

  filled :
      (w : World) (src : Bytes)
      → (w.cell h).destroyed ≡ false
      → alone os h (fill src) w ≡ (status (ok done), set_buf os h w (copy_into (w.cell h).buf src))
  unfolding alone borrow_fill
  filled w src live = rw live refl

  -- What `Destroy` answers and leaves in the end.
  abbrev wiped_from : World → Answer × World
  wiped_from w = (
    status (elim (os.munlock w.tick) [ some e ↦ err e | none ↦ ok done ]),
    record w { cell = update w.cell h (record { buf = []; destroyed = true }); tick = w.tick + 1 },
  )

  wiped :
      (w : World) (b : Bytes)
      → (w.cell h).destroyed ≡ false
      → alone os h wipe w ≡ wiped_from (set_buf os h w b)
  unfolding alone destroy
  wiped w b live = rw live (
      ap
        (λ f. (
          status (elim (os.munlock w.tick) [ some e ↦ err e | none ↦ ok done ]),
          record w { cell = f; tick = w.tick + 1 },
        ))
        (sym (
          update-again w.cell h (record { buf = b; destroyed = false })
            (record { buf = []; destroyed = true }))))

  whole_read :
      (w : World) → (w.cell h).destroyed ≡ false → alone os h read w ≡ (got (ok (w.cell h).buf), w)
  unfolding alone borrow
  whole_read w live = rw live refl

  cloned :
      (w : World)
      → (w.cell h).destroyed ≡ false
      → alone os h copy w ≡ (container (new os (w.cell h).buf w).0, (new os (w.cell h).buf w).1)
  unfolding alone clone borrow
  cloned w live = rw live refl

  measured :
      (w : World)
      → (w.cell h).destroyed ≡ false
      → alone os h measure w ≡ (number (length (w.cell h).buf), w)
  unfolding alone len
  measured w live = rw live refl

  -- Writing to a buffer that was written before.
  write-again :
      (w v : World) (b : Bytes) (f : Bytes → Bytes)
      → v ≡ set_buf os h w b
      → set_buf os h v (f (v.cell h).buf) ≡ set_buf os h w (f b)
  write-again w v b f e =
      ap (λ x. set_buf os h x (f (x.cell h).buf)) e
      ∙ ap (λ c. set_buf os h (set_buf os h w b) (f c)) (set_buf-buf w b)
      ∙ set_buf-again w b (f b)

  size_kept : (w v : World) (b : Bytes) → v ≡ set_buf os h w b → length (v.cell h).buf ≡ length b
  size_kept w v b e = ap (λ x. length (x.cell h).buf) e ∙ ap length (set_buf-buf w b)

  pub Move-Progress :
      (w v v' : World) (c : Call) (p p' : Phase) (d : List Bytes)
      → Move os h v c p v' p' d
      → Progress w c p v
      → Progress w c p' v' × All IsZeroed d
  unfolding alone
  Move-Progress w v _ _ _ _ _ (refuse c dead) e = (
    refused w c (ap (λ x. (x.cell h).destroyed) (sym e) ∙ dead) ∙ ap (λ x. (refusal c, x)) (sym e),
    tt,
  )
  Move-Progress w v _ _ _ _ _ (begin_read live) e = ((e, live, refl), tt)
  Move-Progress w v _ _ _ _ _ (read_byte acc more) (e, live, sofar) =
      ((e, live, read-next acc (v.cell h).buf sofar more), tt)
  Move-Progress w v _ _ _ _ _ (end_read acc all) (e, live, sofar) = (
    subst (λ x. alone os h read x ≡ (got (ok acc), v)) e
        (whole_read v live
          ∙ ap (λ b. (got (ok b), v)) (sym (sofar ∙ take-whole (length acc) (v.cell h).buf all))),
    tt,
  )
  Move-Progress w v _ _ _ _ _ (begin_fill src live) e = (
    subst (λ x. ((x.cell h).destroyed ≡ false) × (v ≡ set_buf os h x (copy_into (x.cell h).buf [])))
        e (live, set_buf-same v live ∙ ap (set_buf os h v) (sym (copy_into-nil (v.cell h).buf))),
    tt,
  )
  Move-Progress w v _ _ _ _ _ (fill_byte src n more room) (live, e) = (
    (
      live,
      write-again w v (copy_into (w.cell h).buf (take n src)) (set_at n (get_or src n 0)) e
          ∙ ap (set_buf os h w) (
              copy_into-next n (w.cell h).buf src more (
                omega
                  (arith, room, size_kept w v _ e, length-copy_into (w.cell h).buf (take n src)))),
    ),
    tt,
  )
  Move-Progress w v _ _ _ _ _ (end_fill src n over) (live, e) = (
    filled w src live
        ∙ ap (λ x. (status (ok done), x))
            (ap (set_buf os h w) (
                sym (
                  copied n (w.cell h).buf src (elim over [
                    | inl short ↦ inl short
                    | inr full ↦ inr (
                        omega (
                          arith,
                          full,
                          size_kept w v _ e,
                          length-copy_into (w.cell h).buf (take n src),
                        ))
                  ])))
              ∙ sym e),
    tt,
  )
  Move-Progress w v _ _ _ _ _ (begin_measure live) e = (
    subst (λ x. alone os h measure x ≡ (number (length (v.cell h).buf), v)) e (measured v live),
    tt,
  )
  Move-Progress w v _ _ _ _ _ (begin_copy live) e = ((e, live, refl), tt)
  Move-Progress w v _ _ _ _ _ (copy_byte acc more) (e, live, sofar) =
      ((e, live, read-next acc (v.cell h).buf sofar more), tt)
  Move-Progress w v _ _ _ _ _ (end_copy acc all) (e, live, sofar) =
      let whole = sofar ∙ take-whole (length acc) (v.cell h).buf all in
      (
        subst (λ x. alone os h copy x ≡ (container (new os acc v).0, (new os acc v).1)) e
            (cloned v live ∙ ap (λ b. (container (new os b v).0, (new os b v).1)) (sym whole)),
        tt,
      )
  Move-Progress w v _ _ _ _ _ (begin_wipe live) e = (
    subst (λ x. ((x.cell h).destroyed ≡ false) × (v ≡ set_buf os h x (zeroed 0 (x.cell h).buf))) e
        (live, set_buf-same v live ∙ ap (set_buf os h v) (sym (copy_into-nil (v.cell h).buf))),
    tt,
  )
  Move-Progress w v _ _ _ _ _ (wipe_byte n more) (live, e) = (
    (
      live,
      write-again w v (zeroed n (w.cell h).buf) (set_at n 0) e
          ∙ ap (set_buf os h w) (
              zeroed-next n (w.cell h).buf (
                omega (
                  arith,
                  more,
                  size_kept w v _ e,
                  length-copy_into (w.cell h).buf (replicate n 0),
                ))),
    ),
    tt,
  )
  Move-Progress w v _ _ _ _ _ (end_wipe n all) (live, e) =
      let b = (w.cell h).buf in
      let all_of : length b ≤ n =
        omega (arith, all, size_kept w v _ e, length-copy_into b (replicate n 0)) in
      (
        subst (λ x. alone os h wipe w ≡ wiped_from x) (sym e) (wiped w (zeroed n b) live),
        (
          subst (λ x. IsZeroed (x.cell h).buf) (sym e)
              (subst IsZeroed (sym (set_buf-buf w (zeroed n b) ∙ zeroed-all n b all_of))
                (ap (λ k. replicate k 0) (sym (length-replicate (length b) 0)))),
          tt,
        ),
      )
