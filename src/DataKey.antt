-- ===== src/DataKey.antt =====
-- tumbler.go: `GenerateDEK`.
use go_tumbler.Base.{
  ℕ, ℤ, pos, negsuc, pos_part, leb_ℤ, ltb_ℤ, leb, ◌+◌, ◌≤◌, ◌≡◌, ◌⊎◌, inl, inr, refl, sym, ap, ◌∙◌,
  false, ◌||◌, some, arith, length, Bytes, if◌then◌else◌, ltb, Bool-cases, Option-cases,
}
use go_tumbler.Errors.{Error, dek_size, Result, ok, err}
use go_tumbler.Method.Frame.{rand_bytes-Frees}
use go_tumbler.Method.{rand_bytes}
use go_tumbler.Secure.Container.{new_filled}
use go_tumbler.Secure.Filled.{zeroed, new_filled-ok, new_filled-locked, new_filled-err}
use go_tumbler.Secure.Frame.{YieldsAt}
use go_tumbler.Secure.Frame.Fill.{new_filled-Yields}
use go_tumbler.Secure.World.{World, System, M, fail, ticked}
use go_tumbler.Types.{max_dek_len}

-- The callback is handed the whole payload, of `size` bytes.
unfoldable pub generate_dek : System → ℤ → M ℕ
generate_dek os size w =
    if leb_ℤ size (pos 0) || ltb_ℤ (pos max_dek_len) size
    then fail dek_size w
    else new_filled os (pos_part size) (rand_bytes os (pos_part size)) w

-- The sizes that a data key may have.
abbrev pub IsDekSize : ℤ → Type 0
IsDekSize (negsuc n) = ⊥
IsDekSize (pos n) = (1 ≤ n) × (n ≤ 240)

-- The key is in the container that was next, live, of the size asked for, and what it holds is what
-- crypto/rand answered.
pub record IsDrawn (os : System) (size : ℤ) (w : World) (r : Result ℕ × World) : Type 0 where
  pub returned : r.0 ≡ ok w.next
  pub live : (r.1.cell w.next).destroyed ≡ false
  pub sized : pos (length (r.1.cell w.next).buf) ≡ size
  pub drawn : os.rand (w.tick + 1) (pos_part size) ≡ ok (r.1.cell w.next).buf

-- The error is the one of `mlock`, or the one of crypto/rand.
abbrev pub IsSystemError : System → ℤ → World → Error → Type 0
IsSystemError os size w e =
    (os.mlock w.tick ≡ some e) ⊎ (os.rand (w.tick + 1) (pos_part size) ≡ err e)

Result-cases : (r : Result Bytes) → ((e : Error) × (r ≡ err e)) ⊎ ((b : Bytes) × (r ≡ ok b))
Result-cases (err e) = inl (e, refl)
Result-cases (ok b) = inr (b, refl)

filled_cases :
    (os : System) (n : ℕ) (w : World)
    → ((t m : ℕ) (b : Bytes) → os.rand t m ≡ ok b → length b ≡ m)
    → ((e : Error) × IsSystemError os (pos n) w e
        × ((new_filled os n (rand_bytes os n) w).0 ≡ err e))
      ⊎ IsDrawn os (pos n) w (new_filled os n (rand_bytes os n) w)
unfolding rand_bytes
filled_cases os n w draws = elim (Option-cases (os.mlock w.tick)) [
  | inr (e, refuses) ↦
      inl (e, inl refuses, rw (new_filled-locked os n (rand_bytes os n) e w refuses) refl)
  | inl locks ↦ elim (Result-cases (os.rand (w.tick + 1) n)) [
    | inl (e, fails) ↦ inl (
      e,
      inr fails,
      new_filled-err os n (rand_bytes os n) e w (ticked (zeroed n w)) locks (rw fails refl),
    )
    | inr (b, drew) ↦
        let (made, holds, live) =
          new_filled-ok os n (rand_bytes os n) b (w.tick + 1 + 1) w locks (rw drew refl)
            (draws _ n b drew) in
        inr (record {
          returned = made;
          live = live;
          sized = ap pos (ap length holds ∙ draws _ n b drew);
          drawn = drew ∙ sym (ap ok holds);
        })
  ]
]

-- `generate_dek` refuses, with `dek_size` and the store as it was, each size that is negative, 0 or
-- above 240, and no other. At any other size it leaves nothing behind but the container that it
-- returns; it fails only with the error of `mlock` or of crypto/rand; and otherwise it returns a
-- live container of exactly `size` bytes, which are those that crypto/rand drew; where crypto/rand
-- draws as many bytes as it is asked for.
pub generate_dek_cases :
    (os : System) (size : ℤ) (w : World)
    → ((t n : ℕ) (b : Bytes) → os.rand t n ≡ ok b → length b ≡ n)
    → ((¬ IsDekSize size) × (generate_dek os size w ≡ (err dek_size, w)))
      ⊎ (IsDekSize size
          × YieldsAt w (generate_dek os size w)
          × (((e : Error) × IsSystemError os size w e × ((generate_dek os size w).0 ≡ err e))
              ⊎ IsDrawn os size w (generate_dek os size w)))
unfolding generate_dek
generate_dek_cases os (negsuc n) w draws = inl ((λ h. h), refl)
generate_dek_cases os (pos n) w draws = elim (Bool-cases (leb n 0 || ltb max_dek_len n)) [
  | inl refused ↦ rw refused (inl ((λ h. ground arith), refl))
  | inr fine ↦ rw fine (
      inr (
        (ground arith, ground arith),
        new_filled-Yields os n (rand_bytes os n) (rand_bytes-Frees os n) w,
        filled_cases os n w draws,
      ))
]
