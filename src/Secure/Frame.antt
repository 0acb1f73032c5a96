-- ===== src/Secure/Frame.antt =====
-- What a computation leaves in the store: which containers it allocated are wiped when it ends.
pub mod Fill
use go_tumbler.Base.{
  ℕ, ℤ, pos, negsuc, ◌+◌, ◌≤◌, ◌<◌, ◌≡◌, ◌≢◌, refl, sym, ap, ◌∙◌, Bool, true, false, Option, none,
  some, [], Bytes, arith, replicate, ◌==◌, if◌then◌else◌, ne→==, ==_refl, ==_iff, inl, inr, ◌⊎◌,
  Bool-cases,
}
use go_tumbler.Errors.{Done, done, Error, Result, ok, err}
use go_tumbler.Secure.World.{
  SecureBytes, World, System, M, pure, fail, lift, and_then, ◌>>=◌, ◌>>◌, call, update, ticked,
}
use go_tumbler.Secure.Container.{
  new_slice, new, new_zero, destroy, defer_destroy, borrow, borrow_fill, new_filled, clone,
  allocate, locked,
}
use native.Mathlib.Decide.{dec_lt}

-- A container after `Destroy`.
abbrev pub wiped : SecureBytes
wiped = record { buf = []; destroyed = true }

-- From `w` to `w'` no container of `w` changed, and every container allocated since is wiped.
pub record Clean (w w' : World) : Type 0 where
  pub grew : w.next ≤ w'.next
  pub kept : (h : ℕ) → h < w.next → w'.cell h ≡ w.cell h
  pub gone : (h : ℕ) → w.next ≤ h → h < w'.next → w'.cell h ≡ wiped

-- The same but for one new container, `h`, which is live.
pub record Fresh (w : World) (h : ℕ) (w' : World) : Type 0 where
  pub above : w.next ≤ h
  pub below : h < w'.next
  pub kept : (i : ℕ) → i < w.next → w'.cell i ≡ w.cell i
  pub live : (w'.cell h).destroyed ≡ false
  pub gone : (i : ℕ) → w.next ≤ i → i < w'.next → i ≢ h → w'.cell i ≡ wiped

-- Whatever the computation returns, it leaves nothing behind.
abbrev pub Frees {ℓ} : {A : Type ℓ} → M A → Type 0
Frees m = (w : World) → Clean w (m w).1

abbrev pub YieldsAt : World → Result ℕ × World → Type 0
YieldsAt w (ok h, w') = Fresh w h w'
YieldsAt w (err e, w') = Clean w w'

-- It returns one new live container and leaves nothing else behind; or fails, and leaves nothing.
abbrev pub Yields : M ℕ → Type 0
Yields m = (w : World) → YieldsAt w (m w)

pub Clean-refl : (w : World) → Clean w w
Clean-refl w = record {
  grew = omega arith;
  kept = λ h _. refl;
  gone = λ h lo hi. absurd (omega arith);
}

pub Clean-tick : (w : World) (t : ℕ) → Clean w (record w { tick = t })
Clean-tick w t = record {
  grew = omega arith;
  kept = λ h _. refl;
  gone = λ h lo hi. absurd (omega arith);
}

pub Clean-trans : {u v w : World} → Clean u v → Clean v w → Clean u w
Clean-trans {u} {v} {w} p q = record {
  grew = omega (arith, p.grew, q.grew);
  kept = λ h below. q.kept h (omega (arith, p.grew)) ∙ p.kept h below;
  gone = λ h lo hi. elim (dec_lt h v.next) [
    | yes old ↦ q.kept h old ∙ p.gone h lo old
    | no recent ↦ q.gone h (omega arith) hi
  ];
}

pub Clean-Fresh : {u v w : World} {h : ℕ} → Clean u v → Fresh v h w → Fresh u h w
Clean-Fresh {u} {v} {w} {h} p q = record {
  above = omega (arith, p.grew, q.above);
  below = q.below;
  kept = λ i below. q.kept i (omega (arith, p.grew)) ∙ p.kept i below;
  live = q.live;
  gone = λ i lo hi ne. elim (dec_lt i v.next) [
    | yes old ↦ q.kept i old ∙ p.gone i lo old
    | no recent ↦ q.gone i (omega arith) hi ne
  ];
}

pub YieldsAt-step : {u v : World} (r : Result ℕ × World) → Clean u v → YieldsAt v r → YieldsAt u r
YieldsAt-step (ok h, w) p q = Clean-Fresh p q
YieldsAt-step (err e, w) p q = Clean-trans p q

module _ {ℓ} {A : Type ℓ} where
  pub pure-Frees : (a : A) → Frees (pure a)
  pure-Frees a w = Clean-refl w

  pub lift-Frees : (r : Result A) → Frees (lift r)
  lift-Frees r w = Clean-refl w

pub fail-Yields : (e : Error) → Yields (fail e)
fail-Yields e w = Clean-refl w

module _ {ℓ κ} {A : Type ℓ} {B : Type κ} where
  and_then-Clean :
      (u : World) (r : Result A × World) (f : A → M B)
      → Clean u r.1
      → ((a : A) → Frees (f a))
      → Clean u (and_then r f).1
  and_then-Clean u (ok a, v) f p q = Clean-trans p (q a v)
  and_then-Clean u (err e, v) f p q = p

  pub bind-Frees : (m : M A) (f : A → M B) → Frees m → ((a : A) → Frees (f a)) → Frees (m >>= f)
  bind-Frees m f p q w = and_then-Clean w (m w) f (p w) q

module _ {ℓ} {A : Type ℓ} where
  and_then-YieldsAt :
      (u : World) (r : Result A × World) (f : A → M ℕ)
      → Clean u r.1
      → ((a : A) → Yields (f a))
      → YieldsAt u (and_then r f)
  and_then-YieldsAt u (ok a, v) f p q = YieldsAt-step (f a v) p (q a v)
  and_then-YieldsAt u (err e, v) f p q = p

  pub bind-Yields : (m : M A) (f : A → M ℕ) → Frees m → ((a : A) → Yields (f a)) → Yields (m >>= f)
  bind-Yields m f p q w = and_then-YieldsAt w (m w) f (p w) q

  pub borrow-Frees : (h : ℕ) (f : Bytes → M A) → ((b : Bytes) → Frees (f b)) → Frees (borrow h f)
  unfolding borrow
  borrow-Frees h f p w = elim (Bool-cases (w.cell h).destroyed) [
    | inl dead ↦ rw dead (Clean-refl w)
    | inr live ↦ rw live (p (w.cell h).buf w)
  ]

pub borrow-Yields : (h : ℕ) (f : Bytes → M ℕ) → ((b : Bytes) → Yields (f b)) → Yields (borrow h f)
unfolding borrow
borrow-Yields h f p w = elim (Bool-cases (w.cell h).destroyed) [
  | inl dead ↦ rw dead (Clean-refl w)
  | inr live ↦ rw live (p (w.cell h).buf w)
]

allocate-Fresh : (b : Bytes) (w : World) → Fresh w w.next (allocate b w).1
allocate-Fresh b w = record {
  above = omega arith;
  below = omega arith;
  kept = λ i below. rw (ne→== w.next i (λ e. omega arith));
  live = rw (==_refl w.next);
  gone = λ i lo hi ne. absurd (ne (omega arith));
}

locked-Yields : (o : Option Error) (b : Bytes) → Yields (locked o (allocate b))
locked-Yields (some e) b w = Clean-refl w
locked-Yields none b w = allocate-Fresh b w

-- A wiped container joins those that are gone.
pub destroy-Fresh : (os : System) (u v : World) (h : ℕ) → Fresh u h v → Clean u (destroy os h v).1
unfolding destroy
destroy-Fresh os u v h p = rw p.live record {
  grew = omega (arith, p.above, p.below);
  kept = λ i below. rw (ne→== h i (λ e. omega (arith, p.above))) (p.kept i below);
  gone = λ i lo hi. elim (Bool-cases (h == i)) [
    | inl same ↦ rw same
    | inr other ↦ rw other (p.gone i lo hi (λ e. ground (arith)))
  ];
}

pub Fresh-Clean : {u v w : World} {h : ℕ} → Fresh u h v → Clean v w → Fresh u h w
Fresh-Clean {u} {v} {w} {h} p q = record {
  above = p.above;
  below = omega (arith, p.below, q.grew);
  kept = λ i below. q.kept i (omega (arith, p.above, p.below)) ∙ p.kept i below;
  live = ap (λ c. c.destroyed) (q.kept h p.below) ∙ p.live;
  gone = λ i lo hi ne. elim (dec_lt i v.next) [
    | yes old ↦ q.kept i old ∙ p.gone i lo old ne
    | no recent ↦ q.gone i (omega arith) hi
  ];
}

-- The store after a new container `h`, then the rest of the function, then the deferred `Destroy`.
destroy-Fresh-Clean :
    (os : System) {u v w : World} {h : ℕ} → Fresh u h v → Clean v w → Clean u (destroy os h w).1
destroy-Fresh-Clean os {u} {v} {w} {h} p q = destroy-Fresh os u w h (Fresh-Clean p q)

destroy-Fresh-Fresh :
    (os : System) (u v w : World) (h k : ℕ)
    → Fresh u h v
    → Fresh v k w
    → Fresh u k (destroy os h w).1
unfolding destroy
destroy-Fresh-Fresh os u v w h k p q =
    let alive : (w.cell h).destroyed ≡ false = ap (λ c. c.destroyed) (q.kept h p.below) ∙ p.live in
    rw alive record {
      above = omega (arith, p.above, p.below, q.above);
      below = q.below;
      kept = λ i below.
          rw (ne→== h i (λ e. omega (arith, p.above)))
            (q.kept i (omega (arith, p.above, p.below)) ∙ p.kept i below);
      live = rw (ne→== h k (λ e. omega (arith, p.below, q.above))) q.live;
      gone = λ i lo hi ne. elim (Bool-cases (h == i)) [
        | inl same ↦ rw same
        | inr other ↦ rw other (elim (dec_lt i v.next) [
          | yes old ↦ q.kept i old ∙ p.gone i lo old (λ e. ground arith)
          | no recent ↦ q.gone i (omega arith) hi ne
        ])
      ];
    }

module _ (os : System) where
  pub new_zero-Yields : (size : ℤ) → Yields (new_zero os size)
  unfolding new_zero
  new_zero-Yields (negsuc n) w = Clean-refl w
  new_zero-Yields (pos size) w =
      YieldsAt-step (new_zero os (pos size) w) (Clean-tick w (w.tick + 1))
        (locked-Yields (os.mlock w.tick) (replicate size 0) (ticked w))

  pub new-Yields : (b : Bytes) → Yields (new os b)
  unfolding new
  new-Yields b w =
      YieldsAt-step (new os b w) (Clean-tick w (w.tick + 1))
        (locked-Yields (os.mlock w.tick) b (ticked w))

  -- `defer h.Destroy()` right behind the step that made `h`.
  module _ {ℓ} {A : Type ℓ} where
    scoped-Clean :
        (u : World) (r : Result ℕ × World) (k : ℕ → M A)
        → YieldsAt u r
        → ((h : ℕ) → Frees (k h))
        → Clean u (and_then r (λ h. defer_destroy os h (k h))).1
    unfolding defer_destroy
    scoped-Clean u (ok h, v) k p q = destroy-Fresh-Clean os p (q h v)
    scoped-Clean u (err e, v) k p q = p

    pub scoped-Frees :
        (m : M ℕ) (k : ℕ → M A)
        → Yields m
        → ((h : ℕ) → Frees (k h))
        → Frees (m >>= λ h. defer_destroy os h (k h))
    scoped-Frees m k p q w = scoped-Clean w (m w) k (p w) q

  deferred-YieldsAt :
      (u v : World) (h : ℕ) (r : Result ℕ × World)
      → Fresh u h v
      → YieldsAt v r
      → YieldsAt u (r.0, (destroy os h r.1).1)
  deferred-YieldsAt u v h (ok k, w) p q = destroy-Fresh-Fresh os u v w h k p q
  deferred-YieldsAt u v h (err e, w) p q = destroy-Fresh-Clean os p q

  scoped-YieldsAt :
      (u : World) (r : Result ℕ × World) (k : ℕ → M ℕ)
      → YieldsAt u r
      → ((h : ℕ) → Yields (k h))
      → YieldsAt u (and_then r (λ h. defer_destroy os h (k h)))
  unfolding defer_destroy
  scoped-YieldsAt u (ok h, v) k p q = deferred-YieldsAt u v h (k h v) p (q h v)
  scoped-YieldsAt u (err e, v) k p q = p

  pub scoped-Yields :
      (m : M ℕ) (k : ℕ → M ℕ)
      → Yields m
      → ((h : ℕ) → Yields (k h))
      → Yields (m >>= λ h. defer_destroy os h (k h))
  scoped-Yields m k p q w = scoped-YieldsAt w (m w) k (p w) q
