-- ===== src/Secure/Returns.antt =====
-- A computation that returns a container with a known payload.
use go_tumbler.Base.{
  ℕ, ◌<◌, ◌≡◌, ◌≢◌, refl, sym, ap, ◌∙◌, false, none, Bytes, arith, ==_refl, ne→==, Bool-cases, inl,
  inr,
}
use go_tumbler.Errors.{Result, ok}
use go_tumbler.Secure.Container.{new, new_slice, destroy, defer_destroy, borrow}
use go_tumbler.Secure.Frame.{Fresh, Yields, YieldsAt, Clean}
use go_tumbler.Secure.World.{SecureBytes, World, System, M, and_then, ◌>>=◌}
use mathlib.Core.Path.{subst}

abbrev pub alive : Bytes → SecureBytes
alive b = record { buf = b; destroyed = false }

pub with_value {ℓ} : {A : Type ℓ} (r : Result A × World) (a : A) → r.0 ≡ ok a → r ≡ (ok a, r.1)
with_value r a e = ap (λ x. (x, r.1)) e

pub cell_alive : (s : SecureBytes) (b : Bytes) → s.buf ≡ b → s.destroyed ≡ false → s ≡ alive b
cell_alive s b e live = λ i. record { buf = e i; destroyed = live i }

pub value-Fresh :
    (w : World) (h : ℕ) (r : Result ℕ × World) → r.0 ≡ ok h → YieldsAt w r → Fresh w h r.1
value-Fresh w h r e y = subst (YieldsAt w) (with_value r h e) y

-- The result is a container that holds `b`.
abbrev pub Returns : Bytes → Result ℕ × World → Type 0
Returns b r = (h : ℕ) × (r.0 ≡ ok h) × (r.1.cell h ≡ alive b)

-- The store `w` has the live container `h` with the payload `b`.
abbrev pub Holds : World → ℕ → Bytes → Type 0
Holds w h b = (h < w.next) × (w.cell h ≡ alive b)

pub Holds-Clean : {u w : World} {h : ℕ} {b : Bytes} → Clean u w → Holds u h b → Holds w h b
Holds-Clean {u} {w} {h} {b} p (below, cell) = (omega (arith, below, p.grew), p.kept h below ∙ cell)

pub Holds-Fresh : {u w : World} {h k : ℕ} {b : Bytes} → Fresh u k w → Holds u h b → Holds w h b
Holds-Fresh {u} {w} {h} {k} {b} p (below, cell) =
    (omega (arith, below, p.above, p.below), p.kept h below ∙ cell)

pub borrow-alive {ℓ} :
    {A : Type ℓ} (h : ℕ) (f : Bytes → M A) (w : World) (b : Bytes)
    → w.cell h ≡ alive b
    → borrow h f w ≡ f b w
unfolding borrow
borrow-alive h f w b cell = rw cell

destroy-other : (os : System) (w : World) (h k : ℕ) → h ≢ k → (destroy os h w).1.cell k ≡ w.cell k
unfolding destroy
destroy-other os w h k other = elim (Bool-cases (w.cell h).destroyed) [
  | inl dead ↦ rw dead
  | inr live ↦ rw (live, ne→== h k other)
]

-- A run that succeeded, of a computation that returns `b`.
pub ran-Holds :
    (m : M ℕ) (b : Bytes) (u v : World) (h : ℕ)
    → Yields m
    → Returns b (m u)
    → m u ≡ (ok h, v)
    → Fresh u h v × Holds v h b
ran-Holds m b u v h y r e =
    let fresh : Fresh u h v = subst (YieldsAt u) e (y u) in
    let (j, value, cell) = subst (Returns b) e r in
    let same : j ≡ h = cc in (fresh, (fresh.below, subst (λ x. v.cell x ≡ alive b) same cell))

-- A step that succeeds, and the rest of the function.
pub then-Returns {ℓ} :
    {A : Type ℓ} (b : Bytes) (m : M A) (f : A → M ℕ) (u : World) (a : A)
    → (m u).0 ≡ ok a
    → Returns b (f a (m u).1)
    → Returns b ((m >>= f) u)
then-Returns b m f u a value later =
    subst (λ r. Returns b (and_then r f)) (sym (with_value (m u) a value)) later

module _ (os : System) where
  pub new-Returns : (b : Bytes) (w : World) → os.mlock w.tick ≡ none → Returns b (new os b w)
  unfolding new new_slice
  new-Returns b w locks = (w.next, rw locks refl, rw (locks, ==_refl w.next) refl)

  pub deferred-Returns :
      (b : Bytes) (h : ℕ) (u v : World) (r : Result ℕ × World)
      → Fresh u h v
      → YieldsAt v r
      → Returns b r
      → Returns b (r.0, (destroy os h r.1).1)
  deferred-Returns b h u v r p y (k, value, cell) =
      let q : Fresh v k r.1 = value-Fresh v k r value y in
      (k, value, destroy-other os r.1 h k (λ e. omega (arith, p.below, q.above)) ∙ cell)

  -- A container with `raw` is made, the rest of the function returns one with `b`, and the first one
  -- is destroyed.
  pub scoped-Returns :
      (raw b : Bytes) (m : M ℕ) (f : ℕ → M ℕ) (u : World)
      → Yields m
      → ((h : ℕ) → Yields (f h))
      → Returns raw (m u)
      → ((h : ℕ) (v : World) → Fresh u h v → v.cell h ≡ alive raw → Returns b (f h v))
      → Returns b ((m >>= λ h. defer_destroy os h (f h)) u)
  unfolding defer_destroy
  scoped-Returns raw b m f u y z (h, value, cell) later =
      let same : m u ≡ (ok h, (m u).1) = with_value (m u) h value in
      let fresh : Fresh u h (m u).1 = value-Fresh u h (m u) value (y u) in
      subst (λ r. Returns b (and_then r (λ x. defer_destroy os x (f x)))) (sym same)
        (deferred-Returns b h u (m u).1 (f h (m u).1) fresh (z h (m u).1)
          (later h (m u).1 fresh cell))
