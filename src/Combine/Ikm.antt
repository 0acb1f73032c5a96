-- ===== src/Combine/Ikm.antt =====
-- The input keying material: which bytes `build_ikm` fills its container with, and that they tell
-- any two choices of factors apart.
use go_tumbler.Base.{
  ℕ, suc, ◌+◌, ◌≤◌, ◌<◌, ◌≡◌, refl, sym, ap, ◌∙◌, false, Option, none, some, List, [], ◌∷◌, ◌++◌,
  Bytes, length, All, arith, ne→==, length-append,
}
use go_tumbler.Base.Binary.{be16}
use go_tumbler.Combine.{Crypto, IkmInputs, label_ikm, roles, roles_size, write_roles, build_ikm}
use go_tumbler.Errors.{ok}
use go_tumbler.Secure.Container.{borrow, len}
use go_tumbler.Secure.Filled.{zeroed, new_filled-ok}
use go_tumbler.Secure.World.{World, System}

-- The layout of the roles: a presence byte, the length and the secret of each.
abbrev pub role_bytes : List (Option Bytes) → Bytes
role_bytes [] = []
role_bytes (none ∷ rs) = 0 ∷ be16 0 ++ role_bytes rs
role_bytes (some s ∷ rs) = 1 ∷ be16 (length s) ++ (s ++ role_bytes rs)

abbrev pub ikm_bytes : List (Option Bytes) → Bytes
ikm_bytes rs = label_ikm ++ role_bytes rs

-- A secret that the length prefix can express.
abbrev pub IsShort : Option Bytes → Type 0
IsShort none = Unit
IsShort (some s) = length s < 65536

append-injective : (a b x y : Bytes) → length a ≡ length b → a ++ x ≡ b ++ y → (a ≡ b) × (x ≡ y)
append-injective [] [] x y l e = (refl, e)
append-injective [] (t ∷ b) x y l e = absurd (omega arith)
append-injective (s ∷ a) [] x y l e = absurd (omega arith)
append-injective (s ∷ a) (t ∷ b) x y l e =
    let tails : a ++ x ≡ b ++ y = cc in
    let heads : s ≡ t = cc in
    let (same, rest) = append-injective a b x y (omega arith) tails in (cc, rest)

role_bytes-injective :
    (xs ys : List (Option Bytes))
    → length xs ≡ length ys
    → All IsShort xs
    → All IsShort ys
    → role_bytes xs ≡ role_bytes ys
    → xs ≡ ys
role_bytes-injective [] [] l h k e = refl
role_bytes-injective [] (_ ∷ ys) l h k e = absurd (omega arith)
role_bytes-injective (_ ∷ xs) [] l h k e = absurd (omega arith)
role_bytes-injective (none ∷ xs) (none ∷ ys) l (h, hs) (k, ks) e =
    let (_, rest) =
      append-injective (0 ∷ be16 0) (0 ∷ be16 0) (role_bytes xs) (role_bytes ys) refl e in
    ap (◌∷◌ none) (role_bytes-injective xs ys (omega arith) hs ks rest)
role_bytes-injective (none ∷ xs) (some t ∷ ys) l (h, hs) (k, ks) e = absurd (ground arith)
role_bytes-injective (some s ∷ xs) (none ∷ ys) l (h, hs) (k, ks) e = absurd (ground arith)
role_bytes-injective (some s ∷ xs) (some t ∷ ys) l (h, hs) (k, ks) e =
    let (prefix, rest) =
      append-injective (1 ∷ be16 (length s)) (1 ∷ be16 (length t)) (s ++ role_bytes xs)
        (t ++ role_bytes ys) refl e in
    let long : length s ≡ length t = ground arith in
    let (same, later) = append-injective s t (role_bytes xs) (role_bytes ys) long rest in
    let tail = role_bytes-injective xs ys (omega arith) hs ks later in cc

-- The secrets that the roles' containers hold.
abbrev pub held : List (Option ℕ) → World → List (Option Bytes)
held [] w = []
held (none ∷ rs) w = none ∷ held rs w
held (some h ∷ rs) w = some (w.cell h).buf ∷ held rs w

length-held : (rs : List (Option ℕ)) (w : World) → length (held rs w) ≡ length rs
length-held [] w = refl
length-held (none ∷ rs) w = ap suc (length-held rs w)
length-held (some h ∷ rs) w = ap suc (length-held rs w)

-- The container of the role, if it has one, is allocated and live.
abbrev pub IsLive : World → Option ℕ → Type 0
IsLive w none = Unit
IsLive w (some h) = (h < w.next) × ((w.cell h).destroyed ≡ false)

write_roles-held :
    (rs : List (Option ℕ)) (w : World)
    → All (IsLive w) rs
    → write_roles rs w ≡ (ok (role_bytes (held rs w)), w)
unfolding write_roles borrow
write_roles-held [] w k = refl
write_roles-held (none ∷ rs) w (k, ks) = rw (write_roles-held rs w ks)
write_roles-held (some h ∷ rs) w (k, ks) = rw (k.1, write_roles-held rs w ks)

roles_size-held :
    (rs : List (Option ℕ)) (w : World)
    → All (IsLive w) rs
    → length (role_bytes (held rs w)) ≡ roles_size rs w
unfolding roles_size len
roles_size-held [] w k = refl
roles_size-held (none ∷ rs) w (k, ks) = omega (arith, roles_size-held rs w ks)
roles_size-held (some h ∷ rs) w (k, ks) =
    rw k.1 (
      omega (arith, roles_size-held rs w ks, length-append (w.cell h).buf (role_bytes (held rs w))))

-- Cells below `next` are as they were once a container is allocated.
pub held-below :
    (rs : List (Option ℕ)) (u w : World)
    → ((h : ℕ) → h < u.next → w.cell h ≡ u.cell h)
    → All (IsLive u) rs
    → held rs w ≡ held rs u
held-below [] u w same k = refl
held-below (none ∷ rs) u w same (k, ks) = ap (◌∷◌ none) (held-below rs u w same ks)
held-below (some h ∷ rs) u w same (k, ks) = rw (same h k.0, held-below rs u w same ks)

pub IsLive-below :
    (rs : List (Option ℕ)) (u w : World)
    → u.next ≤ w.next
    → ((h : ℕ) → h < u.next → w.cell h ≡ u.cell h)
    → All (IsLive u) rs
    → All (IsLive w) rs
IsLive-below [] u w grew same k = tt
IsLive-below (none ∷ rs) u w grew same (k, ks) = (tt, IsLive-below rs u w grew same ks)
IsLive-below (some h ∷ rs) u w grew same (k, ks) = (
  (omega (arith, grew, k.0), ap (λ c. c.destroyed) (same h k.0) ∙ k.1),
  IsLive-below rs u w grew same ks,
)

module _ (os : System) where
  module _ (c : Crypto) where
    -- Where the memory can be locked and the factors' containers are live, `build_ikm` succeeds
    -- and its container holds the label and, for each role in order, a presence byte, the length
    -- of the secret in two bytes and the secret.
    pub build_ikm-ikm_bytes :
        (i : IkmInputs) (w : World)
        → os.mlock w.tick ≡ none
        → All (IsLive w) (roles i)
        → ((build_ikm os c i w).0 ≡ ok w.next)
          × ((((build_ikm os c i w).1).cell w.next).buf ≡ ikm_bytes (held (roles i) w))
    unfolding build_ikm
    build_ikm-ikm_bytes i w locks live =
        let size = length label_ikm + roles_size (roles i) w in
        let same : (h : ℕ) → h < w.next → (zeroed size w).cell h ≡ w.cell h =
          λ h below. rw (ne→== w.next h (λ e. omega arith)) in
        let written =
          write_roles-held (roles i) (zeroed size w)
            (IsLive-below (roles i) w (zeroed size w) (omega arith) same live) in
        let filled =
          new_filled-ok os size _ (ikm_bytes (held (roles i) w)) (w.tick + 1) w locks
            (rw (written, held-below (roles i) w (zeroed size w) same live))
            (omega (
              arith,
              length-append label_ikm (role_bytes (held (roles i) w)),
              roles_size-held (roles i) w live,
            )) in
        (filled.0, filled.1)

    -- Two choices of factors, of secrets below 64 KiB, for which `build_ikm` makes containers of
    -- the same bytes are the same choice: each role is present in both or in neither, with the
    -- same secret.
    pub build_ikm-injective :
        (i j : IkmInputs) (u w : World)
        → os.mlock u.tick ≡ none
        → os.mlock w.tick ≡ none
        → All (IsLive u) (roles i)
        → All (IsLive w) (roles j)
        → All IsShort (held (roles i) u)
        → All IsShort (held (roles j) w)
        → (((build_ikm os c i u).1).cell u.next).buf ≡ (((build_ikm os c j w).1).cell w.next).buf
        → held (roles i) u ≡ held (roles j) w
    build_ikm-injective i j u w lock_u lock_w live_i live_j short_i short_j e =
        let e_u = (build_ikm-ikm_bytes i u lock_u live_i).1 in
        let e_w = (build_ikm-ikm_bytes j w lock_w live_j).1 in
        let (_, same) = append-injective label_ikm label_ikm _ _ refl (sym e_u ∙ e ∙ e_w) in
        role_bytes-injective (held (roles i) u) (held (roles j) w)
          (length-held (roles i) u ∙ sym (length-held (roles j) w)) short_i short_j same
