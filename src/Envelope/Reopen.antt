-- ===== src/Envelope/Reopen.antt =====
-- An envelope is opened again by a method that opens the slots of one of those that made it.
use go_tumbler.Base.{
  ℕ, ◌≡◌, ◌≢◌, refl, sym, ap, ◌∙◌, none, List, [], ◌∷◌, ◌++◌, Bytes, All, ◌==◌, ne→==, ==_iff, true,
  append_assoc, append-nil,
}
use go_tumbler.Envelope.Grow.{pair-value, made_of}
use go_tumbler.Envelope.{enroll_all, new_envelope, unlock_step, try_methods, try_slots, unlock}
use go_tumbler.Errors.{Result, done, ok}
use go_tumbler.Method.Contract.{KeepsContract}
use go_tumbler.Method.Frame.{check_ctx-Frees}
use go_tumbler.Method.Reopens.{Reopens}
use go_tumbler.Method.RoundTrip.{bind-ok, derived-ok}
use go_tumbler.Method.RoundTrip.Shaped.{check_ctx-done}
use go_tumbler.Method.{Method, check_ctx}
use go_tumbler.Secure.Frame.{Clean, Clean-refl}
use go_tumbler.Secure.Returns.{Returns, with_value, then-Returns}
use go_tumbler.Secure.World.{World, System, M}
use go_tumbler.Slot.{Slot, Envelope}
use mathlib.Core.Path.{subst}

module _ (os : System) where
  enroll_all-append :
      (dek : ℕ) (methods : List Method) (slots out : List Slot) (w w' : World)
      → enroll_all os dek methods slots w ≡ (ok out, w')
      → (after : List Slot) × (out ≡ slots ++ after)
  unfolding enroll_all
  enroll_all-append dek [] slots out w w' e =
      ([], sym (pair-value slots out w w' e) ∙ sym (append-nil slots))
  enroll_all-append dek (m ∷ ms) slots out w w' e = derived-ok (check_ctx os w) _ e λ d u _ e1.
      derived-ok (m.enroll dek u) _ e1 λ s v _ e2.
        let (after, whole) = enroll_all-append dek ms (slots ++ s ∷ []) out v w' e2 in
        (s ∷ after, whole ∙ append_assoc slots (s ∷ []) after)

  -- Of the slots that were appended to `slots`, the first of its type is the one that `m` enrolled.
  record IsPlaced (m : Method) (dek : ℕ) (w : World) (slots out : List Slot) : Type 0 where
    pub before : List Slot
    pub slot : Slot
    pub after : List Slot
    pub v : World
    pub v' : World
    pub whole : out ≡ slots ++ (before ++ slot ∷ after)
    pub others : All (λ b. b.type ≢ m.type) before
    pub clean : Clean w v
    pub enrolled : m.enroll dek v ≡ (ok slot, v')

  enroll_all-IsPlaced :
      (dek : ℕ) (pre : List Method) (m : Method) (post : List Method) (slots out : List Slot)
      (w0 w w' : World)
      → All KeepsContract pre
      → All (λ p. p.type ≢ m.type) pre
      → Clean w0 w
      → enroll_all os dek (pre ++ m ∷ post) slots w ≡ (ok out, w')
      → IsPlaced m dek w0 slots out
  unfolding enroll_all
  enroll_all-IsPlaced dek [] m post slots out w0 w w' k d clean h =
      bind-ok w0 (check_ctx os) _ clean (check_ctx-Frees os) h λ _ v clean1 _ h1.
        derived-ok (m.enroll dek v) _ h1 λ s v' enrolled h2.
          let (after, whole) = enroll_all-append dek post (slots ++ s ∷ []) out v' w' h2 in
          record {
            before = [];
            slot = s;
            after = after;
            v = v;
            v' = v';
            whole = whole ∙ append_assoc slots (s ∷ []) after;
            others = tt;
            clean = clean1;
            enrolled = enrolled;
          }
  enroll_all-IsPlaced dek (p ∷ pre) m post slots out w0 w w' (k, ks) (d, ds) clean h =
      bind-ok w0 (check_ctx os) _ clean (check_ctx-Frees os) h λ _ v clean1 _ h1.
        bind-ok w0 (p.enroll dek) _ clean1 (k.enroll_frees dek) h1 λ s v' clean2 enrolled h2.
          let r =
            enroll_all-IsPlaced dek pre m post (slots ++ s ∷ []) out w0 v' w' ks ds clean2 h2 in
          let type : s.type ≡ p.type = k.enrolls_type dek v v' s enrolled in
          record {
            before = s ∷ r.before;
            slot = r.slot;
            after = r.after;
            v = r.v;
            v' = r.v';
            whole = r.whole ∙ append_assoc slots (s ∷ []) (r.before ++ r.slot ∷ r.after);
            others = ((λ e. d (sym type ∙ e)), r.others);
            clean = r.clean;
            enrolled = r.enrolled;
          }

  try_slots-skip :
      (m : Method) (before rest : List Slot)
      → All (λ b. b.type ≢ m.type) before
      → try_slots os (m ∷ []) (before ++ rest) ≡ try_slots os (m ∷ []) rest
  unfolding try_slots try_methods
  try_slots-skip m [] rest k = refl
  try_slots-skip m (b ∷ before) rest (k, ks) =
      rw (ne→== m.type b.type (λ e. k (sym e))) (try_slots-skip m before rest ks)

  pub unlock_step-Returns :
      (b : Bytes) (r : Result ℕ × World) (later : M ℕ)
      → Returns b r
      → Returns b (unlock_step os r later)
  unlock_step-Returns b r later (h, value, cell) =
      subst (λ x. Returns b (unlock_step os x later)) (sym (with_value r h value)) (h, refl, cell)

  -- The first slot of the method's type is opened.
  pub unlock-first :
      (e : Envelope) (before : List Slot) (s : Slot) (after : List Slot) (m : Method) (u : World)
      (pt : Bytes)
      → e.slots ≡ before ++ s ∷ after
      → All (λ b. b.type ≢ m.type) before
      → s.type ≡ m.type
      → os.ctx_err u.tick ≡ none
      → Returns pt (m.unlock s (check_ctx os u).1)
      → Returns pt (unlock os e (m ∷ []) u)
  unfolding unlock try_slots try_methods
  unlock-first e before s after m u pt whole others type awake opens =
      let skipped : try_slots os (m ∷ []) e.slots ≡ try_slots os (m ∷ []) (s ∷ after) =
        ap (try_slots os (m ∷ [])) whole ∙ try_slots-skip m before (s ∷ after) others in
      let fits : (m.type == s.type) ≡ true = (==_iff m.type s.type).1 (sym type) in
      let first : Returns pt (try_slots os (m ∷ []) (s ∷ after) u) = rw fits (
        then-Returns pt (check_ctx os) _ u done (check_ctx-done os u awake)
          (unlock_step-Returns pt (m.unlock s (check_ctx os u).1) _ opens)) in
      subst (λ f. Returns pt (f u)) (sym skipped) first

  -- An envelope that `new_envelope` returned is unlocked by any method of the type of `m` that opens
  -- the slots that `m` enrolls: `unlock` returns the data key in a new live container, where `m` is
  -- the first method of its type among those that made the envelope, these keep to their contract
  -- and the context is not done.
  pub unlock-new_envelope :
      (dek policy : ℕ) (pre : List Method) (m : Method) (post : List Method) (m' : Method)
      (e : Envelope) (w w' u : World) (pt : Bytes)
      → All KeepsContract pre
      → KeepsContract m
      → All (λ p. p.type ≢ m.type) pre
      → m'.type ≡ m.type
      → Reopens m m' dek pt w u
      → os.ctx_err u.tick ≡ none
      → new_envelope os dek policy (pre ++ m ∷ post) w ≡ (ok e, w')
      → Returns pt (unlock os e (m' ∷ []) u)
  unlock-new_envelope dek policy pre m post m' e w w' u pt ks k others type reopens awake h =
      let (v, enrolls, _, _, _, _) = made_of os dek policy (pre ++ m ∷ post) e w w' h in
      let p =
        enroll_all-IsPlaced dek pre m post [] e.slots w w v ks others (Clean-refl w) enrolls in
      unlock-first e p.before p.slot p.after m' u pt p.whole
        (subst (λ t. All (λ b. b.type ≢ t) p.before) (sym type) p.others)
        (k.enrolls_type dek p.v p.v' p.slot p.enrolled ∙ sym type) awake
        (reopens p.slot p.v p.v' (check_ctx os u).1 p.clean (check_ctx-Frees os u) p.enrolled)
