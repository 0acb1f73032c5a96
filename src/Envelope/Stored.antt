-- ===== src/Envelope/Stored.antt =====
-- An envelope that was made or grown by its operations can be written, and read back.
use go_tumbler.Base.{
  ℕ, ◌≤◌, ◌<◌, ◌≡◌, ◌≢◌, refl, sym, ap, ◌∙◌, true, List, [], ◌∷◌, ◌++◌, length, All, All-append,
  length-append, arith,
}
use go_tumbler.Envelope.Access.{added}
use go_tumbler.Envelope.Each.{new_envelope-All}
use go_tumbler.Envelope.Grow.{made_of, new_envelope-policy, add_slot-effective_policy}
use go_tumbler.Envelope.{new_envelope, add_slot, effective_policy}
use go_tumbler.Errors.{ok}
use go_tumbler.Method.Contract.{KeepsContract}
use go_tumbler.Method.Sealed.{Seals}
use go_tumbler.Method.{Method}
use go_tumbler.Secure.Frame.{Clean-refl}
use go_tumbler.Secure.World.{World, System}
use go_tumbler.Slot.{Envelope}
use go_tumbler.Types.{policy_valid}
use go_tumbler.Base.{Bytes, none, All-append_split}
use go_tumbler.Envelope.{unlock}
use go_tumbler.Envelope.Reopen.{unlock-new_envelope}
use go_tumbler.Method.Reopens.{Reopens}
use go_tumbler.Secure.Returns.{Returns}
use go_tumbler.Wire.{marshal, parse_envelope}
use go_tumbler.Wire.RoundTrip.{IsWellFormed, parse_envelope-marshal}
use go_tumbler.Wire.Slots.{IsSealed}
use mathlib.Core.Path.{subst}

policy_byte : (p : ℕ) → policy_valid p ≡ true → p < 256
unfolding policy_valid
policy_byte p h = ground arith

module _ (os : System) where
  -- An envelope that `new_envelope` returned, of at most 64 methods that keep to their contract and
  -- whose slots can be written, is well formed: it can be written, and read back to itself.
  pub new_envelope-IsWellFormed :
      (dek policy : ℕ) (methods : List Method) (e : Envelope) (w w' : World)
      → All KeepsContract methods
      → All (λ m. Seals m dek w) methods
      → length methods ≤ 64
      → new_envelope os dek policy methods w ≡ (ok e, w')
      → IsWellFormed e
  new_envelope-IsWellFormed dek policy methods e w w' k p room h =
      let (_, _, same, valid, _, _) = made_of os dek policy methods e w w' h in
      let (_, hint, _, _, count, some_slot) = new_envelope-policy os dek policy methods w w' e h in
      record {
        current = ap (λ x. x.version) same;
        hint_byte = omega (arith, hint, policy_byte policy valid);
        all_sealed = new_envelope-All os IsSealed dek policy methods e w w' k p h;
        nonempty = some_slot;
        count_le = omega (arith, count);
      }

  -- From the data key to a file and back: an envelope that `new_envelope` returned, of at most 64
  -- methods that keep to their contract and whose slots can be written, is written to bytes, and
  -- what `parse_envelope` makes of the bytes is unlocked, by any method of the type of `m` that opens
  -- the slots that `m` enrolls, to the data key in a new live container, where `m` is the first
  -- method of its type and the context is not done.
  pub unlock-parse_envelope :
      (dek policy : ℕ) (pre : List Method) (m : Method) (post : List Method) (m' : Method)
      (e : Envelope) (w w' u : World) (pt : Bytes)
      → All KeepsContract (pre ++ m ∷ post)
      → All (λ x. Seals x dek w) (pre ++ m ∷ post)
      → length (pre ++ m ∷ post) ≤ 64
      → All (λ x. x.type ≢ m.type) pre
      → m'.type ≡ m.type
      → Reopens m m' dek pt w u
      → os.ctx_err u.tick ≡ none
      → new_envelope os dek policy (pre ++ m ∷ post) w ≡ (ok e, w')
      → (b : Bytes) × (e' : Envelope) × (marshal e ≡ ok b)
        × (parse_envelope b ≡ ok e')
        × Returns pt (unlock os e' (m' ∷ []) u)
  unlock-parse_envelope dek policy pre m post m' e w w' u pt k p room others type reopens awake h =
      let formed = new_envelope-IsWellFormed dek policy (pre ++ m ∷ post) e w w' k p room h in
      let (ks, all) = All-append_split KeepsContract pre (m ∷ post) k in
      let (b, written, read, _) = parse_envelope-marshal e formed in
      (
        b,
        e,
        written,
        read,
        unlock-new_envelope os dek policy pre m post m' e w w' u pt ks all.0 others type reopens
            awake h,
      )

  -- `add_slot` with a method that keeps to its contract and whose slots can be written keeps an
  -- envelope with a real policy well formed.
  pub add_slot-IsWellFormed :
      (e e' : Envelope) (dek : ℕ) (m : Method) (w w' : World)
      → IsWellFormed e
      → KeepsContract m
      → Seals m dek w
      → effective_policy e ≢ 0
      → add_slot os e dek m w ≡ (ok e', w')
      → IsWellFormed e'
  add_slot-IsWellFormed e e' dek m w w' formed k p real h =
      let (s, v, enrolled, same) = added os e e' dek m w w' h in
      let (_, room, _) =
        add_slot-effective_policy os e e' dek (effective_policy e) m w w' real refl k h in
      let sealed = p s w v (Clean-refl w) enrolled in
      record {
        current = ap (λ x. x.version) same ∙ formed.current;
        hint_byte = omega (arith, ap (λ x. x.policy_hint) same, formed.hint_byte);
        all_sealed =
            subst (λ x. All IsSealed x.slots) (sym same)
              (All-append IsSealed e.slots (s ∷ []) formed.all_sealed (sealed, tt));
        nonempty = omega (arith, ap (λ x. length x.slots) same, length-append e.slots (s ∷ []));
        count_le = room;
      }
