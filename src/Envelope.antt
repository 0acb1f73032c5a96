-- ===== src/Envelope.antt =====
-- envelope.go and policy.go: the operations on an envelope. An error leaves the caller's envelope
-- as it was, since the receiver is assigned by the last statement alone.
pub mod Policy
pub mod Remove
pub mod Lifecycle
pub mod Grow
pub mod Each
pub mod Safety
pub mod Unlock
pub mod Reopen
pub mod Access
pub mod Stored
pub mod Infos
use go_tumbler.Base.{
  ℕ, zero, suc, ◌+◌, Bool, true, false, not, ◌&&◌, ◌||◌, Option, none, some, List, [], ◌∷◌, ◌++◌,
  map, Bytes, length, take, drop, get_or, ltb, leb, ◌==◌, if◌then◌else◌,
}
use go_tumbler.Errors.{
  Done, done, Error, auth_failed, malformed, slot_not_found, no_methods, dek_size, policy_mismatch,
  policy_unsafe, Result, ok, err, is_auth_failed,
}
use go_tumbler.Method.{Method, check_ctx}
use go_tumbler.Secure.Container.{len}
use go_tumbler.Secure.World.{World, System, M, pure, fail, ◌>>=◌, ◌>>◌}
use go_tumbler.Slot.{Slot, Envelope, max_slot_count}
use go_tumbler.Types.{
  method_recovery, policy_invalid, policy_yubikey_only, policy_valid, policy_for_method,
  max_dek_len, format_version,
}

unfoldable pub primary_slot_count : List Slot → ℕ
primary_slot_count [] = 0
primary_slot_count (s ∷ slots) =
    (if s.type == method_recovery then 0 else 1) + primary_slot_count slots

-- The loop of `EffectivePolicy`: `none` until a primary slot has been seen.
unfoldable pub policy_loop : Option ℕ → List Slot → ℕ
policy_loop none [] = policy_invalid
policy_loop (some derived) [] = derived
policy_loop none (s ∷ slots) =
    let skipped = policy_loop none slots in
    let seen = policy_loop (some (policy_for_method s.type)) slots in
    if s.type == method_recovery then skipped else seen
policy_loop (some derived) (s ∷ slots) =
    let rest = policy_loop (some derived) slots in
    if s.type == method_recovery
    then rest
    else if not (policy_for_method s.type == derived)
    then policy_invalid
    else rest

unfoldable pub effective_policy : Envelope → ℕ
unfolding policy_loop
effective_policy e = policy_loop none e.slots

-- `SlotInfo`
pub record SlotInfo : Type 0 where
  pub id : Bytes
  pub type : ℕ
  pub label : Bytes

abbrev pub slot_info : Slot → SlotInfo
slot_info s = record { id = s.id; type = s.type; label = s.label }

unfoldable pub slot_infos : Envelope → List SlotInfo
slot_infos e = map slot_info e.slots

-- `==` on [8]byte
unfoldable pub id_eq : Bytes → Bytes → Bool
id_eq [] [] = true
id_eq (x ∷ xs) (y ∷ ys) = x == y && id_eq xs ys
id_eq _ _ = false

-- The index of the first slot with the id.
unfoldable pub find_slot : Bytes → List Slot → Option ℕ
unfolding id_eq
find_slot id [] = none
find_slot id (s ∷ slots) =
    let later = find_slot id slots in
    if id_eq s.id id then some 0 else elim later [ none ↦ none | some i ↦ some (suc i) ]

-- `e.slots[i].Type`, for an index in range
abbrev pub type_at : List Slot → ℕ → ℕ
type_at [] i = 0
type_at (s ∷ slots) zero = s.type
type_at (s ∷ slots) (suc i) = type_at slots i

unfoldable pub remove_at : Envelope → Option ℕ → Result Envelope
remove_at e none = err slot_not_found
remove_at e (some i) =
    if leb (length e.slots) 1
    then err policy_unsafe
    else if not (type_at e.slots i == method_recovery) && leb (primary_slot_count e.slots) 1
    then err policy_unsafe
    else ok (record e { slots = take i e.slots ++ drop (suc i) e.slots })

unfoldable pub remove_slot : Envelope → Bytes → Result Envelope
unfolding remove_at find_slot primary_slot_count
remove_slot e id = remove_at e (find_slot id e.slots)

-- `n := dek.Len(); n == 0 || n > maxDEKLen`
abbrev pub dek_out_of_range : ℕ → Bool
dek_out_of_range n = n == 0 || ltb max_dek_len n

module _ (os : System) where
  unfoldable pub add_slot : Envelope → ℕ → Method → M Envelope
  unfolding effective_policy
  add_slot e dek m w =
      if dek_out_of_range (len dek w)
      then fail dek_size w
      else if leb max_slot_count (length e.slots)
      then fail malformed w
      else if not (m.type == method_recovery)
          && not (policy_for_method m.type == effective_policy e)
      then fail policy_mismatch w
      else (do slot ← m.enroll dek; pure (record e { slots = e.slots ++ slot ∷ [] })) w

  -- The loop of `NewEnvelope` over the methods that are left.
  unfoldable pub enroll_all : ℕ → List Method → List Slot → M (List Slot)
  enroll_all dek [] slots = pure slots
  enroll_all dek (m ∷ ms) slots = do
    check_ctx os
    slot ← m.enroll dek
    enroll_all dek ms (slots ++ slot ∷ [])

  unfoldable pub new_envelope : ℕ → ℕ → List Method → M Envelope
  unfolding enroll_all
  new_envelope dek policy methods w =
      if length methods == 0
      then fail no_methods w
      else if not (policy_valid policy)
      then fail policy_mismatch w
      else if dek_out_of_range (len dek w)
      then fail dek_size w
      else (do
        slots ← enroll_all dek methods []
        let e : Envelope = record { version = format_version; policy_hint = policy; slots = slots }
        if effective_policy e == policy then pure e else fail policy_mismatch)
          w

  -- After `m.Unlock`: the data key is returned, a wrong secret leads on to `next`, and any other
  -- error is returned.
  abbrev pub unlock_step : Result ℕ × World → M ℕ → Result ℕ × World
  unlock_step (ok dek, w) next = (ok dek, w)
  unlock_step (err e, w) next = if is_auth_failed e then next w else (err e, w)

  -- The inner loop of `Unlock` on one slot; `next` is what follows when no method has opened it.
  unfoldable pub try_methods : Slot → List Method → M ℕ → M ℕ
  try_methods slot [] next = next
  try_methods slot (m ∷ ms) next =
      let later = try_methods slot ms next in
      if m.type == slot.type
      then check_ctx os >> (λ w. unlock_step (m.unlock slot w) later)
      else later

  unfoldable pub try_slots : List Method → List Slot → M ℕ
  unfolding try_methods
  try_slots methods [] = fail auth_failed
  try_slots methods (s ∷ slots) = try_methods s methods (try_slots methods slots)

  unfoldable pub unlock : Envelope → List Method → M ℕ
  unfolding try_slots
  unlock e methods = if length methods == 0 then fail no_methods else try_slots methods e.slots

-- policy.go: `SafetyReport`, a warning being which of the three it is.
pub data Warning : Type 0 where
  presence_only single_method no_recovery : Warning

pub record SafetyReport : Type 0 where
  pub warnings : List Warning
  pub unlock_slots : ℕ
  pub has_recovery : Bool

unfoldable pub any_recovery : List Slot → Bool
any_recovery [] = false
any_recovery (s ∷ slots) = s.type == method_recovery || any_recovery slots

abbrev pub warn_if : Bool → Warning → List Warning
warn_if b x = if b then x ∷ [] else []

abbrev safety_report : Envelope → List Warning → SafetyReport
safety_report e ws = record {
  warnings = ws;
  unlock_slots = length e.slots;
  has_recovery = any_recovery e.slots;
}

-- The report, and the error if there is one.
unfoldable pub validate_safety : Envelope → Bool → SafetyReport × Result Done
unfolding any_recovery
validate_safety e force =
    let n = length e.slots in
    let eff = effective_policy e in
    if eff == policy_yubikey_only && n == 1 && not force
    then (safety_report e [], err policy_unsafe)
    else (
      safety_report e (
          warn_if (eff == policy_yubikey_only) presence_only
          ++ warn_if (ltb n 2) single_method
          ++ warn_if (not (any_recovery e.slots)) no_recovery),
      ok done,
    )
