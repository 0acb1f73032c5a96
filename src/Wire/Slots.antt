-- ===== src/Wire/Slots.antt =====
-- One slot and a run of slots: `parse_slot` and `parse_slots` against the bytes that `marshal`
-- writes for a slot.
pub mod Taken
use go_tumbler.Base.{
  ℕ, zero, suc, ◌+◌, ◌≤◌, ◌≡◌, refl, sym, ap, ◌∙◌, not, ◌||◌, false, some, List, [], ◌∷◌, ◌++◌,
  Bytes, IsByte, All, length, ltb, arith, take, drop, le→ltb, append_assoc, append-nil,
  All-append_split, length-append, take-append_add, length-take, take-append-drop, take-append,
  drop-append, take-drop-append,
}
use go_tumbler.Base.Binary.{be32}
use go_tumbler.Errors.{
  done, malformed, short_data, ok, ◌>>=◌, ◌>>◌, guard, guard-bind, done-bind, ok-injective,
}
use go_tumbler.Slot.{Slot}
use go_tumbler.Wire.Marshal.{meta_bytes}
use go_tumbler.Wire.Reader.{Reader}
use go_tumbler.Wire.Parse.{parse_fields, finish_slot, parse_slot, parse_slots, validate_slot_shape}
use mathlib.Core.Path.{subst, ap₂}
use go_tumbler.Wire.Cursor.{at, at-append, Took, Took-bind, u32-at, u32-bind}
use go_tumbler.Wire.Fields.{
  IsMeta, unsealed, parse_fields-meta_bytes, parse_fields-Took, bytes-after,
}

-- A slot as it is after a parse: its metadata fits the format and is stored verbatim, the wrapped
-- key has room for a tag and at most 240 bytes, and the type agrees with the KDF.
pub record IsSealed (s : Slot) : Type 0 where
  pub fields : IsMeta s
  pub stored : s.meta ≡ some (meta_bytes s)
  pub wrapped_ge : 16 ≤ length s.wrapped
  pub wrapped_le : length s.wrapped ≤ 256
  pub shape : validate_slot_shape s ≡ ok done

abbrev pub slot_body : Slot → Bytes
slot_body s = meta_bytes s ++ s.wrapped

-- A slot on the wire: the length of its body, and the body.
abbrev pub slot_bytes : Slot → Bytes
slot_bytes s = be32 (length (slot_body s)) ++ slot_body s

length-meta_bytes :
    (s : Slot)
    → IsMeta s
    → length (meta_bytes s)
      ≡ 51
        + length s.kdf_params
        + length s.kdf_salt
        + length s.chal_salt
        + length s.challenge
        + length s.label
length-meta_bytes s h = simp length-append (omega arith)

pub length-slot_body :
    (s : Slot) → IsSealed s → (67 ≤ length (slot_body s)) × (length (slot_body s) ≤ 819)
length-slot_body s h =
    omega (arith, length-append (meta_bytes s) s.wrapped, length-meta_bytes s h.fields)

sealed_self : (s : Slot) → IsSealed s → record s { meta = some (meta_bytes s) } ≡ s
sealed_self s h = λ i. record s { meta = sym h.stored i }

abbrev sealed : Slot → Bytes → Bytes → Slot
sealed s m w = record s { meta = some m; wrapped = w }

guard_ltb_or : (n lo hi : ℕ) → lo ≤ n → n ≤ hi → (ltb n lo || ltb hi n) ≡ false
guard_ltb_or n lo hi h k = ground arith

-- What is left of `finish_slot` when the cursor stands behind the metadata `m`.
finish_slot-at :
    (pre m w rest : Bytes) (n : ℕ) (s : Slot)
    → finish_slot (at pre (m ++ (w ++ rest))) n s (at (pre ++ m) w) ≡ (
        guard (not (ltb (length w) 16 || ltb 256 (length w))) malformed
        >> (validate_slot_shape (sealed s m w)
            >> ok (sealed s m w, record { b = pre ++ (m ++ (w ++ rest)); off = length pre + n })))
unfolding finish_slot
finish_slot-at pre m w rest n s = rw (take-drop-append pre m (w ++ rest), drop-append (pre ++ m) w)

finish_slot-sealed :
    (pre m w rest : Bytes) (s : Slot)
    → 16 ≤ length w
    → length w ≤ 256
    → validate_slot_shape (sealed s m w) ≡ ok done
    → finish_slot (at pre ((m ++ w) ++ rest)) (length (m ++ w)) s (at (pre ++ m) w)
      ≡ ok (sealed s m w, at (pre ++ (m ++ w)) rest)
finish_slot-sealed pre m w rest s lo hi shape =
    rw (append_assoc m w rest, finish_slot-at pre m w rest, at-append, append_assoc m w rest, shape)
      (ground arith)

body-at :
    (pre body rest : Bytes)
    → ◌≡◌ {A = Reader}
        (record { b = take (length pre + length body) (pre ++ (body ++ rest)); off = length pre })
        (at pre body)
body-at pre body rest = rw (take-append_add (length body) pre (body ++ rest), take-append body rest)

-- `parse_slot` on a body whose length prefix is right.
parse_slot-at :
    (pre body rest : Bytes)
    → 13 ≤ length body
    → length body ≤ 1048576
    → parse_slot (at pre (be32 (length body) ++ (body ++ rest))) ≡ (
        parse_fields (at (pre ++ be32 (length body)) body) >>= λ (s, b).
        finish_slot (at (pre ++ be32 (length body)) (body ++ rest)) (length body) s b)
unfolding parse_slot
parse_slot-at pre body rest lo hi =
    let front = pre ++ be32 (length body) in
    let fits : length front + length body ≤ length (front ++ (body ++ rest)) =
      omega (arith, length-append front (body ++ rest), length-append body rest) in
    rw (
      u32-at pre (body ++ rest) (length body) (omega arith),
      guard_ltb_or (length body) 13 1048576 lo hi,
      le→ltb _ _ fits,
      body-at front body rest,
    )

-- A sealed slot is read back whole, and nothing past it is touched.
pub parse_slot-slot_bytes :
    (pre rest : Bytes) (s : Slot)
    → IsSealed s
    → parse_slot (at pre (slot_bytes s ++ rest)) ≡ ok (s, at (pre ++ slot_bytes s) rest)
parse_slot-slot_bytes pre rest s h =
    let (lo, hi) = length-slot_body s h in
    let front = pre ++ be32 (length (slot_body s)) in
    parse_slot-at pre (slot_body s) rest (omega arith) (omega arith)
    ∙ rw (parse_fields-meta_bytes front s.wrapped s h.fields) (
        finish_slot-sealed front (meta_bytes s) s.wrapped rest (unsealed s) h.wrapped_ge
          h.wrapped_le (ap validate_slot_shape (sealed_self s h) ∙ h.shape))
    ∙ ap₂ (λ x p. ok (x, at p rest)) (sealed_self s h)
        (append_assoc pre (be32 (length (slot_body s))) (slot_body s))

-- The slots of an envelope, one after the other.
abbrev pub slots_bytes : List Slot → Bytes
slots_bytes [] = []
slots_bytes (s ∷ slots) = slot_bytes s ++ slots_bytes slots

pub parse_slots-slots_bytes :
    (pre rest : Bytes) (slots : List Slot)
    → All IsSealed slots
    → parse_slots (length slots) (at pre (slots_bytes slots ++ rest))
      ≡ ok (slots, at (pre ++ slots_bytes slots) rest)
unfolding parse_slots
parse_slots-slots_bytes pre rest [] h = rw append-nil
parse_slots-slots_bytes pre rest (s ∷ slots) (hs, h) =
    rw
      (
        append_assoc (slot_bytes s) (slots_bytes slots) rest,
        parse_slot-slot_bytes pre (slots_bytes slots ++ rest) s hs,
        parse_slots-slots_bytes (pre ++ slot_bytes s) rest slots h,
      )
      (ap (λ p. ok (s ∷ slots, at p rest)) (append_assoc pre (slot_bytes s) (slots_bytes slots)))
