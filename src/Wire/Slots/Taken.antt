-- ===== src/Wire/Slots/Taken.antt =====
-- What `parse_slot` and `parse_slots` accept: sealed slots, of the bytes that `marshal` writes.
use go_tumbler.Base.{
  ℕ, zero, suc, ◌+◌, ◌≤◌, ◌≡◌, refl, sym, ap, ◌∙◌, not, ◌||◌, List, ◌++◌, Bytes, IsByte, All,
  length, ltb, arith, take, drop, append_assoc, append-nil, All-append_split, length-append,
  length-take, take-append-drop,
}
use go_tumbler.Base.Binary.{be32}
use go_tumbler.Errors.{done, malformed, short_data, ok, guard-bind, done-bind, ok-injective}
use go_tumbler.Slot.{Slot}
use go_tumbler.Wire.Marshal.{meta_bytes}
use go_tumbler.Wire.Reader.{Reader}
use go_tumbler.Wire.Parse.{parse_fields, finish_slot, parse_slot, parse_slots, validate_slot_shape}
use mathlib.Core.Path.{subst, ap₂}
use go_tumbler.Wire.Cursor.{at, Took, Took-bind, u32-bind}
use go_tumbler.Wire.Fields.{IsMeta, parse_fields-Took, bytes-after}
use go_tumbler.Wire.Slots.{
  IsSealed, slot_bytes, slots_bytes, sealed, finish_slot-at, finish_slot-sealed, parse_slot-at,
}

-- The frame of a slot that was parsed: a length prefix, and as many bytes.
parse_slot_frame :
    (pre rest : Bytes) (v : Slot × Reader)
    → All IsByte rest
    → parse_slot (at pre rest) ≡ ok v
    → (body rest' : Bytes) × (13 ≤ length body)
      × (length body ≤ 1048576)
      × (rest ≡ be32 (length body) ++ (body ++ rest'))
unfolding parse_slot
parse_slot_frame pre rest v bytes h = u32-bind pre rest _ bytes h λ n rest1 _ split h1.
    let r = at (pre ++ be32 n) rest1 in
    guard-bind (not (ltb n 13 || ltb 1048576 n)) malformed _ h1 λ sized h2.
      guard-bind (not (ltb (length r.b) (r.off + n))) short_data _ h2 λ there _.
        let long : length (take n rest1) ≡ n =
          ground (arith, length-take n rest1, length-append (pre ++ be32 n) rest1) in
        (
          take n rest1,
          drop n rest1,
          ground arith,
          ground arith,
          split ∙ ap₂ (λ k xs. be32 k ++ xs) (sym long) (sym (take-append-drop n rest1)),
        )

finish_slot_inv :
    (pre m w rest : Bytes) (s : Slot) (v : Slot × Reader)
    → finish_slot (at pre ((m ++ w) ++ rest)) (length (m ++ w)) s (at (pre ++ m) w) ≡ ok v
    → (16 ≤ length w)
      × (length w ≤ 256)
      × (validate_slot_shape (sealed s m w) ≡ ok done)
      × ((sealed s m w, at (pre ++ (m ++ w)) rest) ≡ v)
finish_slot_inv pre m w rest s v h =
    let h' =
      subst (λ b. finish_slot (at pre b) (length (m ++ w)) s (at (pre ++ m) w) ≡ ok v)
        (append_assoc m w rest) h in
    guard-bind (not (ltb (length w) 16 || ltb 256 (length w))) malformed _
      (sym (finish_slot-at pre m w rest (length (m ++ w)) s) ∙ h')
      λ sized h1. done-bind (validate_slot_shape (sealed s m w)) _ h1 λ shape _.
        let lo : 16 ≤ length w = ground arith in
        let hi : length w ≤ 256 = ground arith in
        (lo, hi, shape, ok-injective (sym (finish_slot-sealed pre m w rest s lo hi shape) ∙ h))

sealed-IsSealed :
    (s : Slot) (w : Bytes)
    → IsMeta s
    → 16 ≤ length w
    → length w ≤ 256
    → validate_slot_shape (sealed s (meta_bytes s) w) ≡ ok done
    → IsSealed (sealed s (meta_bytes s) w)
sealed-IsSealed s w fields lo hi shape = record {
  fields = record {
    type_valid = fields.type_valid;
    aead_known = fields.aead_known;
    length_id = fields.length_id;
    length_hkdf_salt = fields.length_hkdf_salt;
    length_nonce = fields.length_nonce;
    kdf_params_le = fields.kdf_params_le;
    kdf_salt_le = fields.kdf_salt_le;
    chal_salt_le = fields.chal_salt_le;
    challenge_le = fields.challenge_le;
    label_le = fields.label_le;
  };
  stored = refl;
  wrapped_ge = lo;
  wrapped_le = hi;
  shape = shape;
}

parse_slot-Took-IsSealed :
    (pre w rest : Bytes) (s : Slot) (v : Slot × Reader)
    → IsMeta s
    → finish_slot
        (at (pre ++ be32 (length (meta_bytes s ++ w))) ((meta_bytes s ++ w) ++ rest))
        (length (meta_bytes s ++ w))
        s
        (at ((pre ++ be32 (length (meta_bytes s ++ w))) ++ meta_bytes s) w)
      ≡ ok v
    → Took IsSealed slot_bytes pre
        (be32 (length (meta_bytes s ++ w)) ++ ((meta_bytes s ++ w) ++ rest))
        v
parse_slot-Took-IsSealed pre w rest s v fields h =
    let n = be32 (length (meta_bytes s ++ w)) in
    let (lo, hi, shape, same) = finish_slot_inv (pre ++ n) (meta_bytes s) w rest s v h in
    subst (Took IsSealed slot_bytes pre (n ++ ((meta_bytes s ++ w) ++ rest))) same (
      rest,
      sealed-IsSealed s w fields lo hi shape,
      refl,
      ap (λ p. at p rest) (append_assoc pre n (meta_bytes s ++ w)),
    )

parse_slot-Took_framed :
    (pre body rest : Bytes) (v : Slot × Reader)
    → All IsByte body
    → 13 ≤ length body
    → length body ≤ 1048576
    → parse_slot (at pre (be32 (length body) ++ (body ++ rest))) ≡ ok v
    → Took IsSealed slot_bytes pre (be32 (length body) ++ (body ++ rest)) v
parse_slot-Took_framed pre body rest v bytes lo hi h =
    let front = pre ++ be32 (length body) in
    Took-bind IsMeta meta_bytes front body (parse_fields (at front body)) _
      (λ v. parse_fields-Took front body v bytes) (sym (parse_slot-at pre body rest lo hi) ∙ h)
      λ s w fields split h1.
        subst (λ b. Took IsSealed slot_bytes pre (be32 (length b) ++ (b ++ rest)) v) (sym split)
          (parse_slot-Took-IsSealed pre w rest s v fields (
            subst
              (λ b.
                finish_slot (at (pre ++ be32 (length b)) (b ++ rest)) (length b) s
                  (at ((pre ++ be32 (length b)) ++ meta_bytes s) w)
                ≡ ok v)
              split h1))

-- A slot that was parsed is sealed, and the bytes taken are those of the slot.
pub parse_slot-Took :
    (pre rest : Bytes) (v : Slot × Reader)
    → All IsByte rest
    → parse_slot (at pre rest) ≡ ok v
    → Took IsSealed slot_bytes pre rest v
parse_slot-Took pre rest v bytes h =
    let (body, rest', lo, hi, split) = parse_slot_frame pre rest v bytes h in
    let later = bytes-after (be32 (length body)) (body ++ rest') split bytes in
    subst (λ r. Took IsSealed slot_bytes pre r v) (sym split)
      (parse_slot-Took_framed pre body rest' v (All-append_split IsByte body rest' later).0 lo hi
        (subst (λ r. parse_slot (at pre r) ≡ ok v) split h))

abbrev pub Sealed : ℕ → List Slot → Type 0
Sealed n slots = All IsSealed slots × (length slots ≡ n)

pub parse_slots-Took :
    (n : ℕ) (pre rest : Bytes) (v : List Slot × Reader)
    → All IsByte rest
    → parse_slots n (at pre rest) ≡ ok v
    → Took (Sealed n) slots_bytes pre rest v
unfolding parse_slots
parse_slots-Took zero pre rest v bytes h =
    subst (Took (Sealed zero) slots_bytes pre rest) (ok-injective h)
      (rest, (tt, refl), refl, ap (λ p. at p rest) (sym (append-nil pre)))
parse_slots-Took (suc n) pre rest v bytes h =
    Took-bind IsSealed slot_bytes pre rest (parse_slot (at pre rest)) _
      (λ v. parse_slot-Took pre rest v bytes) h
      λ s rest1 sealed_s e1 h1.
        Took-bind (Sealed n) slots_bytes (pre ++ slot_bytes s) rest1
          (parse_slots n (at (pre ++ slot_bytes s) rest1)) _
          (λ v.
            parse_slots-Took n (pre ++ slot_bytes s) rest1 v
              (bytes-after (slot_bytes s) rest1 e1 bytes))
          h1
          λ slots rest2 (all, count) e2 h2.
            subst (Took (Sealed (suc n)) slots_bytes pre rest) (ok-injective h2) (
              rest2,
              ((sealed_s, all), ap suc count),
              e1
                  ∙ ap (λ r. slot_bytes s ++ r) e2
                  ∙ sym (append_assoc (slot_bytes s) (slots_bytes slots) rest2),
              ap (λ p. at p rest2) (append_assoc pre (slot_bytes s) (slots_bytes slots)),
            )
