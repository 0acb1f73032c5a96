-- ===== src/Wire/RoundTrip.antt =====
-- `marshal` and `parse_envelope` on whole envelopes.
use go_tumbler.Base.{
  ℕ, ◌+◌, ◌*◌, ◌≤◌, ◌<◌, ◌≡◌, sym, ap, ◌∙◌, not, ◌||◌, ◌&&◌, true, false, some, List, [], ◌∷◌, ◌++◌,
  Bytes, IsByte, All, length, ltb, ◌==◌, arith, append_assoc, append-nil, length-append, le→ltb,
  ==_iff,
}
use go_tumbler.Base.Binary.{be16, be32, uint16-be16, be16-uint16}
use go_tumbler.Errors.{
  bad_magic, bad_version, malformed, short_data, ok, err, ◌>>=◌, ◌>>◌, guard, guard-bind,
  ok-injective,
}
use go_tumbler.Slot.{Slot, Envelope, magic}
use go_tumbler.Wire.Marshal.{meta_bytes, marshal_slots, marshal}
use go_tumbler.Wire.Parse.{parse_slots, parse_envelope}
use mathlib.Core.Path.{subst, ap₂}
use native.Mathlib.Decide.{dec_le}
use go_tumbler.Wire.Cursor.{at, Took-bind}
use go_tumbler.Wire.Slots.{
  IsSealed, slot_bytes, slots_bytes, length-slot_body, parse_slots-slots_bytes,
}
use go_tumbler.Wire.Slots.Taken.{Sealed, parse_slots-Took}

-- An envelope that can be written and read: of the current version, with a byte for its policy
-- hint and 1 to 64 sealed slots.
pub record IsWellFormed (e : Envelope) : Type 0 where
  pub current : e.version ≡ 1
  pub hint_byte : e.policy_hint < 256
  pub all_sealed : All IsSealed e.slots
  pub nonempty : 1 ≤ length e.slots
  pub count_le : length e.slots ≤ 64

abbrev pub header_bytes : Envelope → Bytes
header_bytes e = magic ++ (e.version ∷ e.policy_hint ∷ be16 (length e.slots))

abbrev pub envelope_bytes : Envelope → Bytes
envelope_bytes e = header_bytes e ++ slots_bytes e.slots

length-slots_bytes :
    (slots : List Slot) → All IsSealed slots → length (slots_bytes slots) ≤ 823 * length slots
length-slots_bytes [] h = omega arith
length-slots_bytes (s ∷ slots) (hs, h) = omega (
  arith,
  length-append (slot_bytes s) (slots_bytes slots),
  length-slot_body s hs,
  length-slots_bytes slots h,
)

marshal_slots_step :
    (out meta : Bytes) (s : Slot) (slots : List Slot)
    → s.meta ≡ some meta
    → 1 ≤ length s.wrapped
    → length s.wrapped ≤ 256
    → length out + 4 + length meta + length s.wrapped ≤ 1048576
    → marshal_slots out (s ∷ slots)
      ≡ marshal_slots (out ++ (be32 (length (meta ++ s.wrapped)) ++ (meta ++ s.wrapped))) slots
unfolding marshal_slots
marshal_slots_step out meta s slots stored lo hi fits =
    let n = be32 (length (meta ++ s.wrapped)) in
    ground (
      arith,
      append_assoc out n (meta ++ s.wrapped),
      length-append out n,
      length-append (out ++ n) (meta ++ s.wrapped),
      length-append meta s.wrapped,
    )

-- The length check in the loop passes at every slot if it would pass at the end.
marshal_slots-slots_bytes :
    (out : Bytes) (slots : List Slot)
    → All IsSealed slots
    → length out + length (slots_bytes slots) ≤ 1048576
    → marshal_slots out slots ≡ ok (out ++ slots_bytes slots)
marshal_slots-slots_bytes out [] h fits = unfold marshal_slots in ap ok (sym (append-nil out))
marshal_slots-slots_bytes out (s ∷ slots) (hs, h) fits =
    let split = length-append (slot_bytes s) (slots_bytes slots) in
    let body = length-append (meta_bytes s) s.wrapped in
    let grown = length-append out (slot_bytes s) in
    marshal_slots_step out (meta_bytes s) s slots hs.stored (omega arith) hs.wrapped_le
      (omega arith)
    ∙ marshal_slots-slots_bytes (out ++ slot_bytes s) slots h (omega arith)
    ∙ ap ok (append_assoc out (slot_bytes s) (slots_bytes slots))

pub length-envelope_bytes : (e : Envelope) → IsWellFormed e → length (envelope_bytes e) ≤ 52680
length-envelope_bytes e h = omega (arith, length-slots_bytes e.slots h.all_sealed)

pub marshal-IsWellFormed : (e : Envelope) → IsWellFormed e → marshal e ≡ ok (envelope_bytes e)
unfolding marshal
marshal-IsWellFormed e h =
    rw
      (marshal_slots-slots_bytes (header_bytes e) e.slots h.all_sealed
        (omega (arith, length-slots_bytes e.slots h.all_sealed)))
      (ground (arith, h.nonempty, h.count_le))

-- `parse_envelope` on a header that `marshal` writes.
parse_envelope-header :
    (e : Envelope) (rest : Bytes)
    → e.version ≡ 1
    → 1 ≤ length e.slots
    → length e.slots ≤ 64
    → 8 + length rest ≤ 1048576
    → parse_envelope (header_bytes e ++ rest) ≡ (
        parse_slots (length e.slots) (at (header_bytes e) rest) >>= λ (slots, r).
        guard (r.off == length (header_bytes e ++ rest)) malformed
        >> ok (record e { slots = slots }))
unfolding parse_envelope
parse_envelope-header e rest current nonempty few fits =
    let count : (length e.slots == 0 || ltb 64 (length e.slots)) ≡ false = ground arith in
    rw (
      uint16-be16 (length e.slots) rest (omega arith),
      le→ltb 1048576 (length (header_bytes e ++ rest)) (omega arith),
      le→ltb (length (header_bytes e ++ rest)) 8 (omega arith),
      (==_iff e.version 1).1 current,
      count,
    )

-- The slots are read, and whatever stands behind them is refused.
parse_envelope-append :
    (e : Envelope) (rest : Bytes)
    → IsWellFormed e
    → length (envelope_bytes e ++ rest) ≤ 1048576
    → parse_envelope (envelope_bytes e ++ rest) ≡ (guard (length rest == 0) malformed >> ok e)
parse_envelope-append e rest h fits =
    let whole = length-append (slots_bytes e.slots) rest in
    ap parse_envelope (append_assoc (header_bytes e) (slots_bytes e.slots) rest)
    ∙ parse_envelope-header e (slots_bytes e.slots ++ rest) h.current h.nonempty h.count_le
        (omega arith)
    ∙ rw (parse_slots-slots_bytes (header_bytes e) rest e.slots h.all_sealed) (ground arith)

-- Every well-formed envelope is written, in at most 52680 bytes (of the 1048576 that are allowed),
-- and parsing what was written gives the same envelope.
pub parse_envelope-marshal :
    (e : Envelope)
    → IsWellFormed e
    → (b : Bytes) × (marshal e ≡ ok b) × (parse_envelope b ≡ ok e) × (length b ≤ 52680)
parse_envelope-marshal e h =
    let small = length-envelope_bytes e h in
    (
      envelope_bytes e,
      marshal-IsWellFormed e h,
      ap parse_envelope (sym (append-nil (envelope_bytes e)))
          ∙ parse_envelope-append e [] h (omega (arith, length-append (envelope_bytes e) [])),
      small,
    )

append_all : (rest xs rest' : Bytes) → rest ≡ xs ++ rest' → length xs ≡ length rest → rest ≡ xs
append_all rest xs [] split same = split ∙ append-nil xs
append_all rest xs (c ∷ rest') split same =
    absurd (omega (arith, ap length split, length-append xs (c ∷ rest')))

-- The header that was accepted is the one that is written.
accepted_header :
    (m0 m1 m2 m3 x y : ℕ) (e : Envelope)
    → IsByte x
    → IsByte y
    → (m0 == b'T' && m1 == b'M' && m2 == b'B' && m3 == b'L') ≡ true
    → length e.slots ≡ x * 256 + y
    → m0 ∷ m1 ∷ m2 ∷ m3 ∷ e.version ∷ e.policy_hint ∷ x ∷ y ∷ [] ≡ header_bytes e
accepted_header m0 m1 m2 m3 x y e bx by is_magic count = ground (arith, be16-uint16 x y bx by)

parse_envelope_split :
    (b : Bytes) (e : Envelope)
    → All IsByte b
    → parse_envelope b ≡ ok e
    → IsWellFormed e × (b ≡ envelope_bytes e)
unfolding parse_envelope
parse_envelope_split (m0 ∷ m1 ∷ m2 ∷ m3 ∷ version ∷ hint ∷ x ∷ y ∷ rest) e
      (b0, (b1, (b2, (b3, (bv, (bh, (bx, (by, bytes)))))))) h =
    let front = m0 ∷ m1 ∷ m2 ∷ m3 ∷ version ∷ hint ∷ x ∷ y ∷ [] in
    guard-bind (not (ltb 1048576 (length (front ++ rest)))) malformed _ h λ _ h0.
      guard-bind (not (ltb (length (front ++ rest)) 8)) short_data _ h0 λ _ h1.
        guard-bind (m0 == b'T' && m1 == b'M' && m2 == b'B' && m3 == b'L') bad_magic _ h1
          λ is_magic h2. guard-bind (version == 1) bad_version _ h2 λ current h3.
            guard-bind (not (x * 256 + y == 0 || ltb 64 (x * 256 + y))) malformed _ h3 λ counted h4.
              Took-bind (Sealed (x * 256 + y)) slots_bytes front rest
                (parse_slots (x * 256 + y) (at front rest)) _
                (λ v. parse_slots-Took (x * 256 + y) front rest v bytes) h4
                λ slots rest' (all, count) split h5.
                  guard-bind (length (front ++ slots_bytes slots) == length (front ++ rest))
                    malformed _ h5
                    λ ended h6.
                      let e0 : Envelope = record {
                        version = version;
                        policy_hint = hint;
                        slots = slots;
                      } in
                      subst (λ e. IsWellFormed e × (front ++ rest ≡ envelope_bytes e))
                        (ok-injective h6)
                        (
                          record {
                            current = (==_iff version 1).0 current;
                            hint_byte = bh;
                            all_sealed = all;
                            nonempty = ground arith;
                            count_le = ground arith;
                          },
                          ap₂ (λ f r. f ++ r)
                              (accepted_header m0 m1 m2 m3 x y e0 bx by is_magic count)
                              (append_all rest (slots_bytes slots) rest' split (ground arith)),
                        )
parse_envelope_split b e bytes h = absurd (ground arith)

-- Whatever `parse_envelope` accepts is a well-formed envelope, and marshalling it gives the very
-- bytes that were parsed: an envelope has one form on the wire.
pub marshal-parse_envelope :
    (b : Bytes) (e : Envelope)
    → All IsByte b
    → parse_envelope b ≡ ok e
    → IsWellFormed e × (marshal e ≡ ok b)
marshal-parse_envelope b e bytes h =
    let (well, same) = parse_envelope_split b e bytes h in
    (well, marshal-IsWellFormed e well ∙ ap ok (sym same))

parse_envelope_long : (b : Bytes) → 1048576 < length b → parse_envelope b ≡ err malformed
unfolding parse_envelope
parse_envelope_long b h = ground arith

-- No accepted input can be extended: with anything behind it, it is malformed. So no proper prefix
-- of an accepted input is accepted.
pub parse_envelope_extended :
    (b more : Bytes) (e : Envelope) (c : ℕ)
    → All IsByte b
    → parse_envelope b ≡ ok e
    → parse_envelope (b ++ c ∷ more) ≡ err malformed
parse_envelope_extended b more e c bytes h =
    let (well, same) = parse_envelope_split b e bytes h in
    elim (dec_le (length (b ++ c ∷ more)) 1048576) [
      | yes fits ↦
          ap (λ x. parse_envelope (x ++ c ∷ more)) same
          ∙ parse_envelope-append e (c ∷ more) well
              (subst (λ x. length (x ++ c ∷ more) ≤ 1048576) same fits)
          ∙ ground arith
      | no long ↦ parse_envelope_long (b ++ c ∷ more) (omega arith)
    ]
