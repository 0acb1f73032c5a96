-- ===== src/Envelope/Infos.antt =====
-- `SlotInfos`: what it shows of an envelope that the methods made.
use go_tumbler.Base.{ℕ, List, map, Bytes}
use go_tumbler.Envelope.{SlotInfo}
use go_tumbler.Method.Contract.{Shows}
use go_tumbler.Method.{Method}
use go_tumbler.Secure.World.{World}
use go_tumbler.Slot.{Slot, Envelope}

-- A method with the label of the slots that it enrolls.
abbrev pub IsLabelled : Method × Bytes → Type 0
IsLabelled x = (dek : ℕ) → Shows x.0.type x.1 (x.0.enroll dek)

abbrev pub shown : SlotInfo → ℕ × Bytes
shown i = (i.type, i.label)

abbrev shown_slots : List Slot → List (ℕ × Bytes)
shown_slots slots = map (λ s. (s.type, s.label)) slots

abbrev pub announced : List (Method × Bytes) → List (ℕ × Bytes)
announced ms = map (λ x. (x.0.type, x.1)) ms
