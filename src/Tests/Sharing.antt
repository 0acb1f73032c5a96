-- ===== src/Tests/Sharing.antt =====
-- Two goroutines on one container.
use go_tumbler.Base.{◌+◌, ◌≡◌, refl, false, [], ◌∷◌, map, All, arith, length}
use go_tumbler.Errors.{done, ok}
use go_tumbler.Secure.Mutex.Ends.{ComesOut, critical_section_ends}
use go_tumbler.Secure.Mutex.Order.{shared-one_by_one, refused_after_wipe}
use go_tumbler.Secure.Mutex.Progress.{IsZeroed}
use go_tumbler.Secure.Mutex.{
  Call, read, measure, wipe, Answer, got, status, refusal, entered, wiping, refuse, begin_read,
  read_byte, end_read, begin_wipe, wipe_byte, end_wipe, Shared, calls, locks, moves, unlocks, Reach,
  at_first, after, one_by_one,
}
use go_tumbler.Secure.World.{World}
use go_tumbler.Tests.Samples.{calm}

abbrev tiny : World
tiny = record { next = 1; cell = λ h. record { buf = 7 ∷ []; destroyed = false }; tick = 0 }

-- Goroutine 0 reads while 1 waits, and 1 destroys the container while 0 waits to measure it.
abbrev read_first : (s : Shared calm 0) × Reach calm 0 tiny s
read_first = (
  _,
  after
      (after
        (after
          (after
            (after (after (after at_first (calls 0 read refl)) (calls 1 wipe refl))
              (locks 0 read refl refl))
            (moves 0 read entered refl (begin_read refl)))
          (moves 0 read _ refl (read_byte [] (omega arith))))
        (moves 0 read _ refl (end_read (7 ∷ []) (omega arith))))
      (unlocks 0 read _ refl),
)

abbrev wiping_now : (s : Shared calm 0) × Reach calm 0 tiny s
wiping_now = (
  _,
  after (after (after read_first.1 (calls 0 measure refl)) (locks 1 wipe refl refl))
      (moves 1 wipe entered refl (begin_wipe refl)),
)

abbrev wiped_then : (s : Shared calm 0) × Reach calm 0 tiny s
wiped_then = (
  _,
  after
      (after
        (after
          (after
            (after (after wiping_now.1 (moves 1 wipe _ refl (wipe_byte 0 (omega arith))))
              (moves 1 wipe _ refl (end_wipe 1 (omega arith))))
            (unlocks 1 wipe _ refl))
          (locks 0 measure refl refl))
        (moves 0 measure entered refl (refuse measure refl)))
      (unlocks 0 measure _ refl),
)

shared-one_by_one_example :
    (one_by_one calm 0 (map (λ x. x.0) wiped_then.0.log) tiny
      ≡ (wiped_then.0.log, wiped_then.0.world))
    × All IsZeroed wiped_then.0.dropped
shared-one_by_one_example = shared-one_by_one calm 0 wiped_then.1 refl

refused_after_wipe_example :
    All {A = Call × Answer} (λ x. x.1 ≡ refusal x.0) ((measure, refusal measure) ∷ [])
refused_after_wipe_example =
    refused_after_wipe calm 0 ((read, got (ok (7 ∷ []))) ∷ []) (status (ok done))
      ((measure, refusal measure) ∷ []) wiped_then.1 refl

critical_section_ends_example :
    ComesOut calm 0 1 wiping_now.0 (length (wiping_now.0.world.cell 0).buf + 3)
critical_section_ends_example = critical_section_ends calm 0 1 wipe (wiping 0) wiping_now.1 refl
