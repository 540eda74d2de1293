-- ===== src/Io/Timer.antt =====
-- xknx/io/ip_secure.py: SecureSequenceTimer, which guards a secure multicast group against replays. The
-- timer value, the monotonic clock plus the difference, is the field `timer`, which the passing of time
-- raises; for the timer handle there is what it will send. Delays and random tags are not computed.
pub mod Window
mod Tests
use xknx.Prelude.{
  ℕ, ◌+◌, Bool, true, false, not, ◌&&◌, ltb, if◌then◌else◌, Option, none, some, [], ◌∷◌, ◌++◌, List,
  Bytes, to_bytes, Result, ok, err, invalid_state_error, knx_secure_validation_error,
}
use xknx.Prelude.Actions.{Action, pure, raise, calls, gets, modify, ◌>>=◌, ◌>>◌}
use xknx.Prelude.Futures.{Future, pending, finished, cancel}
use xknx.Secure.Primitives.{Cipher}
use xknx.Secure.Protection.{same_bytes}
use xknx.Io.Notify.{TimerNotify, timer_notify, verify_timer_notify_mac, xknx_serial_number}

-- What the notify timer will send.
pub data Schedule : Type 0 where
  unscheduled periodic : Schedule
  update_notify : (message_tag serial_number : Bytes) → Schedule

pub record SecureSequenceTimer : Type 0 where
  pub backbone_key : Bytes
  pub latency_tolerance_ms : ℕ
  pub sync_latency_tolerance_ms : ℕ
  pub timer : ℕ
  pub expected_notify_handler : Option (Bytes × Future ℕ)
  pub schedule : Schedule
  pub sched_update : Bool
  pub timekeeper : Bool
  pub timer_authenticated : Bool

abbrev pub elapse : ℕ → SecureSequenceTimer → SecureSequenceTimer
elapse ms s = record s { timer = s.timer + ms }

unfoldable pub update : ℕ → SecureSequenceTimer → SecureSequenceTimer
update new_value s = record s { timer = new_value }

unfoldable pub reschedule : Schedule → SecureSequenceTimer → SecureSequenceTimer
reschedule (update_notify tag serial) s = record s {
  schedule = update_notify tag serial;
  sched_update = true;
}
reschedule x s = record s { schedule = periodic; sched_update = false }

cancel_expected : Option (Bytes × Future ℕ) → Option (Bytes × Future ℕ)
cancel_expected none = none
cancel_expected (some (tag, waiter)) = some (tag, cancel waiter)

-- Nothing is sent by the timer any more, and who waits for an answer is cancelled.
unfoldable pub stop : SecureSequenceTimer → SecureSequenceTimer
unfolding cancel_expected
stop s = record s {
  schedule = unscheduled;
  expected_notify_handler = cancel_expected s.expected_notify_handler;
}

-- `if not self.sched_update: self.reschedule(...)`
unscheduled_only : Schedule → SecureSequenceTimer → SecureSequenceTimer
unscheduled_only x s = if s.sched_update then s else reschedule x s

-- A value that is ahead sets the timer.
advance : ℕ → SecureSequenceTimer → SecureSequenceTimer
advance received s = record s { timer = received }

-- A difference of more than a tolerance to the timer: the source compares with the timer less the
-- tolerance, which may be negative.
abbrev within : ℕ → ℕ → SecureSequenceTimer → Bool
within tolerance received s = ltb s.timer (received + tolerance)

unfoldable pub validate_secure_wrapper :
    ℕ → (message_tag serial_number : Bytes) → SecureSequenceTimer → Bool × SecureSequenceTimer
unfolding unscheduled_only advance
validate_secure_wrapper received tag serial s =
    if ltb s.timer received
    then (true, unscheduled_only periodic (advance received s))
    else if within s.sync_latency_tolerance_ms received s
    then (true, unscheduled_only periodic s)
    else if within s.latency_tolerance_ms received s
    then (true, s)
    else (false, unscheduled_only (update_notify tag serial) s)

-- The events E1 to E4.
unfoldable pub note_timer : TimerNotify → SecureSequenceTimer → SecureSequenceTimer
unfolding unscheduled_only advance
note_timer notify s =
    if ltb s.timer notify.timer_value
    then reschedule periodic (record (advance notify.timer_value s) { timekeeper = false })
    else if within s.sync_latency_tolerance_ms notify.timer_value s
    then reschedule periodic (record s { timekeeper = false })
    else if within s.latency_tolerance_ms notify.timer_value s
    then s
    else unscheduled_only (update_notify notify.message_tag notify.serial_number) s

settle_expected : ℕ → Bytes × Future ℕ → Action SecureSequenceTimer (Unit {0})
settle_expected value (tag, pending) =
    modify (λ s. record s { expected_notify_handler = some (tag, finished (ok value)) })
settle_expected value (tag, finished r) = raise invalid_state_error

-- The event E11 is the answer to a notify of this station.
abbrev is_answer : TimerNotify → Bytes → Bool
is_answer notify tag =
    same_bytes notify.serial_number xknx_serial_number && same_bytes notify.message_tag tag

settle_notify : TimerNotify → Option (Bytes × Future ℕ) → Action SecureSequenceTimer (Unit {0})
unfolding settle_expected
settle_notify notify none = modify (note_timer notify)
settle_notify notify (some handler) =
    if is_answer notify handler.0
    then settle_expected notify.timer_value handler
    else modify (note_timer notify)

-- A notify that is discarded does nothing; what else the verification raises is raised.
verified : Result (Unit {0}) → TimerNotify → Action SecureSequenceTimer (Unit {0})
unfolding settle_notify
verified (ok tt) notify = do
  handler ← gets (λ s. s.expected_notify_handler)
  settle_notify notify handler
verified (err knx_secure_validation_error) notify = pure tt
verified (err e) notify = raise e

module _ (cipher : Cipher) where
  unfoldable pub handle_timer_notify : TimerNotify → Action SecureSequenceTimer (Unit {0})
  unfolding verified
  handle_timer_notify notify = do
    check ← gets (λ s. verify_timer_notify_mac cipher s.backbone_key notify)
    verified check notify

  -- What is returned is given to the transport.
  unfoldable pub send_timer_notify :
      (message_tag serial_number : Bytes) → Action SecureSequenceTimer TimerNotify
  send_timer_notify tag serial = do
    made ← gets (λ s. timer_notify cipher s.backbone_key s.timer tag serial)
    calls made

  -- A periodic notify has a random tag.
  expired : Schedule → Bytes → Action SecureSequenceTimer TimerNotify
  expired (update_notify tag serial) random = send_timer_notify tag serial
  expired x random = send_timer_notify random xknx_serial_number

  unfoldable pub notify_timer_expired : Bytes → Action SecureSequenceTimer TimerNotify
  unfolding expired
  notify_timer_expired random = do
    planned ← gets (λ s. s.schedule)
    notify ← expired planned random
    modify (λ s. reschedule periodic (record s { timekeeper = true }))
    pure notify

  -- Up to the wait for the answer.
  unfoldable pub begin_synchronize : Bytes → Action SecureSequenceTimer TimerNotify
  begin_synchronize random = do
    modify (λ s. record s { expected_notify_handler = some (random, pending) })
    send_timer_notify random xknx_serial_number

-- After the wait: the future has the answer, or it was cancelled, or its time is over.
settle_wait : Future ℕ → SecureSequenceTimer → SecureSequenceTimer
settle_wait (finished (ok value)) s =
    reschedule periodic
      (record (update value s) { expected_notify_handler = none; timer_authenticated = true })
settle_wait (finished (err e)) s = record s { expected_notify_handler = none }
settle_wait pending s =
    reschedule periodic
      (record s { timekeeper = true; expected_notify_handler = none; timer_authenticated = true })

unfoldable pub end_synchronize : Future ℕ → SecureSequenceTimer → SecureSequenceTimer
unfolding settle_wait
end_synchronize waiter s = settle_wait waiter s

unfoldable pub get_for_outgoing_secure_wrapper : SecureSequenceTimer → ℕ × SecureSequenceTimer
unfolding unscheduled_only
get_for_outgoing_secure_wrapper s = (s.timer, unscheduled_only periodic s)
