-- ===== src/Io/Timer/Window.antt =====
-- The timer never goes back while it is not synchronized anew, and so no wrapper is accepted for long.
use xknx.Prelude.{
  ℕ, ◌+◌, ◌≤◌, ◌≡◌, refl, ◌∙◌, true, false, List, [], ◌∷◌, Option, some, none, Bytes, Result, ok,
  err, arith, Bool-cases, inl, inr, knx_secure_validation_error,
}
use xknx.Prelude.Actions.{carry}
use xknx.Prelude.Futures.{Future, pending, finished}
use xknx.Secure.Primitives.{Cipher}
use xknx.Io.Notify.{TimerNotify, verify_timer_notify_mac}
use xknx.Io.Timer.{
  SecureSequenceTimer, Schedule, unscheduled, periodic, update_notify, elapse, reschedule,
  unscheduled_only, advance, validate_secure_wrapper, is_answer, note_timer, settle_expected,
  settle_notify, verified, handle_timer_notify, notify_timer_expired, expired, send_timer_notify,
  begin_synchronize, get_for_outgoing_secure_wrapper, stop,
}

-- What happens to the timer, but for the end of a synchronization.
pub data Event : Type 0 where
  passes : ℕ → Event
  wrapper : (received : ℕ) (message_tag serial_number : Bytes) → Event
  notify : TimerNotify → Event
  expires begins : (random : Bytes) → Event
  sends stops : Event

-- What stays of the timer, and that its value does not fall.
pub record Advances (s t : SecureSequenceTimer) : Type 0 where
  pub grows : s.timer ≤ t.timer
  pub same_latency : t.latency_tolerance_ms ≡ s.latency_tolerance_ms
  pub same_sync : t.sync_latency_tolerance_ms ≡ s.sync_latency_tolerance_ms

validate-Advances :
    (n : ℕ) (tag serial : Bytes) (s : SecureSequenceTimer)
    → Advances s (validate_secure_wrapper n tag serial s).1
unfolding validate_secure_wrapper unscheduled_only advance reschedule
validate-Advances n tag serial s = ground arith

note-Advances : (n : TimerNotify) (s : SecureSequenceTimer) → Advances s (note_timer n s)
unfolding note_timer unscheduled_only advance reschedule
note-Advances n s = ground arith

send-Advances : (s : SecureSequenceTimer) → Advances s (get_for_outgoing_secure_wrapper s).1
unfolding get_for_outgoing_secure_wrapper unscheduled_only reschedule
send-Advances s = ground arith

stop-Advances : (s : SecureSequenceTimer) → Advances s (stop s)
unfolding stop
stop-Advances s = record { grows = omega arith; same_latency = refl; same_sync = refl }

Advances-refl : (s : SecureSequenceTimer) → Advances s s
Advances-refl s = record { grows = omega arith; same_latency = refl; same_sync = refl }

Advances-trans : (s t u : SecureSequenceTimer) → Advances s t → Advances t u → Advances s u
Advances-trans s t u h k = ground (arith, h, k)

settle_notify-Advances :
    (n : TimerNotify) (o : Option (Bytes × Future ℕ)) (s : SecureSequenceTimer)
    → Advances s (settle_notify n o s).1
unfolding settle_notify settle_expected
settle_notify-Advances n none s = note-Advances n s
settle_notify-Advances n (some (tag, pending)) s = elim (Bool-cases (is_answer n tag)) [
  | inl h ↦ rw h (record { grows = omega arith; same_latency = refl; same_sync = refl })
  | inr h ↦ rw h (note-Advances n s)
]
settle_notify-Advances n (some (tag, finished r)) s = elim (Bool-cases (is_answer n tag)) [
  | inl h ↦ rw h (Advances-refl s)
  | inr h ↦ rw h (note-Advances n s)
]

verified-Advances :
    (r : Result (Unit {0})) (n : TimerNotify) (s : SecureSequenceTimer)
    → Advances s (verified r n s).1
unfolding verified
verified-Advances (ok tt) n s = settle_notify-Advances n s.expected_notify_handler s
verified-Advances (err knx_secure_validation_error) n s = Advances-refl s
verified-Advances (err e) n s = Advances-refl s

-- What is done after the notify was sent, or could not be made.
after_notify :
    (s : SecureSequenceTimer) (done : Result TimerNotify × SecureSequenceTimer)
    → done.1 ≡ s
    → Advances s
        (carry done (λ n t. (ok n, reschedule periodic (record t { timekeeper = true })))).1
unfolding reschedule
after_notify s (ok n, t) h =
    rw h (record { grows = omega arith; same_latency = refl; same_sync = refl })
after_notify s (err e, t) h = rw h (Advances-refl s)

module _ (cipher : Cipher) where
  expired_lem :
      (x : Schedule) (random : Bytes) (s : SecureSequenceTimer) → (expired cipher x random s).1 ≡ s
  unfolding expired send_timer_notify
  expired_lem (update_notify tag serial) random s = refl
  expired_lem unscheduled random s = refl
  expired_lem periodic random s = refl

  expires-Advances :
      (random : Bytes) (s : SecureSequenceTimer)
      → Advances s (notify_timer_expired cipher random s).1
  unfolding notify_timer_expired
  expires-Advances random s =
      after_notify s (expired cipher s.schedule random s) (expired_lem s.schedule random s)

  unfoldable pub after_event : Event → SecureSequenceTimer → SecureSequenceTimer
  after_event (passes ms) s = elapse ms s
  after_event (wrapper n tag serial) s = (validate_secure_wrapper n tag serial s).1
  after_event (notify n) s = (handle_timer_notify cipher n s).1
  after_event (expires random) s = (notify_timer_expired cipher random s).1
  after_event (begins random) s = (begin_synchronize cipher random s).1
  after_event sends s = (get_for_outgoing_secure_wrapper s).1
  after_event stops s = stop s

  unfoldable pub after_events : List Event → SecureSequenceTimer → SecureSequenceTimer
  unfolding after_event
  after_events [] s = s
  after_events (event ∷ events) s = after_events events (after_event event s)

  begins-Advances :
      (random : Bytes) (s : SecureSequenceTimer) → Advances s (begin_synchronize cipher random s).1
  unfolding begin_synchronize send_timer_notify
  begins-Advances random s = record { grows = omega arith; same_latency = refl; same_sync = refl }

  handle-Advances :
      (n : TimerNotify) (s : SecureSequenceTimer) → Advances s (handle_timer_notify cipher n s).1
  unfolding handle_timer_notify
  handle-Advances n s = verified-Advances (verify_timer_notify_mac cipher s.backbone_key n) n s

-- The milliseconds that pass.
abbrev elapsed_by : Event → ℕ
elapsed_by (passes ms) = ms
elapsed_by event = 0

abbrev pub elapsed : List Event → ℕ
elapsed [] = 0
elapsed (event ∷ events) = elapsed_by event + elapsed events

from_now : (s t : SecureSequenceTimer) → Advances s t → Advances (elapse 0 s) t
from_now s t h = record {
  grows = omega (arith, h.grows);
  same_latency = h.same_latency;
  same_sync = h.same_sync;
}

seen :
    (n : ℕ) (tag serial : Bytes) (s : SecureSequenceTimer)
    → n ≤ (validate_secure_wrapper n tag serial s).1.timer
unfolding validate_secure_wrapper unscheduled_only advance reschedule
seen n tag serial s = ground arith

too_late :
    (n : ℕ) (tag serial : Bytes) (s : SecureSequenceTimer)
    → s.sync_latency_tolerance_ms ≤ s.latency_tolerance_ms
    → n + s.latency_tolerance_ms ≤ s.timer
    → (validate_secure_wrapper n tag serial s).0 ≡ false
unfolding validate_secure_wrapper unscheduled_only advance reschedule
too_late n tag serial s h k = ground arith

module _ (cipher : Cipher) where
  event-Advances :
      (event : Event) (s : SecureSequenceTimer)
      → Advances (elapse (elapsed_by event) s) (after_event cipher event s)
  unfolding after_event
  event-Advances (passes ms) s = Advances-refl (elapse ms s)
  event-Advances (wrapper n tag serial) s =
      from_now s (validate_secure_wrapper n tag serial s).1 (validate-Advances n tag serial s)
  event-Advances (notify n) s =
      from_now s (handle_timer_notify cipher n s).1 (handle-Advances cipher n s)
  event-Advances (expires random) s =
      from_now s (notify_timer_expired cipher random s).1 (expires-Advances cipher random s)
  event-Advances (begins random) s =
      from_now s (begin_synchronize cipher random s).1 (begins-Advances cipher random s)
  event-Advances sends s = from_now s (get_for_outgoing_secure_wrapper s).1 (send-Advances s)
  event-Advances stops s = from_now s (stop s) (stop-Advances s)

  joined :
      (a b : ℕ) (s t u : SecureSequenceTimer)
      → Advances (elapse a s) t
      → Advances (elapse b t) u
      → Advances (elapse (a + b) s) u
  joined a b s t u h k = record {
    grows = omega (arith, h.grows, k.grows);
    same_latency = k.same_latency ∙ h.same_latency;
    same_sync = k.same_sync ∙ h.same_sync;
  }

  -- Over any events but the end of a synchronization, the timer runs at least as far as the time that
  -- passes, and the tolerances stay.
  pub after_events-Advances :
      (events : List Event) (s : SecureSequenceTimer)
      → Advances (elapse (elapsed events) s) (after_events cipher events s)
  unfolding after_events
  after_events-Advances [] s = from_now s s (Advances-refl s)
  after_events-Advances (event ∷ events) s =
      joined (elapsed_by event) (elapsed events) s (after_event cipher event s)
        (after_events cipher events (after_event cipher event s)) (event-Advances event s)
        (after_events-Advances events (after_event cipher event s))

  -- A wrapper that came in is refused when it comes in again after as many milliseconds as the latency
  -- tolerance, whatever else happens between, but for the end of a synchronization.
  pub validate_secure_wrapper-replay :
      (n : ℕ) (tag serial tag' serial' : Bytes) (s : SecureSequenceTimer) (events : List Event)
      → s.sync_latency_tolerance_ms ≤ s.latency_tolerance_ms
      → s.latency_tolerance_ms ≤ elapsed events
      → (validate_secure_wrapper n tag' serial'
          (after_events cipher events (validate_secure_wrapper n tag serial s).1)).0
        ≡ false
  validate_secure_wrapper-replay n tag serial tag' serial' s events h k =
      let first = validate-Advances n tag serial s in
      let later = after_events-Advances events (validate_secure_wrapper n tag serial s).1 in
      too_late n tag' serial'
        (after_events cipher events (validate_secure_wrapper n tag serial s).1)
        (rw (later.same_sync ∙ first.same_sync, later.same_latency ∙ first.same_latency) h)
        (rw (later.same_latency ∙ first.same_latency)
          (omega (arith, later.grows, seen n tag serial s, k)))
