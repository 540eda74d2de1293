-- ===== src/Io/Timer/Tests.antt =====
-- Concrete runs, and the theorems at concrete inputs.
use xknx.Prelude.{◌≡◌, refl, true, false, none, List, [], ◌∷◌, arith}
use xknx.Io.Notify.{TimerNotify}
use xknx.Io.Timer.{SecureSequenceTimer, periodic, elapse, validate_secure_wrapper}
use xknx.Io.Timer.Window.{
  Event, passes, wrapper, notify, sends, stops, Advances, after_events, elapsed,
  after_events-Advances, validate_secure_wrapper-replay,
}
use xknx.Secure.DataSecure.Samples.{sample, group_key}

abbrev running : SecureSequenceTimer
running = record {
  backbone_key = group_key;
  latency_tolerance_ms = 1000;
  sync_latency_tolerance_ms = 100;
  timer = 5000;
  expected_notify_handler = none;
  schedule = periodic;
  sched_update = false;
  timekeeper = false;
  timer_authenticated = true;
}

abbrev forged : TimerNotify
forged = record {
  timer_value = 9000;
  serial_number = 1 ∷ 2 ∷ 3 ∷ 4 ∷ 5 ∷ 6 ∷ [];
  message_tag = 7 ∷ 8 ∷ [];
  message_authentication_code = [];
}

abbrev events : List Event
events = passes 400 ∷ notify forged ∷ wrapper 5500 [] [] ∷ sends ∷ stops ∷ passes 700 ∷ []

accepted_ahead : (validate_secure_wrapper 5300 [] [] running).0 ≡ true
unfolding validate_secure_wrapper
accepted_ahead = refl

accepted_in_tolerance : (validate_secure_wrapper 4001 [] [] running).0 ≡ true
unfolding validate_secure_wrapper
accepted_in_tolerance = refl

refused_late : (validate_secure_wrapper 4000 [] [] running).0 ≡ false
unfolding validate_secure_wrapper
refused_late = refl

after_events-Advances_example :
    Advances (elapse (elapsed events) running) (after_events sample events running)
after_events-Advances_example = after_events-Advances sample events running

validate_secure_wrapper-replay_example :
    (validate_secure_wrapper 5300 [] []
      (after_events sample events (validate_secure_wrapper 5300 [] [] running).1)).0
    ≡ false
validate_secure_wrapper-replay_example =
    validate_secure_wrapper-replay sample 5300 [] [] [] [] running events (omega arith)
      (omega arith)
