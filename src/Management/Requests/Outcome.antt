-- ===== src/Management/Requests/Outcome.antt =====
-- What a sender learns, from the acknowledgements that come in and from nothing else.
use xknx.Prelude.{
  ℕ, ◌≡◌, refl, ◌∙◌, inl, inr, true, ◌==◌, if◌then◌else◌, Bool-cases, ◌∷◌, ◌++◌, Option, none, some,
  Result, ok, err, Error, timeout_error, management_connection_error, management_connection_timeout,
  arith,
}
use xknx.Prelude.Actions.{calls, carry, ◌>>◌}
use xknx.Management.Connection.{pending, P2PConnection, receive_all}
use xknx.Management.Connection.Acks.{
  first_ack, first_ack-IsAck, ack_of, waiter_of, receive_all_pending, receive_all-append,
}
use xknx.Management.Requests.{
  Attempt, is_communication, hand_over, awaited, awaited_ack, wait_for_ack, timed_out, repeated,
  rescued, attempts, release_ack, check_ack, data_telegram, send_data, started, send_data_connected,
}
use xknx.Telegram.Address.{IndividualAddress}
use xknx.Telegram.Apci.Services.{Apci}
use xknx.Telegram.Record.{TelegramRecord}
use xknx.Telegram.Tpci.{Tpci, t_ack, sequence_number}

-- The acknowledgement of an attempt.
abbrev pub answer : Attempt → Option Tpci
answer a = first_ack (a.while_sending ++ a.while_waiting)

-- A positive acknowledgement of the number is success, any other is an error.
unfoldable pub judged : ℕ → Tpci → Result (Unit {0})
judged n (t_ack m) = if m == n then ok tt else err management_connection_error
judged n _ = err management_connection_error

-- The repeated attempt: the exception of the sending is raised as it is.
unfoldable pub second_outcome : ℕ → Result (Unit {0}) → Option Tpci → Result (Unit {0})
second_outcome n (err e) o = err e
second_outcome n (ok tt) none = err management_connection_timeout
second_outcome n (ok tt) (some t) = judged n t

-- The first attempt, which is repeated where no acknowledgement comes in.
unfoldable pub first_outcome :
    ℕ → Result (Unit {0}) → Option Tpci → Result (Unit {0}) → Result (Unit {0})
first_outcome n (ok tt) (some t) again = judged n t
first_outcome n (ok tt) none again = again
first_outcome n (err timeout_error) o again = again
first_outcome n (err e) o again =
    if is_communication e then err management_connection_error else err e

abbrev pub outcome : ℕ → Attempt → Attempt → Result (Unit {0})
outcome n first second =
    first_outcome n first.sending (answer first) (second_outcome n second.sending (answer second))

abbrev pub handed : TelegramRecord → P2PConnection → P2PConnection
handed telegram c = record c { outgoing = telegram ∷ c.outgoing }

-- After an attempt that is sent.
abbrev pub after : TelegramRecord → Attempt → P2PConnection → P2PConnection
after telegram a c = receive_all a.while_waiting (receive_all a.while_sending (handed telegram c))

after_ack :
    (telegram : TelegramRecord) (a : Attempt) (c : P2PConnection)
    → c.ack_waiter ≡ some pending
    → (after telegram a c).ack_waiter ≡ some (waiter_of (answer a))
after_ack telegram a c h =
    rw (← receive_all-append a.while_sending a.while_waiting (handed telegram c))
      (receive_all_pending (a.while_sending ++ a.while_waiting) (handed telegram c) h)

-- The acknowledgement that an attempt returns.
found : Error → Option Tpci → Result Tpci
found e none = err e
found e (some t) = ok t

-- The first attempt, as far as it goes by itself.
tried :
    TelegramRecord
    → Attempt
    → Result (Unit {0})
    → Option Tpci
    → P2PConnection
    → Result Tpci × P2PConnection
unfolding found
tried telegram a (err e) o c = (err e, receive_all a.while_sending (handed telegram c))
tried telegram a (ok tt) o c = (found timeout_error o, after telegram a c)

first_lem :
    (telegram : TelegramRecord) (a : Attempt) (c : P2PConnection) (s : Result (Unit {0}))
    (o : Option Tpci)
    → c.ack_waiter ≡ some pending
    → answer a ≡ o
    → (hand_over telegram a.while_sending s >> wait_for_ack a.while_waiting) c
      ≡ tried telegram a s o c
unfolding hand_over wait_for_ack awaited_ack awaited tried found
first_lem telegram a c (err e) o h k = refl
first_lem telegram a c (ok tt) none h k = rw (after_ack telegram a c h, k) refl
first_lem telegram a c (ok tt) (some t) h k = rw (after_ack telegram a c h, k) refl

repeat_tried :
    TelegramRecord
    → Attempt
    → Result (Unit {0})
    → Option Tpci
    → P2PConnection
    → Result Tpci × P2PConnection
unfolding found
repeat_tried telegram a (err e) o c =
    (err e, receive_all a.while_sending (handed telegram (record c { ack_waiter = some pending })))
repeat_tried telegram a (ok tt) o c = (
  found management_connection_timeout o,
  after telegram a (record c { ack_waiter = some pending }),
)

repeated_lem :
    (telegram : TelegramRecord) (a : Attempt) (c : P2PConnection) (s : Result (Unit {0}))
    (o : Option Tpci)
    → a.sending ≡ s
    → answer a ≡ o
    → repeated telegram a c ≡ repeat_tried telegram a s o c
unfolding repeated hand_over awaited_ack awaited timed_out repeat_tried found
repeated_lem telegram a c (err e) o h k = rw h refl
repeated_lem telegram a c (ok tt) none h k =
    rw h (rw (after_ack telegram a (record c { ack_waiter = some pending }) refl, k) refl)
repeated_lem telegram a c (ok tt) (some t) h k =
    rw h (rw (after_ack telegram a (record c { ack_waiter = some pending }) refl, k) refl)

judged_lem : (n : ℕ) (t : Tpci) → ack_of t ≡ some t → check_ack n t ≡ judged n t
unfolding check_ack judged sequence_number
judged_lem n t h = ground (arith, h)

answer_lem : (n : ℕ) (a : Attempt) (t : Tpci) → answer a ≡ some t → check_ack n t ≡ judged n t
answer_lem n a t h = judged_lem n t (first_ack-IsAck (a.while_sending ++ a.while_waiting) t h)

-- The check of the acknowledgement, where there is one.
checked : ℕ → Result Tpci → Result (Unit {0})
checked n (ok t) = check_ack n t
checked n (err e) = err e

repeat_outcome :
    (telegram : TelegramRecord) (n : ℕ) (a : Attempt) (c : P2PConnection) (s : Result (Unit {0}))
    (o : Option Tpci)
    → a.sending ≡ s
    → answer a ≡ o
    → checked n (repeated telegram a c).0 ≡ second_outcome n s o
unfolding checked second_outcome repeat_tried found
repeat_outcome telegram n a c (err e) o h k = rw (repeated_lem telegram a c (err e) o h k) refl
repeat_outcome telegram n a c (ok tt) none h k =
    rw (repeated_lem telegram a c (ok tt) none h k) refl
repeat_outcome telegram n a c (ok tt) (some t) h k =
    rw (repeated_lem telegram a c (ok tt) (some t) h k) (answer_lem n a t k)

-- An exception of the first sending that is not a timeout.
refused_lem :
    (n : ℕ) (e : Error) (d : P2PConnection)
    → checked n (if is_communication e then err management_connection_error else err e)
      ≡ (if is_communication e then err management_connection_error else err e)
unfolding checked
refused_lem n e d = elim (Bool-cases (is_communication e)) [ inl h ↦ rw h refl | inr h ↦ rw h refl ]

module _ (telegram : TelegramRecord) (n : ℕ) (first second : Attempt) (c : P2PConnection)
    (h : c.ack_waiter ≡ some pending) where
  attempts_outcome :
      (s : Result (Unit {0})) (o : Option Tpci)
      → first.sending ≡ s
      → answer first ≡ o
      → checked n (attempts telegram first second c).0
        ≡ first_outcome n s o (second_outcome n second.sending (answer second))
  unfolding attempts rescued first_outcome tried found checked
  attempts_outcome (ok tt) none j k = rw j (
      rw (first_lem telegram first c (ok tt) none h k) (
        repeat_outcome telegram n second (after telegram first c) second.sending (answer second)
          refl refl))
  attempts_outcome (ok tt) (some t) j k =
      rw j (rw (first_lem telegram first c (ok tt) (some t) h k) (answer_lem n first t k))
  attempts_outcome (err timeout_error) o j k = rw j (
      rw (first_lem telegram first c (err timeout_error) o h k) (
        repeat_outcome telegram n second (receive_all first.while_sending (handed telegram c))
          second.sending (answer second) refl refl))
  attempts_outcome (err e) o j k =
      rw j (rw (first_lem telegram first c (err e) o h k) (refused_lem n e c))

finish_lem :
    (n : ℕ) (done : Result Tpci × P2PConnection)
    → (carry (release_ack done) (λ ack. calls (check_ack n ack))).0 ≡ checked n done.0
unfolding release_ack checked
finish_lem n (ok t, d) = refl
finish_lem n (err e, d) = refl

-- On a connection, sending data returns or raises as the first acknowledgements of the two attempts and
-- the ends of their sending say, whatever other telegrams come in: success is a positive acknowledgement
-- of the number that was used, and the second attempt counts only where the first had none.
pub send_data-outcome :
    (current : IndividualAddress) (payload : Apci) (first second : Attempt) (c : P2PConnection)
    → c.connected ≡ true
    → (send_data current payload first second c).0 ≡ outcome c.next_sequence_number first second
send_data-outcome current payload first second c h =
    let n = c.next_sequence_number in
    let telegram = data_telegram current payload n (started c) in
    rw (send_data_connected current payload first second c h) (
      finish_lem n (attempts telegram first second (started c))
      ∙ attempts_outcome telegram n first second (started c) refl first.sending (answer first) refl
          refl)
