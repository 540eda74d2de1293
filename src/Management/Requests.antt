-- ===== src/Management/Requests.antt =====
-- xknx/management/management.py: the coroutines of a P2PConnection. Where one waits, what happens until
-- it runs on is an argument: the telegrams that come in, and how the sending ends.
pub mod Outcome
pub mod Effects
pub mod Response
use xknx.Prelude.{
  ℕ, Bool, true, false, not, ◌==◌, ◌≡◌, refl, Option, none, some, List, [], ◌∷◌, Result, ok, err,
  Error, timeout_error, type_error, communication_error, confirmation_error, tunnelling_ack_error,
  ip_secure_error, management_connection_error, management_connection_refused,
  management_connection_timeout, if◌then◌else◌,
}
use xknx.Prelude.Actions.{Action, carry, pure, raise, calls, gets, modify, raises_if, ◌>>=◌, ◌>>◌}
use mathlib.Core.Option as Option
use xknx.Management.Connection.{
  Future, pending, finished, cancel, P2PConnection, next_number, receive_all,
}
use xknx.Telegram.Address.{IndividualAddress}
use xknx.Telegram.Apci.Services.{Apci}
use xknx.Telegram.Record.{TelegramRecord, telegram_of, individual_target, outgoing}
use xknx.Telegram.Tpci.{Tpci, t_connect, t_disconnect, t_data_connected, t_nak, sequence_number}

-- One attempt to send: what comes in until `send_telegram` ends, how it ends, and what comes in until
-- the acknowledgement is awaited no longer.
pub record Attempt : Type 0 where
  pub while_sending : List TelegramRecord
  pub sending : Result (Unit {0})
  pub while_waiting : List TelegramRecord

-- The exceptions that are a CommunicationError.
unfoldable pub is_communication : Error → Bool
is_communication communication_error = true
is_communication confirmation_error = true
is_communication tunnelling_ack_error = true
is_communication ip_secure_error = true
is_communication _ = false

-- `await self.xknx.cemi_handler.send_telegram(telegram)`
unfoldable pub hand_over :
    TelegramRecord → List TelegramRecord → Result (Unit {0}) → Action P2PConnection (Unit {0})
hand_over telegram while_sending sending = do
  modify (λ c. record c { outgoing = telegram ∷ c.outgoing })
  modify (receive_all while_sending)
  calls sending

-- `await` of a future that may be done; the time is over where it is not.
awaited : {Value : Type 0} → Future Value → Result Value
awaited pending = err timeout_error
awaited (finished r) = r

awaited_ack : Option (Future Tpci) → Result Tpci
unfolding awaited
awaited_ack none = err type_error
awaited_ack (some f) = awaited f

wait_for_ack : List TelegramRecord → Action P2PConnection Tpci
unfolding awaited_ack
wait_for_ack while_waiting = do
  modify (receive_all while_waiting)
  ack ← gets (λ c. awaited_ack c.ack_waiter)
  calls ack

-- A timeout of the repeated attempt.
timed_out : {Value : Type 0} → Result Value → Result Value
timed_out (err timeout_error) = err management_connection_timeout
timed_out r = r

repeated : TelegramRecord → Attempt → Action P2PConnection Tpci
unfolding wait_for_ack timed_out
repeated telegram second = do
  modify (λ c. record c { ack_waiter = some pending })
  hand_over telegram second.while_sending second.sending
  modify (receive_all second.while_waiting)
  ack ← gets (λ c. timed_out (awaited_ack c.ack_waiter))
  calls ack

-- The except clauses around the first attempt.
rescued : TelegramRecord → Attempt → Result Tpci × P2PConnection → Result Tpci × P2PConnection
unfolding repeated
rescued telegram second (ok ack, c) = (ok ack, c)
rescued telegram second (err timeout_error, c) = repeated telegram second c
rescued telegram second (err e, c) =
    (if is_communication e then err management_connection_error else err e, c)

attempts : TelegramRecord → Attempt → Attempt → Action P2PConnection Tpci
unfolding rescued wait_for_ack
attempts telegram first second c =
    rescued telegram second (
      (do hand_over telegram first.while_sending first.sending; wait_for_ack first.while_waiting) c)

-- `finally: self._ack_waiter = None`
release_ack : Result Tpci × P2PConnection → Result Tpci × P2PConnection
release_ack (r, c) = (r, record c { ack_waiter = none })

check_ack : ℕ → Tpci → Result (Unit {0})
check_ack n (t_nak m) = err management_connection_error
check_ack n ack = if sequence_number ack == n then ok tt else err management_connection_error

data_telegram : IndividualAddress → Apci → ℕ → P2PConnection → TelegramRecord
data_telegram current payload n c =
    telegram_of (individual_target c.address) outgoing (some payload) current
      (some (t_data_connected n))

unfoldable pub send_data :
    IndividualAddress → Apci → Attempt → Attempt → Action P2PConnection (Unit {0})
unfolding attempts release_ack check_ack data_telegram
send_data current payload first second = do
  up ← gets (λ c. c.connected)
  raises_if (not up) management_connection_refused
  modify (λ c. record c { ack_waiter = some pending })
  n ← gets (λ c. c.next_sequence_number)
  modify (λ c. record c { next_sequence_number = next_number c.next_sequence_number })
  telegram ← gets (data_telegram current payload n)
  ack ← λ c. release_ack (attempts telegram first second c)
  calls (check_ack n ack)

-- The state in which the first attempt begins.
abbrev started : P2PConnection → P2PConnection
started c = record c {
  ack_waiter = some pending;
  next_sequence_number = next_number c.next_sequence_number;
}

send_data_connected :
    (current : IndividualAddress) (payload : Apci) (first second : Attempt) (c : P2PConnection)
    → c.connected ≡ true
    → send_data current payload first second c
      ≡ carry
          (release_ack (
            attempts
              (data_telegram current payload c.next_sequence_number (started c))
              first
              second
              (started c)))
          (λ ack. calls (check_ack c.next_sequence_number ack))
unfolding send_data
send_data_connected current payload first second c h = rw h refl

-- `isinstance(telegram.payload, expected_payload)`, where a class is given, as a test of the payload.
unfoldable pub fits_expected : Option (Apci → Bool) → Option Apci → Bool
fits_expected none payload = true
fits_expected (some is_expected) none = false
fits_expected (some is_expected) (some payload) = is_expected payload

-- `finally`: a new future for the next request.
renewed : Result TelegramRecord × P2PConnection → Result TelegramRecord × P2PConnection
renewed (r, c) = (r, record c { response_waiter = pending })

await_response : List TelegramRecord → Action P2PConnection TelegramRecord
unfolding awaited timed_out
await_response while_waiting = do
  modify (receive_all while_waiting)
  response ← gets (λ c. timed_out (awaited c.response_waiter))
  calls response

unfoldable pub receive :
    Option (Apci → Bool) → List TelegramRecord → Action P2PConnection TelegramRecord
unfolding await_response renewed fits_expected
receive expected while_waiting = do
  telegram ← λ c. renewed (await_response while_waiting c)
  raises_if (not (fits_expected expected telegram.payload)) management_connection_error
  pure telegram

-- What comes in while the rate limit holds the request back is the first list.
unfoldable pub request :
    IndividualAddress
    → Apci
    → Option (Apci → Bool)
    → List TelegramRecord
    → Attempt
    → Attempt
    → List TelegramRecord
    → Action P2PConnection TelegramRecord
request current payload expected limited first second responses = do
  up ← gets (λ c. c.connected)
  raises_if (not up) management_connection_refused
  modify (receive_all limited)
  send_data current payload first second
  receive expected responses

-- A CommunicationError, of which a ConfirmationError is one, becomes a ManagementConnectionError.
connection_error_of : Result (Unit {0}) → Result (Unit {0})
connection_error_of (ok tt) = ok tt
connection_error_of (err e) = if is_communication e then err management_connection_error else err e

settle_connect : Result (Unit {0}) → P2PConnection → Result (Unit {0}) × P2PConnection
settle_connect (ok tt) c = (ok tt, record c { connected = true })
settle_connect (err e) c =
    if is_communication e
    then (err management_connection_error, record c { response_waiter = cancel c.response_waiter })
    else (err e, c)

-- A connection is not known to the management before this returns, so nothing comes in for it.
unfoldable pub connect : IndividualAddress → Result (Unit {0}) → Action P2PConnection (Unit {0})
unfolding settle_connect
connect current sending c = settle_connect sending (record c {
  outgoing =
      telegram_of (individual_target c.address) outgoing none current (some t_connect) ∷ c.outgoing;
})

-- `finally`: both waiters are cancelled. The hook is that of the management.
abandoned : Result (Unit {0}) × P2PConnection → Result (Unit {0}) × P2PConnection
abandoned (r, c) = (
  r,
  record c {
    ack_waiter = Option.map cancel c.ack_waiter;
    response_waiter = cancel c.response_waiter;
  },
)

disconnect_telegram : IndividualAddress → P2PConnection → TelegramRecord
disconnect_telegram current c =
    telegram_of (individual_target c.address) outgoing none current (some t_disconnect)

send_disconnect :
    IndividualAddress → List TelegramRecord → Result (Unit {0}) → Action P2PConnection (Unit {0})
unfolding disconnect_telegram connection_error_of
send_disconnect current while_sending sending = do
  telegram ← gets (disconnect_telegram current)
  hand_over telegram while_sending (connection_error_of sending)

unfoldable pub disconnect :
    IndividualAddress → List TelegramRecord → Result (Unit {0}) → Action P2PConnection (Unit {0})
unfolding send_disconnect abandoned
disconnect current while_sending sending = do
  up ← gets (λ c. c.connected)
  raises_if (not up) management_connection_refused
  modify (λ c. record c { connected = false })
  λ c. abandoned (send_disconnect current while_sending sending c)
