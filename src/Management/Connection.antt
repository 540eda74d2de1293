-- ===== src/Management/Connection.antt =====
-- xknx/management/management.py: the state of a P2PConnection, and what a telegram that comes in does
-- to it.
pub mod Keeps
pub mod Acks
pub mod Responses
use xknx.Prelude.{
  ℕ, ◌+◌, Bool, true, false, not, ◌==◌, bit_and, Option, none, some, List, [], ◌∷◌, Result, ok, err,
  invalid_state_error, management_connection_refused, cancelled_error,
}
use xknx.Prelude.Actions.{Action, pure, raise, gets, modify, ◌>>=◌, ◌>>◌}
pub use xknx.Prelude.Futures.{Future, pending, finished, done, cancel}
use xknx.Telegram.Address.{IndividualAddress}
use xknx.Telegram.Record.{TelegramRecord}
use xknx.Telegram.Tpci.{Tpci, t_disconnect, t_ack, t_nak, sequence_number}

-- `outgoing` is what was given to the CEMI handler, the latest first.
pub record P2PConnection : Type 0 where
  pub address : IndividualAddress
  pub connected : Bool
  pub next_sequence_number : ℕ
  pub expected_sequence_number : ℕ
  pub ack_waiter : Option (Future Tpci)
  pub response_waiter : Future TelegramRecord
  pub outgoing : List TelegramRecord

unfoldable pub p2p_connection : IndividualAddress → P2PConnection
p2p_connection address = record {
  address = address;
  connected = false;
  next_sequence_number = 0;
  expected_sequence_number = 0;
  ack_waiter = none;
  response_waiter = pending;
  outgoing = [];
}

-- `set_result` and `set_exception` of the response waiter.
settle_response : Result TelegramRecord → Future TelegramRecord → Action P2PConnection (Unit {0})
settle_response r pending = modify (λ c. record c { response_waiter = finished r })
settle_response r (finished x) = raise invalid_state_error

set_response : Result TelegramRecord → Action P2PConnection (Unit {0})
unfolding settle_response
set_response r = do waiter ← gets (λ c. c.response_waiter); settle_response r waiter

when : Bool → Action P2PConnection (Unit {0}) → Action P2PConnection (Unit {0})
when true m = m
when false m = pure tt

-- `if self._ack_waiter:`
abbrev pub is_waiting : Option (Future Tpci) → Bool
is_waiting none = false
is_waiting (some f) = true

settle_ack : Tpci → Option (Future Tpci) → Action P2PConnection (Unit {0})
settle_ack t none = pure tt
settle_ack t (some pending) = modify (λ c. record c { ack_waiter = some (finished (ok t)) })
settle_ack t (some (finished x)) = raise invalid_state_error

process_disconnect : Action P2PConnection (Unit {0})
unfolding set_response when
process_disconnect = do
  modify (λ c. record c { connected = false })
  waiting ← gets (λ c. is_waiting c.ack_waiter)
  when waiting (set_response (err management_connection_refused))
  settled ← gets (λ c. done c.response_waiter)
  when (not settled) (set_response (err management_connection_refused))

process_ack : Tpci → Action P2PConnection (Unit {0})
unfolding settle_ack
process_ack t = do waiter ← gets (λ c. c.ack_waiter); settle_ack t waiter

abbrev pub next_number : ℕ → ℕ
next_number n = bit_and (n + 1) 0xF

accept_response : TelegramRecord → Action P2PConnection (Unit {0})
unfolding set_response
accept_response telegram = do
  set_response (ok telegram)
  modify (λ c. record c { expected_sequence_number = next_number c.expected_sequence_number })

process_data : TelegramRecord → Action P2PConnection (Unit {0})
unfolding accept_response when
process_data telegram = do
  settled ← gets (λ c. done c.response_waiter)
  expected ← gets (λ c. sequence_number telegram.tpci == c.expected_sequence_number)
  when (not settled) (when expected (accept_response telegram))

process_tpci : TelegramRecord → Tpci → Action P2PConnection (Unit {0})
unfolding process_disconnect process_ack process_data
process_tpci telegram t_disconnect = process_disconnect
process_tpci telegram (t_ack n) = process_ack (t_ack n)
process_tpci telegram (t_nak n) = process_ack (t_nak n)
process_tpci telegram _ = process_data telegram

unfoldable pub process : TelegramRecord → Action P2PConnection (Unit {0})
unfolding process_tpci
process telegram = process_tpci telegram telegram.tpci

-- The state after the telegrams that come in while a call waits. What `process` raises is raised to
-- the receiver, not to the call.
unfoldable pub receive_all : List TelegramRecord → P2PConnection → P2PConnection
receive_all [] c = c
receive_all (telegram ∷ telegrams) c = receive_all telegrams (process telegram c).1
