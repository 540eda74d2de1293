-- ===== src/Management/Tests.antt =====
-- Concrete runs, and the theorems at concrete inputs.
use xknx.Prelude.{
  ◌≡◌, refl, true, false, some, none, [], ◌∷◌, List, Option, ok, err, arith, invalid_state_error,
  management_connection_refused, management_connection_timeout,
}
use xknx.Management.Connection.{
  Future, pending, finished, done, P2PConnection, p2p_connection, next_number, receive_all,
}
use xknx.Management.Connection as Connection
use xknx.Management.Connection.Acks.{first_ack}
use xknx.Management.Connection.Responses.{process-duplicate, process-disconnect_waiting}
use xknx.Management.Requests.{Attempt, send_data, receive, fits_expected}
use xknx.Management.Requests.Outcome.{
  outcome, judged, first_outcome, second_outcome, send_data-outcome,
}
use xknx.Management.Requests.Effects.{IsSettled, send_data-IsSettled}
use xknx.Management.Requests.Response.{receive_lem}
use xknx.Management.Dispatch.{Management}
use xknx.Management.Dispatch as Dispatch
use xknx.Management.Dispatch.Routing.{IsRouted, process-IsRouted}
use xknx.Telegram.Address.{IndividualAddress}
use xknx.Telegram.Apci.Services.{Apci, device_descriptor_read, device_descriptor_response}
use xknx.Telegram.Record.{TelegramRecord, individual_target, incoming, outgoing, telegram_of}
use xknx.Telegram.Tpci.{Tpci, t_ack, t_data_connected, t_disconnect, sequence_number}

abbrev own : IndividualAddress
own = record { raw = 0x11FF }

abbrev device : IndividualAddress
device = record { raw = 0x1203 }

abbrev from_device : Tpci → Option Apci → TelegramRecord
from_device tpci payload = record {
  destination_address = individual_target own;
  direction = incoming;
  payload = payload;
  source_address = device;
  tpci = tpci;
}

abbrev response : TelegramRecord
response = from_device (t_data_connected 0) (some (device_descriptor_response 0 0x07B0))

abbrev up : P2PConnection
up = record {
  address = device;
  connected = true;
  next_sequence_number = 15;
  expected_sequence_number = 0;
  ack_waiter = none;
  response_waiter = pending;
  outgoing = [];
}

abbrev lost : Attempt
lost = record { while_sending = []; sending = ok tt; while_waiting = response ∷ [] }

abbrev answered : Attempt
answered = record {
  while_sending = [];
  sending = ok tt;
  while_waiting = response ∷ from_device (t_ack 15) none ∷ [];
}

repeated_once : outcome 15 lost answered ≡ ok tt
unfolding first_outcome second_outcome first_ack judged
repeated_once = refl

never_acknowledged : outcome 15 lost lost ≡ err management_connection_timeout
unfolding first_outcome second_outcome first_ack judged
never_acknowledged = refl

send_data-outcome_example :
    (send_data own (device_descriptor_read 0) lost answered up).0 ≡ outcome 15 lost answered
send_data-outcome_example = send_data-outcome own (device_descriptor_read 0) lost answered up refl

send_data-IsSettled_example :
    IsSettled 15
      (telegram_of
        (individual_target device)
        outgoing
        (some (device_descriptor_read 0))
        own
        (some (t_data_connected 15)))
      up
      (send_data own (device_descriptor_read 0) lost answered up).1
send_data-IsSettled_example =
    send_data-IsSettled own (device_descriptor_read 0) lost answered up refl

receive_lem_example :
    let d = (receive none (response ∷ response ∷ []) up).1 in
    (sequence_number response.tpci ≡ 0)
    × (fits_expected none response.payload ≡ true)
    × (d.expected_sequence_number ≡ next_number 0)
    × (d.response_waiter ≡ pending)
unfolding receive receive_all Connection.process sequence_number
receive_lem_example = receive_lem none (response ∷ response ∷ []) up response refl refl

process-duplicate_example :
    let after = record (Connection.process response up).1 { response_waiter = pending } in
    ((Connection.process response up).1.response_waiter ≡ finished (ok response))
    × (Connection.process response after ≡ (ok tt, after))
process-duplicate_example = process-duplicate response up 0 pending refl (omega arith) refl refl

abbrev awaiting : Future TelegramRecord → P2PConnection
awaiting waiter = record {
  address = device;
  connected = true;
  next_sequence_number = 1;
  expected_sequence_number = 1;
  ack_waiter = some pending;
  response_waiter = waiter;
  outgoing = [];
}

abbrev late_ack : List TelegramRecord
late_ack = response ∷ from_device (t_ack 0) none ∷ []

process-disconnect_waiting_example :
    let c = awaiting (finished (ok response)) in
    let p = Connection.process (from_device t_disconnect none) c in
    let d = receive_all late_ack p.1 in
    (p.0 ≡ err invalid_state_error)
    × (p.1.ack_waiter ≡ some pending)
    × (d.ack_waiter ≡ some (finished (ok (t_ack 0))))
    × (d.response_waiter ≡ finished (ok response))
    × (d.connected ≡ false)
unfolding first_ack
process-disconnect_waiting_example =
    process-disconnect_waiting (from_device t_disconnect none) (awaiting (finished (ok response)))
      late_ack refl refl

refused_while_waiting :
    let p = Connection.process (from_device t_disconnect none) (awaiting pending) in
    (receive_all late_ack p.1).response_waiter ≡ finished (err management_connection_refused)
unfolding receive_all Connection.process
refused_while_waiting = refl

abbrev management : Management
management = record {
  connections = (0x1203, up) ∷ [];
  broadcast_contexts = [] ∷ [];
  background = [];
}

process-IsRouted_example : IsRouted response management (Dispatch.process response management).1
process-IsRouted_example = process-IsRouted response management
