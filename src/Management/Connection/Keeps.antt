-- ===== src/Management/Connection/Keeps.antt =====
-- What telegrams that come in leave as it is.
use xknx.Prelude.{ℕ, ◌+◌, ◌<◌, ◌≡◌, refl, ◌∙◌, List, [], ◌∷◌, arith}
use xknx.Prelude.Bits.{and_15}
use xknx.Management.Connection.{
  is_waiting, P2PConnection, next_number, settle_response, set_response, settle_ack,
  process_disconnect, process_ack, accept_response, process_data, process_tpci, process,
  receive_all, when,
}
use xknx.Telegram.Record.{TelegramRecord}

pub next_number_lem : (n : ℕ) → next_number n < 16
next_number_lem n = omega (arith, and_15 (n + 1))

-- What processing telegrams keeps: the numbers for sending, and whether an acknowledgement is awaited.
pub record Keeps (c d : P2PConnection) : Type 0 where
  pub same_next : d.next_sequence_number ≡ c.next_sequence_number
  pub same_outgoing : d.outgoing ≡ c.outgoing
  pub same_address : d.address ≡ c.address
  pub same_waiting : is_waiting d.ack_waiter ≡ is_waiting c.ack_waiter
  pub expected_fits : c.expected_sequence_number < 16 → d.expected_sequence_number < 16

process-Keeps : (telegram : TelegramRecord) (c : P2PConnection) → Keeps c (process telegram c).1
unfolding process process_tpci process_disconnect process_ack process_data accept_response
    set_response settle_response settle_ack when
process-Keeps telegram c = ground (arith, next_number_lem c.expected_sequence_number)

Keeps-refl : (c : P2PConnection) → Keeps c c
Keeps-refl c = record {
  same_next = refl;
  same_outgoing = refl;
  same_address = refl;
  same_waiting = refl;
  expected_fits = λ h. h;
}

Keeps-trans : (c d e : P2PConnection) → Keeps c d → Keeps d e → Keeps c e
Keeps-trans c d e h k = record {
  same_next = k.same_next ∙ h.same_next;
  same_outgoing = k.same_outgoing ∙ h.same_outgoing;
  same_address = k.same_address ∙ h.same_address;
  same_waiting = k.same_waiting ∙ h.same_waiting;
  expected_fits = λ l. k.expected_fits (h.expected_fits l);
}

pub receive_all-Keeps :
    (telegrams : List TelegramRecord) (c : P2PConnection) → Keeps c (receive_all telegrams c)
unfolding receive_all
receive_all-Keeps [] c = Keeps-refl c
receive_all-Keeps (telegram ∷ telegrams) c =
    Keeps-trans c (process telegram c).1 (receive_all telegrams (process telegram c).1)
      (process-Keeps telegram c) (receive_all-Keeps telegrams (process telegram c).1)
