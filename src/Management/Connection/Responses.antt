-- ===== src/Management/Connection/Responses.antt =====
-- The response waiter: each response is taken once, in the order of the sequence numbers.
use xknx.Prelude.{
  ℕ, ◌+◌, ◌<◌, ◌≡◌, refl, ap, false, List, [], ◌∷◌, some, Result, ok, err, arith, ◌==◌,
  if◌then◌else◌, invalid_state_error, management_connection_refused, ◌∙◌, ◌⊎◌, inl, inr,
}
use xknx.Prelude.Bits.{and_15}
use xknx.Management.Connection.{
  Future, pending, finished, done, P2PConnection, next_number, settle_response, set_response,
  settle_ack, process_disconnect, process_ack, accept_response, process_data, process_tpci, process,
  receive_all, when,
}
use xknx.Management.Connection.Acks.{first_ack, waiter_of, receive_all_pending}
use xknx.Telegram.Record.{TelegramRecord}
use xknx.Telegram.Tpci.{Tpci, t_disconnect, t_data_connected, sequence_number}

-- The number moves on.
next_number_other : (n : ℕ) → n < 16 → (n == next_number n) ≡ false
next_number_other n h = ground (arith, and_15 (n + 1))

-- A data telegram with the expected sequence number is taken as the response, and the same telegram,
-- when it comes in again, changes nothing, whether the response was fetched meanwhile or not.
pub process-duplicate :
    (telegram : TelegramRecord) (c : P2PConnection) (n : ℕ) (waiter : Future TelegramRecord)
    → telegram.tpci ≡ t_data_connected n
    → n < 16
    → c.expected_sequence_number ≡ n
    → c.response_waiter ≡ pending
    → let after = record (process telegram c).1 { response_waiter = waiter } in
      ((process telegram c).1.response_waiter ≡ finished (ok telegram))
      × (process telegram after ≡ (ok tt, after))
unfolding process process_tpci process_data accept_response set_response settle_response when
    sequence_number
process-duplicate telegram c n waiter t h e p = ground (arith, next_number_other n h)

process_settled :
    (telegram : TelegramRecord) (c : P2PConnection) (r : Result TelegramRecord)
    → c.response_waiter ≡ finished r
    → ((process telegram c).1.response_waiter ≡ finished r)
      × ((process telegram c).1.expected_sequence_number ≡ c.expected_sequence_number)
unfolding process process_tpci process_disconnect process_ack process_data accept_response
    set_response settle_response settle_ack when
process_settled telegram c r h = ground (arith, h)

process_fresh :
    (telegram : TelegramRecord) (c : P2PConnection)
    → c.response_waiter ≡ pending
    → let d = (process telegram c).1 in
      ((d.response_waiter ≡ pending) × (d.expected_sequence_number ≡ c.expected_sequence_number))
      ⊎ ((d.response_waiter ≡ finished (err management_connection_refused))
          ⊎ ((d.response_waiter ≡ finished (ok telegram))
              × (sequence_number telegram.tpci ≡ c.expected_sequence_number)
              × (d.expected_sequence_number ≡ next_number c.expected_sequence_number)))
unfolding process process_tpci process_disconnect process_ack process_data accept_response
    set_response settle_response settle_ack when
process_fresh telegram c h = ground (arith, h)

receive_all_settled :
    (telegrams : List TelegramRecord) (c : P2PConnection) (r : Result TelegramRecord)
    → c.response_waiter ≡ finished r
    → ((receive_all telegrams c).response_waiter ≡ finished r)
      × ((receive_all telegrams c).expected_sequence_number ≡ c.expected_sequence_number)
unfolding receive_all
receive_all_settled [] c r h = (h, refl)
receive_all_settled (telegram ∷ telegrams) c r h =
    let (one, same) = process_settled telegram c r h in
    let (all, still) = receive_all_settled telegrams (process telegram c).1 r one in
    (all, still ∙ same)

-- The response that is held after telegrams came in is the one with the number that was expected.
pub receive_all_taken :
    (telegrams : List TelegramRecord) (c : P2PConnection) (t : TelegramRecord)
    → c.response_waiter ≡ pending
    → (receive_all telegrams c).response_waiter ≡ finished (ok t)
    → (sequence_number t.tpci ≡ c.expected_sequence_number)
      × ((receive_all telegrams c).expected_sequence_number
          ≡ next_number c.expected_sequence_number)
unfolding receive_all
receive_all_taken [] c t h k = cc
receive_all_taken (telegram ∷ telegrams) c t h k = elim (process_fresh telegram c h) [
  | inl (p, e) ↦ rw e at (receive_all_taken telegrams (process telegram c).1 t p k)
  | inr (inl p) ↦
      let held =
        receive_all_settled telegrams (process telegram c).1 (err management_connection_refused)
          p in
      cc (held.0, k)
  | inr (inr (p, e, n)) ↦
      let (held, same) = receive_all_settled telegrams (process telegram c).1 (ok telegram) p in
      let one : telegram ≡ t = cc in (rw (← one) e, same ∙ n)
]

process_disconnected :
    (telegram : TelegramRecord) (c : P2PConnection)
    → c.connected ≡ false
    → (process telegram c).1.connected ≡ false
unfolding process process_tpci process_disconnect process_ack process_data accept_response
    set_response settle_response settle_ack when
process_disconnected telegram c h = ground (arith, h)

receive_all_disconnected :
    (telegrams : List TelegramRecord) (c : P2PConnection)
    → c.connected ≡ false
    → (receive_all telegrams c).connected ≡ false
unfolding receive_all
receive_all_disconnected [] c h = h
receive_all_disconnected (telegram ∷ telegrams) c h =
    receive_all_disconnected telegrams (process telegram c).1 (process_disconnected telegram c h)

-- What a disconnect leaves in the response waiter: a response that has come stays.
abbrev pub refused_response : Future TelegramRecord → Result TelegramRecord
refused_response pending = err management_connection_refused
refused_response (finished r) = r

-- The whole state after a disconnect while an acknowledgement is awaited.
disconnect_lem :
    (telegram : TelegramRecord) (c : P2PConnection) (ack : Future Tpci)
    → telegram.tpci ≡ t_disconnect
    → c.ack_waiter ≡ some ack
    → process telegram c ≡ (
      (if done c.response_waiter then err invalid_state_error else ok tt),
      record c {
        connected = false;
        response_waiter = finished (refused_response c.response_waiter);
      },
    )
unfolding process process_tpci process_disconnect set_response settle_response when
disconnect_lem telegram c ack t h = ground (arith, t, h)

-- A disconnect that comes in while an acknowledgement is awaited does not end this wait, which goes on
-- to the first acknowledgement that comes in later; the refusal is set on the response waiter, which
-- keeps it, or where the response has come already this stays and an InvalidStateError is raised. The
-- connection stays disconnected.
pub process-disconnect_waiting :
    (telegram : TelegramRecord) (c : P2PConnection) (later : List TelegramRecord)
    → telegram.tpci ≡ t_disconnect
    → c.ack_waiter ≡ some pending
    → let d = receive_all later (process telegram c).1 in
      ((process telegram c).0 ≡ (if done c.response_waiter then err invalid_state_error else ok tt))
      × ((process telegram c).1.ack_waiter ≡ some pending)
      × (d.ack_waiter ≡ some (waiter_of (first_ack later)))
      × (d.response_waiter ≡ finished (refused_response c.response_waiter))
      × (d.connected ≡ false)
process-disconnect_waiting telegram c later t h =
    let same = disconnect_lem telegram c pending t h in
    let state = (process telegram c).1 in
    (
      ap (λ p. p.0) same,
      ap (λ p. p.1.ack_waiter) same ∙ h,
      receive_all_pending later state (ap (λ p. p.1.ack_waiter) same ∙ h),
      (receive_all_settled later state (refused_response c.response_waiter)
          (ap (λ p. p.1.response_waiter) same)).0,
      receive_all_disconnected later state (ap (λ p. p.1.connected) same),
    )
