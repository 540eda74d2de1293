-- ===== src/Management/Requests/Response.antt =====
-- What a call of receive returns.
use xknx.Prelude.{
  ◌≡◌, refl, true, Bool, Bool-cases, inl, inr, List, Option, Result-cases, ok, err, timeout_error,
}
use xknx.Management.Connection.{Future, pending, finished, P2PConnection, next_number, receive_all}
use xknx.Management.Connection.Responses.{receive_all_taken}
use xknx.Management.Requests.{awaited, timed_out, fits_expected, renewed, await_response, receive}
use xknx.Telegram.Apci.Services.{Apci}
use xknx.Telegram.Record.{TelegramRecord}
use xknx.Telegram.Tpci.{sequence_number}

returned_future :
    (f : Future TelegramRecord) (t : TelegramRecord)
    → timed_out (awaited f) ≡ ok t
    → f ≡ finished (ok t)
unfolding timed_out awaited
returned_future pending t h = cc
returned_future (finished (ok u)) t h = let same : u ≡ t = cc in rw same refl
returned_future (finished (err timeout_error)) t h = cc
returned_future (finished (err e)) t h = cc

-- A telegram that receive returns, where no response had come before, has the expected sequence number
-- and the payload that was asked for; this number moves on by one, of 16, and the connection is ready for
-- the next response.
pub receive_lem :
    (expected : Option (Apci → Bool)) (responses : List TelegramRecord) (c : P2PConnection)
    (t : TelegramRecord)
    → c.response_waiter ≡ pending
    → (receive expected responses c).0 ≡ ok t
    → let d = (receive expected responses c).1 in
      (sequence_number t.tpci ≡ c.expected_sequence_number)
      × (fits_expected expected t.payload ≡ true)
      × (d.expected_sequence_number ≡ next_number c.expected_sequence_number)
      × (d.response_waiter ≡ pending)
unfolding receive renewed await_response
receive_lem expected responses c t h k =
    elim (Result-cases (timed_out (awaited (receive_all responses c).response_waiter))) [
      | inr (e, q) ↦ absurd (cc (rw q at k))
      | inl (u, q) ↦ elim (Bool-cases (fits_expected expected u.payload)) [
        | inr b ↦ absurd (cc (rw (q, b) at k))
        | inl b ↦
            let same : u ≡ t = cc (rw (q, b) at k) in
            let held = receive_all_taken responses c u h (returned_future _ u q) in
            rw (← same) (held.0, b, rw (q, b) held.1, rw (q, b) refl)
      ]
    ]
