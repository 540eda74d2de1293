-- ===== src/Management/Requests/Effects.antt =====
-- What a call leaves behind on a connection: sequence numbers of four bits, one number for each payload,
-- at most one repetition, and no waiter for an acknowledgement.
use xknx.Prelude.{
  ℕ, zero, suc, ap, ◌<◌, ◌≡◌, refl, ◌∙◌, ◌⊎◌, inl, inr, true, List, ◌∷◌, Option, none, some, Result,
  ok, err, timeout_error,
}
use xknx.Prelude.Actions.{calls, carry, ◌>>◌}
use xknx.Management.Connection.{Future, pending, P2PConnection, next_number, receive_all}
use xknx.Management.Connection.Keeps.{Keeps, receive_all-Keeps, next_number_lem}
use xknx.Management.Requests.{
  Attempt, hand_over, wait_for_ack, repeated, rescued, attempts, release_ack, check_ack,
  data_telegram, send_data, started, send_data_connected,
}
use xknx.Telegram.Address.{IndividualAddress}
use xknx.Telegram.Apci.Services.{Apci}
use xknx.Telegram.Record.{TelegramRecord, telegram_of, individual_target, outgoing}
use xknx.Telegram.Tpci.{Tpci, t_data_connected}

-- The telegram was given to the CEMI handler so many times.
abbrev copies : ℕ → TelegramRecord → List TelegramRecord → List TelegramRecord
copies zero telegram rest = rest
copies (suc n) telegram rest = telegram ∷ copies n telegram rest

pub record Sends (n : ℕ) (telegram : TelegramRecord) (c d : P2PConnection) : Type 0 where
  pub same_next : d.next_sequence_number ≡ c.next_sequence_number
  pub same_address : d.address ≡ c.address
  pub expected_fits : c.expected_sequence_number < 16 → d.expected_sequence_number < 16
  pub sent : d.outgoing ≡ copies n telegram c.outgoing

Sends-Keeps :
    (n : ℕ) (telegram : TelegramRecord) (c d e : P2PConnection)
    → Sends n telegram c d
    → Keeps d e
    → Sends n telegram c e
Sends-Keeps n telegram c d e h k = record {
  same_next = k.same_next ∙ h.same_next;
  same_address = k.same_address ∙ h.same_address;
  expected_fits = λ l. k.expected_fits (h.expected_fits l);
  sent = k.same_outgoing ∙ h.sent;
}

module _ (telegram : TelegramRecord) where
  abbrev handed : P2PConnection → P2PConnection
  handed c = record c { outgoing = telegram ∷ c.outgoing }

  -- One more copy, and then what comes in.
  more :
      (n : ℕ) (c d : P2PConnection) (telegrams : List TelegramRecord)
      → Sends n telegram c d
      → Sends (suc n) telegram c (receive_all telegrams (handed d))
  more n c d telegrams h =
      Sends-Keeps (suc n) telegram c (handed d) (receive_all telegrams (handed d))
        (record {
          same_next = h.same_next;
          same_address = h.same_address;
          expected_fits = h.expected_fits;
          sent = ap (λ l. telegram ∷ l) h.sent;
        })
        (receive_all-Keeps telegrams (handed d))

  none-Sends : (c : P2PConnection) → Sends 0 telegram c c
  none-Sends c = record {
    same_next = refl;
    same_address = refl;
    expected_fits = λ l. l;
    sent = refl;
  }

  twice-Sends :
      (n : ℕ) (c d : P2PConnection) (early late : List TelegramRecord)
      → Sends n telegram c d
      → Sends (suc n) telegram c (receive_all late (receive_all early (handed d)))
  twice-Sends n c d early late h =
      Sends-Keeps (suc n) telegram c (receive_all early (handed d))
        (receive_all late (receive_all early (handed d))) (more n c d early h)
        (receive_all-Keeps late (receive_all early (handed d)))

  first-Sends :
      (a : Attempt) (c : P2PConnection) (s : Result (Unit {0}))
      → Sends 1 telegram c
          ((hand_over telegram a.while_sending s >> wait_for_ack a.while_waiting) c).1
  unfolding hand_over wait_for_ack
  first-Sends a c (err e) = more 0 c c a.while_sending (none-Sends c)
  first-Sends a c (ok tt) = twice-Sends 0 c c a.while_sending a.while_waiting (none-Sends c)

  -- The waiter is none of the fields that are meant.
  waiting-Sends :
      (n : ℕ) (c d : P2PConnection) (w : Option (Future Tpci))
      → Sends n telegram c d
      → Sends n telegram c (record d { ack_waiter = w })
  waiting-Sends n c d w h = record {
    same_next = h.same_next;
    same_address = h.same_address;
    expected_fits = h.expected_fits;
    sent = h.sent;
  }

  repeated-Sends :
      (n : ℕ) (a : Attempt) (c d : P2PConnection) (s : Result (Unit {0}))
      → a.sending ≡ s
      → Sends n telegram c d
      → Sends (suc n) telegram c (repeated telegram a d).1
  unfolding repeated hand_over
  repeated-Sends n a c d (err e) q h = rw q (
      more n c (record d { ack_waiter = some pending }) a.while_sending
        (waiting-Sends n c d (some pending) h))
  repeated-Sends n a c d (ok tt) q h = rw q (
      twice-Sends n c (record d { ack_waiter = some pending }) a.while_sending a.while_waiting
        (waiting-Sends n c d (some pending) h))

  rescued-Sends :
      (second : Attempt) (c : P2PConnection) (first : Result Tpci × P2PConnection)
      → Sends 1 telegram c first.1
      → Sends 1 telegram c (rescued telegram second first).1
        ⊎ Sends 2 telegram c (rescued telegram second first).1
  unfolding rescued
  rescued-Sends second c (ok ack, d) h = inl h
  rescued-Sends second c (err timeout_error, d) h =
      inr (repeated-Sends 1 second c d second.sending refl h)
  rescued-Sends second c (err e, d) h = inl h

-- What sending a payload under a number leaves behind.
pub record IsSettled (n : ℕ) (telegram : TelegramRecord) (c d : P2PConnection) : Type 0 where
  pub next : d.next_sequence_number ≡ next_number n
  pub next_fits : d.next_sequence_number < 16
  pub expected : c.expected_sequence_number < 16 → d.expected_sequence_number < 16
  pub released : d.ack_waiter ≡ none
  pub once_or_twice :
      (d.outgoing ≡ telegram ∷ c.outgoing) ⊎ (d.outgoing ≡ telegram ∷ telegram ∷ c.outgoing)

IsSettled-after :
    (n : ℕ) (telegram : TelegramRecord) (c d : P2PConnection)
    → Sends n telegram (started c) d
    → (copies n telegram c.outgoing ≡ telegram ∷ c.outgoing)
      ⊎ (copies n telegram c.outgoing ≡ telegram ∷ telegram ∷ c.outgoing)
    → IsSettled c.next_sequence_number telegram c (record d { ack_waiter = none })
IsSettled-after n telegram c d h k = record {
  next = h.same_next;
  next_fits = rw h.same_next (next_number_lem c.next_sequence_number);
  expected = h.expected_fits;
  released = refl;
  once_or_twice = rw h.sent k;
}

released_lem :
    (c : P2PConnection) (telegram : TelegramRecord) (d : P2PConnection)
    → Sends 1 telegram (started c) d ⊎ Sends 2 telegram (started c) d
    → IsSettled c.next_sequence_number telegram c (record d { ack_waiter = none })
released_lem c telegram d (inl h) = IsSettled-after 1 telegram c d h (inl refl)
released_lem c telegram d (inr h) = IsSettled-after 2 telegram c d h (inr refl)

settled_lem :
    (c : P2PConnection) (telegram : TelegramRecord) (done : Result Tpci × P2PConnection)
    → Sends 1 telegram (started c) done.1 ⊎ Sends 2 telegram (started c) done.1
    → IsSettled c.next_sequence_number telegram c
        (carry (release_ack done) (λ ack. calls (check_ack c.next_sequence_number ack))).1
unfolding release_ack
settled_lem c telegram (ok t, d) s = released_lem c telegram d s
settled_lem c telegram (err e, d) s = released_lem c telegram d s

-- Sending data on a connection uses up one sequence number of four bits, gives the telegram with this
-- number to the CEMI handler once or twice and nothing else, and waits for no acknowledgement in the
-- end, whatever comes in and whether it returns or raises.
pub send_data-IsSettled :
    (current : IndividualAddress) (payload : Apci) (first second : Attempt) (c : P2PConnection)
    → c.connected ≡ true
    → IsSettled c.next_sequence_number
        (telegram_of
          (individual_target c.address)
          outgoing
          (some payload)
          current
          (some (t_data_connected c.next_sequence_number)))
        c
        (send_data current payload first second c).1
unfolding attempts data_telegram
send_data-IsSettled current payload first second c h =
    let telegram = data_telegram current payload c.next_sequence_number (started c) in
    rw (send_data_connected current payload first second c h) (
      settled_lem c telegram (attempts telegram first second (started c)) (
        rescued-Sends telegram second (started c)
          ((hand_over telegram first.while_sending first.sending
              >> wait_for_ack first.while_waiting)
            (started c))
          (first-Sends telegram first (started c) first.sending)))
