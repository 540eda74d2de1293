-- ===== src/Management/Connection/Acks.antt =====
-- The acknowledgement waiter holds the first acknowledgement that comes in.
use xknx.Prelude.{◌≡◌, refl, List, [], ◌∷◌, ◌++◌, Option, none, some, Result, ok, arith}
use xknx.Management.Connection.{
  Future, pending, finished, P2PConnection, settle_response, set_response, settle_ack,
  process_disconnect, process_ack, accept_response, process_data, process_tpci, process,
  receive_all, when,
}
use xknx.Telegram.Record.{TelegramRecord}
use xknx.Telegram.Tpci.{Tpci, t_ack, t_nak}

abbrev pub ack_of : Tpci → Option Tpci
ack_of (t_ack n) = some (t_ack n)
ack_of (t_nak n) = some (t_nak n)
ack_of _ = none

or_else : {Value : Type 0} → Option Value → Option Value → Option Value
or_else (some x) later = some x
or_else none later = later

-- The first acknowledgement, positive or negative, among telegrams.
unfoldable pub first_ack : List TelegramRecord → Option Tpci
unfolding or_else
first_ack [] = none
first_ack (telegram ∷ telegrams) = or_else (ack_of telegram.tpci) (first_ack telegrams)

-- The waiter for what was found.
abbrev pub waiter_of : Option Tpci → Future Tpci
waiter_of none = pending
waiter_of (some t) = finished (ok t)

process_pending :
    (telegram : TelegramRecord) (c : P2PConnection)
    → c.ack_waiter ≡ some pending
    → (process telegram c).1.ack_waiter ≡ some (waiter_of (ack_of telegram.tpci))
unfolding process process_tpci process_disconnect process_ack process_data accept_response
    set_response settle_response settle_ack when
process_pending telegram c h = ground (arith, h)

process_settled :
    (telegram : TelegramRecord) (c : P2PConnection) (r : Result Tpci)
    → c.ack_waiter ≡ some (finished r)
    → (process telegram c).1.ack_waiter ≡ some (finished r)
unfolding process process_tpci process_disconnect process_ack process_data accept_response
    set_response settle_response settle_ack when
process_settled telegram c r h = ground (arith, h)

receive_all_settled :
    (telegrams : List TelegramRecord) (c : P2PConnection) (r : Result Tpci)
    → c.ack_waiter ≡ some (finished r)
    → (receive_all telegrams c).ack_waiter ≡ some (finished r)
unfolding receive_all
receive_all_settled [] c r h = h
receive_all_settled (telegram ∷ telegrams) c r h =
    receive_all_settled telegrams (process telegram c).1 r (process_settled telegram c r h)

pub receive_all_pending :
    (telegrams : List TelegramRecord) (c : P2PConnection)
    → c.ack_waiter ≡ some pending
    → (receive_all telegrams c).ack_waiter ≡ some (waiter_of (first_ack telegrams))
unfolding receive_all first_ack or_else
receive_all_pending [] c h = h
receive_all_pending (telegram ∷ telegrams) c h =
    cases (receive_all_pending telegrams (process telegram c).1) (ack_of telegram.tpci)
      (process_pending telegram c h)
  where
    cases :
        ((process telegram c).1.ack_waiter ≡ some pending
          → (receive_all telegrams (process telegram c).1).ack_waiter
            ≡ some (waiter_of (first_ack telegrams)))
        → (o : Option Tpci) → (process telegram c).1.ack_waiter ≡ some (waiter_of o)
        → (receive_all telegrams (process telegram c).1).ack_waiter
          ≡ some (waiter_of (or_else o (first_ack telegrams)))
    cases later none k = later k
    cases later (some t) k = receive_all_settled telegrams (process telegram c).1 (ok t) k

pub receive_all-append :
    (xs ys : List TelegramRecord) (c : P2PConnection)
    → receive_all (xs ++ ys) c ≡ receive_all ys (receive_all xs c)
unfolding receive_all
receive_all-append [] ys c = refl
receive_all-append (x ∷ xs) ys c = receive_all-append xs ys (process x c).1

-- What was found is an acknowledgement.
pub first_ack-IsAck :
    (telegrams : List TelegramRecord) (t : Tpci) → first_ack telegrams ≡ some t → ack_of t ≡ some t
unfolding first_ack or_else
first_ack-IsAck [] t h = cc
first_ack-IsAck (telegram ∷ telegrams) t h =
    cases (first_ack-IsAck telegrams t) (ack_of telegram.tpci) (ack_of_ack telegram.tpci) h
  where
    ack_of_ack : (u v : Tpci) → ack_of u ≡ some v → ack_of v ≡ some v
    ack_of_ack u v h = ground (arith, h)

    cases :
        (first_ack telegrams ≡ some t → ack_of t ≡ some t)
        → (o : Option Tpci) → ((v : Tpci) → o ≡ some v → ack_of v ≡ some v)
        → or_else o (first_ack telegrams) ≡ some t
        → ack_of t ≡ some t
    cases later none own h = later h
    cases later (some v) own h = own t h
