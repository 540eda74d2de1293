-- ===== src/Management/Dispatch.antt =====
-- xknx/management/management.py: the connections by their address, and where a telegram that comes in
-- goes.
pub mod Routing
use xknx.Prelude.{
  ℕ, Bool, true, false, if◌then◌else◌, Option, none, some, List, [], ◌∷◌, ◌++◌, map, Result, ok,
  err, management_connection_error,
}
use xknx.Prelude.Actions.{Action, pure, raise, gets, modify, raises_if, ◌>>=◌, ◌>>◌}
use xknx.Prelude.Tables.{Table, lookup, insert, erase, contains}
use xknx.Management.Connection.{P2PConnection, p2p_connection}
use xknx.Management.Connection as Connection
use xknx.Management.Requests as Requests
use xknx.Telegram.Address.{IndividualAddress}
use xknx.Telegram.Record.{TelegramRecord, telegram_of, individual_target, outgoing}
use xknx.Telegram.Tpci.{
  Tpci, t_data_connected, t_connect, t_disconnect, t_ack, t_data_broadcast, numbered,
}

-- The queue of a broadcast context, the first telegram first. `background` is what was given to tasks
-- that send it, the latest first.
pub record Management : Type 0 where
  pub connections : Table P2PConnection
  pub broadcast_contexts : List (List TelegramRecord)
  pub background : List TelegramRecord

-- A telegram without a payload to where another came from.
abbrev pub reply : TelegramRecord → Tpci → TelegramRecord
reply telegram tpci =
    telegram_of (individual_target telegram.source_address) outgoing none (record { raw = 0 })
      (some tpci)

send_background : TelegramRecord → Action Management (Unit {0})
send_background telegram = modify (λ m. record m { background = telegram ∷ m.background })

acknowledge : TelegramRecord → Tpci → Action Management (Unit {0})
unfolding send_background
acknowledge telegram (t_data_connected n) = send_background (reply telegram (t_ack n))
acknowledge telegram _ = pure tt

-- The connection is the one object that the table holds.
settle_connection : ℕ → Result (Unit {0}) × P2PConnection → Action Management (Unit {0})
settle_connection source (r, c) m = (r, record m { connections = insert source c m.connections })

put_broadcast : TelegramRecord → Action Management (Unit {0})
put_broadcast telegram = modify (λ m. record m {
  broadcast_contexts = map (λ queue. queue ++ telegram ∷ []) m.broadcast_contexts;
})

-- Without a connection to the source.
unconnected : TelegramRecord → Bool → Tpci → Action Management (Unit {0})
unfolding send_background put_broadcast
unconnected telegram true tpci = pure tt
unconnected telegram false t_connect = send_background (reply telegram t_disconnect)
unconnected telegram false t_data_broadcast = put_broadcast telegram
unconnected telegram false tpci = pure tt

deliver : TelegramRecord → Option P2PConnection → Action Management (Unit {0})
unfolding settle_connection unconnected
deliver telegram (some c) =
    settle_connection telegram.source_address.raw (Connection.process telegram c)
deliver telegram none = unconnected telegram (numbered telegram.tpci) telegram.tpci

unfoldable pub process : TelegramRecord → Action Management (Unit {0})
unfolding acknowledge deliver
process telegram = do
  acknowledge telegram telegram.tpci
  connection ← gets (λ m. lookup telegram.source_address.raw m.connections)
  deliver telegram connection

unfoldable pub process_all : List TelegramRecord → Management → Management
process_all [] m = m
process_all (telegram ∷ telegrams) m = process_all telegrams (process telegram m).1

opened : ℕ → Result (Unit {0}) × P2PConnection → Action Management (Unit {0})
opened address (ok tt, c) = modify (λ m. record m { connections = insert address c m.connections })
opened address (err e, c) = raise e

-- The list is what comes in while the connect telegram is sent.
unfoldable pub connect :
    IndividualAddress
    → IndividualAddress
    → List TelegramRecord
    → Result (Unit {0})
    → Action Management (Unit {0})
unfolding opened
connect current address while_sending sending = do
  known ← gets (λ m. contains address.raw m.connections)
  raises_if known management_connection_error
  modify (process_all while_sending)
  opened address.raw (Requests.connect current sending (p2p_connection address))

-- `disconnect_hook`, which is called however the call ends.
closed : ℕ → Result (Unit {0}) × P2PConnection → Action Management (Unit {0})
closed address (r, c) m = (r, record m { connections = erase address m.connections })

disconnect_known :
    IndividualAddress
    → IndividualAddress
    → List TelegramRecord
    → Result (Unit {0})
    → Option P2PConnection
    → Action Management (Unit {0})
unfolding closed
disconnect_known current address while_sending sending none = pure tt
disconnect_known current address while_sending sending (some c) =
    closed address.raw (Requests.disconnect current while_sending sending c)

-- The list is what comes in for this connection while the disconnect telegram is sent.
unfoldable pub disconnect :
    IndividualAddress
    → IndividualAddress
    → List TelegramRecord
    → Result (Unit {0})
    → Action Management (Unit {0})
unfolding disconnect_known
disconnect current address while_sending sending = do
  connection ← gets (λ m. lookup address.raw m.connections)
  disconnect_known current address while_sending sending connection
