-- ===== src/Management/Dispatch/Routing.antt =====
-- A telegram reaches the connection to its source and no other, and is acknowledged once.
use xknx.Prelude.{
  ℕ, ◌≡◌, ◌≢◌, refl, Bool, true, false, Option, Option-cases, none, some, List, ◌∷◌, ok, inl, inr,
  arith,
}
use xknx.Prelude.Tables.{lookup, lookup-insert_self, lookup-insert_other}
use xknx.Management.Connection.{P2PConnection}
use xknx.Management.Connection as Connection
use xknx.Management.Dispatch.{
  Management, reply, acknowledge, settle_connection, unconnected, deliver, process, send_background,
  put_broadcast,
}
use xknx.Telegram.Record.{TelegramRecord}
use xknx.Telegram.Tpci.{Tpci, t_data_connected, t_connect, t_disconnect, t_ack, numbered}

-- What is sent for a telegram from a source with a connection, or without one.
abbrev pub answers : TelegramRecord → Tpci → Bool → List TelegramRecord → List TelegramRecord
answers telegram (t_data_connected n) known rest = reply telegram (t_ack n) ∷ rest
answers telegram t_connect false rest = reply telegram t_disconnect ∷ rest
answers telegram tpci known rest = rest

abbrev is_known : Option P2PConnection → Bool
is_known none = false
is_known (some c) = true

-- The connection after the telegram, where there is one.
abbrev pub processed : TelegramRecord → Option P2PConnection → Option P2PConnection
processed telegram none = none
processed telegram (some c) = some (Connection.process telegram c).1

pub record IsRouted (telegram : TelegramRecord) (m d : Management) : Type 0 where
  pub own :
      lookup telegram.source_address.raw d.connections
      ≡ processed telegram (lookup telegram.source_address.raw m.connections)
  pub others :
      (k : ℕ) → k ≢ telegram.source_address.raw → lookup k d.connections ≡ lookup k m.connections
  pub answered :
      d.background
      ≡ answers telegram telegram.tpci
          (is_known (lookup telegram.source_address.raw m.connections))
          m.background

acknowledge_lem :
    (telegram : TelegramRecord) (t : Tpci) (m : Management)
    → acknowledge telegram t m
      ≡ (ok tt, record m { background = answers telegram t true m.background })
unfolding acknowledge send_background
acknowledge_lem telegram t m = ground (arith)

unconnected_lem :
    (telegram : TelegramRecord) (t : Tpci) (m : Management)
    → let d =
        (unconnected telegram
          (numbered t)
          t
          (record m { background = answers telegram t true m.background })).1 in
      (d.connections ≡ m.connections) × (d.background ≡ answers telegram t false m.background)
unfolding unconnected numbered send_background put_broadcast
unconnected_lem telegram t m = ground arith

process_lem :
    (telegram : TelegramRecord) (m : Management) (o : Option P2PConnection)
    → lookup telegram.source_address.raw m.connections ≡ o
    → process telegram m
      ≡ deliver telegram o
          (record m { background = answers telegram telegram.tpci true m.background })
unfolding process
process_lem telegram m o h = rw (acknowledge_lem telegram telegram.tpci m) (rw h refl)

known_lem :
    (telegram : TelegramRecord) (m : Management) (c : P2PConnection)
    → lookup telegram.source_address.raw m.connections ≡ some c
    → IsRouted telegram m (process telegram m).1
unfolding deliver settle_connection
known_lem telegram m c h = rw (process_lem telegram m (some c) h) (record {
  own = rw h (
      lookup-insert_self telegram.source_address.raw (Connection.process telegram c).1
        m.connections);
  others = λ k other.
      lookup-insert_other k telegram.source_address.raw (Connection.process telegram c).1
        m.connections other;
  answered = rw h refl;
})

unknown_lem :
    (telegram : TelegramRecord) (m : Management)
    → lookup telegram.source_address.raw m.connections ≡ none
    → IsRouted telegram m (process telegram m).1
unfolding deliver
unknown_lem telegram m h =
    let (same, sent) = unconnected_lem telegram telegram.tpci m in
    rw (process_lem telegram m none h)
      (record { own = rw same (rw h refl); others = λ k other. rw same refl; answered = rw h sent })

-- Every telegram that comes in reaches the connection to its source, where there is one, and leaves all
-- others as they are; it is acknowledged with its number exactly where it is numbered data, whether there
-- is a connection or not, a connect request without a connection is answered by a disconnect, and
-- nothing else is sent.
pub process-IsRouted :
    (telegram : TelegramRecord) (m : Management) → IsRouted telegram m (process telegram m).1
process-IsRouted telegram m =
    elim (Option-cases (lookup telegram.source_address.raw m.connections)) [
      | inl h ↦ unknown_lem telegram m h
      | inr (c, h) ↦ known_lem telegram m c h
    ]
