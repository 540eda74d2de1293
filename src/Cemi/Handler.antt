-- ===== src/Cemi/Handler.antt =====
-- xknx/cemi/cemi_handler.py: what becomes of the frames that come in, and how a telegram is sent.
pub mod Confirmation
pub mod Refusal
mod Tests
use xknx.Prelude.{
  ℕ, ◌+◌, ◌==◌, not, Bool, true, false, if◌then◌else◌, Option, none, some, List, [], ◌∷◌, ◌++◌,
  Bytes, Result, ok, err, Error, conversion_error, unsupported_apci_service, confirmation_error,
  data_secure_error,
}
use xknx.Prelude.Actions.{Action, pure, raise, calls, gets, modify, ◌>>=◌, ◌>>◌}
use xknx.Cemi.Frame.{
  CemiFrame, CemiData, link_data, CemiMessageCode, l_data_con, l_data_req, from_knx,
}
use xknx.Cemi.LinkData.{CemiLData}
use xknx.Cemi.Telegrams.{init_from_telegram, telegram}
use xknx.Management.Dispatch.{Management}
use xknx.Management.Dispatch as Dispatch
use xknx.Management.Requests.{is_communication}
use xknx.Secure.DataSecure.{DataSecure, is_data_secure, received_cemi, outgoing_cemi}
use xknx.Secure.Primitives.{Cipher}
use xknx.Telegram.Address.{IndividualAddress}
use xknx.Telegram.Record.{TelegramRecord, TelegramAddress, individual_target, incoming}
use xknx.Telegram.Tpci.{Tpci, t_data_group}

-- A telegram with its attribute `data_secure`.
pub record Received : Type 0 where
  pub record_of : TelegramRecord
  pub was_secure : Bool

-- The handler, and of the other parts what it reads and writes: the counters of the connection
-- manager, the queue of telegrams and the telegrams with a key issue, the latest first, the management,
-- and the frames that were given to the interface, the latest first.
pub record CemiHandler : Type 0 where
  pub data_secure : Option DataSecure
  pub confirmed : Bool
  pub current_address : IndividualAddress
  pub count_incoming : ℕ
  pub count_incoming_error : ℕ
  pub count_outgoing : ℕ
  pub count_outgoing_error : ℕ
  pub undecoded_data_secure : ℕ
  pub telegrams : List Received
  pub key_issues : List Received
  pub management : Management
  pub sent : List CemiFrame

abbrev is_data_group : Tpci → Bool
is_data_group t_data_group = true
is_data_group _ = false

-- `cemi_data.telegram()` as one that came in.
abbrev received_telegram : CemiLData → Bool → Received
received_telegram d secure = record {
  record_of = record (telegram d) { direction = incoming };
  was_secure = secure;
}

-- An individual address other than that of this station.
for_others : TelegramAddress → IndividualAddress → Bool
for_others (individual_target a) own = not (a.raw == own.raw)
for_others _ own = false

to_management : Received → Action CemiHandler (Unit {0})
to_management t h =
    let (r, m) = Dispatch.process t.record_of h.management in (r, record h { management = m })

route : Received → Bool → Bool → Action CemiHandler (Unit {0})
unfolding to_management
route t true others = modify (λ h. record h { telegrams = t ∷ h.telegrams })
route t false true = pure tt
route t false false = to_management t

unfoldable pub telegram_received : Received → Action CemiHandler (Unit {0})
unfolding route for_others
telegram_received t = do
  own ← gets (λ h. h.current_address)
  route t (is_data_group t.record_of.tpci) (for_others t.record_of.destination_address own)

note_issue : Received → Bool → CemiHandler → CemiHandler
note_issue t true h = record h { key_issues = t ∷ h.key_issues }
note_issue t false h = h

unfoldable pub handle_data_secure_key_issue : CemiLData → Bool → Action CemiHandler (Unit {0})
unfolding note_issue
handle_data_secure_key_issue d secure = do
  modify (λ h. record h { undecoded_data_secure = h.undecoded_data_secure + 1 })
  modify (note_issue (received_telegram d secure) (is_data_group d.tpci))

deliver : CemiLData → Bool → Action CemiHandler (Unit {0})
deliver d secure = telegram_received (received_telegram d secure)

without_keys : CemiLData → Bool → Action CemiHandler (Unit {0})
unfolding deliver
without_keys d true = handle_data_secure_key_issue d true
without_keys d false = deliver d false

-- Only a DataSecureError is caught.
settle_received : CemiLData → Bool → Result CemiLData × DataSecure → Action CemiHandler (Unit {0})
unfolding deliver
settle_received d secure (ok plain, s) h = deliver plain secure (record h { data_secure = some s })
settle_received d secure (err data_secure_error, s) h =
    handle_data_secure_key_issue d secure (record h { data_secure = some s })
settle_received d secure (err e, s) h = (err e, record h { data_secure = some s })

settle_outgoing : Result CemiLData × DataSecure → Action CemiHandler CemiLData
settle_outgoing (r, s) h = (r, record h { data_secure = some s })

-- A ConversionError, of which an unsupported service is one, or a CommunicationError is counted.
abbrev is_counted : Error → Bool
is_counted conversion_error = true
is_counted unsupported_apci_service = true
is_counted e = is_communication e

count_error : CemiHandler → CemiHandler
count_error h = record h { count_outgoing_error = h.count_outgoing_error + 1 }

check_sending : Result (Unit {0}) → Action CemiHandler (Unit {0})
unfolding count_error
check_sending (ok tt) h = (ok tt, h)
check_sending (err e) h = (err e, if is_counted e then count_error h else h)

check_confirmation : Bool → Action CemiHandler (Unit {0})
unfolding count_error
check_confirmation true h = (ok tt, record h { count_outgoing = h.count_outgoing + 1 })
check_confirmation false h = (err confirmation_error, count_error h)

abbrev source_for : TelegramRecord → IndividualAddress → Option IndividualAddress
source_for t own = if t.source_address.raw == 0 then some own else none

module _ (cipher : Cipher) where
  with_keys : CemiLData → Bool → Option DataSecure → Action CemiHandler (Unit {0})
  unfolding without_keys settle_received
  with_keys d secure none = without_keys d secure
  with_keys d secure (some s) = settle_received d secure (received_cemi cipher d s)

  handle_indication : CemiLData → Action CemiHandler (Unit {0})
  unfolding with_keys
  handle_indication d = do
    modify (λ h. record h { count_incoming = h.count_incoming + 1 })
    state ← gets (λ h. h.data_secure)
    with_keys d (is_data_secure d) state

  handle_link_data : CemiMessageCode → CemiLData → Action CemiHandler (Unit {0})
  unfolding handle_indication
  handle_link_data l_data_con d = modify (λ h. record h { confirmed = true })
  handle_link_data l_data_req d =
      modify (λ h. record h { count_incoming_error = h.count_incoming_error + 1 })
  handle_link_data code d = handle_indication d

  handle_content : CemiMessageCode → Option CemiData → Action CemiHandler (Unit {0})
  unfolding handle_link_data
  handle_content code (some (link_data d)) = handle_link_data code d
  handle_content code _ = pure tt

  unfoldable pub handle_cemi_frame : CemiFrame → Action CemiHandler (Unit {0})
  unfolding handle_content
  handle_cemi_frame cemi = handle_content cemi.code cemi.content

  handle_parsed : Result CemiFrame → Action CemiHandler (Unit {0})
  handle_parsed (ok cemi) = handle_cemi_frame cemi
  handle_parsed (err e) =
      modify (λ h. record h { count_incoming_error = h.count_incoming_error + 1 })

  -- Whatever the parsing raises is caught.
  unfoldable pub handle_raw_cemi : Bytes → Action CemiHandler (Unit {0})
  unfolding handle_parsed
  handle_raw_cemi raw_cemi = handle_parsed (from_knx raw_cemi)

  -- The state after the frames that come in while a call waits. What is raised is raised to the receiver.
  unfoldable pub handle_all : List Bytes → CemiHandler → CemiHandler
  handle_all [] h = h
  handle_all (raw ∷ frames) h = handle_all frames (handle_raw_cemi raw h).1

  -- What leaves is secured where keys are there.
  secure_outgoing : CemiLData → Option DataSecure → Action CemiHandler CemiLData
  unfolding settle_outgoing
  secure_outgoing d none = pure d
  secure_outgoing d (some s) = settle_outgoing (outgoing_cemi cipher d s)

  -- The link layer data of a telegram, as it leaves.
  unfoldable pub prepare : TelegramRecord → Action CemiHandler CemiLData
  unfolding secure_outgoing
  prepare t = do
    made ← gets (λ h. init_from_telegram t (source_for t h.current_address))
    plain ← calls made
    state ← gets (λ h. h.data_secure)
    secure_outgoing plain state

  -- The frames come in while the interface sends and while the confirmation is awaited; the result is
  -- that of the interface.
  unfoldable pub send_telegram :
      TelegramRecord → List Bytes → Result (Unit {0}) → List Bytes → Action CemiHandler (Unit {0})
  unfolding check_sending check_confirmation
  send_telegram t while_sending sending while_waiting = do
    d ← prepare t
    modify (λ h. record h {
      confirmed = false;
      sent = record { code = l_data_req; info = []; content = some (link_data d) } ∷ h.sent;
    })
    modify (handle_all while_sending)
    check_sending sending
    modify (handle_all while_waiting)
    confirmed ← gets (λ h. h.confirmed)
    check_confirmation confirmed
