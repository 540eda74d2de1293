-- ===== src/Cemi/Handler/Tests.antt =====
-- Concrete runs, and the theorems at concrete inputs.
use xknx.Prelude.{◌≡◌, refl, true, false, ◌||◌, some, none, [], ◌∷◌, Bytes, ok, Option}
use xknx.Cemi.Frame.{CemiFrame, link_data, l_data_ind, from_knx, code_of, info_from_knx}
use xknx.Cemi.Handler.{CemiHandler, prepare, send_telegram, handle_cemi_frame}
use xknx.Cemi.Handler.Confirmation.{IsCounted, is_confirmed, send_telegram-IsCounted}
use xknx.Cemi.Handler.Refusal.{refused, handle_cemi_frame-plain}
use xknx.Cemi.LinkData.{CemiLData, payload_of}
use xknx.Cemi.LinkData as LinkData
use xknx.Telegram.Address.{individual_from_knx, group_from_knx}
use xknx.Telegram.Tpci.{resolve, control}
use xknx.Telegram.Apci.Dispatch as Dispatch
use xknx.Telegram.Apci.Special.{group_value_write_from_knx}
use xknx.Cemi.Telegrams.{init_from_telegram, telegram}
use xknx.Secure.DataSecure.{DataSecure, is_data_secure}
use xknx.Secure.DataSecure.Samples.{sample, station, switch_on}

abbrev handler : Option DataSecure → CemiHandler
handler state = record {
  data_secure = state;
  confirmed = true;
  current_address = record { raw = 0x1203 };
  count_incoming = 0;
  count_incoming_error = 0;
  count_outgoing = 0;
  count_outgoing_error = 0;
  undecoded_data_secure = 0;
  telegrams = [];
  key_issues = [];
  management = record { connections = []; broadcast_contexts = []; background = [] };
  sent = [];
}

-- The confirmation of a group write.
abbrev confirmation : Bytes
confirmation = 0x2E ∷ 0 ∷ 0xBC ∷ 0xE0 ∷ 0x12 ∷ 0x03 ∷ 0x0A ∷ 0x03 ∷ 1 ∷ 0x00 ∷ 0x81 ∷ []

abbrev indication : CemiFrame
indication = record { code = l_data_ind; info = []; content = some (link_data switch_on) }

send_telegram-IsCounted_example :
    IsCounted
      (handler none)
      (send_telegram sample (telegram switch_on) [] (ok tt) (confirmation ∷ []) (handler none))
      (false || is_confirmed (confirmation ∷ []))
unfolding prepare init_from_telegram telegram
send_telegram-IsCounted_example =
    send_telegram-IsCounted sample (telegram switch_on) (record switch_on { flags = 0xBCE0 })
      (handler none) (handler none) [] (confirmation ∷ []) refl

handle_cemi_frame-plain_example :
    handle_cemi_frame sample indication (handler (some (station 7)))
    ≡ (ok tt, refused switch_on (handler (some (station 7))))
unfolding is_data_secure
handle_cemi_frame-plain_example =
    handle_cemi_frame-plain sample indication switch_on (record { raw = 0x0A03 }) (station 7)
      (handler (some (station 7))) refl refl refl refl refl refl refl

confirmation_counts : is_confirmed (confirmation ∷ []) ≡ true
unfolding from_knx code_of LinkData.from_knx individual_from_knx group_from_knx resolve control
    payload_of Dispatch.from_knx group_value_write_from_knx info_from_knx
confirmation_counts = refl
