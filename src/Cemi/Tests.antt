-- ===== src/Cemi/Tests.antt =====
-- Concrete runs, and the theorems at concrete inputs.
use xknx.Prelude.{
  length, ◌≤◌, ◌↔◌, ◌/◌, ◌%◌, ◌≡◌, refl, ok, err, arith, ◌∷◌, [], Bytes, some, none,
  could_not_parse_cemi,
}
use xknx.Cemi.Frame.{l_data_ind, link_data}
use xknx.Cemi.Frame.RoundTrip.{IsReadBack, to_knx-Suits}
use xknx.Cemi.LinkData.{
  CemiLData, to_group, to_knx, from_knx, frame_type, transport_unit, payload_of, hops, set_hops,
}
use xknx.Cemi.LinkData.FrameType.{to_knx-standard}
use xknx.Cemi.LinkData.Hops.{hops-set_hops}
use xknx.Cemi.LinkData.RoundTrip.{IsSendable, IsRead, to_knx-IsSendable}
use xknx.Cemi.Property.{
  WriteResponse, info_to_knx, unspecified, write_response_to_knx, write_response_from_knx,
}
use xknx.Cemi.Property.RoundTrip.{FitsInfo, write_response_to_knx-unspecified}
use xknx.Cemi.Telegrams.{Survives, IsForBus, init_from_telegram-Survives}
use xknx.Telegram.Address.{
  IndividualAddress, GroupAddress, individual_to_knx, group_to_knx, individual_from_knx,
  group_from_knx,
}
use xknx.Telegram.Apci.Dispatch as Dispatch
use xknx.Telegram.Apci.Methods as Methods
use xknx.Telegram.Apci.RoundTrip.Validity.{IsEncodable}
use xknx.Telegram.Apci.Services.{group_value_write, dpt_binary}
use xknx.Telegram.Apci.Special.{group_value_write_to_knx, group_value_write_from_knx}
use xknx.Telegram.Record.{TelegramRecord, group_target, outgoing}
use xknx.Telegram.Tpci.{t_data_group, control}
use xknx.Telegram.Tpci as Transport

abbrev sender : IndividualAddress
sender = record { raw = 0x1203 }

abbrev lamp : GroupAddress
lamp = record { raw = 0x0A03 }

abbrev switch_on : CemiLData
switch_on = record {
  flags = 0xBCE0;
  src_addr = sender;
  dst_addr = to_group lamp;
  tpci = t_data_group;
  payload = some (group_value_write (dpt_binary 1));
}

abbrev frame_octets : Bytes
frame_octets = 0xBC ∷ 0xE0 ∷ 0x12 ∷ 0x03 ∷ 0x0A ∷ 0x03 ∷ 1 ∷ 0x00 ∷ 0x81 ∷ []

switch_on_octets : to_knx switch_on ≡ ok frame_octets
unfolding to_knx control Transport.to_knx Methods.to_knx group_value_write_to_knx
    Methods.calculated_length individual_to_knx group_to_knx transport_unit frame_type
switch_on_octets = refl

from_knx_short : from_knx (1 ∷ 2 ∷ 3 ∷ []) ≡ err could_not_parse_cemi
unfolding from_knx
from_knx_short = refl

switch_on-IsSendable : IsSendable switch_on
unfolding control IsEncodable Methods.calculated_length
switch_on-IsSendable = record {
  flags_fit = omega arith;
  standard_format = refl;
  kind = refl;
  source_fits = omega arith;
  target_fits = omega arith;
  service = (refl, refl);
  number = tt;
  carries = (omega arith, omega arith);
}

to_knx-IsSendable_example : IsRead switch_on
to_knx-IsSendable_example = to_knx-IsSendable switch_on switch_on-IsSendable

to_knx-Suits_example : IsReadBack l_data_ind (7 ∷ []) (some (link_data switch_on))
to_knx-Suits_example =
    to_knx-Suits l_data_ind (7 ∷ []) (some (link_data switch_on))
      (omega arith, switch_on-IsSendable)

hops-set_hops_example :
    (hops (set_hops switch_on 3) ≡ 3)
    × ((set_hops switch_on 3).flags / 128 ≡ 0xBCE0 / 128)
    × ((set_hops switch_on 3).flags % 16 ≡ 0xBCE0 % 16)
hops-set_hops_example = hops-set_hops switch_on 3 (omega arith) (omega arith)

abbrev switch_telegram : TelegramRecord
switch_telegram = record {
  destination_address = group_target lamp;
  direction = outgoing;
  payload = some (group_value_write (dpt_binary 1));
  source_address = sender;
  tpci = t_data_group;
}

switch_telegram-IsForBus :
    IsForBus (to_group lamp) sender t_data_group (some (group_value_write (dpt_binary 1)))
unfolding control IsEncodable Methods.calculated_length
switch_telegram-IsForBus = record {
  source_fits = omega arith;
  target_fits = omega arith;
  service = (refl, refl);
  number = tt;
  carries = (omega arith, omega arith);
}

init_from_telegram-Survives_example : Survives switch_telegram none
init_from_telegram-Survives_example =
    init_from_telegram-Survives switch_telegram none (to_group lamp) refl switch_telegram-IsForBus

abbrev failed_write : WriteResponse
failed_write = record {
  property_info = record {
    object_type = 0x0B;
    object_instance = 1;
    property_id = 52;
    number_of_elements = 0;
    start_index = 1;
  };
  error_code = some unspecified;
}

failed_write-FitsInfo : FitsInfo failed_write.property_info
failed_write-FitsInfo = record {
  known = refl;
  instance_fits = omega arith;
  property_fits = omega arith;
  number_fits = omega arith;
  start_fits = omega arith;
}

write_response_to_knx-unspecified_example :
    (raw : Bytes) × (info_to_knx failed_write.property_info ≡ ok raw)
    × (length raw ≡ 6)
    × (write_response_to_knx failed_write ≡ ok raw)
    × (write_response_to_knx (record failed_write { error_code = none }) ≡ ok raw)
    × (write_response_from_knx raw ≡ err could_not_parse_cemi)
write_response_to_knx-unspecified_example =
    write_response_to_knx-unspecified failed_write failed_write-FitsInfo refl refl

switch_on_read : from_knx frame_octets ≡ ok switch_on
unfolding from_knx Transport.resolve control Dispatch.from_knx group_value_write_from_knx
    individual_from_knx group_from_knx payload_of
switch_on_read = refl

to_knx-standard_example : (switch_on.flags / 32768 ≡ 1) ↔ (length frame_octets ≤ 23)
to_knx-standard_example =
    to_knx-standard switch_on switch_on frame_octets switch_on-IsSendable switch_on_octets
      switch_on_read
