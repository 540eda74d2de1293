-- ===== src/Telegram/Apci/Dispatch.antt =====
-- xknx/telegram/apci.py: choosing the service by its code, and the methods of every service.
use xknx.Prelude.{
  ℕ, ◌+◌, ◌*◌, ◌==◌, if◌then◌else◌, ◌∷◌, Bytes, bit_and, Result, err, conversion_error,
  unsupported_apci_service, index_error, struct_error, value_error,
}
use xknx.Telegram.Apci.Basic.{
  individual_address_write_from_knx, individual_address_read_from_knx,
  individual_address_response_from_knx, adc_read_from_knx, adc_response_from_knx,
  device_descriptor_read_from_knx, device_descriptor_response_from_knx, restart_from_knx,
  restart_master_reset_from_knx, restart_master_reset_response_from_knx,
}
use xknx.Telegram.Apci.Memory.{
  memory_read_from_knx, memory_write_from_knx, memory_response_from_knx,
  memory_extended_write_from_knx, memory_extended_write_response_from_knx,
  memory_extended_read_from_knx, memory_extended_read_response_from_knx,
}
use xknx.Telegram.Apci.UserMemory.{
  user_memory_read_from_knx, user_memory_write_from_knx, user_memory_response_from_knx,
  user_manufacturer_info_read_from_knx, user_manufacturer_info_response_from_knx,
  function_property_command_from_knx, function_property_state_read_from_knx,
  function_property_state_response_from_knx,
}
use xknx.Telegram.Apci.Coupler.{
  filter_table_open_from_knx, filter_table_read_from_knx, filter_table_response_from_knx,
  filter_table_write_from_knx, router_memory_read_from_knx, router_memory_response_from_knx,
  router_memory_write_from_knx,
}
use xknx.Telegram.Apci.Key.{
  authorize_request_from_knx, authorize_response_from_knx, key_write_from_knx,
  key_response_from_knx,
}
use xknx.Telegram.Apci.PropertyExt.{
  function_property_ext_command_from_knx, function_property_ext_state_read_from_knx,
  function_property_ext_state_response_from_knx, property_ext_value_read_from_knx,
  property_ext_value_response_from_knx, property_ext_value_write_con_from_knx,
  property_ext_value_write_un_con_from_knx, property_ext_value_info_report_from_knx,
  property_ext_value_write_con_res_from_knx,
}
use xknx.Telegram.Apci.PropertyDescription.{
  property_ext_description_read_from_knx, property_ext_description_response_from_knx,
  property_description_read_from_knx, property_description_response_from_knx,
}
use xknx.Telegram.Apci.PropertyValue.{
  property_value_read_from_knx, property_value_write_from_knx, property_value_response_from_knx,
}
use xknx.Telegram.Apci.Network.{
  network_parameter_read_from_knx, network_parameter_response_from_knx,
  network_parameter_write_from_knx, system_network_parameter_read_from_knx,
  system_network_parameter_response_from_knx, system_network_parameter_write_from_knx,
}
use xknx.Telegram.Apci.GroupProperty.{
  group_prop_value_read_from_knx, group_prop_value_response_from_knx,
  group_prop_value_write_from_knx, group_prop_value_info_report_from_knx,
}
use xknx.Telegram.Apci.Serial.{
  individual_address_serial_read_from_knx, individual_address_serial_response_from_knx,
  individual_address_serial_write_from_knx, domain_address_serial_number_read_from_knx,
  domain_address_read_from_knx, file_stream_info_report_from_knx, link_read_from_knx,
}
use xknx.Telegram.Apci.Special.{
  domain_address_response_from_knx, domain_address_selective_read_from_knx,
  domain_address_serial_number_response_from_knx, domain_address_serial_number_write_from_knx,
  domain_address_write_from_knx, group_value_read_from_knx, group_value_response_from_knx,
  group_value_write_from_knx, link_response_from_knx, link_write_from_knx,
  memory_bit_write_from_knx, router_status_from_knx, secure_apdu_from_knx,
  user_memory_bit_write_from_knx,
}
use xknx.Telegram.Apci.Services.{Apci}

unfoldable pub adc_branch : ℕ → Bytes → Result Apci
adc_branch apci raw =
    if apci == 0x1C8
    then system_network_parameter_read_from_knx raw
    else if apci == 0x1C9
    then system_network_parameter_response_from_knx raw
    else if apci == 0x1CA
    then system_network_parameter_write_from_knx raw
    else if apci == 0x1CC
    then property_ext_value_read_from_knx raw
    else if apci == 0x1CD
    then property_ext_value_response_from_knx raw
    else if apci == 0x1CE
    then property_ext_value_write_con_from_knx raw
    else if apci == 0x1CF
    then property_ext_value_write_con_res_from_knx raw
    else if apci == 0x1D0
    then property_ext_value_write_un_con_from_knx raw
    else if apci == 0x1D1
    then property_ext_value_info_report_from_knx raw
    else if apci == 0x1D2
    then property_ext_description_read_from_knx raw
    else if apci == 0x1D3
    then property_ext_description_response_from_knx raw
    else if apci == 0x1FB
    then memory_extended_write_from_knx raw
    else if apci == 0x1FC
    then memory_extended_write_response_from_knx raw
    else if apci == 0x1FD
    then memory_extended_read_from_knx raw
    else if apci == 0x1FE
    then memory_extended_read_response_from_knx raw
    else if apci == 0x1D4
    then function_property_ext_command_from_knx raw
    else if apci == 0x1D5
    then function_property_ext_state_read_from_knx raw
    else if apci == 0x1D6
    then function_property_ext_state_response_from_knx raw
    else adc_response_from_knx raw

unfoldable pub user_branch : ℕ → Bytes → Result Apci
user_branch apci raw =
    if apci == 0x2C0
    then user_memory_read_from_knx raw
    else if apci == 0x2C1
    then user_memory_response_from_knx raw
    else if apci == 0x2C2
    then user_memory_write_from_knx raw
    else if apci == 0x2C4
    then user_memory_bit_write_from_knx raw
    else if apci == 0x2C5
    then user_manufacturer_info_read_from_knx raw
    else if apci == 0x2C6
    then user_manufacturer_info_response_from_knx raw
    else if apci == 0x2C7
    then function_property_command_from_knx raw
    else if apci == 0x2C8
    then function_property_state_read_from_knx raw
    else if apci == 0x2C9
    then function_property_state_response_from_knx raw
    else err unsupported_apci_service

unfoldable pub restart_branch : ℕ → Bytes → Result Apci
restart_branch apci raw =
    if apci == 0x381
    then restart_master_reset_from_knx raw
    else if apci == 0x3A1
    then restart_master_reset_response_from_knx raw
    else restart_from_knx raw

unfoldable pub escape_branch : ℕ → Bytes → Result Apci
escape_branch apci raw =
    if apci == 0x3C0
    then filter_table_open_from_knx raw
    else if apci == 0x3C1
    then filter_table_read_from_knx raw
    else if apci == 0x3C2
    then filter_table_response_from_knx raw
    else if apci == 0x3C3
    then filter_table_write_from_knx raw
    else if apci == 0x3C8
    then router_memory_read_from_knx raw
    else if apci == 0x3C9
    then router_memory_response_from_knx raw
    else if apci == 0x3CA
    then router_memory_write_from_knx raw
    else if apci == 0x3CD
    then router_status_from_knx raw
    else if apci == 0x3CE
    then router_status_from_knx raw
    else if apci == 0x3CF
    then router_status_from_knx raw
    else if apci == 0x3D0
    then memory_bit_write_from_knx raw
    else if apci == 0x3D1
    then authorize_request_from_knx raw
    else if apci == 0x3D2
    then authorize_response_from_knx raw
    else if apci == 0x3D3
    then key_write_from_knx raw
    else if apci == 0x3D4
    then key_response_from_knx raw
    else if apci == 0x3D5
    then property_value_read_from_knx raw
    else if apci == 0x3D7
    then property_value_write_from_knx raw
    else if apci == 0x3D6
    then property_value_response_from_knx raw
    else if apci == 0x3D8
    then property_description_read_from_knx raw
    else if apci == 0x3D9
    then property_description_response_from_knx raw
    else if apci == 0x3DA
    then network_parameter_read_from_knx raw
    else if apci == 0x3DB
    then network_parameter_response_from_knx raw
    else if apci == 0x3DC
    then individual_address_serial_read_from_knx raw
    else if apci == 0x3DD
    then individual_address_serial_response_from_knx raw
    else if apci == 0x3DE
    then individual_address_serial_write_from_knx raw
    else if apci == 0x3E0
    then domain_address_write_from_knx raw
    else if apci == 0x3E1
    then domain_address_read_from_knx raw
    else if apci == 0x3E2
    then domain_address_response_from_knx raw
    else if apci == 0x3E3
    then domain_address_selective_read_from_knx raw
    else if apci == 0x3E4
    then network_parameter_write_from_knx raw
    else if apci == 0x3E5
    then link_read_from_knx raw
    else if apci == 0x3E6
    then link_response_from_knx raw
    else if apci == 0x3E7
    then link_write_from_knx raw
    else if apci == 0x3E8
    then group_prop_value_read_from_knx raw
    else if apci == 0x3E9
    then group_prop_value_response_from_knx raw
    else if apci == 0x3EA
    then group_prop_value_write_from_knx raw
    else if apci == 0x3EB
    then group_prop_value_info_report_from_knx raw
    else if apci == 0x3EC
    then domain_address_serial_number_read_from_knx raw
    else if apci == 0x3ED
    then domain_address_serial_number_response_from_knx raw
    else if apci == 0x3EE
    then domain_address_serial_number_write_from_knx raw
    else if apci == 0x3F0
    then file_stream_info_report_from_knx raw
    else if apci == 0x3F1
    then secure_apdu_from_knx raw
    else err unsupported_apci_service

unfoldable pub dispatch : ℕ → ℕ → Bytes → Result Apci
unfolding adc_branch user_branch restart_branch escape_branch
dispatch service apci raw =
    if service == 0x000
    then group_value_read_from_knx raw
    else if service == 0x080
    then group_value_write_from_knx raw
    else if service == 0x040
    then group_value_response_from_knx raw
    else if service == 0x0C0
    then individual_address_write_from_knx raw
    else if service == 0x100
    then individual_address_read_from_knx raw
    else if service == 0x140
    then individual_address_response_from_knx raw
    else if service == 0x180
    then adc_read_from_knx raw
    else if service == 0x1C0
    then adc_branch apci raw
    else if service == 0x200
    then memory_read_from_knx raw
    else if service == 0x280
    then memory_write_from_knx raw
    else if service == 0x240
    then memory_response_from_knx raw
    else if service == 0x2C0
    then user_branch apci raw
    else if service == 0x300
    then device_descriptor_read_from_knx raw
    else if service == 0x340
    then device_descriptor_response_from_knx raw
    else if service == 0x380
    then restart_branch apci raw
    else if service == 0x3C0
    then escape_branch apci raw
    else err unsupported_apci_service

-- `except (IndexError, struct.error, ValueError)`
abbrev reraise : Result Apci → Result Apci
reraise (err index_error) = err conversion_error
reraise (err struct_error) = err conversion_error
reraise (err value_error) = err conversion_error
reraise r = r

unfoldable pub from_knx : Bytes → Result Apci
unfolding dispatch
from_knx (a ∷ b ∷ rest) =
    let apci = bit_and (a * 256 + b) 0x03FF in
    reraise (dispatch (bit_and apci 0x03C0) apci (a ∷ b ∷ rest))
from_knx _ = err conversion_error
