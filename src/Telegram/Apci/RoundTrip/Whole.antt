-- ===== src/Telegram/Apci/RoundTrip/Whole.antt =====
-- Every service with fields in their ranges is read back from what it is written as.
use xknx.Telegram.Apci.Dispatch.{from_knx}
use xknx.Telegram.Apci.Methods.{to_knx, calculated_length}
use xknx.Telegram.Apci.RoundTrip.Octets.{Encodes}
use xknx.Telegram.Apci.RoundTrip.Validity.{IsEncodable}
use xknx.Telegram.Apci.RoundTrip.Basic.{
  individual_address_write-Encodes, individual_address_read-Encodes,
  individual_address_response-Encodes, adc_read-Encodes, adc_response-Encodes,
  device_descriptor_read-Encodes, device_descriptor_response-Encodes, restart-Encodes,
  restart_master_reset-Encodes, restart_master_reset_response-Encodes,
}
use xknx.Telegram.Apci.RoundTrip.Memory.{
  memory_read-Encodes, memory_write-Encodes, memory_response-Encodes, memory_extended_write-Encodes,
  memory_extended_write_response-Encodes, memory_extended_read-Encodes,
  memory_extended_read_response-Encodes,
}
use xknx.Telegram.Apci.RoundTrip.UserMemory.{
  user_memory_read-Encodes, user_memory_write-Encodes, user_memory_response-Encodes,
  user_manufacturer_info_read-Encodes, user_manufacturer_info_response-Encodes,
  function_property_command-Encodes, function_property_state_read-Encodes,
  function_property_state_response-Encodes,
}
use xknx.Telegram.Apci.RoundTrip.Coupler.{
  filter_table_open-Encodes, filter_table_read-Encodes, filter_table_response-Encodes,
  filter_table_write-Encodes, router_memory_read-Encodes, router_memory_response-Encodes,
  router_memory_write-Encodes,
}
use xknx.Telegram.Apci.RoundTrip.Key.{
  authorize_request-Encodes, authorize_response-Encodes, key_write-Encodes, key_response-Encodes,
}
use xknx.Telegram.Apci.RoundTrip.PropertyExt.{
  function_property_ext_command-Encodes, function_property_ext_state_read-Encodes,
  function_property_ext_state_response-Encodes, property_ext_value_read-Encodes,
  property_ext_value_response-Encodes, property_ext_value_write_con-Encodes,
  property_ext_value_write_un_con-Encodes, property_ext_value_info_report-Encodes,
  property_ext_value_write_con_res-Encodes,
}
use xknx.Telegram.Apci.RoundTrip.PropertyDescription.{
  property_ext_description_read-Encodes, property_ext_description_response-Encodes,
  property_description_read-Encodes, property_description_response-Encodes,
}
use xknx.Telegram.Apci.RoundTrip.PropertyValue.{
  property_value_read-Encodes, property_value_write-Encodes, property_value_response-Encodes,
}
use xknx.Telegram.Apci.RoundTrip.Network.{
  network_parameter_read-Encodes, network_parameter_response-Encodes,
  network_parameter_write-Encodes, system_network_parameter_read-Encodes,
  system_network_parameter_response-Encodes, system_network_parameter_write-Encodes,
}
use xknx.Telegram.Apci.RoundTrip.GroupProperty.{
  group_prop_value_read-Encodes, group_prop_value_response-Encodes, group_prop_value_write-Encodes,
  group_prop_value_info_report-Encodes,
}
use xknx.Telegram.Apci.RoundTrip.Serial.{
  individual_address_serial_read-Encodes, individual_address_serial_response-Encodes,
  individual_address_serial_write-Encodes, domain_address_serial_number_read-Encodes,
  domain_address_read-Encodes, file_stream_info_report-Encodes, link_read-Encodes,
}
use xknx.Telegram.Apci.RoundTrip.Special.{
  group_value_read-Encodes, group_value_write-Encodes, group_value_response-Encodes,
  user_memory_bit_write-Encodes, memory_bit_write-Encodes, domain_address_write-Encodes,
  domain_address_response-Encodes, domain_address_selective_read-Encodes, link_write-Encodes,
  link_response-Encodes,
}
use xknx.Telegram.Apci.RoundTrip.Domain.{
  domain_address_serial_number_response-Encodes, domain_address_serial_number_write-Encodes,
  secure_apdu-Encodes,
}
use xknx.Telegram.Apci.Services.{
  Apci, individual_address_write, individual_address_read, individual_address_response, adc_read,
  adc_response, device_descriptor_read, device_descriptor_response, restart, restart_master_reset,
  restart_master_reset_response, memory_read, memory_write, memory_response, memory_extended_write,
  memory_extended_write_response, memory_extended_read, memory_extended_read_response,
  user_memory_read, user_memory_write, user_memory_response, user_manufacturer_info_read,
  user_manufacturer_info_response, function_property_command, function_property_state_read,
  function_property_state_response, filter_table_open, filter_table_read, filter_table_response,
  filter_table_write, router_memory_read, router_memory_response, router_memory_write,
  authorize_request, authorize_response, key_write, key_response, function_property_ext_command,
  function_property_ext_state_read, function_property_ext_state_response, property_ext_value_read,
  property_ext_value_response, property_ext_value_write_con, property_ext_value_write_un_con,
  property_ext_value_info_report, property_ext_value_write_con_res, property_ext_description_read,
  property_ext_description_response, property_description_read, property_description_response,
  property_value_read, property_value_write, property_value_response, network_parameter_read,
  network_parameter_response, network_parameter_write, system_network_parameter_read,
  system_network_parameter_response, system_network_parameter_write, group_prop_value_read,
  group_prop_value_response, group_prop_value_write, group_prop_value_info_report,
  individual_address_serial_read, individual_address_serial_response,
  individual_address_serial_write, domain_address_serial_number_read, domain_address_read,
  file_stream_info_report, link_read, group_value_read, group_value_write, group_value_response,
  user_memory_bit_write, memory_bit_write, domain_address_write, domain_address_response,
  domain_address_selective_read, link_write, link_response, domain_address_serial_number_response,
  domain_address_serial_number_write, secure_apdu, router_status_read, router_status_response,
  router_status_write,
}

-- A service whose fields are in the ranges of the format, any but a router status, is written as an
-- APDU that `from_knx` reads as that same service, and `calculated_length` is one less than its
-- number of octets.
pub from_knx-to_knx :
    (x : Apci) → IsEncodable x → Encodes from_knx (to_knx x) x (calculated_length x)
unfolding to_knx IsEncodable
from_knx-to_knx (individual_address_write address) h = individual_address_write-Encodes address h
from_knx-to_knx individual_address_read h = individual_address_read-Encodes
from_knx-to_knx individual_address_response h = individual_address_response-Encodes
from_knx-to_knx (adc_read channel count) h = adc_read-Encodes channel count h.0 h.1
from_knx-to_knx (adc_response channel count value) h =
    adc_response-Encodes channel count value h.0 h.1 h.2
from_knx-to_knx (device_descriptor_read descriptor) h = device_descriptor_read-Encodes descriptor h
from_knx-to_knx (device_descriptor_response descriptor value) h =
    device_descriptor_response-Encodes descriptor value h.0 h.1
from_knx-to_knx restart h = restart-Encodes
from_knx-to_knx (restart_master_reset erase_code channel_number) h =
    restart_master_reset-Encodes erase_code channel_number h.0 h.1
from_knx-to_knx (restart_master_reset_response error_code process_time) h =
    restart_master_reset_response-Encodes error_code process_time h.0 h.1
from_knx-to_knx (memory_read address count) h = memory_read-Encodes address count h.0 h.1
from_knx-to_knx (memory_write address payload count) h =
    memory_write-Encodes address payload count h.0 h.1
from_knx-to_knx (memory_response address payload count) h =
    memory_response-Encodes address payload count h.0 h.1
from_knx-to_knx (memory_extended_write address payload count) h =
    memory_extended_write-Encodes address payload count h.0 h.1
from_knx-to_knx (memory_extended_write_response return_code address confirmation_data) h =
    memory_extended_write_response-Encodes return_code address confirmation_data h.0 h.1
from_knx-to_knx (memory_extended_read count address) h =
    memory_extended_read-Encodes count address h.0 h.1
from_knx-to_knx (memory_extended_read_response return_code address payload) h =
    memory_extended_read_response-Encodes return_code address payload h.0 h.1
from_knx-to_knx (user_memory_read address count) h = user_memory_read-Encodes address count h.0 h.1
from_knx-to_knx (user_memory_write address payload count) h =
    user_memory_write-Encodes address payload count h.0 h.1
from_knx-to_knx (user_memory_response address payload count) h =
    user_memory_response-Encodes address payload count h.0 h.1
from_knx-to_knx user_manufacturer_info_read h = user_manufacturer_info_read-Encodes
from_knx-to_knx (user_manufacturer_info_response manufacturer_id payload) h =
    user_manufacturer_info_response-Encodes manufacturer_id payload h.0 h.1
from_knx-to_knx (function_property_command object_index property_id payload) h =
    function_property_command-Encodes object_index property_id payload h.0 h.1
from_knx-to_knx (function_property_state_read object_index property_id payload) h =
    function_property_state_read-Encodes object_index property_id payload h.0 h.1
from_knx-to_knx (function_property_state_response object_index property_id return_code payload) h =
    function_property_state_response-Encodes object_index property_id return_code payload h.0 h.1
      h.2
from_knx-to_knx filter_table_open h = filter_table_open-Encodes
from_knx-to_knx (filter_table_read filter_table_address number) h =
    filter_table_read-Encodes filter_table_address number h.0 h.1 h.2
from_knx-to_knx (filter_table_response filter_table_address payload number) h =
    filter_table_response-Encodes filter_table_address payload number h.0 h.1
from_knx-to_knx (filter_table_write filter_table_address payload number) h =
    filter_table_write-Encodes filter_table_address payload number h.0 h.1 h.2 h.3
from_knx-to_knx (router_memory_read memory_address number) h =
    router_memory_read-Encodes memory_address number h.0 h.1 h.2
from_knx-to_knx (router_memory_response memory_address payload number) h =
    router_memory_response-Encodes memory_address payload number h.0 h.1
from_knx-to_knx (router_memory_write memory_address payload number) h =
    router_memory_write-Encodes memory_address payload number h.0 h.1 h.2 h.3
from_knx-to_knx (authorize_request key) h = authorize_request-Encodes key h
from_knx-to_knx (authorize_response level) h = authorize_response-Encodes level h
from_knx-to_knx (key_write level key) h = key_write-Encodes level key h.0 h.1
from_knx-to_knx (key_response level) h = key_response-Encodes level h
from_knx-to_knx (function_property_ext_command object_type object_instance property_id payload) h =
    function_property_ext_command-Encodes object_type object_instance property_id payload h.0 h.1
      h.2
from_knx-to_knx (function_property_ext_state_read object_type object_instance property_id payload)
      h =
    function_property_ext_state_read-Encodes object_type object_instance property_id payload h.0 h.1
      h.2
from_knx-to_knx
      (function_property_ext_state_response object_type object_instance property_id return_code
        payload)
      h =
    function_property_ext_state_response-Encodes object_type object_instance property_id return_code
      payload h.0 h.1 h.2
from_knx-to_knx
      (property_ext_value_read object_type object_instance property_id nr_of_elem start_index) h =
    property_ext_value_read-Encodes object_type object_instance property_id nr_of_elem start_index
      h.0 h.1 h.2 h.3 h.4
from_knx-to_knx
      (property_ext_value_response object_type object_instance property_id nr_of_elem start_index
        payload)
      h =
    property_ext_value_response-Encodes object_type object_instance property_id nr_of_elem
      start_index payload h.0 h.1 h.2 h.3 h.4
from_knx-to_knx
      (property_ext_value_write_con object_type object_instance property_id nr_of_elem start_index
        payload)
      h =
    property_ext_value_write_con-Encodes object_type object_instance property_id nr_of_elem
      start_index payload h.0 h.1 h.2 h.3 h.4
from_knx-to_knx
      (property_ext_value_write_un_con object_type object_instance property_id nr_of_elem
        start_index payload)
      h =
    property_ext_value_write_un_con-Encodes object_type object_instance property_id nr_of_elem
      start_index payload h.0 h.1 h.2 h.3 h.4
from_knx-to_knx
      (property_ext_value_info_report object_type object_instance property_id nr_of_elem start_index
        payload)
      h =
    property_ext_value_info_report-Encodes object_type object_instance property_id nr_of_elem
      start_index payload h.0 h.1 h.2 h.3 h.4
from_knx-to_knx
      (property_ext_value_write_con_res object_type object_instance property_id return_code
        nr_of_elem start_index)
      h =
    property_ext_value_write_con_res-Encodes object_type object_instance property_id return_code
      nr_of_elem start_index h.0 h.1 h.2 h.3 h.4
from_knx-to_knx
      (property_ext_description_read object_type object_instance property_id description_type
        property_index)
      h =
    property_ext_description_read-Encodes object_type object_instance property_id description_type
      property_index h.0 h.1 h.2 h.3 h.4
from_knx-to_knx
      (property_ext_description_response object_type object_instance property_id description_type
        property_index dpt_main dpt_sub writable pdt max_nr_of_elem read_level write_level)
      h =
    property_ext_description_response-Encodes object_type object_instance property_id
      description_type property_index dpt_main dpt_sub writable pdt max_nr_of_elem read_level
      write_level h.0 h.1 h.2 h.3 h.4 h.5 h.6 h.7 h.8 h.9 h.10
from_knx-to_knx (property_description_read object_index property_id property_index) h =
    property_description_read-Encodes object_index property_id property_index h.0 h.1 h.2
from_knx-to_knx
      (property_description_response object_index property_id property_index type_ max_count access)
      h =
    property_description_response-Encodes object_index property_id property_index type_ max_count
      access h.0 h.1 h.2 h.3 h.4 h.5
from_knx-to_knx (property_value_read object_index property_id count start_index) h =
    property_value_read-Encodes object_index property_id count start_index h.0 h.1 h.2 h.3
from_knx-to_knx (property_value_write object_index property_id count start_index payload) h =
    property_value_write-Encodes object_index property_id count start_index payload h.0 h.1 h.2 h.3
from_knx-to_knx (property_value_response object_index property_id count start_index payload) h =
    property_value_response-Encodes object_index property_id count start_index payload h.0 h.1 h.2
      h.3
from_knx-to_knx (network_parameter_read object_type property_id payload) h =
    network_parameter_read-Encodes object_type property_id payload h.0 h.1
from_knx-to_knx (network_parameter_response object_type property_id payload) h =
    network_parameter_response-Encodes object_type property_id payload h.0 h.1
from_knx-to_knx (network_parameter_write object_type property_id payload) h =
    network_parameter_write-Encodes object_type property_id payload h.0 h.1
from_knx-to_knx (system_network_parameter_read object_type property_id payload) h =
    system_network_parameter_read-Encodes object_type property_id payload h.0 h.1
from_knx-to_knx (system_network_parameter_response object_type property_id payload) h =
    system_network_parameter_response-Encodes object_type property_id payload h.0 h.1
from_knx-to_knx (system_network_parameter_write object_type property_id payload) h =
    system_network_parameter_write-Encodes object_type property_id payload h.0 h.1
from_knx-to_knx (group_prop_value_read object_type object_instance property_id) h =
    group_prop_value_read-Encodes object_type object_instance property_id h.0 h.1 h.2
from_knx-to_knx (group_prop_value_response object_type object_instance property_id payload) h =
    group_prop_value_response-Encodes object_type object_instance property_id payload h.0 h.1 h.2
from_knx-to_knx (group_prop_value_write object_type object_instance property_id payload) h =
    group_prop_value_write-Encodes object_type object_instance property_id payload h.0 h.1 h.2
from_knx-to_knx (group_prop_value_info_report object_type object_instance property_id payload) h =
    group_prop_value_info_report-Encodes object_type object_instance property_id payload h.0 h.1 h.2
from_knx-to_knx (individual_address_serial_read serial) h =
    individual_address_serial_read-Encodes serial h
from_knx-to_knx (individual_address_serial_response serial address) h =
    individual_address_serial_response-Encodes serial address h.0 h.1
from_knx-to_knx (individual_address_serial_write serial address) h =
    individual_address_serial_write-Encodes serial address h.0 h.1
from_knx-to_knx (domain_address_serial_number_read serial) h =
    domain_address_serial_number_read-Encodes serial h
from_knx-to_knx domain_address_read h = domain_address_read-Encodes
from_knx-to_knx (file_stream_info_report file_handle file_block_seq_number file_block) h =
    file_stream_info_report-Encodes file_handle file_block_seq_number file_block h.0 h.1
from_knx-to_knx (link_read group_object_number start_index) h =
    link_read-Encodes group_object_number start_index h.0 h.1
from_knx-to_knx group_value_read h = group_value_read-Encodes
from_knx-to_knx (group_value_write v) h = group_value_write-Encodes v h
from_knx-to_knx (group_value_response v) h = group_value_response-Encodes v h
from_knx-to_knx (user_memory_bit_write a ands xors) h =
    user_memory_bit_write-Encodes a ands xors h.0 h.1 h.2 h.3
from_knx-to_knx (memory_bit_write a ands xors) h =
    memory_bit_write-Encodes a ands xors h.0 h.1 h.2 h.3
from_knx-to_knx (domain_address_write d) h = domain_address_write-Encodes d h
from_knx-to_knx (domain_address_response d) h = domain_address_response-Encodes d h
from_knx-to_knx (domain_address_selective_read asdu) h =
    domain_address_selective_read-Encodes asdu h
from_knx-to_knx (link_write g a d s) h = link_write-Encodes g a d s h.0 h.1
from_knx-to_knx (link_response g s i l) h = link_response-Encodes g s i l h.0 h.1 h.2 h.3 h.4
from_knx-to_knx (domain_address_serial_number_response serial d) h =
    domain_address_serial_number_response-Encodes serial d h.0 h.1
from_knx-to_knx (domain_address_serial_number_write serial d v key) h =
    domain_address_serial_number_write-Encodes serial d v key h.0 h.1
from_knx-to_knx (secure_apdu f d) h = secure_apdu-Encodes f d h
from_knx-to_knx router_status_read h = absurd h
from_knx-to_knx router_status_response h = absurd h
from_knx-to_knx router_status_write h = absurd h
