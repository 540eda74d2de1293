-- ===== src/Telegram/Apci/RoundTrip/Validity.antt =====
-- When every field of a service fits the octets that the format gives to it.
use xknx.Prelude.{◌<◌, ◌≤◌, ◌≡◌, ◌⊎◌, length, All}
use xknx.Telegram.Apci.RoundTrip.Special.{FitsGroup, InRange}
use xknx.Telegram.Apci.RoundTrip.Domain.{FitsBackbone, FitsSecure}
use xknx.Telegram.Apci.Services.{
  Apci, individual_address_write, individual_address_read, individual_address_response, adc_read,
  adc_response, device_descriptor_read, device_descriptor_response, restart, restart_master_reset,
  restart_master_reset_response, memory_read, memory_write, memory_response, memory_extended_write,
  memory_extended_write_response, memory_extended_read, memory_extended_read_response,
  user_memory_read, user_memory_write, user_memory_response, user_manufacturer_info_read,
  user_manufacturer_info_response, function_property_command, function_property_state_read,
  function_property_state_response, filter_table_open, filter_table_read, filter_table_response,
  filter_table_write, router_memory_read, router_memory_response, router_memory_write,
  authorize_request, authorize_response, key_write, key_response, function_property_ext_command,
  function_property_ext_state_read, function_property_ext_state_response, property_ext_value_read,
  property_ext_value_response, property_ext_value_write_con, property_ext_value_write_un_con,
  property_ext_value_info_report, property_ext_value_write_con_res, property_ext_description_read,
  property_ext_description_response, property_description_read, property_description_response,
  property_value_read, property_value_write, property_value_response, network_parameter_read,
  network_parameter_response, network_parameter_write, system_network_parameter_read,
  system_network_parameter_response, system_network_parameter_write, group_prop_value_read,
  group_prop_value_response, group_prop_value_write, group_prop_value_info_report,
  individual_address_serial_read, individual_address_serial_response,
  individual_address_serial_write, domain_address_serial_number_read, domain_address_read,
  file_stream_info_report, link_read, group_value_read, group_value_write, group_value_response,
  user_memory_bit_write, memory_bit_write, domain_address_write, domain_address_response,
  domain_address_selective_read, link_write, link_response, domain_address_serial_number_response,
  domain_address_serial_number_write, secure_apdu, router_status_read, router_status_response,
  router_status_write,
}

-- The fields fit; for a router status, which the source leaves without code, nothing does.
unfoldable pub IsEncodable : Apci → Type 0
IsEncodable (individual_address_write address) = address.raw < 65536
IsEncodable individual_address_read = Unit
IsEncodable individual_address_response = Unit
IsEncodable (adc_read channel count) = (channel < 64) × (count < 256)
IsEncodable (adc_response channel count value) = (channel < 8) × (count < 256) × (value < 65536)
IsEncodable (device_descriptor_read descriptor) = descriptor < 64
IsEncodable (device_descriptor_response descriptor value) = (descriptor < 64) × (value < 65536)
IsEncodable restart = Unit
IsEncodable (restart_master_reset erase_code channel_number) =
    (erase_code < 256) × (channel_number < 256)
IsEncodable (restart_master_reset_response error_code process_time) =
    (error_code < 256) × (process_time < 65536)
IsEncodable (memory_read address count) = (address < 65536) × (count < 64)
IsEncodable (memory_write address _ count) = (address < 65536) × (count < 64)
IsEncodable (memory_response address _ count) = (address < 65536) × (count < 64)
IsEncodable (memory_extended_write address _ count) = (address < 16777216) × (count ≤ 250)
IsEncodable (memory_extended_write_response return_code address _) =
    (return_code < 256) × (address < 16777216)
IsEncodable (memory_extended_read count address) = (address < 16777216) × (count ≤ 250)
IsEncodable (memory_extended_read_response return_code address _) =
    (return_code < 256) × (address < 16777216)
IsEncodable (user_memory_read address count) = (address < 1048576) × (count < 16)
IsEncodable (user_memory_write address _ count) = (address < 1048576) × (count < 16)
IsEncodable (user_memory_response address _ count) = (address < 1048576) × (count < 16)
IsEncodable user_manufacturer_info_read = Unit
IsEncodable (user_manufacturer_info_response manufacturer_id payload) =
    (manufacturer_id < 256) × (length payload ≡ 2)
IsEncodable (function_property_command object_index property_id _) =
    (object_index < 256) × (property_id < 256)
IsEncodable (function_property_state_read object_index property_id _) =
    (object_index < 256) × (property_id < 256)
IsEncodable (function_property_state_response object_index property_id return_code _) =
    (object_index < 256) × (property_id < 256) × (return_code < 256)
IsEncodable filter_table_open = Unit
IsEncodable (filter_table_read filter_table_address number) =
    (filter_table_address < 65536) × (1 ≤ number) × (number ≤ 254)
IsEncodable (filter_table_response filter_table_address _ number) =
    (filter_table_address < 65536) × (number ≤ 254)
IsEncodable (filter_table_write filter_table_address payload number) =
    (filter_table_address < 65536) × (1 ≤ number) × (number ≤ 254) × (1 ≤ length payload)
IsEncodable (router_memory_read memory_address number) =
    (memory_address < 65536) × (1 ≤ number) × (number ≤ 254)
IsEncodable (router_memory_response memory_address _ number) =
    (memory_address < 65536) × (number ≤ 254)
IsEncodable (router_memory_write memory_address payload number) =
    (memory_address < 65536) × (1 ≤ number) × (number ≤ 254) × (1 ≤ length payload)
IsEncodable (authorize_request key) = key < 4294967296
IsEncodable (authorize_response level) = level < 256
IsEncodable (key_write level key) = (level < 256) × (key < 4294967296)
IsEncodable (key_response level) = level < 256
IsEncodable (function_property_ext_command object_type object_instance property_id _) =
    (object_type < 65536) × (object_instance < 4096) × (property_id < 4096)
IsEncodable (function_property_ext_state_read object_type object_instance property_id _) =
    (object_type < 65536) × (object_instance < 4096) × (property_id < 4096)
IsEncodable (function_property_ext_state_response object_type object_instance property_id _ _) =
    (object_type < 65536) × (object_instance < 4096) × (property_id < 4096)
IsEncodable
      (property_ext_value_read object_type object_instance property_id nr_of_elem start_index) =
    (object_type < 65536)
    × (object_instance < 4096)
    × (property_id < 4096)
    × (nr_of_elem < 256)
    × (start_index < 65536)
IsEncodable
      (property_ext_value_response object_type object_instance property_id nr_of_elem start_index
        _) =
    (object_type < 65536)
    × (object_instance < 4096)
    × (property_id < 4096)
    × (nr_of_elem < 256)
    × (start_index < 65536)
IsEncodable
      (property_ext_value_write_con object_type object_instance property_id nr_of_elem start_index
        _) =
    (object_type < 65536)
    × (object_instance < 4096)
    × (property_id < 4096)
    × (nr_of_elem < 256)
    × (start_index < 65536)
IsEncodable
      (property_ext_value_write_un_con object_type object_instance property_id nr_of_elem
        start_index _) =
    (object_type < 65536)
    × (object_instance < 4096)
    × (property_id < 4096)
    × (nr_of_elem < 256)
    × (start_index < 65536)
IsEncodable
      (property_ext_value_info_report object_type object_instance property_id nr_of_elem start_index
        _) =
    (object_type < 65536)
    × (object_instance < 4096)
    × (property_id < 4096)
    × (nr_of_elem < 256)
    × (start_index < 65536)
IsEncodable
      (property_ext_value_write_con_res object_type object_instance property_id _ nr_of_elem
        start_index) =
    (object_type < 65536)
    × (object_instance < 4096)
    × (property_id < 4096)
    × (nr_of_elem < 256)
    × (start_index < 65536)
IsEncodable
      (property_ext_description_read object_type object_instance property_id description_type
        property_index) =
    (object_type < 65536)
    × (object_instance < 4096)
    × (property_id < 4096)
    × (description_type < 16)
    × (property_index < 4096)
IsEncodable
      (property_ext_description_response object_type object_instance property_id description_type
        property_index dpt_main dpt_sub _ pdt max_nr_of_elem read_level write_level) =
    (object_type < 65536)
    × (object_instance < 4096)
    × (property_id < 4096)
    × (description_type < 16)
    × (property_index < 4096)
    × (dpt_main < 65536)
    × (dpt_sub < 65536)
    × (pdt < 64)
    × (max_nr_of_elem < 65536)
    × (read_level < 16)
    × (write_level < 16)
IsEncodable (property_description_read object_index property_id property_index) =
    (object_index < 256) × (property_id < 256) × (property_index < 256)
IsEncodable
      (property_description_response object_index property_id property_index type_ max_count
        access) =
    (object_index < 256)
    × (property_id < 256)
    × (property_index < 256)
    × (type_ < 256)
    × (max_count < 4096)
    × (access < 256)
IsEncodable (property_value_read object_index property_id count start_index) =
    (object_index < 256) × (property_id < 256) × (count < 16) × (start_index < 4096)
IsEncodable (property_value_write object_index property_id count start_index _) =
    (object_index < 256) × (property_id < 256) × (count < 16) × (start_index < 4096)
IsEncodable (property_value_response object_index property_id count start_index _) =
    (object_index < 256) × (property_id < 256) × (count < 16) × (start_index < 4096)
IsEncodable (network_parameter_read object_type property_id _) =
    (object_type < 65536) × (property_id < 256)
IsEncodable (network_parameter_response object_type property_id _) =
    (object_type < 65536) × (property_id < 256)
IsEncodable (network_parameter_write object_type property_id _) =
    (object_type < 65536) × (property_id < 256)
IsEncodable (system_network_parameter_read object_type property_id _) =
    (object_type < 65536) × (property_id < 4096)
IsEncodable (system_network_parameter_response object_type property_id _) =
    (object_type < 65536) × (property_id < 4096)
IsEncodable (system_network_parameter_write object_type property_id _) =
    (object_type < 65536) × (property_id < 4096)
IsEncodable (group_prop_value_read object_type object_instance property_id) =
    (object_type < 65536) × (object_instance < 256) × (property_id < 256)
IsEncodable (group_prop_value_response object_type object_instance property_id _) =
    (object_type < 65536) × (object_instance < 256) × (property_id < 256)
IsEncodable (group_prop_value_write object_type object_instance property_id _) =
    (object_type < 65536) × (object_instance < 256) × (property_id < 256)
IsEncodable (group_prop_value_info_report object_type object_instance property_id _) =
    (object_type < 65536) × (object_instance < 256) × (property_id < 256)
IsEncodable (individual_address_serial_read serial) = length serial ≡ 6
IsEncodable (individual_address_serial_response serial address) =
    (length serial ≡ 6) × (address.raw < 65536)
IsEncodable (individual_address_serial_write serial address) =
    (length serial ≡ 6) × (address.raw < 65536)
IsEncodable (domain_address_serial_number_read serial) = length serial ≡ 6
IsEncodable domain_address_read = Unit
IsEncodable (file_stream_info_report file_handle file_block_seq_number _) =
    (file_handle < 16) × (file_block_seq_number < 16)
IsEncodable (link_read group_object_number start_index) =
    (group_object_number < 256) × (start_index < 16)
IsEncodable group_value_read = Unit
IsEncodable (group_value_write v) = FitsGroup v
IsEncodable (group_value_response v) = FitsGroup v
IsEncodable (user_memory_bit_write a ands xors) =
    (a < 65536) × (length xors ≡ length ands) × (1 ≤ length ands) × (length ands < 256)
IsEncodable (memory_bit_write a ands xors) =
    (a < 65536) × (length xors ≡ length ands) × (1 ≤ length ands) × (length ands < 256)
IsEncodable (domain_address_write d) = (length d ≡ 2) ⊎ (length d ≡ 6)
IsEncodable (domain_address_response d) = (length d ≡ 2) ⊎ (length d ≡ 6)
IsEncodable (domain_address_selective_read asdu) = 1 ≤ length asdu
IsEncodable (link_write g a _ _) = (g < 256) × (InRange a)
IsEncodable (link_response g s i l) =
    (g < 256) × (s < 16) × (i < 16) × (length l ≤ 6) × (All InRange l)
IsEncodable (domain_address_serial_number_response serial d) =
    (length serial ≡ 6) × ((length d ≡ 2) ⊎ (length d ≡ 6))
IsEncodable (domain_address_serial_number_write serial d v key) =
    (length serial ≡ 6) × (FitsBackbone d v key)
IsEncodable (secure_apdu _ d) = FitsSecure d
IsEncodable router_status_read = ⊥
IsEncodable router_status_response = ⊥
IsEncodable router_status_write = ⊥
