-- ===== src/Telegram/Apci/Methods.antt =====
-- xknx/telegram/apci.py: `to_knx` and `calculated_length` of every service.
use xknx.Prelude.{
  ℕ, ◌+◌, ◌*◌, Bytes, length, Result, ok, err, not_implemented_error, Option, none, some,
}
use xknx.Secure.Asdu.{secure_data_length}
use xknx.Telegram.Apci.Basic.{
  individual_address_write_to_knx, individual_address_read_to_knx,
  individual_address_response_to_knx, adc_read_to_knx, adc_response_to_knx,
  device_descriptor_read_to_knx, device_descriptor_response_to_knx, restart_to_knx,
  restart_master_reset_to_knx, restart_master_reset_response_to_knx,
}
use xknx.Telegram.Apci.Memory.{
  memory_read_to_knx, memory_write_to_knx, memory_response_to_knx, memory_extended_write_to_knx,
  memory_extended_write_response_to_knx, memory_extended_read_to_knx,
  memory_extended_read_response_to_knx,
}
use xknx.Telegram.Apci.UserMemory.{
  user_memory_read_to_knx, user_memory_write_to_knx, user_memory_response_to_knx,
  user_manufacturer_info_read_to_knx, user_manufacturer_info_response_to_knx,
  function_property_command_to_knx, function_property_state_read_to_knx,
  function_property_state_response_to_knx,
}
use xknx.Telegram.Apci.Coupler.{
  filter_table_open_to_knx, filter_table_read_to_knx, filter_table_response_to_knx,
  filter_table_write_to_knx, router_memory_read_to_knx, router_memory_response_to_knx,
  router_memory_write_to_knx,
}
use xknx.Telegram.Apci.Key.{
  authorize_request_to_knx, authorize_response_to_knx, key_write_to_knx, key_response_to_knx,
}
use xknx.Telegram.Apci.PropertyExt.{
  function_property_ext_command_to_knx, function_property_ext_state_read_to_knx,
  function_property_ext_state_response_to_knx, property_ext_value_read_to_knx,
  property_ext_value_response_to_knx, property_ext_value_write_con_to_knx,
  property_ext_value_write_un_con_to_knx, property_ext_value_info_report_to_knx,
  property_ext_value_write_con_res_to_knx,
}
use xknx.Telegram.Apci.PropertyDescription.{
  property_ext_description_read_to_knx, property_ext_description_response_to_knx,
  property_description_read_to_knx, property_description_response_to_knx,
}
use xknx.Telegram.Apci.PropertyValue.{
  property_value_read_to_knx, property_value_write_to_knx, property_value_response_to_knx,
}
use xknx.Telegram.Apci.Network.{
  network_parameter_read_to_knx, network_parameter_response_to_knx, network_parameter_write_to_knx,
  system_network_parameter_read_to_knx, system_network_parameter_response_to_knx,
  system_network_parameter_write_to_knx,
}
use xknx.Telegram.Apci.GroupProperty.{
  group_prop_value_read_to_knx, group_prop_value_response_to_knx, group_prop_value_write_to_knx,
  group_prop_value_info_report_to_knx,
}
use xknx.Telegram.Apci.Serial.{
  individual_address_serial_read_to_knx, individual_address_serial_response_to_knx,
  individual_address_serial_write_to_knx, domain_address_serial_number_read_to_knx,
  domain_address_read_to_knx, file_stream_info_report_to_knx, link_read_to_knx,
}
use xknx.Telegram.Apci.Special.{
  domain_address_response_to_knx, domain_address_selective_read_to_knx,
  domain_address_serial_number_response_to_knx, domain_address_serial_number_write_to_knx,
  domain_address_write_to_knx, group_value_read_to_knx, group_value_response_to_knx,
  group_value_write_to_knx, link_response_to_knx, link_write_to_knx, memory_bit_write_to_knx,
  router_status_to_knx, secure_apdu_to_knx, user_memory_bit_write_to_knx,
}
use xknx.Telegram.Apci.Services.{
  Apci, GroupValue, dpt_binary, dpt_array, individual_address_write, individual_address_read,
  individual_address_response, adc_read, adc_response, device_descriptor_read,
  device_descriptor_response, restart, restart_master_reset, restart_master_reset_response,
  memory_read, memory_write, memory_response, memory_extended_write, memory_extended_write_response,
  memory_extended_read, memory_extended_read_response, user_memory_read, user_memory_write,
  user_memory_response, user_manufacturer_info_read, user_manufacturer_info_response,
  function_property_command, function_property_state_read, function_property_state_response,
  filter_table_open, filter_table_read, filter_table_response, filter_table_write,
  router_memory_read, router_memory_response, router_memory_write, authorize_request,
  authorize_response, key_write, key_response, function_property_ext_command,
  function_property_ext_state_read, function_property_ext_state_response, property_ext_value_read,
  property_ext_value_response, property_ext_value_write_con, property_ext_value_write_un_con,
  property_ext_value_info_report, property_ext_value_write_con_res, property_ext_description_read,
  property_ext_description_response, property_description_read, property_description_response,
  property_value_read, property_value_write, property_value_response, network_parameter_read,
  network_parameter_response, network_parameter_write, system_network_parameter_read,
  system_network_parameter_response, system_network_parameter_write, group_prop_value_read,
  group_prop_value_response, group_prop_value_write, group_prop_value_info_report,
  individual_address_serial_read, individual_address_serial_response,
  individual_address_serial_write, domain_address_serial_number_read, domain_address_read,
  file_stream_info_report, link_read, group_value_read, group_value_write, group_value_response,
  user_memory_bit_write, memory_bit_write, router_status_read, router_status_response,
  router_status_write, domain_address_write, domain_address_response, domain_address_selective_read,
  link_response, link_write, domain_address_serial_number_response,
  domain_address_serial_number_write, secure_apdu,
}

unfoldable pub to_knx : Apci → Result Bytes
to_knx (individual_address_write address) = individual_address_write_to_knx address
to_knx individual_address_read = individual_address_read_to_knx
to_knx individual_address_response = individual_address_response_to_knx
to_knx (adc_read channel count) = adc_read_to_knx channel count
to_knx (adc_response channel count value) = adc_response_to_knx channel count value
to_knx (device_descriptor_read descriptor) = device_descriptor_read_to_knx descriptor
to_knx (device_descriptor_response descriptor value) =
    device_descriptor_response_to_knx descriptor value
to_knx restart = restart_to_knx
to_knx (restart_master_reset erase_code channel_number) =
    restart_master_reset_to_knx erase_code channel_number
to_knx (restart_master_reset_response error_code process_time) =
    restart_master_reset_response_to_knx error_code process_time
to_knx (memory_read address count) = memory_read_to_knx address count
to_knx (memory_write address payload count) = memory_write_to_knx address payload count
to_knx (memory_response address payload count) = memory_response_to_knx address payload count
to_knx (memory_extended_write address payload count) =
    memory_extended_write_to_knx address payload count
to_knx (memory_extended_write_response return_code address confirmation_data) =
    memory_extended_write_response_to_knx return_code address confirmation_data
to_knx (memory_extended_read count address) = memory_extended_read_to_knx count address
to_knx (memory_extended_read_response return_code address payload) =
    memory_extended_read_response_to_knx return_code address payload
to_knx (user_memory_read address count) = user_memory_read_to_knx address count
to_knx (user_memory_write address payload count) = user_memory_write_to_knx address payload count
to_knx (user_memory_response address payload count) =
    user_memory_response_to_knx address payload count
to_knx user_manufacturer_info_read = user_manufacturer_info_read_to_knx
to_knx (user_manufacturer_info_response manufacturer_id payload) =
    user_manufacturer_info_response_to_knx manufacturer_id payload
to_knx (function_property_command object_index property_id payload) =
    function_property_command_to_knx object_index property_id payload
to_knx (function_property_state_read object_index property_id payload) =
    function_property_state_read_to_knx object_index property_id payload
to_knx (function_property_state_response object_index property_id return_code payload) =
    function_property_state_response_to_knx object_index property_id return_code payload
to_knx filter_table_open = filter_table_open_to_knx
to_knx (filter_table_read filter_table_address number) =
    filter_table_read_to_knx filter_table_address number
to_knx (filter_table_response filter_table_address payload number) =
    filter_table_response_to_knx filter_table_address payload number
to_knx (filter_table_write filter_table_address payload number) =
    filter_table_write_to_knx filter_table_address payload number
to_knx (router_memory_read memory_address number) = router_memory_read_to_knx memory_address number
to_knx (router_memory_response memory_address payload number) =
    router_memory_response_to_knx memory_address payload number
to_knx (router_memory_write memory_address payload number) =
    router_memory_write_to_knx memory_address payload number
to_knx (authorize_request key) = authorize_request_to_knx key
to_knx (authorize_response level) = authorize_response_to_knx level
to_knx (key_write level key) = key_write_to_knx level key
to_knx (key_response level) = key_response_to_knx level
to_knx (function_property_ext_command object_type object_instance property_id payload) =
    function_property_ext_command_to_knx object_type object_instance property_id payload
to_knx (function_property_ext_state_read object_type object_instance property_id payload) =
    function_property_ext_state_read_to_knx object_type object_instance property_id payload
to_knx
      (function_property_ext_state_response object_type object_instance property_id return_code
        payload) =
    function_property_ext_state_response_to_knx object_type object_instance property_id return_code
      payload
to_knx (property_ext_value_read object_type object_instance property_id nr_of_elem start_index) =
    property_ext_value_read_to_knx object_type object_instance property_id nr_of_elem start_index
to_knx
      (property_ext_value_response object_type object_instance property_id nr_of_elem start_index
        payload) =
    property_ext_value_response_to_knx object_type object_instance property_id nr_of_elem
      start_index payload
to_knx
      (property_ext_value_write_con object_type object_instance property_id nr_of_elem start_index
        payload) =
    property_ext_value_write_con_to_knx object_type object_instance property_id nr_of_elem
      start_index payload
to_knx
      (property_ext_value_write_un_con object_type object_instance property_id nr_of_elem
        start_index payload) =
    property_ext_value_write_un_con_to_knx object_type object_instance property_id nr_of_elem
      start_index payload
to_knx
      (property_ext_value_info_report object_type object_instance property_id nr_of_elem start_index
        payload) =
    property_ext_value_info_report_to_knx object_type object_instance property_id nr_of_elem
      start_index payload
to_knx
      (property_ext_value_write_con_res object_type object_instance property_id return_code
        nr_of_elem start_index) =
    property_ext_value_write_con_res_to_knx object_type object_instance property_id return_code
      nr_of_elem start_index
to_knx
      (property_ext_description_read object_type object_instance property_id description_type
        property_index) =
    property_ext_description_read_to_knx object_type object_instance property_id description_type
      property_index
to_knx
      (property_ext_description_response object_type object_instance property_id description_type
        property_index dpt_main dpt_sub writable pdt max_nr_of_elem read_level write_level) =
    property_ext_description_response_to_knx object_type object_instance property_id
      description_type property_index dpt_main dpt_sub writable pdt max_nr_of_elem read_level
      write_level
to_knx (property_description_read object_index property_id property_index) =
    property_description_read_to_knx object_index property_id property_index
to_knx
      (property_description_response object_index property_id property_index type_ max_count
        access) =
    property_description_response_to_knx object_index property_id property_index type_ max_count
      access
to_knx (property_value_read object_index property_id count start_index) =
    property_value_read_to_knx object_index property_id count start_index
to_knx (property_value_write object_index property_id count start_index payload) =
    property_value_write_to_knx object_index property_id count start_index payload
to_knx (property_value_response object_index property_id count start_index payload) =
    property_value_response_to_knx object_index property_id count start_index payload
to_knx (network_parameter_read object_type property_id payload) =
    network_parameter_read_to_knx object_type property_id payload
to_knx (network_parameter_response object_type property_id payload) =
    network_parameter_response_to_knx object_type property_id payload
to_knx (network_parameter_write object_type property_id payload) =
    network_parameter_write_to_knx object_type property_id payload
to_knx (system_network_parameter_read object_type property_id payload) =
    system_network_parameter_read_to_knx object_type property_id payload
to_knx (system_network_parameter_response object_type property_id payload) =
    system_network_parameter_response_to_knx object_type property_id payload
to_knx (system_network_parameter_write object_type property_id payload) =
    system_network_parameter_write_to_knx object_type property_id payload
to_knx (group_prop_value_read object_type object_instance property_id) =
    group_prop_value_read_to_knx object_type object_instance property_id
to_knx (group_prop_value_response object_type object_instance property_id payload) =
    group_prop_value_response_to_knx object_type object_instance property_id payload
to_knx (group_prop_value_write object_type object_instance property_id payload) =
    group_prop_value_write_to_knx object_type object_instance property_id payload
to_knx (group_prop_value_info_report object_type object_instance property_id payload) =
    group_prop_value_info_report_to_knx object_type object_instance property_id payload
to_knx (individual_address_serial_read serial) = individual_address_serial_read_to_knx serial
to_knx (individual_address_serial_response serial address) =
    individual_address_serial_response_to_knx serial address
to_knx (individual_address_serial_write serial address) =
    individual_address_serial_write_to_knx serial address
to_knx (domain_address_serial_number_read serial) = domain_address_serial_number_read_to_knx serial
to_knx domain_address_read = domain_address_read_to_knx
to_knx (file_stream_info_report file_handle file_block_seq_number file_block) =
    file_stream_info_report_to_knx file_handle file_block_seq_number file_block
to_knx (link_read group_object_number start_index) =
    link_read_to_knx group_object_number start_index
to_knx group_value_read = group_value_read_to_knx
to_knx (group_value_write v) = group_value_write_to_knx v
to_knx (group_value_response v) = group_value_response_to_knx v
to_knx (user_memory_bit_write address and_data xor_data) =
    user_memory_bit_write_to_knx address and_data xor_data
to_knx (memory_bit_write address and_data xor_data) =
    memory_bit_write_to_knx address and_data xor_data
to_knx router_status_read = router_status_to_knx
to_knx router_status_response = router_status_to_knx
to_knx router_status_write = router_status_to_knx
to_knx (domain_address_write domain_address) = domain_address_write_to_knx domain_address
to_knx (domain_address_response domain_address) = domain_address_response_to_knx domain_address
to_knx (domain_address_selective_read asdu) = domain_address_selective_read_to_knx asdu
to_knx (link_response g s i l) = link_response_to_knx g s i l
to_knx (link_write g a d s) = link_write_to_knx g a d s
to_knx (domain_address_serial_number_response s d) =
    domain_address_serial_number_response_to_knx s d
to_knx (domain_address_serial_number_write s d v k) =
    domain_address_serial_number_write_to_knx s d v k
to_knx (secure_apdu f d) = secure_apdu_to_knx f d

abbrev value_length : GroupValue → ℕ
value_length (dpt_binary v) = 1
value_length (dpt_array vs) = 1 + length vs

abbrev secure_length : Option ℕ → ℕ
secure_length none = 0
secure_length (some v) = 17

unfoldable pub calculated_length : Apci → Result ℕ
calculated_length (individual_address_write address) = ok 3
calculated_length individual_address_read = ok 1
calculated_length individual_address_response = ok 1
calculated_length (adc_read channel count) = ok 2
calculated_length (adc_response channel count value) = ok 4
calculated_length (device_descriptor_read descriptor) = ok 1
calculated_length (device_descriptor_response descriptor value) = ok 3
calculated_length restart = ok 1
calculated_length (restart_master_reset erase_code channel_number) = ok 3
calculated_length (restart_master_reset_response error_code process_time) = ok 4
calculated_length (memory_read address count) = ok 3
calculated_length (memory_write address payload count) = ok (3 + length payload)
calculated_length (memory_response address payload count) = ok (3 + length payload)
calculated_length (memory_extended_write address payload count) = ok (5 + length payload)
calculated_length (memory_extended_write_response return_code address confirmation_data) =
    ok (5 + length confirmation_data)
calculated_length (memory_extended_read count address) = ok 5
calculated_length (memory_extended_read_response return_code address payload) =
    ok (5 + length payload)
calculated_length (user_memory_read address count) = ok 4
calculated_length (user_memory_write address payload count) = ok (4 + length payload)
calculated_length (user_memory_response address payload count) = ok (4 + length payload)
calculated_length user_manufacturer_info_read = ok 1
calculated_length (user_manufacturer_info_response manufacturer_id payload) = ok 4
calculated_length (function_property_command object_index property_id payload) =
    ok (3 + length payload)
calculated_length (function_property_state_read object_index property_id payload) =
    ok (3 + length payload)
calculated_length (function_property_state_response object_index property_id return_code payload) =
    ok (4 + length payload)
calculated_length filter_table_open = ok 1
calculated_length (filter_table_read filter_table_address number) = ok 4
calculated_length (filter_table_response filter_table_address payload number) =
    ok (4 + length payload)
calculated_length (filter_table_write filter_table_address payload number) = ok (4 + length payload)
calculated_length (router_memory_read memory_address number) = ok 4
calculated_length (router_memory_response memory_address payload number) = ok (4 + length payload)
calculated_length (router_memory_write memory_address payload number) = ok (4 + length payload)
calculated_length (authorize_request key) = ok 6
calculated_length (authorize_response level) = ok 2
calculated_length (key_write level key) = ok 6
calculated_length (key_response level) = ok 2
calculated_length (function_property_ext_command object_type object_instance property_id payload) =
    ok (6 + length payload)
calculated_length
      (function_property_ext_state_read object_type object_instance property_id payload) =
    ok (6 + length payload)
calculated_length
      (function_property_ext_state_response object_type object_instance property_id return_code
        payload) =
    ok (7 + length payload)
calculated_length
      (property_ext_value_read object_type object_instance property_id nr_of_elem start_index) =
    ok 9
calculated_length
      (property_ext_value_response object_type object_instance property_id nr_of_elem start_index
        payload) =
    ok (9 + length payload)
calculated_length
      (property_ext_value_write_con object_type object_instance property_id nr_of_elem start_index
        payload) =
    ok (9 + length payload)
calculated_length
      (property_ext_value_write_un_con object_type object_instance property_id nr_of_elem
        start_index payload) =
    ok (9 + length payload)
calculated_length
      (property_ext_value_info_report object_type object_instance property_id nr_of_elem start_index
        payload) =
    ok (9 + length payload)
calculated_length
      (property_ext_value_write_con_res object_type object_instance property_id return_code
        nr_of_elem start_index) =
    ok 10
calculated_length
      (property_ext_description_read object_type object_instance property_id description_type
        property_index) =
    ok 8
calculated_length
      (property_ext_description_response object_type object_instance property_id description_type
        property_index dpt_main dpt_sub writable pdt max_nr_of_elem read_level write_level) =
    ok 16
calculated_length (property_description_read object_index property_id property_index) = ok 4
calculated_length
      (property_description_response object_index property_id property_index type_ max_count
        access) =
    ok 8
calculated_length (property_value_read object_index property_id count start_index) = ok 5
calculated_length (property_value_write object_index property_id count start_index payload) =
    ok (5 + length payload)
calculated_length (property_value_response object_index property_id count start_index payload) =
    ok (5 + length payload)
calculated_length (network_parameter_read object_type property_id payload) = ok (4 + length payload)
calculated_length (network_parameter_response object_type property_id payload) =
    ok (4 + length payload)
calculated_length (network_parameter_write object_type property_id payload) =
    ok (4 + length payload)
calculated_length (system_network_parameter_read object_type property_id payload) =
    ok (5 + length payload)
calculated_length (system_network_parameter_response object_type property_id payload) =
    ok (5 + length payload)
calculated_length (system_network_parameter_write object_type property_id payload) =
    ok (5 + length payload)
calculated_length (group_prop_value_read object_type object_instance property_id) = ok 5
calculated_length (group_prop_value_response object_type object_instance property_id payload) =
    ok (5 + length payload)
calculated_length (group_prop_value_write object_type object_instance property_id payload) =
    ok (5 + length payload)
calculated_length (group_prop_value_info_report object_type object_instance property_id payload) =
    ok (5 + length payload)
calculated_length (individual_address_serial_read serial) = ok 7
calculated_length (individual_address_serial_response serial address) = ok 11
calculated_length (individual_address_serial_write serial address) = ok 13
calculated_length (domain_address_serial_number_read serial) = ok 7
calculated_length domain_address_read = ok 1
calculated_length (file_stream_info_report file_handle file_block_seq_number file_block) =
    ok (2 + length file_block)
calculated_length (link_read group_object_number start_index) = ok 3
calculated_length group_value_read = ok 1
calculated_length (group_value_write v) = ok (value_length v)
calculated_length (group_value_response v) = ok (value_length v)
calculated_length (user_memory_bit_write address and_data xor_data) =
    ok (4 + length and_data + length xor_data)
calculated_length (memory_bit_write address and_data xor_data) =
    ok (4 + length and_data + length xor_data)
calculated_length router_status_read = err not_implemented_error
calculated_length router_status_response = err not_implemented_error
calculated_length router_status_write = err not_implemented_error
calculated_length (domain_address_write domain_address) = ok (1 + length domain_address)
calculated_length (domain_address_response domain_address) = ok (1 + length domain_address)
calculated_length (domain_address_selective_read asdu) = ok (1 + length asdu)
calculated_length (link_response g s i l) = ok (3 + 2 * length l)
calculated_length (link_write g a d s) = ok 5
calculated_length (domain_address_serial_number_response s d) = ok (7 + length d)
calculated_length (domain_address_serial_number_write s d v k) = ok (7 + length d + secure_length v)
calculated_length (secure_apdu f d) = ok (2 + secure_data_length d)
