-- ===== src/Telegram/Apci/Space/Whole.antt =====
-- Every service leaves the space.
use xknx.Telegram.Apci.Methods.{to_knx}
use xknx.Telegram.Apci.Space.Octet.{LeavesSpace}
use xknx.Telegram.Apci.Space.Basic.{
  individual_address_write-LeavesSpace, individual_address_read-LeavesSpace,
  individual_address_response-LeavesSpace, adc_read-LeavesSpace, adc_response-LeavesSpace,
  device_descriptor_read-LeavesSpace, device_descriptor_response-LeavesSpace, restart-LeavesSpace,
  restart_master_reset-LeavesSpace, restart_master_reset_response-LeavesSpace,
  memory_read-LeavesSpace, memory_write-LeavesSpace, memory_response-LeavesSpace,
  memory_extended_write-LeavesSpace, memory_extended_write_response-LeavesSpace,
  memory_extended_read-LeavesSpace, memory_extended_read_response-LeavesSpace,
  authorize_request-LeavesSpace, authorize_response-LeavesSpace, key_write-LeavesSpace,
  key_response-LeavesSpace,
}
use xknx.Telegram.Apci.Space.User.{
  user_memory_read-LeavesSpace, user_memory_write-LeavesSpace, user_memory_response-LeavesSpace,
  user_manufacturer_info_read-LeavesSpace, user_manufacturer_info_response-LeavesSpace,
  function_property_command-LeavesSpace, function_property_state_read-LeavesSpace,
  function_property_state_response-LeavesSpace, filter_table_open-LeavesSpace,
  filter_table_read-LeavesSpace, filter_table_response-LeavesSpace, filter_table_write-LeavesSpace,
  router_memory_read-LeavesSpace, router_memory_response-LeavesSpace,
  router_memory_write-LeavesSpace, individual_address_serial_read-LeavesSpace,
  individual_address_serial_response-LeavesSpace, individual_address_serial_write-LeavesSpace,
  domain_address_serial_number_read-LeavesSpace, domain_address_read-LeavesSpace,
  file_stream_info_report-LeavesSpace, link_read-LeavesSpace,
}
use xknx.Telegram.Apci.Space.Property.{
  function_property_ext_command-LeavesSpace, function_property_ext_state_read-LeavesSpace,
  function_property_ext_state_response-LeavesSpace, property_ext_value_read-LeavesSpace,
  property_ext_value_response-LeavesSpace, property_ext_value_write_con-LeavesSpace,
  property_ext_value_write_un_con-LeavesSpace, property_ext_value_info_report-LeavesSpace,
  property_ext_value_write_con_res-LeavesSpace, property_ext_description_read-LeavesSpace,
  property_ext_description_response-LeavesSpace, property_description_read-LeavesSpace,
  property_description_response-LeavesSpace, property_value_read-LeavesSpace,
  property_value_write-LeavesSpace, property_value_response-LeavesSpace,
}
use xknx.Telegram.Apci.Space.Group.{
  network_parameter_read-LeavesSpace, network_parameter_response-LeavesSpace,
  network_parameter_write-LeavesSpace, system_network_parameter_read-LeavesSpace,
  system_network_parameter_response-LeavesSpace, system_network_parameter_write-LeavesSpace,
  group_prop_value_read-LeavesSpace, group_prop_value_response-LeavesSpace,
  group_prop_value_write-LeavesSpace, group_prop_value_info_report-LeavesSpace,
  group_value_read-LeavesSpace, group_value_write-LeavesSpace, group_value_response-LeavesSpace,
  user_memory_bit_write-LeavesSpace, memory_bit_write-LeavesSpace, router_status-LeavesSpace,
  domain_address_write-LeavesSpace, domain_address_response-LeavesSpace,
  domain_address_selective_read-LeavesSpace, link_response-LeavesSpace, link_write-LeavesSpace,
  domain_address_serial_number_response-LeavesSpace, domain_address_serial_number_write-LeavesSpace,
  secure_apdu-LeavesSpace,
}
use xknx.Telegram.Apci.Services.{
  Apci, individual_address_write, individual_address_read, individual_address_response, adc_read,
  adc_response, device_descriptor_read, device_descriptor_response, restart, restart_master_reset,
  restart_master_reset_response, memory_read, memory_write, memory_response, memory_extended_write,
  memory_extended_write_response, memory_extended_read, memory_extended_read_response,
  user_memory_read, user_memory_write, user_memory_response, user_manufacturer_info_read,
  user_manufacturer_info_response, function_property_command, function_property_state_read,
  function_property_state_response, filter_table_open, filter_table_read, filter_table_response,
  filter_table_write, router_memory_read, router_memory_response, router_memory_write,
  authorize_request, authorize_response, key_write, key_response, function_property_ext_command,
  function_property_ext_state_read, function_property_ext_state_response, property_ext_value_read,
  property_ext_value_response, property_ext_value_write_con, property_ext_value_write_un_con,
  property_ext_value_info_report, property_ext_value_write_con_res, property_ext_description_read,
  property_ext_description_response, property_description_read, property_description_response,
  property_value_read, property_value_write, property_value_response, network_parameter_read,
  network_parameter_response, network_parameter_write, system_network_parameter_read,
  system_network_parameter_response, system_network_parameter_write, group_prop_value_read,
  group_prop_value_response, group_prop_value_write, group_prop_value_info_report,
  individual_address_serial_read, individual_address_serial_response,
  individual_address_serial_write, domain_address_serial_number_read, domain_address_read,
  file_stream_info_report, link_read, group_value_read, group_value_write, group_value_response,
  user_memory_bit_write, memory_bit_write, router_status_read, router_status_response,
  router_status_write, domain_address_write, domain_address_response, domain_address_selective_read,
  link_response, link_write, domain_address_serial_number_response,
  domain_address_serial_number_write, secure_apdu,
}

-- Whatever a service is written as, its first octet has at most the two low bits set.
pub to_knx-LeavesSpace : (x : Apci) → LeavesSpace (to_knx x)
unfolding to_knx
to_knx-LeavesSpace (individual_address_write address) = individual_address_write-LeavesSpace address
to_knx-LeavesSpace individual_address_read = individual_address_read-LeavesSpace
to_knx-LeavesSpace individual_address_response = individual_address_response-LeavesSpace
to_knx-LeavesSpace (adc_read channel count) = adc_read-LeavesSpace channel count
to_knx-LeavesSpace (adc_response channel count value) = adc_response-LeavesSpace channel count value
to_knx-LeavesSpace (device_descriptor_read descriptor) =
    device_descriptor_read-LeavesSpace descriptor
to_knx-LeavesSpace (device_descriptor_response descriptor value) =
    device_descriptor_response-LeavesSpace descriptor value
to_knx-LeavesSpace restart = restart-LeavesSpace
to_knx-LeavesSpace (restart_master_reset erase_code channel_number) =
    restart_master_reset-LeavesSpace erase_code channel_number
to_knx-LeavesSpace (restart_master_reset_response error_code process_time) =
    restart_master_reset_response-LeavesSpace error_code process_time
to_knx-LeavesSpace (memory_read address count) = memory_read-LeavesSpace address count
to_knx-LeavesSpace (memory_write address payload count) =
    memory_write-LeavesSpace address payload count
to_knx-LeavesSpace (memory_response address payload count) =
    memory_response-LeavesSpace address payload count
to_knx-LeavesSpace (memory_extended_write address payload count) =
    memory_extended_write-LeavesSpace address payload count
to_knx-LeavesSpace (memory_extended_write_response return_code address confirmation_data) =
    memory_extended_write_response-LeavesSpace return_code address confirmation_data
to_knx-LeavesSpace (memory_extended_read count address) =
    memory_extended_read-LeavesSpace count address
to_knx-LeavesSpace (memory_extended_read_response return_code address payload) =
    memory_extended_read_response-LeavesSpace return_code address payload
to_knx-LeavesSpace (user_memory_read address count) = user_memory_read-LeavesSpace address count
to_knx-LeavesSpace (user_memory_write address payload count) =
    user_memory_write-LeavesSpace address payload count
to_knx-LeavesSpace (user_memory_response address payload count) =
    user_memory_response-LeavesSpace address payload count
to_knx-LeavesSpace user_manufacturer_info_read = user_manufacturer_info_read-LeavesSpace
to_knx-LeavesSpace (user_manufacturer_info_response manufacturer_id payload) =
    user_manufacturer_info_response-LeavesSpace manufacturer_id payload
to_knx-LeavesSpace (function_property_command object_index property_id payload) =
    function_property_command-LeavesSpace object_index property_id payload
to_knx-LeavesSpace (function_property_state_read object_index property_id payload) =
    function_property_state_read-LeavesSpace object_index property_id payload
to_knx-LeavesSpace (function_property_state_response object_index property_id return_code payload) =
    function_property_state_response-LeavesSpace object_index property_id return_code payload
to_knx-LeavesSpace filter_table_open = filter_table_open-LeavesSpace
to_knx-LeavesSpace (filter_table_read filter_table_address number) =
    filter_table_read-LeavesSpace filter_table_address number
to_knx-LeavesSpace (filter_table_response filter_table_address payload number) =
    filter_table_response-LeavesSpace filter_table_address payload number
to_knx-LeavesSpace (filter_table_write filter_table_address payload number) =
    filter_table_write-LeavesSpace filter_table_address payload number
to_knx-LeavesSpace (router_memory_read memory_address number) =
    router_memory_read-LeavesSpace memory_address number
to_knx-LeavesSpace (router_memory_response memory_address payload number) =
    router_memory_response-LeavesSpace memory_address payload number
to_knx-LeavesSpace (router_memory_write memory_address payload number) =
    router_memory_write-LeavesSpace memory_address payload number
to_knx-LeavesSpace (authorize_request key) = authorize_request-LeavesSpace key
to_knx-LeavesSpace (authorize_response level) = authorize_response-LeavesSpace level
to_knx-LeavesSpace (key_write level key) = key_write-LeavesSpace level key
to_knx-LeavesSpace (key_response level) = key_response-LeavesSpace level
to_knx-LeavesSpace (function_property_ext_command object_type object_instance property_id payload) =
    function_property_ext_command-LeavesSpace object_type object_instance property_id payload
to_knx-LeavesSpace
      (function_property_ext_state_read object_type object_instance property_id payload) =
    function_property_ext_state_read-LeavesSpace object_type object_instance property_id payload
to_knx-LeavesSpace
      (function_property_ext_state_response object_type object_instance property_id return_code
        payload) =
    function_property_ext_state_response-LeavesSpace object_type object_instance property_id
      return_code payload
to_knx-LeavesSpace
      (property_ext_value_read object_type object_instance property_id nr_of_elem start_index) =
    property_ext_value_read-LeavesSpace object_type object_instance property_id nr_of_elem
      start_index
to_knx-LeavesSpace
      (property_ext_value_response object_type object_instance property_id nr_of_elem start_index
        payload) =
    property_ext_value_response-LeavesSpace object_type object_instance property_id nr_of_elem
      start_index payload
to_knx-LeavesSpace
      (property_ext_value_write_con object_type object_instance property_id nr_of_elem start_index
        payload) =
    property_ext_value_write_con-LeavesSpace object_type object_instance property_id nr_of_elem
      start_index payload
to_knx-LeavesSpace
      (property_ext_value_write_un_con object_type object_instance property_id nr_of_elem
        start_index payload) =
    property_ext_value_write_un_con-LeavesSpace object_type object_instance property_id nr_of_elem
      start_index payload
to_knx-LeavesSpace
      (property_ext_value_info_report object_type object_instance property_id nr_of_elem start_index
        payload) =
    property_ext_value_info_report-LeavesSpace object_type object_instance property_id nr_of_elem
      start_index payload
to_knx-LeavesSpace
      (property_ext_value_write_con_res object_type object_instance property_id return_code
        nr_of_elem start_index) =
    property_ext_value_write_con_res-LeavesSpace object_type object_instance property_id return_code
      nr_of_elem start_index
to_knx-LeavesSpace
      (property_ext_description_read object_type object_instance property_id description_type
        property_index) =
    property_ext_description_read-LeavesSpace object_type object_instance property_id
      description_type property_index
to_knx-LeavesSpace
      (property_ext_description_response object_type object_instance property_id description_type
        property_index dpt_main dpt_sub writable pdt max_nr_of_elem read_level write_level) =
    property_ext_description_response-LeavesSpace object_type object_instance property_id
      description_type property_index dpt_main dpt_sub writable pdt max_nr_of_elem read_level
      write_level
to_knx-LeavesSpace (property_description_read object_index property_id property_index) =
    property_description_read-LeavesSpace object_index property_id property_index
to_knx-LeavesSpace
      (property_description_response object_index property_id property_index type_ max_count
        access) =
    property_description_response-LeavesSpace object_index property_id property_index type_
      max_count access
to_knx-LeavesSpace (property_value_read object_index property_id count start_index) =
    property_value_read-LeavesSpace object_index property_id count start_index
to_knx-LeavesSpace (property_value_write object_index property_id count start_index payload) =
    property_value_write-LeavesSpace object_index property_id count start_index payload
to_knx-LeavesSpace (property_value_response object_index property_id count start_index payload) =
    property_value_response-LeavesSpace object_index property_id count start_index payload
to_knx-LeavesSpace (network_parameter_read object_type property_id payload) =
    network_parameter_read-LeavesSpace object_type property_id payload
to_knx-LeavesSpace (network_parameter_response object_type property_id payload) =
    network_parameter_response-LeavesSpace object_type property_id payload
to_knx-LeavesSpace (network_parameter_write object_type property_id payload) =
    network_parameter_write-LeavesSpace object_type property_id payload
to_knx-LeavesSpace (system_network_parameter_read object_type property_id payload) =
    system_network_parameter_read-LeavesSpace object_type property_id payload
to_knx-LeavesSpace (system_network_parameter_response object_type property_id payload) =
    system_network_parameter_response-LeavesSpace object_type property_id payload
to_knx-LeavesSpace (system_network_parameter_write object_type property_id payload) =
    system_network_parameter_write-LeavesSpace object_type property_id payload
to_knx-LeavesSpace (group_prop_value_read object_type object_instance property_id) =
    group_prop_value_read-LeavesSpace object_type object_instance property_id
to_knx-LeavesSpace (group_prop_value_response object_type object_instance property_id payload) =
    group_prop_value_response-LeavesSpace object_type object_instance property_id payload
to_knx-LeavesSpace (group_prop_value_write object_type object_instance property_id payload) =
    group_prop_value_write-LeavesSpace object_type object_instance property_id payload
to_knx-LeavesSpace (group_prop_value_info_report object_type object_instance property_id payload) =
    group_prop_value_info_report-LeavesSpace object_type object_instance property_id payload
to_knx-LeavesSpace (individual_address_serial_read serial) =
    individual_address_serial_read-LeavesSpace serial
to_knx-LeavesSpace (individual_address_serial_response serial address) =
    individual_address_serial_response-LeavesSpace serial address
to_knx-LeavesSpace (individual_address_serial_write serial address) =
    individual_address_serial_write-LeavesSpace serial address
to_knx-LeavesSpace (domain_address_serial_number_read serial) =
    domain_address_serial_number_read-LeavesSpace serial
to_knx-LeavesSpace domain_address_read = domain_address_read-LeavesSpace
to_knx-LeavesSpace (file_stream_info_report file_handle file_block_seq_number file_block) =
    file_stream_info_report-LeavesSpace file_handle file_block_seq_number file_block
to_knx-LeavesSpace (link_read group_object_number start_index) =
    link_read-LeavesSpace group_object_number start_index
to_knx-LeavesSpace group_value_read = group_value_read-LeavesSpace
to_knx-LeavesSpace (group_value_write v) = group_value_write-LeavesSpace v
to_knx-LeavesSpace (group_value_response v) = group_value_response-LeavesSpace v
to_knx-LeavesSpace (user_memory_bit_write address and_data xor_data) =
    user_memory_bit_write-LeavesSpace address and_data xor_data
to_knx-LeavesSpace (memory_bit_write address and_data xor_data) =
    memory_bit_write-LeavesSpace address and_data xor_data
to_knx-LeavesSpace router_status_read = router_status-LeavesSpace
to_knx-LeavesSpace router_status_response = router_status-LeavesSpace
to_knx-LeavesSpace router_status_write = router_status-LeavesSpace
to_knx-LeavesSpace (domain_address_write domain_address) =
    domain_address_write-LeavesSpace domain_address
to_knx-LeavesSpace (domain_address_response domain_address) =
    domain_address_response-LeavesSpace domain_address
to_knx-LeavesSpace (domain_address_selective_read asdu) =
    domain_address_selective_read-LeavesSpace asdu
to_knx-LeavesSpace (link_response g s i l) = link_response-LeavesSpace g s i l
to_knx-LeavesSpace (link_write g a d s) = link_write-LeavesSpace g a d s
to_knx-LeavesSpace (domain_address_serial_number_response s d) =
    domain_address_serial_number_response-LeavesSpace s d
to_knx-LeavesSpace (domain_address_serial_number_write s d v k) =
    domain_address_serial_number_write-LeavesSpace s d v k
to_knx-LeavesSpace (secure_apdu f d) = secure_apdu-LeavesSpace f d
