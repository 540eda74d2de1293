-- ===== src/Telegram/Apci/Services.antt =====
-- xknx/telegram/apci.py: the services. A class is a constructor with its fields; a field named
-- `data` is `payload`.
use xknx.Prelude.{ℕ, Bool, Bytes, List, Option}
use xknx.Telegram.Address.{IndividualAddress, GroupAddress}
use xknx.Telegram.Apci.Pack.{ReturnCode}
use xknx.Secure.Asdu.{SecurityControlField, SecureData}

-- DPTBinary and DPTArray of dpt/payload.py.
pub data GroupValue : Type 0 where
  dpt_binary : ℕ → GroupValue
  dpt_array : Bytes → GroupValue

pub data Apci : Type 0 where
  group_value_read : Apci
  group_value_write group_value_response : GroupValue → Apci
  individual_address_write : (address : IndividualAddress) → Apci
  individual_address_read : Apci
  individual_address_response : Apci
  adc_read : (channel : ℕ) (count : ℕ) → Apci
  adc_response : (channel : ℕ) (count : ℕ) (value : ℕ) → Apci
  device_descriptor_read : (descriptor : ℕ) → Apci
  device_descriptor_response : (descriptor : ℕ) (value : ℕ) → Apci
  restart : Apci
  restart_master_reset : (erase_code : ℕ) (channel_number : ℕ) → Apci
  restart_master_reset_response : (error_code : ℕ) (process_time : ℕ) → Apci
  memory_read : (address : ℕ) (count : ℕ) → Apci
  memory_write : (address : ℕ) (payload : Bytes) (count : ℕ) → Apci
  memory_response : (address : ℕ) (payload : Bytes) (count : ℕ) → Apci
  memory_extended_write : (address : ℕ) (payload : Bytes) (count : ℕ) → Apci
  memory_extended_write_response :
      (return_code : ℕ) (address : ℕ) (confirmation_data : Bytes) → Apci
  memory_extended_read : (count : ℕ) (address : ℕ) → Apci
  memory_extended_read_response : (return_code : ℕ) (address : ℕ) (payload : Bytes) → Apci
  user_memory_read : (address : ℕ) (count : ℕ) → Apci
  user_memory_write : (address : ℕ) (payload : Bytes) (count : ℕ) → Apci
  user_memory_response : (address : ℕ) (payload : Bytes) (count : ℕ) → Apci
  user_manufacturer_info_read : Apci
  user_manufacturer_info_response : (manufacturer_id : ℕ) (payload : Bytes) → Apci
  function_property_command : (object_index : ℕ) (property_id : ℕ) (payload : Bytes) → Apci
  function_property_state_read : (object_index : ℕ) (property_id : ℕ) (payload : Bytes) → Apci
  function_property_state_response :
      (object_index : ℕ) (property_id : ℕ) (return_code : ℕ) (payload : Bytes) → Apci
  filter_table_open : Apci
  filter_table_read : (filter_table_address : ℕ) (number : ℕ) → Apci
  filter_table_response : (filter_table_address : ℕ) (payload : Bytes) (number : ℕ) → Apci
  filter_table_write : (filter_table_address : ℕ) (payload : Bytes) (number : ℕ) → Apci
  router_memory_read : (memory_address : ℕ) (number : ℕ) → Apci
  router_memory_response : (memory_address : ℕ) (payload : Bytes) (number : ℕ) → Apci
  router_memory_write : (memory_address : ℕ) (payload : Bytes) (number : ℕ) → Apci
  authorize_request : (key : ℕ) → Apci
  authorize_response : (level : ℕ) → Apci
  key_write : (level : ℕ) (key : ℕ) → Apci
  key_response : (level : ℕ) → Apci
  function_property_ext_command :
      (object_type : ℕ) (object_instance : ℕ) (property_id : ℕ) (payload : Bytes) → Apci
  function_property_ext_state_read :
      (object_type : ℕ) (object_instance : ℕ) (property_id : ℕ) (payload : Bytes) → Apci
  function_property_ext_state_response :
      (object_type : ℕ) (object_instance : ℕ) (property_id : ℕ) (return_code : ReturnCode)
      (payload : Bytes)
      → Apci
  property_ext_value_read :
      (object_type : ℕ) (object_instance : ℕ) (property_id : ℕ) (nr_of_elem : ℕ) (start_index : ℕ)
      → Apci
  property_ext_value_response :
      (object_type : ℕ) (object_instance : ℕ) (property_id : ℕ) (nr_of_elem : ℕ) (start_index : ℕ)
      (payload : Bytes)
      → Apci
  property_ext_value_write_con :
      (object_type : ℕ) (object_instance : ℕ) (property_id : ℕ) (nr_of_elem : ℕ) (start_index : ℕ)
      (payload : Bytes)
      → Apci
  property_ext_value_write_un_con :
      (object_type : ℕ) (object_instance : ℕ) (property_id : ℕ) (nr_of_elem : ℕ) (start_index : ℕ)
      (payload : Bytes)
      → Apci
  property_ext_value_info_report :
      (object_type : ℕ) (object_instance : ℕ) (property_id : ℕ) (nr_of_elem : ℕ) (start_index : ℕ)
      (payload : Bytes)
      → Apci
  property_ext_value_write_con_res :
      (object_type : ℕ) (object_instance : ℕ) (property_id : ℕ) (return_code : ReturnCode)
      (nr_of_elem : ℕ) (start_index : ℕ)
      → Apci
  property_ext_description_read :
      (object_type : ℕ) (object_instance : ℕ) (property_id : ℕ) (description_type : ℕ)
      (property_index : ℕ)
      → Apci
  property_ext_description_response :
      (object_type : ℕ) (object_instance : ℕ) (property_id : ℕ) (description_type : ℕ)
      (property_index : ℕ) (dpt_main : ℕ) (dpt_sub : ℕ) (writable : Bool) (pdt : ℕ)
      (max_nr_of_elem : ℕ) (read_level : ℕ) (write_level : ℕ)
      → Apci
  property_description_read : (object_index : ℕ) (property_id : ℕ) (property_index : ℕ) → Apci
  property_description_response :
      (object_index : ℕ) (property_id : ℕ) (property_index : ℕ) (type_ : ℕ) (max_count : ℕ)
      (access : ℕ)
      → Apci
  property_value_read : (object_index : ℕ) (property_id : ℕ) (count : ℕ) (start_index : ℕ) → Apci
  property_value_write :
      (object_index : ℕ) (property_id : ℕ) (count : ℕ) (start_index : ℕ) (payload : Bytes) → Apci
  property_value_response :
      (object_index : ℕ) (property_id : ℕ) (count : ℕ) (start_index : ℕ) (payload : Bytes) → Apci
  network_parameter_read : (object_type : ℕ) (property_id : ℕ) (payload : Bytes) → Apci
  network_parameter_response : (object_type : ℕ) (property_id : ℕ) (payload : Bytes) → Apci
  network_parameter_write : (object_type : ℕ) (property_id : ℕ) (payload : Bytes) → Apci
  system_network_parameter_read : (object_type : ℕ) (property_id : ℕ) (payload : Bytes) → Apci
  system_network_parameter_response : (object_type : ℕ) (property_id : ℕ) (payload : Bytes) → Apci
  system_network_parameter_write : (object_type : ℕ) (property_id : ℕ) (payload : Bytes) → Apci
  group_prop_value_read : (object_type : ℕ) (object_instance : ℕ) (property_id : ℕ) → Apci
  group_prop_value_response :
      (object_type : ℕ) (object_instance : ℕ) (property_id : ℕ) (payload : Bytes) → Apci
  group_prop_value_write :
      (object_type : ℕ) (object_instance : ℕ) (property_id : ℕ) (payload : Bytes) → Apci
  group_prop_value_info_report :
      (object_type : ℕ) (object_instance : ℕ) (property_id : ℕ) (payload : Bytes) → Apci
  individual_address_serial_read : (serial : Bytes) → Apci
  individual_address_serial_response : (serial : Bytes) (address : IndividualAddress) → Apci
  individual_address_serial_write : (serial : Bytes) (address : IndividualAddress) → Apci
  domain_address_serial_number_read : (serial : Bytes) → Apci
  domain_address_read : Apci
  file_stream_info_report :
      (file_handle : ℕ) (file_block_seq_number : ℕ) (file_block : Bytes) → Apci
  link_read : (group_object_number : ℕ) (start_index : ℕ) → Apci
  user_memory_bit_write memory_bit_write : (address : ℕ) (and_data xor_data : Bytes) → Apci
  router_status_read router_status_response router_status_write : Apci
  domain_address_write domain_address_response : (domain_address : Bytes) → Apci
  domain_address_selective_read : (asdu : Bytes) → Apci
  link_response :
      (group_object_number sending_address start_index : ℕ) (group_address_list : List GroupAddress)
      → Apci
  link_write :
      (group_object_number : ℕ) (group_address : GroupAddress) (delete sending : Bool) → Apci
  domain_address_serial_number_response : (serial domain_address : Bytes) → Apci
  domain_address_serial_number_write :
      (serial domain_address : Bytes) (routing_security_version : Option ℕ)
      (backbone_key : Option Bytes)
      → Apci
  secure_apdu : SecurityControlField → SecureData → Apci
