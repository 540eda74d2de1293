-- ===== src/Telegram/Apci/Space/User.antt =====
-- The first octet of an APDU keeps six bits free: the services of UserMemory, Coupler, Serial.
use xknx.Prelude.{ℕ, Bytes, arith}
use xknx.Telegram.Address.{IndividualAddress}
use xknx.Telegram.Apci.Space.Octet.{LeavesSpace}
use xknx.Telegram.Apci.UserMemory.{
  user_memory_read_to_knx, user_memory_write_to_knx, user_memory_response_to_knx,
  user_manufacturer_info_read_to_knx, user_manufacturer_info_response_to_knx,
  function_property_command_to_knx, function_property_state_read_to_knx,
  function_property_state_response_to_knx,
}
use xknx.Telegram.Apci.Coupler.{
  filter_table_open_to_knx, filter_table_read_to_knx, filter_table_response_to_knx,
  filter_table_write_to_knx, router_memory_read_to_knx, router_memory_response_to_knx,
  router_memory_write_to_knx,
}
use xknx.Telegram.Apci.Serial.{
  individual_address_serial_read_to_knx, individual_address_serial_response_to_knx,
  individual_address_serial_write_to_knx, domain_address_serial_number_read_to_knx,
  domain_address_read_to_knx, file_stream_info_report_to_knx, link_read_to_knx,
}

pub user_memory_read-LeavesSpace : (x0 : ℕ) (x1 : ℕ) → LeavesSpace (user_memory_read_to_knx x0 x1)
unfolding user_memory_read_to_knx
user_memory_read-LeavesSpace x0 x1 = ground arith

pub user_memory_write-LeavesSpace :
    (x0 : ℕ) (x1 : Bytes) (x2 : ℕ) → LeavesSpace (user_memory_write_to_knx x0 x1 x2)
unfolding user_memory_write_to_knx
user_memory_write-LeavesSpace x0 x1 x2 = ground arith

pub user_memory_response-LeavesSpace :
    (x0 : ℕ) (x1 : Bytes) (x2 : ℕ) → LeavesSpace (user_memory_response_to_knx x0 x1 x2)
unfolding user_memory_response_to_knx
user_memory_response-LeavesSpace x0 x1 x2 = ground arith

pub user_manufacturer_info_read-LeavesSpace : LeavesSpace (user_manufacturer_info_read_to_knx)
unfolding user_manufacturer_info_read_to_knx
user_manufacturer_info_read-LeavesSpace = ground arith

pub user_manufacturer_info_response-LeavesSpace :
    (x0 : ℕ) (x1 : Bytes) → LeavesSpace (user_manufacturer_info_response_to_knx x0 x1)
unfolding user_manufacturer_info_response_to_knx
user_manufacturer_info_response-LeavesSpace x0 x1 = ground arith

pub function_property_command-LeavesSpace :
    (x0 : ℕ) (x1 : ℕ) (x2 : Bytes) → LeavesSpace (function_property_command_to_knx x0 x1 x2)
unfolding function_property_command_to_knx
function_property_command-LeavesSpace x0 x1 x2 = ground arith

pub function_property_state_read-LeavesSpace :
    (x0 : ℕ) (x1 : ℕ) (x2 : Bytes) → LeavesSpace (function_property_state_read_to_knx x0 x1 x2)
unfolding function_property_state_read_to_knx
function_property_state_read-LeavesSpace x0 x1 x2 = ground arith

pub function_property_state_response-LeavesSpace :
    (x0 : ℕ) (x1 : ℕ) (x2 : ℕ) (x3 : Bytes)
    → LeavesSpace (function_property_state_response_to_knx x0 x1 x2 x3)
unfolding function_property_state_response_to_knx
function_property_state_response-LeavesSpace x0 x1 x2 x3 = ground arith

pub filter_table_open-LeavesSpace : LeavesSpace (filter_table_open_to_knx)
unfolding filter_table_open_to_knx
filter_table_open-LeavesSpace = ground arith

pub filter_table_read-LeavesSpace : (x0 : ℕ) (x1 : ℕ) → LeavesSpace (filter_table_read_to_knx x0 x1)
unfolding filter_table_read_to_knx
filter_table_read-LeavesSpace x0 x1 = ground arith

pub filter_table_response-LeavesSpace :
    (x0 : ℕ) (x1 : Bytes) (x2 : ℕ) → LeavesSpace (filter_table_response_to_knx x0 x1 x2)
unfolding filter_table_response_to_knx
filter_table_response-LeavesSpace x0 x1 x2 = ground arith

pub filter_table_write-LeavesSpace :
    (x0 : ℕ) (x1 : Bytes) (x2 : ℕ) → LeavesSpace (filter_table_write_to_knx x0 x1 x2)
unfolding filter_table_write_to_knx
filter_table_write-LeavesSpace x0 x1 x2 = ground arith

pub router_memory_read-LeavesSpace :
    (x0 : ℕ) (x1 : ℕ) → LeavesSpace (router_memory_read_to_knx x0 x1)
unfolding router_memory_read_to_knx
router_memory_read-LeavesSpace x0 x1 = ground arith

pub router_memory_response-LeavesSpace :
    (x0 : ℕ) (x1 : Bytes) (x2 : ℕ) → LeavesSpace (router_memory_response_to_knx x0 x1 x2)
unfolding router_memory_response_to_knx
router_memory_response-LeavesSpace x0 x1 x2 = ground arith

pub router_memory_write-LeavesSpace :
    (x0 : ℕ) (x1 : Bytes) (x2 : ℕ) → LeavesSpace (router_memory_write_to_knx x0 x1 x2)
unfolding router_memory_write_to_knx
router_memory_write-LeavesSpace x0 x1 x2 = ground arith

pub individual_address_serial_read-LeavesSpace :
    (x0 : Bytes) → LeavesSpace (individual_address_serial_read_to_knx x0)
unfolding individual_address_serial_read_to_knx
individual_address_serial_read-LeavesSpace x0 = ground arith

pub individual_address_serial_response-LeavesSpace :
    (x0 : Bytes) (x1 : IndividualAddress)
    → LeavesSpace (individual_address_serial_response_to_knx x0 x1)
unfolding individual_address_serial_response_to_knx
individual_address_serial_response-LeavesSpace x0 x1 = ground arith

pub individual_address_serial_write-LeavesSpace :
    (x0 : Bytes) (x1 : IndividualAddress)
    → LeavesSpace (individual_address_serial_write_to_knx x0 x1)
unfolding individual_address_serial_write_to_knx
individual_address_serial_write-LeavesSpace x0 x1 = ground arith

pub domain_address_serial_number_read-LeavesSpace :
    (x0 : Bytes) → LeavesSpace (domain_address_serial_number_read_to_knx x0)
unfolding domain_address_serial_number_read_to_knx
domain_address_serial_number_read-LeavesSpace x0 = ground arith

pub domain_address_read-LeavesSpace : LeavesSpace (domain_address_read_to_knx)
unfolding domain_address_read_to_knx
domain_address_read-LeavesSpace = ground arith

pub file_stream_info_report-LeavesSpace :
    (x0 : ℕ) (x1 : ℕ) (x2 : Bytes) → LeavesSpace (file_stream_info_report_to_knx x0 x1 x2)
unfolding file_stream_info_report_to_knx
file_stream_info_report-LeavesSpace x0 x1 x2 = ground arith

pub link_read-LeavesSpace : (x0 : ℕ) (x1 : ℕ) → LeavesSpace (link_read_to_knx x0 x1)
unfolding link_read_to_knx
link_read-LeavesSpace x0 x1 = ground arith
