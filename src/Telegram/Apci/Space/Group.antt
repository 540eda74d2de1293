-- ===== src/Telegram/Apci/Space/Group.antt =====
-- The first octet of an APDU keeps six bits free: the services of Network, GroupProperty, Special.
use xknx.Prelude.{ℕ, Bytes, Bool, List, Option, arith}
use xknx.Secure.Asdu.{SecurityControlField, SecureData}
use xknx.Telegram.Address.{GroupAddress}
use xknx.Telegram.Apci.Services.{GroupValue}
use xknx.Telegram.Apci.Space.Octet.{LeavesSpace}
use xknx.Telegram.Apci.Network.{
  network_parameter_read_to_knx, network_parameter_response_to_knx, network_parameter_write_to_knx,
  system_network_parameter_read_to_knx, system_network_parameter_response_to_knx,
  system_network_parameter_write_to_knx,
}
use xknx.Telegram.Apci.GroupProperty.{
  group_prop_value_read_to_knx, group_prop_value_response_to_knx, group_prop_value_write_to_knx,
  group_prop_value_info_report_to_knx,
}
use xknx.Telegram.Apci.Special.{
  group_value_read_to_knx, group_value_write_to_knx, group_value_response_to_knx,
  user_memory_bit_write_to_knx, memory_bit_write_to_knx, router_status_to_knx,
  domain_address_write_to_knx, domain_address_response_to_knx, domain_address_selective_read_to_knx,
  link_response_to_knx, link_write_to_knx, domain_address_serial_number_response_to_knx,
  domain_address_serial_number_write_to_knx, secure_apdu_to_knx,
}

pub network_parameter_read-LeavesSpace :
    (x0 : ℕ) (x1 : ℕ) (x2 : Bytes) → LeavesSpace (network_parameter_read_to_knx x0 x1 x2)
unfolding network_parameter_read_to_knx
network_parameter_read-LeavesSpace x0 x1 x2 = ground arith

pub network_parameter_response-LeavesSpace :
    (x0 : ℕ) (x1 : ℕ) (x2 : Bytes) → LeavesSpace (network_parameter_response_to_knx x0 x1 x2)
unfolding network_parameter_response_to_knx
network_parameter_response-LeavesSpace x0 x1 x2 = ground arith

pub network_parameter_write-LeavesSpace :
    (x0 : ℕ) (x1 : ℕ) (x2 : Bytes) → LeavesSpace (network_parameter_write_to_knx x0 x1 x2)
unfolding network_parameter_write_to_knx
network_parameter_write-LeavesSpace x0 x1 x2 = ground arith

pub system_network_parameter_read-LeavesSpace :
    (x0 : ℕ) (x1 : ℕ) (x2 : Bytes) → LeavesSpace (system_network_parameter_read_to_knx x0 x1 x2)
unfolding system_network_parameter_read_to_knx
system_network_parameter_read-LeavesSpace x0 x1 x2 = ground arith

pub system_network_parameter_response-LeavesSpace :
    (x0 : ℕ) (x1 : ℕ) (x2 : Bytes) → LeavesSpace (system_network_parameter_response_to_knx x0 x1 x2)
unfolding system_network_parameter_response_to_knx
system_network_parameter_response-LeavesSpace x0 x1 x2 = ground arith

pub system_network_parameter_write-LeavesSpace :
    (x0 : ℕ) (x1 : ℕ) (x2 : Bytes) → LeavesSpace (system_network_parameter_write_to_knx x0 x1 x2)
unfolding system_network_parameter_write_to_knx
system_network_parameter_write-LeavesSpace x0 x1 x2 = ground arith

pub group_prop_value_read-LeavesSpace :
    (x0 : ℕ) (x1 : ℕ) (x2 : ℕ) → LeavesSpace (group_prop_value_read_to_knx x0 x1 x2)
unfolding group_prop_value_read_to_knx
group_prop_value_read-LeavesSpace x0 x1 x2 = ground arith

pub group_prop_value_response-LeavesSpace :
    (x0 : ℕ) (x1 : ℕ) (x2 : ℕ) (x3 : Bytes)
    → LeavesSpace (group_prop_value_response_to_knx x0 x1 x2 x3)
unfolding group_prop_value_response_to_knx
group_prop_value_response-LeavesSpace x0 x1 x2 x3 = ground arith

pub group_prop_value_write-LeavesSpace :
    (x0 : ℕ) (x1 : ℕ) (x2 : ℕ) (x3 : Bytes)
    → LeavesSpace (group_prop_value_write_to_knx x0 x1 x2 x3)
unfolding group_prop_value_write_to_knx
group_prop_value_write-LeavesSpace x0 x1 x2 x3 = ground arith

pub group_prop_value_info_report-LeavesSpace :
    (x0 : ℕ) (x1 : ℕ) (x2 : ℕ) (x3 : Bytes)
    → LeavesSpace (group_prop_value_info_report_to_knx x0 x1 x2 x3)
unfolding group_prop_value_info_report_to_knx
group_prop_value_info_report-LeavesSpace x0 x1 x2 x3 = ground arith

pub group_value_read-LeavesSpace : LeavesSpace (group_value_read_to_knx)
unfolding group_value_read_to_knx
group_value_read-LeavesSpace = ground arith

pub group_value_write-LeavesSpace : (x0 : GroupValue) → LeavesSpace (group_value_write_to_knx x0)
unfolding group_value_write_to_knx
group_value_write-LeavesSpace x0 = ground arith

pub group_value_response-LeavesSpace :
    (x0 : GroupValue) → LeavesSpace (group_value_response_to_knx x0)
unfolding group_value_response_to_knx
group_value_response-LeavesSpace x0 = ground arith

pub user_memory_bit_write-LeavesSpace :
    (x0 : ℕ) (x1 : Bytes) (x2 : Bytes) → LeavesSpace (user_memory_bit_write_to_knx x0 x1 x2)
unfolding user_memory_bit_write_to_knx
user_memory_bit_write-LeavesSpace x0 x1 x2 = ground arith

pub memory_bit_write-LeavesSpace :
    (x0 : ℕ) (x1 : Bytes) (x2 : Bytes) → LeavesSpace (memory_bit_write_to_knx x0 x1 x2)
unfolding memory_bit_write_to_knx
memory_bit_write-LeavesSpace x0 x1 x2 = ground arith

pub router_status-LeavesSpace : LeavesSpace (router_status_to_knx)
unfolding router_status_to_knx
router_status-LeavesSpace = ground arith

pub domain_address_write-LeavesSpace : (x0 : Bytes) → LeavesSpace (domain_address_write_to_knx x0)
unfolding domain_address_write_to_knx
domain_address_write-LeavesSpace x0 = ground arith

pub domain_address_response-LeavesSpace :
    (x0 : Bytes) → LeavesSpace (domain_address_response_to_knx x0)
unfolding domain_address_response_to_knx
domain_address_response-LeavesSpace x0 = ground arith

pub domain_address_selective_read-LeavesSpace :
    (x0 : Bytes) → LeavesSpace (domain_address_selective_read_to_knx x0)
unfolding domain_address_selective_read_to_knx
domain_address_selective_read-LeavesSpace x0 = ground arith

pub link_response-LeavesSpace :
    (x0 : ℕ) (x1 : ℕ) (x2 : ℕ) (x3 : List GroupAddress)
    → LeavesSpace (link_response_to_knx x0 x1 x2 x3)
unfolding link_response_to_knx
link_response-LeavesSpace x0 x1 x2 x3 = ground arith

pub link_write-LeavesSpace :
    (x0 : ℕ) (x1 : GroupAddress) (x2 : Bool) (x3 : Bool)
    → LeavesSpace (link_write_to_knx x0 x1 x2 x3)
unfolding link_write_to_knx
link_write-LeavesSpace x0 x1 x2 x3 = ground arith

pub domain_address_serial_number_response-LeavesSpace :
    (x0 : Bytes) (x1 : Bytes) → LeavesSpace (domain_address_serial_number_response_to_knx x0 x1)
unfolding domain_address_serial_number_response_to_knx
domain_address_serial_number_response-LeavesSpace x0 x1 = ground arith

pub domain_address_serial_number_write-LeavesSpace :
    (x0 : Bytes) (x1 : Bytes) (x2 : Option ℕ) (x3 : Option Bytes)
    → LeavesSpace (domain_address_serial_number_write_to_knx x0 x1 x2 x3)
unfolding domain_address_serial_number_write_to_knx
domain_address_serial_number_write-LeavesSpace x0 x1 x2 x3 = ground arith

pub secure_apdu-LeavesSpace :
    (x0 : SecurityControlField) (x1 : SecureData) → LeavesSpace (secure_apdu_to_knx x0 x1)
unfolding secure_apdu_to_knx
secure_apdu-LeavesSpace x0 x1 = ground arith
