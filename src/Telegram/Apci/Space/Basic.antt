-- ===== src/Telegram/Apci/Space/Basic.antt =====
-- The first octet of an APDU keeps six bits free: the services of Basic, Memory, Key.
use xknx.Prelude.{ℕ, Bytes, arith}
use xknx.Telegram.Address.{IndividualAddress}
use xknx.Telegram.Apci.Space.Octet.{LeavesSpace}
use xknx.Telegram.Apci.Basic.{
  individual_address_write_to_knx, individual_address_read_to_knx,
  individual_address_response_to_knx, adc_read_to_knx, adc_response_to_knx,
  device_descriptor_read_to_knx, device_descriptor_response_to_knx, restart_to_knx,
  restart_master_reset_to_knx, restart_master_reset_response_to_knx,
}
use xknx.Telegram.Apci.Memory.{
  memory_read_to_knx, memory_write_to_knx, memory_response_to_knx, memory_extended_write_to_knx,
  memory_extended_write_response_to_knx, memory_extended_read_to_knx,
  memory_extended_read_response_to_knx,
}
use xknx.Telegram.Apci.Key.{
  authorize_request_to_knx, authorize_response_to_knx, key_write_to_knx, key_response_to_knx,
}

pub individual_address_write-LeavesSpace :
    (x0 : IndividualAddress) → LeavesSpace (individual_address_write_to_knx x0)
unfolding individual_address_write_to_knx
individual_address_write-LeavesSpace x0 = ground arith

pub individual_address_read-LeavesSpace : LeavesSpace (individual_address_read_to_knx)
unfolding individual_address_read_to_knx
individual_address_read-LeavesSpace = ground arith

pub individual_address_response-LeavesSpace : LeavesSpace (individual_address_response_to_knx)
unfolding individual_address_response_to_knx
individual_address_response-LeavesSpace = ground arith

pub adc_read-LeavesSpace : (x0 : ℕ) (x1 : ℕ) → LeavesSpace (adc_read_to_knx x0 x1)
unfolding adc_read_to_knx
adc_read-LeavesSpace x0 x1 = ground arith

pub adc_response-LeavesSpace :
    (x0 : ℕ) (x1 : ℕ) (x2 : ℕ) → LeavesSpace (adc_response_to_knx x0 x1 x2)
unfolding adc_response_to_knx
adc_response-LeavesSpace x0 x1 x2 = ground arith

pub device_descriptor_read-LeavesSpace : (x0 : ℕ) → LeavesSpace (device_descriptor_read_to_knx x0)
unfolding device_descriptor_read_to_knx
device_descriptor_read-LeavesSpace x0 = ground arith

pub device_descriptor_response-LeavesSpace :
    (x0 : ℕ) (x1 : ℕ) → LeavesSpace (device_descriptor_response_to_knx x0 x1)
unfolding device_descriptor_response_to_knx
device_descriptor_response-LeavesSpace x0 x1 = ground arith

pub restart-LeavesSpace : LeavesSpace (restart_to_knx)
unfolding restart_to_knx
restart-LeavesSpace = ground arith

pub restart_master_reset-LeavesSpace :
    (x0 : ℕ) (x1 : ℕ) → LeavesSpace (restart_master_reset_to_knx x0 x1)
unfolding restart_master_reset_to_knx
restart_master_reset-LeavesSpace x0 x1 = ground arith

pub restart_master_reset_response-LeavesSpace :
    (x0 : ℕ) (x1 : ℕ) → LeavesSpace (restart_master_reset_response_to_knx x0 x1)
unfolding restart_master_reset_response_to_knx
restart_master_reset_response-LeavesSpace x0 x1 = ground arith

pub memory_read-LeavesSpace : (x0 : ℕ) (x1 : ℕ) → LeavesSpace (memory_read_to_knx x0 x1)
unfolding memory_read_to_knx
memory_read-LeavesSpace x0 x1 = ground arith

pub memory_write-LeavesSpace :
    (x0 : ℕ) (x1 : Bytes) (x2 : ℕ) → LeavesSpace (memory_write_to_knx x0 x1 x2)
unfolding memory_write_to_knx
memory_write-LeavesSpace x0 x1 x2 = ground arith

pub memory_response-LeavesSpace :
    (x0 : ℕ) (x1 : Bytes) (x2 : ℕ) → LeavesSpace (memory_response_to_knx x0 x1 x2)
unfolding memory_response_to_knx
memory_response-LeavesSpace x0 x1 x2 = ground arith

pub memory_extended_write-LeavesSpace :
    (x0 : ℕ) (x1 : Bytes) (x2 : ℕ) → LeavesSpace (memory_extended_write_to_knx x0 x1 x2)
unfolding memory_extended_write_to_knx
memory_extended_write-LeavesSpace x0 x1 x2 = ground arith

pub memory_extended_write_response-LeavesSpace :
    (x0 : ℕ) (x1 : ℕ) (x2 : Bytes) → LeavesSpace (memory_extended_write_response_to_knx x0 x1 x2)
unfolding memory_extended_write_response_to_knx
memory_extended_write_response-LeavesSpace x0 x1 x2 = ground arith

pub memory_extended_read-LeavesSpace :
    (x0 : ℕ) (x1 : ℕ) → LeavesSpace (memory_extended_read_to_knx x0 x1)
unfolding memory_extended_read_to_knx
memory_extended_read-LeavesSpace x0 x1 = ground arith

pub memory_extended_read_response-LeavesSpace :
    (x0 : ℕ) (x1 : ℕ) (x2 : Bytes) → LeavesSpace (memory_extended_read_response_to_knx x0 x1 x2)
unfolding memory_extended_read_response_to_knx
memory_extended_read_response-LeavesSpace x0 x1 x2 = ground arith

pub authorize_request-LeavesSpace : (x0 : ℕ) → LeavesSpace (authorize_request_to_knx x0)
unfolding authorize_request_to_knx
authorize_request-LeavesSpace x0 = ground arith

pub authorize_response-LeavesSpace : (x0 : ℕ) → LeavesSpace (authorize_response_to_knx x0)
unfolding authorize_response_to_knx
authorize_response-LeavesSpace x0 = ground arith

pub key_write-LeavesSpace : (x0 : ℕ) (x1 : ℕ) → LeavesSpace (key_write_to_knx x0 x1)
unfolding key_write_to_knx
key_write-LeavesSpace x0 x1 = ground arith

pub key_response-LeavesSpace : (x0 : ℕ) → LeavesSpace (key_response_to_knx x0)
unfolding key_response_to_knx
key_response-LeavesSpace x0 = ground arith
