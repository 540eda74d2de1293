-- ===== src/Telegram/Apci/Space/Property.antt =====
-- The first octet of an APDU keeps six bits free: the services of PropertyExt, PropertyDescription, PropertyValue.
use xknx.Prelude.{ℕ, Bytes, Bool, arith}
use xknx.Telegram.Apci.Pack.{ReturnCode}
use xknx.Telegram.Apci.Space.Octet.{LeavesSpace}
use xknx.Telegram.Apci.PropertyExt.{
  function_property_ext_command_to_knx, function_property_ext_state_read_to_knx,
  function_property_ext_state_response_to_knx, property_ext_value_read_to_knx,
  property_ext_value_response_to_knx, property_ext_value_write_con_to_knx,
  property_ext_value_write_un_con_to_knx, property_ext_value_info_report_to_knx,
  property_ext_value_write_con_res_to_knx,
}
use xknx.Telegram.Apci.PropertyDescription.{
  property_ext_description_read_to_knx, property_ext_description_response_to_knx,
  property_description_read_to_knx, property_description_response_to_knx,
}
use xknx.Telegram.Apci.PropertyValue.{
  property_value_read_to_knx, property_value_write_to_knx, property_value_response_to_knx,
}

pub function_property_ext_command-LeavesSpace :
    (x0 : ℕ) (x1 : ℕ) (x2 : ℕ) (x3 : Bytes)
    → LeavesSpace (function_property_ext_command_to_knx x0 x1 x2 x3)
unfolding function_property_ext_command_to_knx
function_property_ext_command-LeavesSpace x0 x1 x2 x3 = ground arith

pub function_property_ext_state_read-LeavesSpace :
    (x0 : ℕ) (x1 : ℕ) (x2 : ℕ) (x3 : Bytes)
    → LeavesSpace (function_property_ext_state_read_to_knx x0 x1 x2 x3)
unfolding function_property_ext_state_read_to_knx
function_property_ext_state_read-LeavesSpace x0 x1 x2 x3 = ground arith

pub function_property_ext_state_response-LeavesSpace :
    (x0 : ℕ) (x1 : ℕ) (x2 : ℕ) (x3 : ReturnCode) (x4 : Bytes)
    → LeavesSpace (function_property_ext_state_response_to_knx x0 x1 x2 x3 x4)
unfolding function_property_ext_state_response_to_knx
function_property_ext_state_response-LeavesSpace x0 x1 x2 x3 x4 = ground arith

pub property_ext_value_read-LeavesSpace :
    (x0 : ℕ) (x1 : ℕ) (x2 : ℕ) (x3 : ℕ) (x4 : ℕ)
    → LeavesSpace (property_ext_value_read_to_knx x0 x1 x2 x3 x4)
unfolding property_ext_value_read_to_knx
property_ext_value_read-LeavesSpace x0 x1 x2 x3 x4 = ground arith

pub property_ext_value_response-LeavesSpace :
    (x0 : ℕ) (x1 : ℕ) (x2 : ℕ) (x3 : ℕ) (x4 : ℕ) (x5 : Bytes)
    → LeavesSpace (property_ext_value_response_to_knx x0 x1 x2 x3 x4 x5)
unfolding property_ext_value_response_to_knx
property_ext_value_response-LeavesSpace x0 x1 x2 x3 x4 x5 = ground arith

pub property_ext_value_write_con-LeavesSpace :
    (x0 : ℕ) (x1 : ℕ) (x2 : ℕ) (x3 : ℕ) (x4 : ℕ) (x5 : Bytes)
    → LeavesSpace (property_ext_value_write_con_to_knx x0 x1 x2 x3 x4 x5)
unfolding property_ext_value_write_con_to_knx
property_ext_value_write_con-LeavesSpace x0 x1 x2 x3 x4 x5 = ground arith

pub property_ext_value_write_un_con-LeavesSpace :
    (x0 : ℕ) (x1 : ℕ) (x2 : ℕ) (x3 : ℕ) (x4 : ℕ) (x5 : Bytes)
    → LeavesSpace (property_ext_value_write_un_con_to_knx x0 x1 x2 x3 x4 x5)
unfolding property_ext_value_write_un_con_to_knx
property_ext_value_write_un_con-LeavesSpace x0 x1 x2 x3 x4 x5 = ground arith

pub property_ext_value_info_report-LeavesSpace :
    (x0 : ℕ) (x1 : ℕ) (x2 : ℕ) (x3 : ℕ) (x4 : ℕ) (x5 : Bytes)
    → LeavesSpace (property_ext_value_info_report_to_knx x0 x1 x2 x3 x4 x5)
unfolding property_ext_value_info_report_to_knx
property_ext_value_info_report-LeavesSpace x0 x1 x2 x3 x4 x5 = ground arith

pub property_ext_value_write_con_res-LeavesSpace :
    (x0 : ℕ) (x1 : ℕ) (x2 : ℕ) (x3 : ReturnCode) (x4 : ℕ) (x5 : ℕ)
    → LeavesSpace (property_ext_value_write_con_res_to_knx x0 x1 x2 x3 x4 x5)
unfolding property_ext_value_write_con_res_to_knx
property_ext_value_write_con_res-LeavesSpace x0 x1 x2 x3 x4 x5 = ground arith

pub property_ext_description_read-LeavesSpace :
    (x0 : ℕ) (x1 : ℕ) (x2 : ℕ) (x3 : ℕ) (x4 : ℕ)
    → LeavesSpace (property_ext_description_read_to_knx x0 x1 x2 x3 x4)
unfolding property_ext_description_read_to_knx
property_ext_description_read-LeavesSpace x0 x1 x2 x3 x4 = ground arith

pub property_ext_description_response-LeavesSpace :
    (x0 : ℕ) (x1 : ℕ) (x2 : ℕ) (x3 : ℕ) (x4 : ℕ) (x5 : ℕ) (x6 : ℕ) (x7 : Bool) (x8 : ℕ) (x9 : ℕ)
    (x10 : ℕ) (x11 : ℕ)
    → LeavesSpace (property_ext_description_response_to_knx x0 x1 x2 x3 x4 x5 x6 x7 x8 x9 x10 x11)
unfolding property_ext_description_response_to_knx
property_ext_description_response-LeavesSpace x0 x1 x2 x3 x4 x5 x6 x7 x8 x9 x10 x11 = ground arith

pub property_description_read-LeavesSpace :
    (x0 : ℕ) (x1 : ℕ) (x2 : ℕ) → LeavesSpace (property_description_read_to_knx x0 x1 x2)
unfolding property_description_read_to_knx
property_description_read-LeavesSpace x0 x1 x2 = ground arith

pub property_description_response-LeavesSpace :
    (x0 : ℕ) (x1 : ℕ) (x2 : ℕ) (x3 : ℕ) (x4 : ℕ) (x5 : ℕ)
    → LeavesSpace (property_description_response_to_knx x0 x1 x2 x3 x4 x5)
unfolding property_description_response_to_knx
property_description_response-LeavesSpace x0 x1 x2 x3 x4 x5 = ground arith

pub property_value_read-LeavesSpace :
    (x0 : ℕ) (x1 : ℕ) (x2 : ℕ) (x3 : ℕ) → LeavesSpace (property_value_read_to_knx x0 x1 x2 x3)
unfolding property_value_read_to_knx
property_value_read-LeavesSpace x0 x1 x2 x3 = ground arith

pub property_value_write-LeavesSpace :
    (x0 : ℕ) (x1 : ℕ) (x2 : ℕ) (x3 : ℕ) (x4 : Bytes)
    → LeavesSpace (property_value_write_to_knx x0 x1 x2 x3 x4)
unfolding property_value_write_to_knx
property_value_write-LeavesSpace x0 x1 x2 x3 x4 = ground arith

pub property_value_response-LeavesSpace :
    (x0 : ℕ) (x1 : ℕ) (x2 : ℕ) (x3 : ℕ) (x4 : Bytes)
    → LeavesSpace (property_value_response_to_knx x0 x1 x2 x3 x4)
unfolding property_value_response_to_knx
property_value_response-LeavesSpace x0 x1 x2 x3 x4 = ground arith
