-- ===== src/Telegram/Apci/RoundTrip/PropertyExt.antt =====
-- Reading back: extended function properties and property values.
use xknx.Prelude.{ℕ, ◌<◌, Bytes, arith}
use xknx.Telegram.Apci.Pack.{ReturnCode, of_value-value}
use xknx.Telegram.Apci.Dispatch.{from_knx}
use xknx.Telegram.Apci.Methods.{calculated_length}
use xknx.Telegram.Apci.RoundTrip.Octets.{Encodes, function_property_ext_octets}
use xknx.Telegram.Apci.PropertyExt.{
  function_property_ext_command_from_knx, function_property_ext_command_to_knx,
  function_property_ext_state_read_from_knx, function_property_ext_state_read_to_knx,
  function_property_ext_state_response_from_knx, function_property_ext_state_response_to_knx,
  property_ext_value_read_from_knx, property_ext_value_read_to_knx,
  property_ext_value_response_from_knx, property_ext_value_response_to_knx,
  property_ext_value_write_con_from_knx, property_ext_value_write_con_to_knx,
  property_ext_value_write_un_con_from_knx, property_ext_value_write_un_con_to_knx,
  property_ext_value_info_report_from_knx, property_ext_value_info_report_to_knx,
  property_ext_value_write_con_res_from_knx, property_ext_value_write_con_res_to_knx,
}
use xknx.Telegram.Apci.Services.{
  function_property_ext_command, function_property_ext_state_read,
  function_property_ext_state_response, property_ext_value_read, property_ext_value_response,
  property_ext_value_write_con, property_ext_value_write_un_con, property_ext_value_info_report,
  property_ext_value_write_con_res,
}

pub function_property_ext_command-Encodes :
    (object_type : ℕ) (object_instance : ℕ) (property_id : ℕ) (payload : Bytes)
    → object_type < 65536
    → object_instance < 4096
    → property_id < 4096
    → Encodes from_knx
        (function_property_ext_command_to_knx object_type object_instance property_id payload)
        (function_property_ext_command object_type object_instance property_id payload)
        (calculated_length
          (function_property_ext_command object_type object_instance property_id payload))
unfolding function_property_ext_command_to_knx function_property_ext_command_from_knx from_knx
    calculated_length
function_property_ext_command-Encodes object_type object_instance property_id payload h0 h1 h2 =
    ground (arith, function_property_ext_octets object_type object_instance property_id)

pub function_property_ext_state_read-Encodes :
    (object_type : ℕ) (object_instance : ℕ) (property_id : ℕ) (payload : Bytes)
    → object_type < 65536
    → object_instance < 4096
    → property_id < 4096
    → Encodes from_knx
        (function_property_ext_state_read_to_knx object_type object_instance property_id payload)
        (function_property_ext_state_read object_type object_instance property_id payload)
        (calculated_length
          (function_property_ext_state_read object_type object_instance property_id payload))
unfolding function_property_ext_state_read_to_knx function_property_ext_state_read_from_knx from_knx
    calculated_length
function_property_ext_state_read-Encodes object_type object_instance property_id payload h0 h1 h2 =
    ground (arith, function_property_ext_octets object_type object_instance property_id)

pub function_property_ext_state_response-Encodes :
    (object_type : ℕ) (object_instance : ℕ) (property_id : ℕ) (return_code : ReturnCode)
    (payload : Bytes)
    → object_type < 65536
    → object_instance < 4096
    → property_id < 4096
    → Encodes from_knx
        (function_property_ext_state_response_to_knx object_type object_instance property_id
          return_code payload)
        (function_property_ext_state_response object_type object_instance property_id return_code
          payload)
        (calculated_length (
          function_property_ext_state_response object_type object_instance property_id return_code
            payload))
unfolding function_property_ext_state_response_to_knx function_property_ext_state_response_from_knx
    from_knx calculated_length
function_property_ext_state_response-Encodes object_type object_instance property_id return_code
      payload h0 h1 h2 =
    ground (
      arith,
      function_property_ext_octets object_type object_instance property_id,
      of_value-value return_code,
    )

pub property_ext_value_read-Encodes :
    (object_type : ℕ) (object_instance : ℕ) (property_id : ℕ) (nr_of_elem : ℕ) (start_index : ℕ)
    → object_type < 65536
    → object_instance < 4096
    → property_id < 4096
    → nr_of_elem < 256
    → start_index < 65536
    → Encodes from_knx
        (property_ext_value_read_to_knx object_type object_instance property_id nr_of_elem
          start_index)
        (property_ext_value_read object_type object_instance property_id nr_of_elem start_index)
        (calculated_length
          (property_ext_value_read object_type object_instance property_id nr_of_elem start_index))
unfolding property_ext_value_read_to_knx property_ext_value_read_from_knx from_knx calculated_length
property_ext_value_read-Encodes object_type object_instance property_id nr_of_elem start_index h0 h1
      h2 h3 h4 =
    ground (arith, function_property_ext_octets object_type object_instance property_id)

pub property_ext_value_response-Encodes :
    (object_type : ℕ) (object_instance : ℕ) (property_id : ℕ) (nr_of_elem : ℕ) (start_index : ℕ)
    (payload : Bytes)
    → object_type < 65536
    → object_instance < 4096
    → property_id < 4096
    → nr_of_elem < 256
    → start_index < 65536
    → Encodes from_knx
        (property_ext_value_response_to_knx object_type object_instance property_id nr_of_elem
          start_index payload)
        (property_ext_value_response object_type object_instance property_id nr_of_elem start_index
          payload)
        (calculated_length (
          property_ext_value_response object_type object_instance property_id nr_of_elem start_index
            payload))
unfolding property_ext_value_response_to_knx property_ext_value_response_from_knx from_knx
    calculated_length
property_ext_value_response-Encodes object_type object_instance property_id nr_of_elem start_index
      payload h0 h1 h2 h3 h4 =
    ground (arith, function_property_ext_octets object_type object_instance property_id)

pub property_ext_value_write_con-Encodes :
    (object_type : ℕ) (object_instance : ℕ) (property_id : ℕ) (nr_of_elem : ℕ) (start_index : ℕ)
    (payload : Bytes)
    → object_type < 65536
    → object_instance < 4096
    → property_id < 4096
    → nr_of_elem < 256
    → start_index < 65536
    → Encodes from_knx
        (property_ext_value_write_con_to_knx object_type object_instance property_id nr_of_elem
          start_index payload)
        (property_ext_value_write_con object_type object_instance property_id nr_of_elem start_index
          payload)
        (calculated_length (
          property_ext_value_write_con object_type object_instance property_id nr_of_elem
            start_index payload))
unfolding property_ext_value_write_con_to_knx property_ext_value_write_con_from_knx from_knx
    calculated_length
property_ext_value_write_con-Encodes object_type object_instance property_id nr_of_elem start_index
      payload h0 h1 h2 h3 h4 =
    ground (arith, function_property_ext_octets object_type object_instance property_id)

pub property_ext_value_write_un_con-Encodes :
    (object_type : ℕ) (object_instance : ℕ) (property_id : ℕ) (nr_of_elem : ℕ) (start_index : ℕ)
    (payload : Bytes)
    → object_type < 65536
    → object_instance < 4096
    → property_id < 4096
    → nr_of_elem < 256
    → start_index < 65536
    → Encodes from_knx
        (property_ext_value_write_un_con_to_knx object_type object_instance property_id nr_of_elem
          start_index payload)
        (property_ext_value_write_un_con object_type object_instance property_id nr_of_elem
          start_index payload)
        (calculated_length (
          property_ext_value_write_un_con object_type object_instance property_id nr_of_elem
            start_index payload))
unfolding property_ext_value_write_un_con_to_knx property_ext_value_write_un_con_from_knx from_knx
    calculated_length
property_ext_value_write_un_con-Encodes object_type object_instance property_id nr_of_elem
      start_index payload h0 h1 h2 h3 h4 =
    ground (arith, function_property_ext_octets object_type object_instance property_id)

pub property_ext_value_info_report-Encodes :
    (object_type : ℕ) (object_instance : ℕ) (property_id : ℕ) (nr_of_elem : ℕ) (start_index : ℕ)
    (payload : Bytes)
    → object_type < 65536
    → object_instance < 4096
    → property_id < 4096
    → nr_of_elem < 256
    → start_index < 65536
    → Encodes from_knx
        (property_ext_value_info_report_to_knx object_type object_instance property_id nr_of_elem
          start_index payload)
        (property_ext_value_info_report object_type object_instance property_id nr_of_elem
          start_index payload)
        (calculated_length (
          property_ext_value_info_report object_type object_instance property_id nr_of_elem
            start_index payload))
unfolding property_ext_value_info_report_to_knx property_ext_value_info_report_from_knx from_knx
    calculated_length
property_ext_value_info_report-Encodes object_type object_instance property_id nr_of_elem
      start_index payload h0 h1 h2 h3 h4 =
    ground (arith, function_property_ext_octets object_type object_instance property_id)

pub property_ext_value_write_con_res-Encodes :
    (object_type : ℕ) (object_instance : ℕ) (property_id : ℕ) (return_code : ReturnCode)
    (nr_of_elem : ℕ) (start_index : ℕ)
    → object_type < 65536
    → object_instance < 4096
    → property_id < 4096
    → nr_of_elem < 256
    → start_index < 65536
    → Encodes from_knx
        (property_ext_value_write_con_res_to_knx object_type object_instance property_id return_code
          nr_of_elem start_index)
        (property_ext_value_write_con_res object_type object_instance property_id return_code
          nr_of_elem start_index)
        (calculated_length (
          property_ext_value_write_con_res object_type object_instance property_id return_code
            nr_of_elem start_index))
unfolding property_ext_value_write_con_res_to_knx property_ext_value_write_con_res_from_knx from_knx
    calculated_length
property_ext_value_write_con_res-Encodes object_type object_instance property_id return_code
      nr_of_elem start_index h0 h1 h2 h3 h4 =
    ground (
      arith,
      function_property_ext_octets object_type object_instance property_id,
      of_value-value return_code,
    )
