-- ===== src/Telegram/Apci/RoundTrip/GroupProperty.antt =====
-- Reading back: group property values.
use xknx.Prelude.{ℕ, ◌<◌, Bytes, arith}
use xknx.Telegram.Apci.Dispatch.{from_knx}
use xknx.Telegram.Apci.Methods.{calculated_length}
use xknx.Telegram.Apci.RoundTrip.Octets.{Encodes, group_prop_octets}
use xknx.Telegram.Apci.GroupProperty.{
  group_prop_value_read_from_knx, group_prop_value_read_to_knx, group_prop_value_response_from_knx,
  group_prop_value_response_to_knx, group_prop_value_write_from_knx, group_prop_value_write_to_knx,
  group_prop_value_info_report_from_knx, group_prop_value_info_report_to_knx,
}
use xknx.Telegram.Apci.Services.{
  group_prop_value_read, group_prop_value_response, group_prop_value_write,
  group_prop_value_info_report,
}

pub group_prop_value_read-Encodes :
    (object_type : ℕ) (object_instance : ℕ) (property_id : ℕ)
    → object_type < 65536
    → object_instance < 256
    → property_id < 256
    → Encodes from_knx
        (group_prop_value_read_to_knx object_type object_instance property_id)
        (group_prop_value_read object_type object_instance property_id)
        (calculated_length (group_prop_value_read object_type object_instance property_id))
unfolding group_prop_value_read_to_knx group_prop_value_read_from_knx from_knx calculated_length
group_prop_value_read-Encodes object_type object_instance property_id h0 h1 h2 =
    ground (arith, group_prop_octets object_type object_instance property_id)

pub group_prop_value_response-Encodes :
    (object_type : ℕ) (object_instance : ℕ) (property_id : ℕ) (payload : Bytes)
    → object_type < 65536
    → object_instance < 256
    → property_id < 256
    → Encodes from_knx
        (group_prop_value_response_to_knx object_type object_instance property_id payload)
        (group_prop_value_response object_type object_instance property_id payload)
        (calculated_length
          (group_prop_value_response object_type object_instance property_id payload))
unfolding group_prop_value_response_to_knx group_prop_value_response_from_knx from_knx
    calculated_length
group_prop_value_response-Encodes object_type object_instance property_id payload h0 h1 h2 =
    ground (arith, group_prop_octets object_type object_instance property_id)

pub group_prop_value_write-Encodes :
    (object_type : ℕ) (object_instance : ℕ) (property_id : ℕ) (payload : Bytes)
    → object_type < 65536
    → object_instance < 256
    → property_id < 256
    → Encodes from_knx
        (group_prop_value_write_to_knx object_type object_instance property_id payload)
        (group_prop_value_write object_type object_instance property_id payload)
        (calculated_length (group_prop_value_write object_type object_instance property_id payload))
unfolding group_prop_value_write_to_knx group_prop_value_write_from_knx from_knx calculated_length
group_prop_value_write-Encodes object_type object_instance property_id payload h0 h1 h2 =
    ground (arith, group_prop_octets object_type object_instance property_id)

pub group_prop_value_info_report-Encodes :
    (object_type : ℕ) (object_instance : ℕ) (property_id : ℕ) (payload : Bytes)
    → object_type < 65536
    → object_instance < 256
    → property_id < 256
    → Encodes from_knx
        (group_prop_value_info_report_to_knx object_type object_instance property_id payload)
        (group_prop_value_info_report object_type object_instance property_id payload)
        (calculated_length
          (group_prop_value_info_report object_type object_instance property_id payload))
unfolding group_prop_value_info_report_to_knx group_prop_value_info_report_from_knx from_knx
    calculated_length
group_prop_value_info_report-Encodes object_type object_instance property_id payload h0 h1 h2 =
    ground (arith, group_prop_octets object_type object_instance property_id)
