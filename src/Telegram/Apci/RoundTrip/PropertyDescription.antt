-- ===== src/Telegram/Apci/RoundTrip/PropertyDescription.antt =====
-- Reading back: property descriptions.
use xknx.Prelude.{ℕ, ◌+◌, ◌*◌, ◌<◌, Bool, arith}
use xknx.Prelude.Bits.{and_15}
use xknx.Telegram.Apci.Dispatch.{from_knx}
use xknx.Telegram.Apci.Methods.{calculated_length}
use xknx.Telegram.Apci.RoundTrip.Octets.{
  Encodes, nibbles, and_4095, function_property_ext_octets, description_octets, writable_octet,
}
use xknx.Telegram.Apci.PropertyDescription.{
  property_ext_description_read_from_knx, property_ext_description_read_to_knx,
  property_ext_description_response_from_knx, property_ext_description_response_to_knx,
  property_description_read_from_knx, property_description_read_to_knx,
  property_description_response_from_knx, property_description_response_to_knx,
}
use xknx.Telegram.Apci.Services.{
  property_ext_description_read, property_ext_description_response, property_description_read,
  property_description_response,
}

pub property_ext_description_read-Encodes :
    (object_type : ℕ) (object_instance : ℕ) (property_id : ℕ) (description_type : ℕ)
    (property_index : ℕ)
    → object_type < 65536
    → object_instance < 4096
    → property_id < 4096
    → description_type < 16
    → property_index < 4096
    → Encodes from_knx
        (property_ext_description_read_to_knx object_type object_instance property_id
          description_type property_index)
        (property_ext_description_read object_type object_instance property_id description_type
          property_index)
        (calculated_length (
          property_ext_description_read object_type object_instance property_id description_type
            property_index))
unfolding property_ext_description_read_to_knx property_ext_description_read_from_knx from_knx
    calculated_length
property_ext_description_read-Encodes object_type object_instance property_id description_type
      property_index h0 h1 h2 h3 h4 =
    ground (
      arith,
      function_property_ext_octets object_type object_instance property_id,
      description_octets description_type property_index,
    )

pub property_ext_description_response-Encodes :
    (object_type : ℕ) (object_instance : ℕ) (property_id : ℕ) (description_type : ℕ)
    (property_index : ℕ) (dpt_main : ℕ) (dpt_sub : ℕ) (writable : Bool) (pdt : ℕ)
    (max_nr_of_elem : ℕ) (read_level : ℕ) (write_level : ℕ)
    → object_type < 65536
    → object_instance < 4096
    → property_id < 4096
    → description_type < 16
    → property_index < 4096
    → dpt_main < 65536
    → dpt_sub < 65536
    → pdt < 64
    → max_nr_of_elem < 65536
    → read_level < 16
    → write_level < 16
    → Encodes from_knx
        (property_ext_description_response_to_knx object_type object_instance property_id
          description_type property_index dpt_main dpt_sub writable pdt max_nr_of_elem read_level
          write_level)
        (property_ext_description_response object_type object_instance property_id description_type
          property_index dpt_main dpt_sub writable pdt max_nr_of_elem read_level write_level)
        (calculated_length (
          property_ext_description_response object_type object_instance property_id description_type
            property_index dpt_main dpt_sub writable pdt max_nr_of_elem read_level write_level))
unfolding property_ext_description_response_to_knx property_ext_description_response_from_knx
    from_knx calculated_length
property_ext_description_response-Encodes object_type object_instance property_id description_type
      property_index dpt_main dpt_sub writable pdt max_nr_of_elem read_level write_level h0 h1 h2 h3
      h4 h5 h6 h7 h8 h9 h10 =
    ground (
      arith,
      function_property_ext_octets object_type object_instance property_id,
      description_octets description_type property_index,
      writable_octet writable pdt,
      nibbles read_level write_level,
      and_15 (read_level * 16 + write_level),
    )

pub property_description_read-Encodes :
    (object_index : ℕ) (property_id : ℕ) (property_index : ℕ)
    → object_index < 256
    → property_id < 256
    → property_index < 256
    → Encodes from_knx
        (property_description_read_to_knx object_index property_id property_index)
        (property_description_read object_index property_id property_index)
        (calculated_length (property_description_read object_index property_id property_index))
unfolding property_description_read_to_knx property_description_read_from_knx from_knx
    calculated_length
property_description_read-Encodes object_index property_id property_index h0 h1 h2 = ground arith

pub property_description_response-Encodes :
    (object_index : ℕ) (property_id : ℕ) (property_index : ℕ) (type_ : ℕ) (max_count : ℕ)
    (access : ℕ)
    → object_index < 256
    → property_id < 256
    → property_index < 256
    → type_ < 256
    → max_count < 4096
    → access < 256
    → Encodes from_knx
        (property_description_response_to_knx object_index property_id property_index type_
          max_count access)
        (property_description_response object_index property_id property_index type_ max_count
          access)
        (calculated_length (
          property_description_response object_index property_id property_index type_ max_count
            access))
unfolding property_description_response_to_knx property_description_response_from_knx from_knx
    calculated_length
property_description_response-Encodes object_index property_id property_index type_ max_count access
      h0 h1 h2 h3 h4 h5 =
    ground (arith, and_4095 max_count)
