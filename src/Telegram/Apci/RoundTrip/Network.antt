-- ===== src/Telegram/Apci/RoundTrip/Network.antt =====
-- Reading back: network parameters.
use xknx.Prelude.{ℕ, ◌<◌, Bytes, arith}
use xknx.Telegram.Apci.Dispatch.{from_knx}
use xknx.Telegram.Apci.Methods.{calculated_length}
use xknx.Telegram.Apci.RoundTrip.Octets.{Encodes, system_network_octets}
use xknx.Telegram.Apci.Network.{
  network_parameter_read_from_knx, network_parameter_read_to_knx,
  network_parameter_response_from_knx, network_parameter_response_to_knx,
  network_parameter_write_from_knx, network_parameter_write_to_knx,
  system_network_parameter_read_from_knx, system_network_parameter_read_to_knx,
  system_network_parameter_response_from_knx, system_network_parameter_response_to_knx,
  system_network_parameter_write_from_knx, system_network_parameter_write_to_knx,
}
use xknx.Telegram.Apci.Services.{
  network_parameter_read, network_parameter_response, network_parameter_write,
  system_network_parameter_read, system_network_parameter_response, system_network_parameter_write,
}

pub network_parameter_read-Encodes :
    (object_type : ℕ) (property_id : ℕ) (payload : Bytes)
    → object_type < 65536
    → property_id < 256
    → Encodes from_knx
        (network_parameter_read_to_knx object_type property_id payload)
        (network_parameter_read object_type property_id payload)
        (calculated_length (network_parameter_read object_type property_id payload))
unfolding network_parameter_read_to_knx network_parameter_read_from_knx from_knx calculated_length
network_parameter_read-Encodes object_type property_id payload h0 h1 = ground arith

pub network_parameter_response-Encodes :
    (object_type : ℕ) (property_id : ℕ) (payload : Bytes)
    → object_type < 65536
    → property_id < 256
    → Encodes from_knx
        (network_parameter_response_to_knx object_type property_id payload)
        (network_parameter_response object_type property_id payload)
        (calculated_length (network_parameter_response object_type property_id payload))
unfolding network_parameter_response_to_knx network_parameter_response_from_knx from_knx
    calculated_length
network_parameter_response-Encodes object_type property_id payload h0 h1 = ground arith

pub network_parameter_write-Encodes :
    (object_type : ℕ) (property_id : ℕ) (payload : Bytes)
    → object_type < 65536
    → property_id < 256
    → Encodes from_knx
        (network_parameter_write_to_knx object_type property_id payload)
        (network_parameter_write object_type property_id payload)
        (calculated_length (network_parameter_write object_type property_id payload))
unfolding network_parameter_write_to_knx network_parameter_write_from_knx from_knx calculated_length
network_parameter_write-Encodes object_type property_id payload h0 h1 = ground arith

pub system_network_parameter_read-Encodes :
    (object_type : ℕ) (property_id : ℕ) (payload : Bytes)
    → object_type < 65536
    → property_id < 4096
    → Encodes from_knx
        (system_network_parameter_read_to_knx object_type property_id payload)
        (system_network_parameter_read object_type property_id payload)
        (calculated_length (system_network_parameter_read object_type property_id payload))
unfolding system_network_parameter_read_to_knx system_network_parameter_read_from_knx from_knx
    calculated_length
system_network_parameter_read-Encodes object_type property_id payload h0 h1 =
    ground (arith, system_network_octets object_type property_id)

pub system_network_parameter_response-Encodes :
    (object_type : ℕ) (property_id : ℕ) (payload : Bytes)
    → object_type < 65536
    → property_id < 4096
    → Encodes from_knx
        (system_network_parameter_response_to_knx object_type property_id payload)
        (system_network_parameter_response object_type property_id payload)
        (calculated_length (system_network_parameter_response object_type property_id payload))
unfolding system_network_parameter_response_to_knx system_network_parameter_response_from_knx
    from_knx calculated_length
system_network_parameter_response-Encodes object_type property_id payload h0 h1 =
    ground (arith, system_network_octets object_type property_id)

pub system_network_parameter_write-Encodes :
    (object_type : ℕ) (property_id : ℕ) (payload : Bytes)
    → object_type < 65536
    → property_id < 4096
    → Encodes from_knx
        (system_network_parameter_write_to_knx object_type property_id payload)
        (system_network_parameter_write object_type property_id payload)
        (calculated_length (system_network_parameter_write object_type property_id payload))
unfolding system_network_parameter_write_to_knx system_network_parameter_write_from_knx from_knx
    calculated_length
system_network_parameter_write-Encodes object_type property_id payload h0 h1 =
    ground (arith, system_network_octets object_type property_id)
