-- ===== src/Telegram/Apci/RoundTrip/Basic.antt =====
-- Reading back: individual addresses, A/D converter, device descriptors and restart.
use xknx.Prelude.{ℕ, ◌<◌, arith}
use xknx.Telegram.Address.{IndividualAddress, individual_address, individual_to_knx}
use xknx.Telegram.Apci.Dispatch.{from_knx}
use xknx.Telegram.Apci.Methods.{calculated_length}
use xknx.Telegram.Apci.RoundTrip.Octets.{Encodes, command_octet, command_fields}
use xknx.Telegram.Apci.Basic.{
  individual_address_write_from_knx, individual_address_write_to_knx,
  individual_address_read_from_knx, individual_address_read_to_knx,
  individual_address_response_from_knx, individual_address_response_to_knx, adc_read_from_knx,
  adc_read_to_knx, adc_response_from_knx, adc_response_to_knx, device_descriptor_read_from_knx,
  device_descriptor_read_to_knx, device_descriptor_response_from_knx,
  device_descriptor_response_to_knx, restart_from_knx, restart_to_knx,
  restart_master_reset_from_knx, restart_master_reset_to_knx,
  restart_master_reset_response_from_knx, restart_master_reset_response_to_knx,
}
use xknx.Telegram.Apci.Services.{
  individual_address_write, individual_address_read, individual_address_response, adc_read,
  adc_response, device_descriptor_read, device_descriptor_response, restart, restart_master_reset,
  restart_master_reset_response,
}

pub individual_address_write-Encodes :
    (address : IndividualAddress)
    → address.raw < 65536
    → Encodes from_knx
        (individual_address_write_to_knx address)
        (individual_address_write address)
        (calculated_length (individual_address_write address))
unfolding individual_address_write_to_knx individual_address_write_from_knx from_knx
    calculated_length individual_to_knx individual_address
individual_address_write-Encodes address h0 = ground arith

pub individual_address_read-Encodes :
    Encodes from_knx individual_address_read_to_knx individual_address_read
      (calculated_length individual_address_read)
unfolding individual_address_read_to_knx individual_address_read_from_knx from_knx calculated_length
individual_address_read-Encodes = ground arith

pub individual_address_response-Encodes :
    Encodes from_knx individual_address_response_to_knx individual_address_response
      (calculated_length individual_address_response)
unfolding individual_address_response_to_knx individual_address_response_from_knx from_knx
    calculated_length
individual_address_response-Encodes = ground arith

pub adc_read-Encodes :
    (channel : ℕ) (count : ℕ)
    → channel < 64
    → count < 256
    → Encodes from_knx
        (adc_read_to_knx channel count)
        (adc_read channel count)
        (calculated_length (adc_read channel count))
unfolding adc_read_to_knx adc_read_from_knx from_knx calculated_length
adc_read-Encodes channel count h0 h1 =
    ground (arith, command_octet 2 channel, command_fields 6 channel)

pub adc_response-Encodes :
    (channel : ℕ) (count : ℕ) (value : ℕ)
    → channel < 8
    → count < 256
    → value < 65536
    → Encodes from_knx
        (adc_response_to_knx channel count value)
        (adc_response channel count value)
        (calculated_length (adc_response channel count value))
unfolding adc_response_to_knx adc_response_from_knx from_knx calculated_length
adc_response-Encodes channel count value h0 h1 h2 =
    ground (arith, command_octet 3 channel, command_fields 7 channel)

pub device_descriptor_read-Encodes :
    (descriptor : ℕ)
    → descriptor < 64
    → Encodes from_knx
        (device_descriptor_read_to_knx descriptor)
        (device_descriptor_read descriptor)
        (calculated_length (device_descriptor_read descriptor))
unfolding device_descriptor_read_to_knx device_descriptor_read_from_knx from_knx calculated_length
device_descriptor_read-Encodes descriptor h0 =
    ground (arith, command_octet 0 descriptor, command_fields 12 descriptor)

pub device_descriptor_response-Encodes :
    (descriptor : ℕ) (value : ℕ)
    → descriptor < 64
    → value < 65536
    → Encodes from_knx
        (device_descriptor_response_to_knx descriptor value)
        (device_descriptor_response descriptor value)
        (calculated_length (device_descriptor_response descriptor value))
unfolding device_descriptor_response_to_knx device_descriptor_response_from_knx from_knx
    calculated_length
device_descriptor_response-Encodes descriptor value h0 h1 =
    ground (arith, command_octet 1 descriptor, command_fields 13 descriptor)

pub restart-Encodes : Encodes from_knx restart_to_knx restart (calculated_length restart)
unfolding restart_to_knx restart_from_knx from_knx calculated_length
restart-Encodes = ground arith

pub restart_master_reset-Encodes :
    (erase_code : ℕ) (channel_number : ℕ)
    → erase_code < 256
    → channel_number < 256
    → Encodes from_knx
        (restart_master_reset_to_knx erase_code channel_number)
        (restart_master_reset erase_code channel_number)
        (calculated_length (restart_master_reset erase_code channel_number))
unfolding restart_master_reset_to_knx restart_master_reset_from_knx from_knx calculated_length
restart_master_reset-Encodes erase_code channel_number h0 h1 = ground arith

pub restart_master_reset_response-Encodes :
    (error_code : ℕ) (process_time : ℕ)
    → error_code < 256
    → process_time < 65536
    → Encodes from_knx
        (restart_master_reset_response_to_knx error_code process_time)
        (restart_master_reset_response error_code process_time)
        (calculated_length (restart_master_reset_response error_code process_time))
unfolding restart_master_reset_response_to_knx restart_master_reset_response_from_knx from_knx
    calculated_length
restart_master_reset_response-Encodes error_code process_time h0 h1 = ground arith
