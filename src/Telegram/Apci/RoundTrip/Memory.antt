-- ===== src/Telegram/Apci/RoundTrip/Memory.antt =====
-- Reading back: memory and extended memory.
use xknx.Prelude.{ℕ, ◌<◌, ◌≤◌, Bytes, arith}
use xknx.Telegram.Apci.Dispatch.{from_knx}
use xknx.Telegram.Apci.Methods.{calculated_length}
use xknx.Telegram.Apci.RoundTrip.Octets.{Encodes, command_octet, command_fields}
use xknx.Telegram.Apci.Memory.{
  memory_read_from_knx, memory_read_to_knx, memory_write_from_knx, memory_write_to_knx,
  memory_response_from_knx, memory_response_to_knx, memory_extended_write_from_knx,
  memory_extended_write_to_knx, memory_extended_write_response_from_knx,
  memory_extended_write_response_to_knx, memory_extended_read_from_knx, memory_extended_read_to_knx,
  memory_extended_read_response_from_knx, memory_extended_read_response_to_knx,
}
use xknx.Telegram.Apci.Services.{
  memory_read, memory_write, memory_response, memory_extended_write, memory_extended_write_response,
  memory_extended_read, memory_extended_read_response,
}

pub memory_read-Encodes :
    (address : ℕ) (count : ℕ)
    → address < 65536
    → count < 64
    → Encodes from_knx
        (memory_read_to_knx address count)
        (memory_read address count)
        (calculated_length (memory_read address count))
unfolding memory_read_to_knx memory_read_from_knx from_knx calculated_length
memory_read-Encodes address count h0 h1 =
    ground (arith, command_octet 0 count, command_fields 8 count)

pub memory_write-Encodes :
    (address : ℕ) (payload : Bytes) (count : ℕ)
    → address < 65536
    → count < 64
    → Encodes from_knx
        (memory_write_to_knx address payload count)
        (memory_write address payload count)
        (calculated_length (memory_write address payload count))
unfolding memory_write_to_knx memory_write_from_knx from_knx calculated_length
memory_write-Encodes address payload count h0 h1 =
    ground (arith, command_octet 2 count, command_fields 10 count)

pub memory_response-Encodes :
    (address : ℕ) (payload : Bytes) (count : ℕ)
    → address < 65536
    → count < 64
    → Encodes from_knx
        (memory_response_to_knx address payload count)
        (memory_response address payload count)
        (calculated_length (memory_response address payload count))
unfolding memory_response_to_knx memory_response_from_knx from_knx calculated_length
memory_response-Encodes address payload count h0 h1 =
    ground (arith, command_octet 1 count, command_fields 9 count)

pub memory_extended_write-Encodes :
    (address : ℕ) (payload : Bytes) (count : ℕ)
    → address < 16777216
    → count ≤ 250
    → Encodes from_knx
        (memory_extended_write_to_knx address payload count)
        (memory_extended_write address payload count)
        (calculated_length (memory_extended_write address payload count))
unfolding memory_extended_write_to_knx memory_extended_write_from_knx from_knx calculated_length
memory_extended_write-Encodes address payload count h0 h1 = ground arith

pub memory_extended_write_response-Encodes :
    (return_code : ℕ) (address : ℕ) (confirmation_data : Bytes)
    → return_code < 256
    → address < 16777216
    → Encodes from_knx
        (memory_extended_write_response_to_knx return_code address confirmation_data)
        (memory_extended_write_response return_code address confirmation_data)
        (calculated_length (memory_extended_write_response return_code address confirmation_data))
unfolding memory_extended_write_response_to_knx memory_extended_write_response_from_knx from_knx
    calculated_length
memory_extended_write_response-Encodes return_code address confirmation_data h0 h1 = ground arith

pub memory_extended_read-Encodes :
    (count : ℕ) (address : ℕ)
    → address < 16777216
    → count ≤ 250
    → Encodes from_knx
        (memory_extended_read_to_knx count address)
        (memory_extended_read count address)
        (calculated_length (memory_extended_read count address))
unfolding memory_extended_read_to_knx memory_extended_read_from_knx from_knx calculated_length
memory_extended_read-Encodes count address h0 h1 = ground arith

pub memory_extended_read_response-Encodes :
    (return_code : ℕ) (address : ℕ) (payload : Bytes)
    → return_code < 256
    → address < 16777216
    → Encodes from_knx
        (memory_extended_read_response_to_knx return_code address payload)
        (memory_extended_read_response return_code address payload)
        (calculated_length (memory_extended_read_response return_code address payload))
unfolding memory_extended_read_response_to_knx memory_extended_read_response_from_knx from_knx
    calculated_length
memory_extended_read_response-Encodes return_code address payload h0 h1 = ground arith
