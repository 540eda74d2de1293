-- ===== src/Telegram/Apci/RoundTrip/PropertyValue.antt =====
-- Reading back: property values.
use xknx.Prelude.{ℕ, ◌+◌, ◌-◌, ◌*◌, ◌/◌, ◌<◌, ◌≤◌, ◌≡◌, Bytes, arith, ok, ◌>>=◌}
use xknx.Prelude.Bits.{and_15, and_255}
use xknx.Telegram.Apci.Dispatch.{from_knx}
use xknx.Telegram.Apci.Methods.{calculated_length}
use xknx.Telegram.Apci.RoundTrip.Octets.{Encodes}
use xknx.Telegram.Apci.PropertyValue.{
  property_value_read_from_knx, property_value_read_to_knx, property_value_write_from_knx,
  property_value_write_to_knx, property_value_response_from_knx, property_value_response_to_knx,
}
use xknx.Telegram.Apci.Services.{property_value_read, property_value_write, property_value_response}

pub property_value_read-Encodes :
    (object_index : ℕ) (property_id : ℕ) (count : ℕ) (start_index : ℕ)
    → object_index < 256
    → property_id < 256
    → count < 16
    → start_index < 4096
    → Encodes from_knx
        (property_value_read_to_knx object_index property_id count start_index)
        (property_value_read object_index property_id count start_index)
        (calculated_length (property_value_read object_index property_id count start_index))
unfolding property_value_read_to_knx property_value_read_from_knx from_knx calculated_length
property_value_read-Encodes object_index property_id count start_index h0 h1 h2 h3 =
    ground (arith, and_255 start_index, and_15 (count * 16 + start_index / 256))

pub property_value_write-Encodes :
    (object_index : ℕ) (property_id : ℕ) (count : ℕ) (start_index : ℕ) (payload : Bytes)
    → object_index < 256
    → property_id < 256
    → count < 16
    → start_index < 4096
    → Encodes from_knx
        (property_value_write_to_knx object_index property_id count start_index payload)
        (property_value_write object_index property_id count start_index payload)
        (calculated_length
          (property_value_write object_index property_id count start_index payload))
unfolding property_value_write_to_knx property_value_write_from_knx from_knx calculated_length
property_value_write-Encodes object_index property_id count start_index payload h0 h1 h2 h3 =
    ground (arith, and_255 start_index, and_15 (count * 16 + start_index / 256))

pub property_value_response-Encodes :
    (object_index : ℕ) (property_id : ℕ) (count : ℕ) (start_index : ℕ) (payload : Bytes)
    → object_index < 256
    → property_id < 256
    → count < 16
    → start_index < 4096
    → Encodes from_knx
        (property_value_response_to_knx object_index property_id count start_index payload)
        (property_value_response object_index property_id count start_index payload)
        (calculated_length
          (property_value_response object_index property_id count start_index payload))
unfolding property_value_response_to_knx property_value_response_from_knx from_knx calculated_length
property_value_response-Encodes object_index property_id count start_index payload h0 h1 h2 h3 =
    ground (arith, and_255 start_index, and_15 (count * 16 + start_index / 256))

-- A property value read with a start index from 4096 up to 8191 is not refused but is read back with
-- one more element and a start index that is 4096 less, where the indices fit their octets and the
-- count is below 15.
pub property_value_read_to_knx-carry :
    (object_index property_id count start_index : ℕ)
    → object_index < 256
    → property_id < 256
    → count < 15
    → 4096 ≤ start_index
    → start_index < 8192
    → (property_value_read_to_knx object_index property_id count start_index >>= from_knx)
      ≡ ok (property_value_read object_index property_id (count + 1) (start_index - 4096))
unfolding property_value_read_to_knx property_value_read_from_knx from_knx
property_value_read_to_knx-carry o p c s h0 h1 h2 h3 h4 =
    ground (arith, and_255 s, and_15 (c * 16 + s / 256), and_15 ((c + 1) * 16 + (s / 256 - 16)))
