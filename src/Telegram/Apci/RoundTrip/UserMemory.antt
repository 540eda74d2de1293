-- ===== src/Telegram/Apci/RoundTrip/UserMemory.antt =====
-- Reading back: user memory, manufacturer information and function properties.
use xknx.Prelude.{ℕ, ◌<◌, ◌≡◌, [], ◌∷◌, Bytes, length, arith}
use xknx.Telegram.Apci.Dispatch.{from_knx}
use xknx.Telegram.Apci.Methods.{calculated_length}
use xknx.Telegram.Apci.RoundTrip.Octets.{Encodes, user_memory_octets}
use xknx.Telegram.Apci.UserMemory.{
  user_memory_read_from_knx, user_memory_read_to_knx, user_memory_write_from_knx,
  user_memory_write_to_knx, user_memory_response_from_knx, user_memory_response_to_knx,
  user_manufacturer_info_read_from_knx, user_manufacturer_info_read_to_knx,
  user_manufacturer_info_response_from_knx, user_manufacturer_info_response_to_knx,
  function_property_command_from_knx, function_property_command_to_knx,
  function_property_state_read_from_knx, function_property_state_read_to_knx,
  function_property_state_response_from_knx, function_property_state_response_to_knx,
}
use xknx.Telegram.Apci.Services.{
  user_memory_read, user_memory_write, user_memory_response, user_manufacturer_info_read,
  user_manufacturer_info_response, function_property_command, function_property_state_read,
  function_property_state_response,
}

pub user_memory_read-Encodes :
    (address : ℕ) (count : ℕ)
    → address < 1048576
    → count < 16
    → Encodes from_knx
        (user_memory_read_to_knx address count)
        (user_memory_read address count)
        (calculated_length (user_memory_read address count))
unfolding user_memory_read_to_knx user_memory_read_from_knx from_knx calculated_length
user_memory_read-Encodes address count h0 h1 = ground (arith, user_memory_octets address count)

pub user_memory_write-Encodes :
    (address : ℕ) (payload : Bytes) (count : ℕ)
    → address < 1048576
    → count < 16
    → Encodes from_knx
        (user_memory_write_to_knx address payload count)
        (user_memory_write address payload count)
        (calculated_length (user_memory_write address payload count))
unfolding user_memory_write_to_knx user_memory_write_from_knx from_knx calculated_length
user_memory_write-Encodes address payload count h0 h1 =
    ground (arith, user_memory_octets address count)

pub user_memory_response-Encodes :
    (address : ℕ) (payload : Bytes) (count : ℕ)
    → address < 1048576
    → count < 16
    → Encodes from_knx
        (user_memory_response_to_knx address payload count)
        (user_memory_response address payload count)
        (calculated_length (user_memory_response address payload count))
unfolding user_memory_response_to_knx user_memory_response_from_knx from_knx calculated_length
user_memory_response-Encodes address payload count h0 h1 =
    ground (arith, user_memory_octets address count)

pub user_manufacturer_info_read-Encodes :
    Encodes from_knx user_manufacturer_info_read_to_knx user_manufacturer_info_read
      (calculated_length user_manufacturer_info_read)
unfolding user_manufacturer_info_read_to_knx user_manufacturer_info_read_from_knx from_knx
    calculated_length
user_manufacturer_info_read-Encodes = ground arith

pub user_manufacturer_info_response-Encodes :
    (manufacturer_id : ℕ) (payload : Bytes)
    → manufacturer_id < 256
    → length payload ≡ 2
    → Encodes from_knx
        (user_manufacturer_info_response_to_knx manufacturer_id payload)
        (user_manufacturer_info_response manufacturer_id payload)
        (calculated_length (user_manufacturer_info_response manufacturer_id payload))
unfolding user_manufacturer_info_response_to_knx user_manufacturer_info_response_from_knx from_knx
    calculated_length
user_manufacturer_info_response-Encodes manufacturer_id (x ∷ y ∷ []) h0 h1 = ground arith
user_manufacturer_info_response-Encodes manufacturer_id _ h0 h1 = absurd (omega arith)

pub function_property_command-Encodes :
    (object_index : ℕ) (property_id : ℕ) (payload : Bytes)
    → object_index < 256
    → property_id < 256
    → Encodes from_knx
        (function_property_command_to_knx object_index property_id payload)
        (function_property_command object_index property_id payload)
        (calculated_length (function_property_command object_index property_id payload))
unfolding function_property_command_to_knx function_property_command_from_knx from_knx
    calculated_length
function_property_command-Encodes object_index property_id payload h0 h1 = ground arith

pub function_property_state_read-Encodes :
    (object_index : ℕ) (property_id : ℕ) (payload : Bytes)
    → object_index < 256
    → property_id < 256
    → Encodes from_knx
        (function_property_state_read_to_knx object_index property_id payload)
        (function_property_state_read object_index property_id payload)
        (calculated_length (function_property_state_read object_index property_id payload))
unfolding function_property_state_read_to_knx function_property_state_read_from_knx from_knx
    calculated_length
function_property_state_read-Encodes object_index property_id payload h0 h1 = ground arith

pub function_property_state_response-Encodes :
    (object_index : ℕ) (property_id : ℕ) (return_code : ℕ) (payload : Bytes)
    → object_index < 256
    → property_id < 256
    → return_code < 256
    → Encodes from_knx
        (function_property_state_response_to_knx object_index property_id return_code payload)
        (function_property_state_response object_index property_id return_code payload)
        (calculated_length
          (function_property_state_response object_index property_id return_code payload))
unfolding function_property_state_response_to_knx function_property_state_response_from_knx from_knx
    calculated_length
function_property_state_response-Encodes object_index property_id return_code payload h0 h1 h2 =
    ground arith
