-- ===== src/Telegram/Apci/UserMemory.antt =====
-- xknx/telegram/apci.py: user memory, manufacturer information and function properties.
use xknx.Prelude.{
  ℕ, ◌+◌, ◌*◌, ◌/◌, ltb, [], ◌∷◌, ◌++◌, Bytes, bit_and, bit_or, Result, ok, err, conversion_error,
  ◌>>=◌, ◌>>◌, raise_if,
}
use xknx.Telegram.Apci.Pack.{encode, word, pack, pack_octet, fixed}
use xknx.Telegram.Apci.Services.{
  Apci, user_memory_read, user_memory_write, user_memory_response, user_manufacturer_info_read,
  user_manufacturer_info_response, function_property_command, function_property_state_read,
  function_property_state_response,
}

unfoldable pub user_memory_read_from_knx : Bytes → Result Apci
user_memory_read_from_knx (_ ∷ _ ∷ b ∷ h ∷ l ∷ []) =
    ok (user_memory_read (bit_and b 0xF0 / 16 * 65536 + word h l) (bit_and b 0xF))
user_memory_read_from_knx _ = err conversion_error

unfoldable pub user_memory_read_to_knx : ℕ → ℕ → Result Bytes
user_memory_read_to_knx address count = do
  raise_if (ltb 0xFFFFF address) conversion_error
  raise_if (ltb 0xF count) conversion_error
  p1 ← pack_octet (bit_or (bit_and address 0xF0000 / 65536 * 16) (bit_and count 0xF))
  p2 ← pack 2 (bit_and address 0xFFFF)
  ok (encode 0x2C0 0 (p1 ∷ p2))

unfoldable pub user_memory_write_from_knx : Bytes → Result Apci
user_memory_write_from_knx (_ ∷ _ ∷ b ∷ h ∷ l ∷ payload) =
    ok (user_memory_write (bit_and b 0xF0 / 16 * 65536 + word h l) payload (bit_and b 0xF))
user_memory_write_from_knx _ = err conversion_error

unfoldable pub user_memory_write_to_knx : ℕ → Bytes → ℕ → Result Bytes
user_memory_write_to_knx address payload count = do
  raise_if (ltb 0xFFFFF address) conversion_error
  raise_if (ltb 0xF count) conversion_error
  p1 ← pack_octet (bit_or (bit_and address 0xF0000 / 65536 * 16) (bit_and count 0xF))
  p2 ← pack 2 (bit_and address 0xFFFF)
  ok (encode 0x2C2 0 (p1 ∷ (p2 ++ payload)))

unfoldable pub user_memory_response_from_knx : Bytes → Result Apci
user_memory_response_from_knx (_ ∷ _ ∷ b ∷ h ∷ l ∷ payload) =
    ok (user_memory_response (bit_and b 0xF0 / 16 * 65536 + word h l) payload (bit_and b 0xF))
user_memory_response_from_knx _ = err conversion_error

unfoldable pub user_memory_response_to_knx : ℕ → Bytes → ℕ → Result Bytes
user_memory_response_to_knx address payload count = do
  raise_if (ltb 0xFFFFF address) conversion_error
  raise_if (ltb 0xF count) conversion_error
  p1 ← pack_octet (bit_or (bit_and address 0xF0000 / 65536 * 16) (bit_and count 0xF))
  p2 ← pack 2 (bit_and address 0xFFFF)
  ok (encode 0x2C1 0 (p1 ∷ (p2 ++ payload)))

unfoldable pub user_manufacturer_info_read_from_knx : Bytes → Result Apci
user_manufacturer_info_read_from_knx (_ ∷ _ ∷ []) = ok user_manufacturer_info_read
user_manufacturer_info_read_from_knx _ = err conversion_error

unfoldable pub user_manufacturer_info_read_to_knx : Result Bytes
user_manufacturer_info_read_to_knx = ok (encode 0x2C5 0 [])

unfoldable pub user_manufacturer_info_response_from_knx : Bytes → Result Apci
user_manufacturer_info_response_from_knx (_ ∷ _ ∷ m ∷ x ∷ y ∷ []) =
    ok (user_manufacturer_info_response m (x ∷ y ∷ []))
user_manufacturer_info_response_from_knx _ = err conversion_error

unfoldable pub user_manufacturer_info_response_to_knx : ℕ → Bytes → Result Bytes
user_manufacturer_info_response_to_knx manufacturer_id payload = do
  p1 ← pack_octet manufacturer_id
  ok (encode 0x2C6 0 (p1 ∷ fixed 2 payload))

unfoldable pub function_property_command_from_knx : Bytes → Result Apci
function_property_command_from_knx (_ ∷ _ ∷ o ∷ p ∷ payload) =
    ok (function_property_command o p payload)
function_property_command_from_knx _ = err conversion_error

unfoldable pub function_property_command_to_knx : ℕ → ℕ → Bytes → Result Bytes
function_property_command_to_knx object_index property_id payload = do
  p1 ← pack_octet object_index
  p2 ← pack_octet property_id
  ok (encode 0x2C7 0 (p1 ∷ p2 ∷ payload))

unfoldable pub function_property_state_read_from_knx : Bytes → Result Apci
function_property_state_read_from_knx (_ ∷ _ ∷ o ∷ p ∷ payload) =
    ok (function_property_state_read o p payload)
function_property_state_read_from_knx _ = err conversion_error

unfoldable pub function_property_state_read_to_knx : ℕ → ℕ → Bytes → Result Bytes
function_property_state_read_to_knx object_index property_id payload = do
  p1 ← pack_octet object_index
  p2 ← pack_octet property_id
  ok (encode 0x2C8 0 (p1 ∷ p2 ∷ payload))

unfoldable pub function_property_state_response_from_knx : Bytes → Result Apci
function_property_state_response_from_knx (_ ∷ _ ∷ o ∷ p ∷ r ∷ payload) =
    ok (function_property_state_response o p r payload)
function_property_state_response_from_knx _ = err conversion_error

unfoldable pub function_property_state_response_to_knx : ℕ → ℕ → ℕ → Bytes → Result Bytes
function_property_state_response_to_knx object_index property_id return_code payload = do
  p1 ← pack_octet object_index
  p2 ← pack_octet property_id
  p3 ← pack_octet return_code
  ok (encode 0x2C9 0 (p1 ∷ p2 ∷ p3 ∷ payload))
