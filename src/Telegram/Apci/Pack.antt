-- ===== src/Telegram/Apci/Pack.antt =====
-- xknx/telegram/apci.py: the command octets, the shared headers, and return codes. `struct.pack`
-- raises where a number does not fit.
use xknx.Prelude.{
  ℕ, zero, suc, ◌+◌, ◌*◌, ◌/◌, ◌^◌, ◌≡◌, refl, ltb, ◌==◌, if◌then◌else◌, [], ◌∷◌, ◌++◌, Bytes, take,
  big_endian, bit_and, bit_or, Result, ok, err, conversion_error, struct_error, ◌>>=◌, ◌>>◌,
  raise_if,
}

-- `encode_cmd_and_payload`
abbrev pub encode : ℕ → ℕ → Bytes → Bytes
encode code payload appended =
    bit_and (code / 256) 3 ∷ bit_or (bit_and code 0xFF) (bit_and payload 0x3F) ∷ appended

-- Two octets, the high one first; the high one may stand for several.
abbrev pub word : ℕ → ℕ → ℕ
word h l = h * 256 + l

-- `struct.pack` of one number of `w` octets, and of one octet.
abbrev pub pack : ℕ → ℕ → Result Bytes
pack w n = if ltb n (256 ^ w) then ok (big_endian w n) else err struct_error

abbrev pub pack_octet : ℕ → Result ℕ
pack_octet n = if ltb n 256 then ok n else err struct_error

-- `struct.pack("2s", text)` fills up with zeros, or cuts.
abbrev zeros : ℕ → Bytes
zeros zero = []
zeros (suc n) = 0 ∷ zeros n

abbrev pub fixed : ℕ → Bytes → Bytes
fixed w text = take w (text ++ zeros w)

unfoldable pub pack_function_property_ext_header : ℕ → ℕ → ℕ → Result Bytes
pack_function_property_ext_header interface_object_type object_instance property_id = do
  raise_if (ltb 0xFFFF interface_object_type) conversion_error
  raise_if (ltb 0xFFF object_instance) conversion_error
  raise_if (ltb 0xFFF property_id) conversion_error
  t ← pack 2 interface_object_type
  a ← pack_octet (object_instance / 16)
  b ← pack_octet (bit_or (bit_and object_instance 0xF * 16) (property_id / 256))
  c ← pack_octet (bit_and property_id 0xFF)
  ok (t ++ (a ∷ b ∷ c ∷ []))

unfoldable pub pack_system_network_parameter_header : ℕ → ℕ → Result Bytes
pack_system_network_parameter_header object_type property_id = do
  raise_if (ltb 0xFFFF object_type) conversion_error
  raise_if (ltb 0xFFF property_id) conversion_error
  t ← pack 2 object_type
  p ← pack 2 (property_id * 16)
  ok (t ++ p)

unfoldable pub pack_group_prop_value_header : ℕ → ℕ → ℕ → Result Bytes
pack_group_prop_value_header object_type object_instance property_id = do
  raise_if (ltb 0xFFFF object_type) conversion_error
  raise_if (ltb 0xFF object_instance) conversion_error
  raise_if (ltb 0xFF property_id) conversion_error
  t ← pack 2 object_type
  i ← pack_octet object_instance
  p ← pack_octet property_id
  ok (t ++ (i ∷ p ∷ []))

pub data ReturnCode : Type 0 where
  e_success e_memory_error e_command_invalid e_command_impossible : ReturnCode
  e_length_exceeds_max_apdu_length e_data_overflow e_data_min e_data_max e_data_void : ReturnCode
  e_temporarily_not_available e_access_write_only e_access_read_only e_access_denied : ReturnCode
  e_address_void e_data_type_conflict e_error : ReturnCode

unfoldable pub value : ReturnCode → ℕ
value e_success = 0x00
value e_memory_error = 0xF1
value e_command_invalid = 0xF2
value e_command_impossible = 0xF3
value e_length_exceeds_max_apdu_length = 0xF4
value e_data_overflow = 0xF5
value e_data_min = 0xF6
value e_data_max = 0xF7
value e_data_void = 0xF8
value e_temporarily_not_available = 0xF9
value e_access_write_only = 0xFA
value e_access_read_only = 0xFB
value e_access_denied = 0xFC
value e_address_void = 0xFD
value e_data_type_conflict = 0xFE
value e_error = 0xFF

-- `ReturnCode(n)`, with the exception that the callers raise instead.
unfoldable pub of_value : ℕ → Result ReturnCode
of_value n =
    if n == 0x00
    then ok e_success
    else if n == 0xF1
    then ok e_memory_error
    else if n == 0xF2
    then ok e_command_invalid
    else if n == 0xF3
    then ok e_command_impossible
    else if n == 0xF4
    then ok e_length_exceeds_max_apdu_length
    else if n == 0xF5
    then ok e_data_overflow
    else if n == 0xF6
    then ok e_data_min
    else if n == 0xF7
    then ok e_data_max
    else if n == 0xF8
    then ok e_data_void
    else if n == 0xF9
    then ok e_temporarily_not_available
    else if n == 0xFA
    then ok e_access_write_only
    else if n == 0xFB
    then ok e_access_read_only
    else if n == 0xFC
    then ok e_access_denied
    else if n == 0xFD
    then ok e_address_void
    else if n == 0xFE
    then ok e_data_type_conflict
    else if n == 0xFF
    then ok e_error
    else err conversion_error

pub of_value-value : (c : ReturnCode) → of_value (value c) ≡ ok c
unfolding of_value value
of_value-value e_success = refl
of_value-value _ = refl
