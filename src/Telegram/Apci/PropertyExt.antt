-- ===== src/Telegram/Apci/PropertyExt.antt =====
-- xknx/telegram/apci.py: extended function properties and property values.
use xknx.Prelude.{
  ℕ, ◌*◌, ◌/◌, ltb, [], ◌∷◌, ◌++◌, Bytes, bit_and, bit_or, Result, ok, err, conversion_error, ◌>>=◌,
  ◌>>◌, raise_if,
}
use xknx.Telegram.Apci.Pack.{
  encode, word, pack, pack_octet, pack_function_property_ext_header, ReturnCode, value, of_value,
}
use xknx.Telegram.Apci.Services.{
  Apci, function_property_ext_command, function_property_ext_state_read,
  function_property_ext_state_response, property_ext_value_read, property_ext_value_response,
  property_ext_value_write_con, property_ext_value_write_un_con, property_ext_value_info_report,
  property_ext_value_write_con_res,
}

unfoldable pub function_property_ext_command_from_knx : Bytes → Result Apci
function_property_ext_command_from_knx (_ ∷ _ ∷ x ∷ y ∷ u ∷ v ∷ w ∷ payload) = ok (
    function_property_ext_command (word x y) (bit_or (u * 16) (v / 16))
      (bit_or (bit_and v 15 * 256) w) payload)
function_property_ext_command_from_knx _ = err conversion_error

unfoldable pub function_property_ext_command_to_knx : ℕ → ℕ → ℕ → Bytes → Result Bytes
function_property_ext_command_to_knx object_type object_instance property_id payload = do
  p1 ← pack_function_property_ext_header object_type object_instance property_id
  ok (encode 0x1D4 0 (p1 ++ payload))

unfoldable pub function_property_ext_state_read_from_knx : Bytes → Result Apci
function_property_ext_state_read_from_knx (_ ∷ _ ∷ x ∷ y ∷ u ∷ v ∷ w ∷ payload) = ok (
    function_property_ext_state_read (word x y) (bit_or (u * 16) (v / 16))
      (bit_or (bit_and v 15 * 256) w) payload)
function_property_ext_state_read_from_knx _ = err conversion_error

unfoldable pub function_property_ext_state_read_to_knx : ℕ → ℕ → ℕ → Bytes → Result Bytes
function_property_ext_state_read_to_knx object_type object_instance property_id payload = do
  p1 ← pack_function_property_ext_header object_type object_instance property_id
  ok (encode 0x1D5 0 (p1 ++ payload))

unfoldable pub function_property_ext_state_response_from_knx : Bytes → Result Apci
function_property_ext_state_response_from_knx (_ ∷ _ ∷ x ∷ y ∷ u ∷ v ∷ w ∷ r ∷ payload) = do
  code ← of_value r
  ok (
      function_property_ext_state_response (word x y) (bit_or (u * 16) (v / 16))
        (bit_or (bit_and v 15 * 256) w) code payload)
function_property_ext_state_response_from_knx _ = err conversion_error

unfoldable pub function_property_ext_state_response_to_knx :
    ℕ → ℕ → ℕ → ReturnCode → Bytes → Result Bytes
function_property_ext_state_response_to_knx object_type object_instance property_id return_code
      payload =
    do
      p1 ← pack_function_property_ext_header object_type object_instance property_id
      ok (encode 0x1D6 0 (p1 ++ (value return_code ∷ payload)))

unfoldable pub property_ext_value_read_from_knx : Bytes → Result Apci
property_ext_value_read_from_knx (_ ∷ _ ∷ x ∷ y ∷ u ∷ v ∷ w ∷ n ∷ h ∷ l ∷ []) = ok (
    property_ext_value_read (word x y) (bit_or (u * 16) (v / 16)) (bit_or (bit_and v 15 * 256) w) n
      (word h l))
property_ext_value_read_from_knx _ = err conversion_error

unfoldable pub property_ext_value_read_to_knx : ℕ → ℕ → ℕ → ℕ → ℕ → Result Bytes
property_ext_value_read_to_knx object_type object_instance property_id nr_of_elem start_index = do
  raise_if (ltb 255 nr_of_elem) conversion_error
  raise_if (ltb 65535 start_index) conversion_error
  p1 ← pack_function_property_ext_header object_type object_instance property_id
  p2 ← pack_octet nr_of_elem
  p3 ← pack 2 start_index
  ok (encode 0x1CC 0 (p1 ++ (p2 ∷ p3)))

unfoldable pub property_ext_value_response_from_knx : Bytes → Result Apci
property_ext_value_response_from_knx (_ ∷ _ ∷ x ∷ y ∷ u ∷ v ∷ w ∷ n ∷ h ∷ l ∷ payload) = ok (
    property_ext_value_response (word x y) (bit_or (u * 16) (v / 16))
      (bit_or (bit_and v 15 * 256) w) n (word h l) payload)
property_ext_value_response_from_knx _ = err conversion_error

unfoldable pub property_ext_value_response_to_knx : ℕ → ℕ → ℕ → ℕ → ℕ → Bytes → Result Bytes
property_ext_value_response_to_knx object_type object_instance property_id nr_of_elem start_index
      payload =
    do
      raise_if (ltb 255 nr_of_elem) conversion_error
      raise_if (ltb 65535 start_index) conversion_error
      p1 ← pack_function_property_ext_header object_type object_instance property_id
      p2 ← pack_octet nr_of_elem
      p3 ← pack 2 start_index
      ok (encode 0x1CD 0 (p1 ++ (p2 ∷ (p3 ++ payload))))

unfoldable pub property_ext_value_write_con_from_knx : Bytes → Result Apci
property_ext_value_write_con_from_knx (_ ∷ _ ∷ x ∷ y ∷ u ∷ v ∷ w ∷ n ∷ h ∷ l ∷ payload) = ok (
    property_ext_value_write_con (word x y) (bit_or (u * 16) (v / 16))
      (bit_or (bit_and v 15 * 256) w) n (word h l) payload)
property_ext_value_write_con_from_knx _ = err conversion_error

unfoldable pub property_ext_value_write_con_to_knx : ℕ → ℕ → ℕ → ℕ → ℕ → Bytes → Result Bytes
property_ext_value_write_con_to_knx object_type object_instance property_id nr_of_elem start_index
      payload =
    do
      raise_if (ltb 255 nr_of_elem) conversion_error
      raise_if (ltb 65535 start_index) conversion_error
      p1 ← pack_function_property_ext_header object_type object_instance property_id
      p2 ← pack_octet nr_of_elem
      p3 ← pack 2 start_index
      ok (encode 0x1CE 0 (p1 ++ (p2 ∷ (p3 ++ payload))))

unfoldable pub property_ext_value_write_un_con_from_knx : Bytes → Result Apci
property_ext_value_write_un_con_from_knx (_ ∷ _ ∷ x ∷ y ∷ u ∷ v ∷ w ∷ n ∷ h ∷ l ∷ payload) = ok (
    property_ext_value_write_un_con (word x y) (bit_or (u * 16) (v / 16))
      (bit_or (bit_and v 15 * 256) w) n (word h l) payload)
property_ext_value_write_un_con_from_knx _ = err conversion_error

unfoldable pub property_ext_value_write_un_con_to_knx : ℕ → ℕ → ℕ → ℕ → ℕ → Bytes → Result Bytes
property_ext_value_write_un_con_to_knx object_type object_instance property_id nr_of_elem
      start_index payload =
    do
      raise_if (ltb 255 nr_of_elem) conversion_error
      raise_if (ltb 65535 start_index) conversion_error
      p1 ← pack_function_property_ext_header object_type object_instance property_id
      p2 ← pack_octet nr_of_elem
      p3 ← pack 2 start_index
      ok (encode 0x1D0 0 (p1 ++ (p2 ∷ (p3 ++ payload))))

unfoldable pub property_ext_value_info_report_from_knx : Bytes → Result Apci
property_ext_value_info_report_from_knx (_ ∷ _ ∷ x ∷ y ∷ u ∷ v ∷ w ∷ n ∷ h ∷ l ∷ payload) = ok (
    property_ext_value_info_report (word x y) (bit_or (u * 16) (v / 16))
      (bit_or (bit_and v 15 * 256) w) n (word h l) payload)
property_ext_value_info_report_from_knx _ = err conversion_error

unfoldable pub property_ext_value_info_report_to_knx : ℕ → ℕ → ℕ → ℕ → ℕ → Bytes → Result Bytes
property_ext_value_info_report_to_knx object_type object_instance property_id nr_of_elem start_index
      payload =
    do
      raise_if (ltb 255 nr_of_elem) conversion_error
      raise_if (ltb 65535 start_index) conversion_error
      p1 ← pack_function_property_ext_header object_type object_instance property_id
      p2 ← pack_octet nr_of_elem
      p3 ← pack 2 start_index
      ok (encode 0x1D1 0 (p1 ++ (p2 ∷ (p3 ++ payload))))

unfoldable pub property_ext_value_write_con_res_from_knx : Bytes → Result Apci
property_ext_value_write_con_res_from_knx (_ ∷ _ ∷ x ∷ y ∷ u ∷ v ∷ w ∷ n ∷ h ∷ l ∷ r ∷ []) = do
  code ← of_value r
  ok (
      property_ext_value_write_con_res (word x y) (bit_or (u * 16) (v / 16))
        (bit_or (bit_and v 15 * 256) w) code n (word h l))
property_ext_value_write_con_res_from_knx _ = err conversion_error

unfoldable pub property_ext_value_write_con_res_to_knx :
    ℕ → ℕ → ℕ → ReturnCode → ℕ → ℕ → Result Bytes
property_ext_value_write_con_res_to_knx object_type object_instance property_id return_code
      nr_of_elem start_index =
    do
      raise_if (ltb 255 nr_of_elem) conversion_error
      raise_if (ltb 65535 start_index) conversion_error
      p1 ← pack_function_property_ext_header object_type object_instance property_id
      p2 ← pack_octet nr_of_elem
      p3 ← pack 2 start_index
      ok (encode 0x1CF 0 (p1 ++ (p2 ∷ (p3 ++ (value return_code ∷ [])))))
