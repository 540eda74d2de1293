-- ===== src/Cemi/Property.antt =====
-- xknx/cemi/cemi_frame.py: the device management services, CEMIMPropInfo and the requests and
-- responses that carry it; with CEMIErrorCode of xknx/cemi/const.py. An object type is kept as its
-- number, which is one of ResourceObjectType of xknx/profile/const.py; a property as its number.
pub mod RoundTrip
use xknx.Prelude.{
  ℕ, ◌+◌, ◌*◌, ◌/◌, ◌%◌, Bool, true, false, not, ◌&&◌, ◌||◌, ltb, leb, ◌==◌, if◌then◌else◌, [], ◌∷◌,
  ◌++◌, Bytes, length, to_bytes, Option, none, some, Result, ok, err, ◌>>=◌, ◌>>◌, raise_if,
  could_not_parse_cemi, unsupported_cemi_message, value_error, index_error,
}

pub record MPropInfo : Type 0 where
  pub object_type : ℕ
  pub object_instance : ℕ
  pub property_id : ℕ
  pub number_of_elements : ℕ
  pub start_index : ℕ

pub data CemiErrorCode : Type 0 where
  unspecified out_of_range out_of_max_range out_of_min_range memory read_only : CemiErrorCode
  illegal_command void_dp type_conflict prop_index_range temporarily_read_only : CemiErrorCode

unfoldable pub error_value : CemiErrorCode → ℕ
error_value unspecified = 0x00
error_value out_of_range = 0x01
error_value out_of_max_range = 0x02
error_value out_of_min_range = 0x03
error_value memory = 0x04
error_value read_only = 0x05
error_value illegal_command = 0x06
error_value void_dp = 0x07
error_value type_conflict = 0x08
error_value prop_index_range = 0x09
error_value temporarily_read_only = 0x0A

unfoldable pub error_of : ℕ → Result CemiErrorCode
error_of n =
    if n == 0x00
    then ok unspecified
    else if n == 0x01
    then ok out_of_range
    else if n == 0x02
    then ok out_of_max_range
    else if n == 0x03
    then ok out_of_min_range
    else if n == 0x04
    then ok memory
    else if n == 0x05
    then ok read_only
    else if n == 0x06
    then ok illegal_command
    else if n == 0x07
    then ok void_dp
    else if n == 0x08
    then ok type_conflict
    else if n == 0x09
    then ok prop_index_range
    else if n == 0x0A
    then ok temporarily_read_only
    else err value_error

-- The numbers of ResourceObjectType: up to 0x13, without 0x0C.
abbrev pub is_object_type : ℕ → Bool
is_object_type n = leb n 0x13 && not (n == 0x0C)

unfoldable pub info_from_knx : Bytes → Result MPropInfo
info_from_knx (t1 ∷ t2 ∷ i ∷ p ∷ n1 ∷ n2 ∷ []) = do
  raise_if (not (is_object_type (t1 * 256 + t2))) unsupported_cemi_message
  ok (record {
    object_type = t1 * 256 + t2;
    object_instance = i;
    property_id = p;
    number_of_elements = n1 / 16;
    start_index = (n1 * 256 + n2) % 0x1000;
  })
info_from_knx _ = err could_not_parse_cemi

unfoldable pub info_to_knx : MPropInfo → Result Bytes
info_to_knx info = do
  t ← to_bytes 2 info.object_type
  i ← to_bytes 1 info.object_instance
  p ← to_bytes 1 info.property_id
  n ← to_bytes 2 (info.number_of_elements * 4096 + info.start_index)
  ok (t ++ (i ++ (p ++ n)))

-- CEMIMPropReadRequest, CEMIMPropReadResponse, CEMIMPropWriteRequest, CEMIMPropWriteResponse.
pub record ReadRequest : Type 0 where
  pub property_info : MPropInfo

pub record PropertyData : Type 0 where
  pub property_info : MPropInfo
  pub payload : Bytes

pub record WriteResponse : Type 0 where
  pub property_info : MPropInfo
  pub error_code : Option CemiErrorCode

unfoldable pub read_request_from_knx : Bytes → Result ReadRequest
read_request_from_knx raw = do info ← info_from_knx raw; ok (record { property_info = info })

unfoldable pub read_request_to_knx : ReadRequest → Result Bytes
read_request_to_knx d = info_to_knx d.property_info

-- `raw[0:6]` and `raw[6:]`, where there are six octets.
abbrev pub cut_info : Bytes → Option (Bytes × Bytes)
cut_info (a ∷ b ∷ c ∷ d ∷ e ∷ f ∷ rest) = some (a ∷ b ∷ c ∷ d ∷ e ∷ f ∷ [], rest)
cut_info _ = none

read_response_of : Option (Bytes × Bytes) → Result PropertyData
read_response_of none = err could_not_parse_cemi
read_response_of (some (_, [])) = err could_not_parse_cemi
read_response_of (some (front, x ∷ rest)) = do
  info ← info_from_knx front
  raise_if (info.number_of_elements == 0 && not (length rest == 0)) could_not_parse_cemi
  ok (record { property_info = info; payload = x ∷ rest })

unfoldable pub read_response_from_knx : Bytes → Result PropertyData
unfolding read_response_of
read_response_from_knx raw = read_response_of (cut_info raw)

unfoldable pub property_data_to_knx : PropertyData → Result Bytes
property_data_to_knx d = do raw ← info_to_knx d.property_info; ok (raw ++ d.payload)

write_request_of : Option (Bytes × Bytes) → Result PropertyData
write_request_of none = err could_not_parse_cemi
write_request_of (some (_, [])) = err could_not_parse_cemi
write_request_of (some (front, x ∷ rest)) = do
  info ← info_from_knx front
  ok (record { property_info = info; payload = x ∷ rest })

unfoldable pub write_request_from_knx : Bytes → Result PropertyData
unfolding write_request_of
write_request_from_knx raw = write_request_of (cut_info raw)

-- What follows the property tells an error where the number of elements is 0.
write_result : Bool → MPropInfo → Bytes → Result WriteResponse
write_result true info (c ∷ []) = do
  e ← error_of c
  ok (record { property_info = info; error_code = some e })
write_result true info _ = err could_not_parse_cemi
write_result false info [] = ok (record { property_info = info; error_code = none })
write_result false info _ = err could_not_parse_cemi

write_response_of : Option (Bytes × Bytes) → Result WriteResponse
write_response_of none = err could_not_parse_cemi
write_response_of (some (front, rest)) = do
  info ← info_from_knx front
  write_result (info.number_of_elements == 0) info rest

unfoldable pub write_response_from_knx : Bytes → Result WriteResponse
unfolding write_response_of write_result
write_response_from_knx raw = write_response_of (cut_info raw)

-- `if self._error_code`: the code that is 0 counts as none.
error_octet : Option CemiErrorCode → Bytes
error_octet none = []
error_octet (some c) = if error_value c == 0 then [] else error_value c ∷ []

unfoldable pub write_response_to_knx : WriteResponse → Result Bytes
unfolding error_octet
write_response_to_knx d = do raw ← info_to_knx d.property_info; ok (raw ++ error_octet d.error_code)

-- `error_code` of a read response.
first_error : Bytes → Result (Option CemiErrorCode)
first_error [] = err index_error
first_error (c ∷ _) = do e ← error_of c; ok (some e)

unfoldable pub read_error_code : PropertyData → Result (Option CemiErrorCode)
unfolding first_error
read_error_code d =
    let failed = first_error d.payload in
    if d.property_info.number_of_elements == 0 then failed else ok none
