-- ===== src/Cemi/Frame.antt =====
-- xknx/cemi/cemi_frame.py: CEMIInfo and CEMIFrame; with CEMIMessageCode of xknx/cemi/const.py.
pub mod RoundTrip
use xknx.Prelude.{
  ℕ, suc, ◌+◌, Bool, true, false, ltb, ◌==◌, if◌then◌else◌, [], ◌∷◌, ◌++◌, Bytes, length, take,
  drop, Option, none, some, Result, ok, err, ◌>>=◌, ◌>>◌, raise_if, unsupported_cemi_message,
  index_error, value_error,
}
use xknx.Cemi.LinkData.{CemiLData}
use xknx.Cemi.LinkData as LinkData
use xknx.Cemi.Property.{
  ReadRequest, PropertyData, WriteResponse, read_request_from_knx, read_request_to_knx,
  read_response_from_knx, property_data_to_knx, write_request_from_knx, write_response_from_knx,
  write_response_to_knx, error_value, CemiErrorCode,
}

-- The enum has a second name for `m_func_prop_command_con`.
pub data CemiMessageCode : Type 0 where
  l_raw_req l_data_req l_poll_data_req l_poll_data_con l_data_ind l_busmon_ind : CemiMessageCode
  l_raw_ind l_data_con l_raw_con m_prop_read_req m_prop_read_con : CemiMessageCode
  m_prop_write_req m_prop_write_con m_prop_info_ind m_func_prop_command_req : CemiMessageCode
  m_func_prop_state_read_req m_func_prop_command_con m_reset_req m_reset_ind : CemiMessageCode

unfoldable pub code_value : CemiMessageCode → ℕ
code_value l_raw_req = 0x10
code_value l_data_req = 0x11
code_value l_poll_data_req = 0x13
code_value l_poll_data_con = 0x25
code_value l_data_ind = 0x29
code_value l_busmon_ind = 0x2B
code_value l_raw_ind = 0x2D
code_value l_data_con = 0x2E
code_value l_raw_con = 0x2F
code_value m_prop_read_req = 0xFC
code_value m_prop_read_con = 0xFB
code_value m_prop_write_req = 0xF6
code_value m_prop_write_con = 0xF5
code_value m_prop_info_ind = 0xF7
code_value m_func_prop_command_req = 0xF8
code_value m_func_prop_state_read_req = 0xF9
code_value m_func_prop_command_con = 0xFA
code_value m_reset_req = 0xF1
code_value m_reset_ind = 0xF0

-- `CEMIMessageCode(n)`
unfoldable pub code_of : ℕ → Option CemiMessageCode
code_of n =
    if n == 0x10
    then some l_raw_req
    else if n == 0x11
    then some l_data_req
    else if n == 0x13
    then some l_poll_data_req
    else if n == 0x25
    then some l_poll_data_con
    else if n == 0x29
    then some l_data_ind
    else if n == 0x2B
    then some l_busmon_ind
    else if n == 0x2D
    then some l_raw_ind
    else if n == 0x2E
    then some l_data_con
    else if n == 0x2F
    then some l_raw_con
    else if n == 0xFC
    then some m_prop_read_req
    else if n == 0xFB
    then some m_prop_read_con
    else if n == 0xF6
    then some m_prop_write_req
    else if n == 0xF5
    then some m_prop_write_con
    else if n == 0xF7
    then some m_prop_info_ind
    else if n == 0xF8
    then some m_func_prop_command_req
    else if n == 0xF9
    then some m_func_prop_state_read_req
    else if n == 0xFA
    then some m_func_prop_command_con
    else if n == 0xF1
    then some m_reset_req
    else if n == 0xF0
    then some m_reset_ind
    else none

pub data CemiData : Type 0 where
  link_data : CemiLData → CemiData
  read_request : ReadRequest → CemiData
  read_response write_request : PropertyData → CemiData
  write_response : WriteResponse → CemiData

-- The additional information is its octets.
pub record CemiFrame : Type 0 where
  pub code : CemiMessageCode
  pub info : Bytes
  pub content : Option CemiData

unfoldable pub info_from_knx : Bytes → Result (Bytes × Bytes)
info_from_knx [] = err index_error
info_from_knx (n ∷ raw) = ok (take n raw, drop n raw)

unfoldable pub info_to_knx : Bytes → Result Bytes
info_to_knx info = do raise_if (ltb 255 (length info)) value_error; ok (length info ∷ info)

unfoldable pub has_info : CemiMessageCode → Bool
has_info l_raw_req = true
has_info l_data_req = true
has_info l_poll_data_req = true
has_info l_poll_data_con = true
has_info l_data_ind = true
has_info l_busmon_ind = true
has_info l_raw_ind = true
has_info l_data_con = true
has_info l_raw_con = true
has_info _ = false

unfoldable pub has_data : CemiMessageCode → Bool
has_data m_reset_req = false
has_data m_reset_ind = false
has_data _ = true

-- `1 if self._error_code else 0`: the code that is 0 counts as none.
abbrev pub error_length : Option CemiErrorCode → ℕ
error_length none = 0
error_length (some c) = if error_value c == 0 then 0 else 1

data_length : CemiData → Result ℕ
data_length (link_data d) = LinkData.calculated_length d
data_length (read_request d) = ok 6
data_length (read_response d) = ok (6 + length d.payload)
data_length (write_request d) = ok (6 + length d.payload)
data_length (write_response d) = ok (6 + error_length d.error_code)

data_to_knx : CemiData → Result Bytes
data_to_knx (link_data d) = LinkData.to_knx d
data_to_knx (read_request d) = read_request_to_knx d
data_to_knx (read_response d) = property_data_to_knx d
data_to_knx (write_request d) = property_data_to_knx d
data_to_knx (write_response d) = write_response_to_knx d

-- What a frame with a code that has data does where it has none.
abbrev on_data {ℓ} : {A : Type ℓ} → Bool → A → (CemiData → Result A) → Option CemiData → Result A
on_data false empty f content = ok empty
on_data true empty f none = err unsupported_cemi_message
on_data true empty f (some d) = f d

unfoldable pub calculated_length : CemiFrame → Result ℕ
unfolding data_length
calculated_length f = do
  n ← on_data (has_data f.code) 0 data_length f.content
  ok (1 + (if has_info f.code then 1 + length f.info else 0) + n)

unfoldable pub to_knx : CemiFrame → Result Bytes
unfolding data_to_knx
to_knx f = do
  let packed = info_to_knx f.info
  front ← (if has_info f.code then packed else ok [])
  raw ← on_data (has_data f.code) [] data_to_knx f.content
  ok (code_value f.code ∷ front ++ raw)

link_frame : CemiMessageCode → Bytes → Result CemiFrame
link_frame code raw = do
  (info, remainder) ← info_from_knx raw
  d ← LinkData.from_knx remainder
  ok (record { code = code; info = info; content = some (link_data d) })

abbrev property_frame {ℓ} :
    {A : Type ℓ} → CemiMessageCode → (A → CemiData) → Result A → Result CemiFrame
property_frame code make r = do
  d ← r
  ok (record { code = code; info = []; content = some (make d) })

frame_of : Option CemiMessageCode → Bytes → Result CemiFrame
unfolding link_frame
frame_of (some l_data_ind) raw = link_frame l_data_ind raw
frame_of (some l_data_req) raw = link_frame l_data_req raw
frame_of (some l_data_con) raw = link_frame l_data_con raw
frame_of (some m_prop_read_req) raw =
    property_frame m_prop_read_req read_request (read_request_from_knx raw)
frame_of (some m_prop_read_con) raw =
    property_frame m_prop_read_con read_response (read_response_from_knx raw)
frame_of (some m_prop_write_req) raw =
    property_frame m_prop_write_req write_request (write_request_from_knx raw)
frame_of (some m_prop_write_con) raw =
    property_frame m_prop_write_con write_response (write_response_from_knx raw)
frame_of _ raw = err unsupported_cemi_message

unfoldable pub from_knx : Bytes → Result CemiFrame
unfolding frame_of
from_knx [] = err index_error
from_knx (c ∷ raw) = frame_of (code_of c) raw
