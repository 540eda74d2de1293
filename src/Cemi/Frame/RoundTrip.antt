-- ===== src/Cemi/Frame/RoundTrip.antt =====
-- Frames are read back, whatever their kind.
use xknx.Prelude.{
  ℕ, ◌<◌, ◌≤◌, ◌≡◌, refl, ap, true, [], ◌∷◌, ◌++◌, Bytes, length, take-append_self,
  drop-append_self, length-append, Option, none, some, ok, arith,
}
use xknx.Cemi.Frame.{
  CemiMessageCode, l_data_req, l_data_ind, l_data_con, m_prop_read_req, m_prop_read_con,
  m_prop_write_req, m_prop_write_con, CemiData, link_data, read_request, read_response,
  write_request, write_response, CemiFrame, info_from_knx, info_to_knx, to_knx, from_knx,
  calculated_length, code_value, code_of, has_info, has_data, error_length,
}
use xknx.Cemi.LinkData.{CemiLData}
use xknx.Cemi.LinkData as LinkData
use xknx.Cemi.LinkData.RoundTrip.{IsSendable, sent, to_knx-IsSendable}
use xknx.Cemi.Property.{ReadRequest, PropertyData, WriteResponse, CemiErrorCode}
use xknx.Cemi.Property.RoundTrip.{
  FitsInfo, FitsError, read_request_lem, read_response_lem, write_request_lem, write_response_lem,
  error_octets,
}

-- The content goes with the message code, and fits; a property service has no additional
-- information.
abbrev pub Suits : CemiMessageCode → Bytes → Option CemiData → Type 0
Suits l_data_req info (some (link_data d)) = (length info < 256) × IsSendable d
Suits l_data_ind info (some (link_data d)) = (length info < 256) × IsSendable d
Suits l_data_con info (some (link_data d)) = (length info < 256) × IsSendable d
Suits m_prop_read_req [] (some (read_request d)) = FitsInfo d.property_info
Suits m_prop_read_con [] (some (read_response d)) =
    FitsInfo d.property_info
    × (1 ≤ length d.payload)
    × (d.property_info.number_of_elements ≡ 0 → length d.payload ≡ 1)
Suits m_prop_write_req [] (some (write_request d)) =
    FitsInfo d.property_info × (1 ≤ length d.payload)
Suits m_prop_write_con [] (some (write_response d)) =
    FitsInfo d.property_info × FitsError d.property_info.number_of_elements d.error_code
Suits _ info content = ⊥

-- The content that is read: link layer data has the frame type of its length.
abbrev read_content : Option CemiData → Option CemiData
read_content (some (link_data d)) = some (link_data (sent d))
read_content content = content

abbrev pub IsReadBack : CemiMessageCode → Bytes → Option CemiData → Type 0
IsReadBack code info content =
    let frame : CemiFrame = record { code = code; info = info; content = content } in
    (raw : Bytes) × (to_knx frame ≡ ok raw)
    × (from_knx raw ≡ ok (record { code = code; info = info; content = read_content content }))
    × (calculated_length frame ≡ ok (length raw))

link_lem :
    (code : CemiMessageCode) (info : Bytes) (d : CemiLData)
    → has_info code ≡ true
    → has_data code ≡ true
    → ((raw rest : Bytes) (x : CemiLData)
        → info_from_knx raw ≡ ok (info, rest)
        → LinkData.from_knx rest ≡ ok x
        → from_knx (code_value code ∷ raw)
          ≡ ok (record { code = code; info = info; content = some (link_data x) }))
    → length info < 256
    → IsSendable d
    → IsReadBack code info (some (link_data d))
unfolding to_knx calculated_length info_to_knx info_from_knx
link_lem code info d i j read h s =
    let (raw, written, back, total) = to_knx-IsSendable d s in
    (
      code_value code ∷ length info ∷ info ++ raw,
      rw (i, j) (rw written (ground arith)),
      read (length info ∷ info ++ raw) raw (sent d)
          (rw (take-append_self info raw, drop-append_self info raw) refl) back,
      rw (i, j) (rw total (rw (length-append info raw) (ap ok (omega arith)))),
    )

-- A property service has no additional information.
read_request-IsReadBack :
    (d : ReadRequest)
    → FitsInfo d.property_info
    → IsReadBack m_prop_read_req [] (some (read_request d))
unfolding to_knx from_knx calculated_length has_info has_data code_value code_of
read_request-IsReadBack d h =
    let (raw, written, read, n) = read_request_lem d h in
    (0xFC ∷ raw, rw written refl, rw read refl, rw n refl)

read_response-IsReadBack :
    (d : PropertyData)
    → Suits m_prop_read_con [] (some (read_response d))
    → IsReadBack m_prop_read_con [] (some (read_response d))
unfolding to_knx from_knx calculated_length has_info has_data code_value code_of
read_response-IsReadBack d h =
    let (raw, written, read, n) = read_response_lem d h.0 h.1 h.2 in
    (0xFB ∷ raw, rw written refl, rw read refl, ap ok (omega (arith, n)))

write_request-IsReadBack :
    (d : PropertyData)
    → Suits m_prop_write_req [] (some (write_request d))
    → IsReadBack m_prop_write_req [] (some (write_request d))
unfolding to_knx from_knx calculated_length has_info has_data code_value code_of
write_request-IsReadBack d h =
    let (raw, written, read, n) = write_request_lem d h.0 h.1 in
    (0xF6 ∷ raw, rw written refl, rw read refl, ap ok (omega (arith, n)))

error_length_lem :
    (n : ℕ) (o : Option CemiErrorCode) → FitsError n o → error_length o ≡ error_octets o
error_length_lem n none h = refl
error_length_lem n (some c) h = ground arith

write_response-IsReadBack :
    (d : WriteResponse)
    → Suits m_prop_write_con [] (some (write_response d))
    → IsReadBack m_prop_write_con [] (some (write_response d))
unfolding to_knx from_knx calculated_length has_info has_data code_value code_of
write_response-IsReadBack d h =
    let (raw, written, read, n) = write_response_lem d h.0 h.1 in
    (
      0xF5 ∷ raw,
      rw written refl,
      rw read refl,
      ap ok
          (omega (arith, n, error_length_lem d.property_info.number_of_elements d.error_code h.1)),
    )

-- A frame whose content goes with its message code and fits is written, as many octets as
-- `calculated_length` gives, and read as the same frame, in which link layer data has the frame type
-- of its length.
pub to_knx-Suits :
    (code : CemiMessageCode) (info : Bytes) (content : Option CemiData)
    → Suits code info content
    → IsReadBack code info content
unfolding from_knx has_info has_data code_value code_of
to_knx-Suits l_data_req info (some (link_data d)) h =
    link_lem l_data_req info d refl refl (λ raw rest x e k. rw e (rw k refl)) h.0 h.1
to_knx-Suits l_data_ind info (some (link_data d)) h =
    link_lem l_data_ind info d refl refl (λ raw rest x e k. rw e (rw k refl)) h.0 h.1
to_knx-Suits l_data_con info (some (link_data d)) h =
    link_lem l_data_con info d refl refl (λ raw rest x e k. rw e (rw k refl)) h.0 h.1
to_knx-Suits m_prop_read_req [] (some (read_request d)) h = read_request-IsReadBack d h
to_knx-Suits m_prop_read_con [] (some (read_response d)) h = read_response-IsReadBack d h
to_knx-Suits m_prop_write_req [] (some (write_request d)) h = write_request-IsReadBack d h
to_knx-Suits m_prop_write_con [] (some (write_response d)) h = write_response-IsReadBack d h
to_knx-Suits _ info content h = absurd h
