-- ===== src/Telegram/Apci/Serial.antt =====
-- xknx/telegram/apci.py: serial numbers, file streams and links.
use xknx.Prelude.{
  ℕ, ◌*◌, ◌/◌, not, ◌==◌, ltb, [], ◌∷◌, ◌++◌, Bytes, length, bit_and, bit_or, Result, ok, err,
  conversion_error, ◌>>=◌, ◌>>◌, raise_if,
}
use xknx.Prelude.Int.{pos}
use xknx.Telegram.Address.{IndividualAddress, individual_address, int_arg, individual_to_knx}
use xknx.Telegram.Apci.Pack.{encode, word, pack, pack_octet}
use xknx.Telegram.Apci.Services.{
  Apci, individual_address_serial_read, individual_address_serial_response,
  individual_address_serial_write, domain_address_serial_number_read, domain_address_read,
  file_stream_info_report, link_read,
}

unfoldable pub individual_address_serial_read_from_knx : Bytes → Result Apci
individual_address_serial_read_from_knx (_ ∷ _ ∷ a ∷ b ∷ c ∷ d ∷ e ∷ f ∷ []) =
    ok (individual_address_serial_read (a ∷ b ∷ c ∷ d ∷ e ∷ f ∷ []))
individual_address_serial_read_from_knx _ = err conversion_error

unfoldable pub individual_address_serial_read_to_knx : Bytes → Result Bytes
individual_address_serial_read_to_knx serial = do
  raise_if (not (length serial == 6)) conversion_error
  ok (encode 0x3DC 0 serial)

unfoldable pub individual_address_serial_response_from_knx : Bytes → Result Apci
individual_address_serial_response_from_knx (_ ∷ _ ∷ a ∷ b ∷ c ∷ d ∷ e ∷ f ∷ h ∷ l ∷ _ ∷ _ ∷ []) =
    do
      address ← individual_address (int_arg (pos (word h l)))
      ok (individual_address_serial_response (a ∷ b ∷ c ∷ d ∷ e ∷ f ∷ []) address)
individual_address_serial_response_from_knx _ = err conversion_error

unfoldable pub individual_address_serial_response_to_knx : Bytes → IndividualAddress → Result Bytes
individual_address_serial_response_to_knx serial address = do
  raise_if (not (length serial == 6)) conversion_error
  p2 ← individual_to_knx address
  p3 ← pack 2 0
  ok (encode 0x3DD 0 (serial ++ (p2 ++ p3)))

unfoldable pub individual_address_serial_write_from_knx : Bytes → Result Apci
individual_address_serial_write_from_knx
      (_ ∷ _ ∷ a ∷ b ∷ c ∷ d ∷ e ∷ f ∷ h ∷ l ∷ _ ∷ _ ∷ _ ∷ _ ∷ []) =
    do
      address ← individual_address (int_arg (pos (word h l)))
      ok (individual_address_serial_write (a ∷ b ∷ c ∷ d ∷ e ∷ f ∷ []) address)
individual_address_serial_write_from_knx _ = err conversion_error

unfoldable pub individual_address_serial_write_to_knx : Bytes → IndividualAddress → Result Bytes
individual_address_serial_write_to_knx serial address = do
  raise_if (not (length serial == 6)) conversion_error
  p2 ← individual_to_knx address
  p3 ← pack 4 0
  ok (encode 0x3DE 0 (serial ++ (p2 ++ p3)))

unfoldable pub domain_address_serial_number_read_from_knx : Bytes → Result Apci
domain_address_serial_number_read_from_knx (_ ∷ _ ∷ a ∷ b ∷ c ∷ d ∷ e ∷ f ∷ []) =
    ok (domain_address_serial_number_read (a ∷ b ∷ c ∷ d ∷ e ∷ f ∷ []))
domain_address_serial_number_read_from_knx _ = err conversion_error

unfoldable pub domain_address_serial_number_read_to_knx : Bytes → Result Bytes
domain_address_serial_number_read_to_knx serial = do
  raise_if (not (length serial == 6)) conversion_error
  ok (encode 0x3EC 0 serial)

unfoldable pub domain_address_read_from_knx : Bytes → Result Apci
domain_address_read_from_knx (_ ∷ _ ∷ []) = ok domain_address_read
domain_address_read_from_knx _ = err conversion_error

unfoldable pub domain_address_read_to_knx : Result Bytes
domain_address_read_to_knx = ok (encode 0x3E1 0 [])

unfoldable pub file_stream_info_report_from_knx : Bytes → Result Apci
file_stream_info_report_from_knx (_ ∷ _ ∷ b ∷ payload) =
    ok (file_stream_info_report (b / 16) (bit_and b 0x0F) payload)
file_stream_info_report_from_knx _ = err conversion_error

unfoldable pub file_stream_info_report_to_knx : ℕ → ℕ → Bytes → Result Bytes
file_stream_info_report_to_knx file_handle file_block_seq_number file_block = do
  raise_if (ltb 0xF file_handle) conversion_error
  raise_if (ltb 0xF file_block_seq_number) conversion_error
  p1 ← pack_octet (bit_or (file_handle * 16) file_block_seq_number)
  ok (encode 0x3F0 0 (p1 ∷ file_block))

unfoldable pub link_read_from_knx : Bytes → Result Apci
link_read_from_knx (_ ∷ _ ∷ g ∷ b ∷ []) = ok (link_read g (bit_and b 0xF))
link_read_from_knx _ = err conversion_error

unfoldable pub link_read_to_knx : ℕ → ℕ → Result Bytes
link_read_to_knx group_object_number start_index = do
  raise_if (ltb 0xFF group_object_number) conversion_error
  raise_if (ltb 0xF start_index) conversion_error
  p1 ← pack_octet group_object_number
  p2 ← pack_octet start_index
  ok (encode 0x3E5 0 (p1 ∷ p2 ∷ []))
