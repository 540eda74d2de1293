-- ===== src/Telegram/Apci/RoundTrip/Serial.antt =====
-- Reading back: serial numbers, file streams and links.
use xknx.Prelude.{ℕ, ◌+◌, ◌*◌, ◌<◌, ◌≡◌, [], ◌∷◌, Bytes, length, arith}
use xknx.Prelude.Bits.{and_15}
use xknx.Telegram.Address.{IndividualAddress, individual_address, individual_to_knx}
use xknx.Telegram.Apci.Dispatch.{from_knx}
use xknx.Telegram.Apci.Methods.{calculated_length}
use xknx.Telegram.Apci.RoundTrip.Octets.{Encodes, nibbles}
use xknx.Telegram.Apci.Serial.{
  individual_address_serial_read_from_knx, individual_address_serial_read_to_knx,
  individual_address_serial_response_from_knx, individual_address_serial_response_to_knx,
  individual_address_serial_write_from_knx, individual_address_serial_write_to_knx,
  domain_address_serial_number_read_from_knx, domain_address_serial_number_read_to_knx,
  domain_address_read_from_knx, domain_address_read_to_knx, file_stream_info_report_from_knx,
  file_stream_info_report_to_knx, link_read_from_knx, link_read_to_knx,
}
use xknx.Telegram.Apci.Services.{
  individual_address_serial_read, individual_address_serial_response,
  individual_address_serial_write, domain_address_serial_number_read, domain_address_read,
  file_stream_info_report, link_read,
}

pub individual_address_serial_read-Encodes :
    (serial : Bytes)
    → length serial ≡ 6
    → Encodes from_knx
        (individual_address_serial_read_to_knx serial)
        (individual_address_serial_read serial)
        (calculated_length (individual_address_serial_read serial))
unfolding individual_address_serial_read_to_knx individual_address_serial_read_from_knx from_knx
    calculated_length
individual_address_serial_read-Encodes (a ∷ b ∷ c ∷ d ∷ e ∷ f ∷ []) h0 = ground arith
individual_address_serial_read-Encodes _ h0 = absurd (omega arith)

pub individual_address_serial_response-Encodes :
    (serial : Bytes) (address : IndividualAddress)
    → length serial ≡ 6
    → address.raw < 65536
    → Encodes from_knx
        (individual_address_serial_response_to_knx serial address)
        (individual_address_serial_response serial address)
        (calculated_length (individual_address_serial_response serial address))
unfolding individual_address_serial_response_to_knx individual_address_serial_response_from_knx
    from_knx calculated_length individual_to_knx individual_address
individual_address_serial_response-Encodes (a ∷ b ∷ c ∷ d ∷ e ∷ f ∷ []) address h0 h1 = ground arith
individual_address_serial_response-Encodes _ address h0 h1 = absurd (omega arith)

pub individual_address_serial_write-Encodes :
    (serial : Bytes) (address : IndividualAddress)
    → length serial ≡ 6
    → address.raw < 65536
    → Encodes from_knx
        (individual_address_serial_write_to_knx serial address)
        (individual_address_serial_write serial address)
        (calculated_length (individual_address_serial_write serial address))
unfolding individual_address_serial_write_to_knx individual_address_serial_write_from_knx from_knx
    calculated_length individual_to_knx individual_address
individual_address_serial_write-Encodes (a ∷ b ∷ c ∷ d ∷ e ∷ f ∷ []) address h0 h1 = ground arith
individual_address_serial_write-Encodes _ address h0 h1 = absurd (omega arith)

pub domain_address_serial_number_read-Encodes :
    (serial : Bytes)
    → length serial ≡ 6
    → Encodes from_knx
        (domain_address_serial_number_read_to_knx serial)
        (domain_address_serial_number_read serial)
        (calculated_length (domain_address_serial_number_read serial))
unfolding domain_address_serial_number_read_to_knx domain_address_serial_number_read_from_knx
    from_knx calculated_length
domain_address_serial_number_read-Encodes (a ∷ b ∷ c ∷ d ∷ e ∷ f ∷ []) h0 = ground arith
domain_address_serial_number_read-Encodes _ h0 = absurd (omega arith)

pub domain_address_read-Encodes :
    Encodes from_knx domain_address_read_to_knx domain_address_read
      (calculated_length domain_address_read)
unfolding domain_address_read_to_knx domain_address_read_from_knx from_knx calculated_length
domain_address_read-Encodes = ground arith

pub file_stream_info_report-Encodes :
    (file_handle : ℕ) (file_block_seq_number : ℕ) (file_block : Bytes)
    → file_handle < 16
    → file_block_seq_number < 16
    → Encodes from_knx
        (file_stream_info_report_to_knx file_handle file_block_seq_number file_block)
        (file_stream_info_report file_handle file_block_seq_number file_block)
        (calculated_length (file_stream_info_report file_handle file_block_seq_number file_block))
unfolding file_stream_info_report_to_knx file_stream_info_report_from_knx from_knx calculated_length
file_stream_info_report-Encodes file_handle file_block_seq_number file_block h0 h1 = ground (
  arith,
  nibbles file_handle file_block_seq_number,
  and_15 (file_handle * 16 + file_block_seq_number),
)

pub link_read-Encodes :
    (group_object_number : ℕ) (start_index : ℕ)
    → group_object_number < 256
    → start_index < 16
    → Encodes from_knx
        (link_read_to_knx group_object_number start_index)
        (link_read group_object_number start_index)
        (calculated_length (link_read group_object_number start_index))
unfolding link_read_to_knx link_read_from_knx from_knx calculated_length
link_read-Encodes group_object_number start_index h0 h1 = ground (arith, and_15 start_index)
