-- ===== src/Telegram/Apci/Special.antt =====
-- xknx/telegram/apci.py: group values, bit writes, links, domain addresses and secured data.
use xknx.Prelude.{
  ℕ, ◌*◌, ◌/◌, ◌%◌, Bool, true, false, not, ◌||◌, ltb, ◌==◌, if◌then◌else◌, [], ◌∷◌, ◌++◌, Bytes,
  length, List, Option, none, some, take, drop, bit_and, bit_or, Result, ok, err, conversion_error,
  value_error, unsupported_apci_service, not_implemented_error, ◌>>=◌, ◌>>◌, raise_if,
}
use xknx.Secure.Asdu.{
  SecurityControlField, SecureData, scf_from_knx, scf_to_knx, secure_data_from_knx,
  secure_data_to_knx,
}
use xknx.Telegram.Address.{GroupAddress, group_from_knx, group_to_knx}
use xknx.Telegram.Apci.Pack.{encode, pack, pack_octet}
use xknx.Telegram.Apci.Services.{
  Apci, GroupValue, dpt_binary, dpt_array, group_value_read, group_value_write,
  group_value_response, user_memory_bit_write, memory_bit_write, domain_address_write,
  domain_address_response, domain_address_selective_read, link_response, link_write,
  domain_address_serial_number_response, domain_address_serial_number_write, secure_apdu,
}

unfoldable pub group_value_read_from_knx : Bytes → Result Apci
group_value_read_from_knx (_ ∷ _ ∷ []) = ok group_value_read
group_value_read_from_knx _ = err conversion_error

unfoldable pub group_value_read_to_knx : Result Bytes
group_value_read_to_knx = ok (encode 0x000 0 [])

-- `DPTBinary(raw[1] & 0x3F)` or `DPTArray(raw[2:])`; the caller has checked for two octets.
group_value_from : Bytes → Result GroupValue
group_value_from (_ ∷ q ∷ []) = ok (dpt_binary (bit_and q 0x3F))
group_value_from raw = ok (dpt_array (drop 2 raw))

-- `bytes(values)` raises for a value above 255.
unfoldable pub octets : Bytes → Result Bytes
octets [] = ok []
octets (b ∷ bs) = do rest ← octets bs; raise_if (ltb 255 b) value_error; ok (b ∷ rest)

unfoldable pub group_value_to : ℕ → GroupValue → Result Bytes
unfolding octets
group_value_to code (dpt_binary v) = ok (encode code v [])
group_value_to code (dpt_array vs) = do appended ← octets vs; ok (encode code 0 appended)

unfoldable pub group_value_write_from_knx : Bytes → Result Apci
unfolding group_value_from
group_value_write_from_knx raw = do v ← group_value_from raw; ok (group_value_write v)

unfoldable pub group_value_write_to_knx : GroupValue → Result Bytes
unfolding group_value_to
group_value_write_to_knx = group_value_to 0x080

unfoldable pub group_value_response_from_knx : Bytes → Result Apci
unfolding group_value_from
group_value_response_from_knx raw = do v ← group_value_from raw; ok (group_value_response v)

unfoldable pub group_value_response_to_knx : GroupValue → Result Bytes
unfolding group_value_to
group_value_response_to_knx = group_value_to 0x040

abbrev bits_of : (ℕ → Bytes → Bytes → Apci) → ℕ → ℕ → Bytes → Result Apci
bits_of make number address rest =
    if length rest == 2 * number
    then ok (make address (take number rest) (drop number rest))
    else err conversion_error

bit_write_to : ℕ → ℕ → Bytes → Bytes → Result Bytes
bit_write_to code address and_data xor_data = do
  raise_if (ltb 0xFFFF address) conversion_error
  raise_if (ltb 255 (length and_data)) conversion_error
  raise_if (not (length xor_data == length and_data)) conversion_error
  n ← pack_octet (length and_data)
  a ← pack 2 address
  ok (encode code 0 (n ∷ (a ++ (and_data ++ xor_data))))

unfoldable pub user_memory_bit_write_from_knx : Bytes → Result Apci
user_memory_bit_write_from_knx (_ ∷ _ ∷ n ∷ h ∷ l ∷ x ∷ rest) =
    bits_of user_memory_bit_write n (bit_or (h * 256) l) (x ∷ rest)
user_memory_bit_write_from_knx _ = err conversion_error

unfoldable pub user_memory_bit_write_to_knx : ℕ → Bytes → Bytes → Result Bytes
unfolding bit_write_to
user_memory_bit_write_to_knx = bit_write_to 0x2C4

unfoldable pub memory_bit_write_from_knx : Bytes → Result Apci
memory_bit_write_from_knx (_ ∷ _ ∷ n ∷ h ∷ l ∷ x ∷ rest) =
    bits_of memory_bit_write n (bit_or (h * 256) l) (x ∷ rest)
memory_bit_write_from_knx _ = err conversion_error

unfoldable pub memory_bit_write_to_knx : ℕ → Bytes → Bytes → Result Bytes
unfolding bit_write_to
memory_bit_write_to_knx = bit_write_to 0x3D0

-- The legacy coupler services are known by their codes only.
unfoldable pub router_status_from_knx : Bytes → Result Apci
router_status_from_knx raw = err unsupported_apci_service

unfoldable pub router_status_to_knx : Result Bytes
router_status_to_knx = err not_implemented_error

domain_address_from : (Bytes → Apci) → Bytes → Result Apci
domain_address_from make raw =
    if length raw == 4 || length raw == 8 then ok (make (drop 2 raw)) else err conversion_error

domain_address_to : ℕ → Bytes → Result Bytes
domain_address_to code domain_address = do
  raise_if (not (length domain_address == 2 || length domain_address == 6)) conversion_error
  ok (encode code 0 domain_address)

unfoldable pub domain_address_write_from_knx : Bytes → Result Apci
unfolding domain_address_from
domain_address_write_from_knx = domain_address_from domain_address_write

unfoldable pub domain_address_write_to_knx : Bytes → Result Bytes
unfolding domain_address_to
domain_address_write_to_knx = domain_address_to 0x3E0

unfoldable pub domain_address_response_from_knx : Bytes → Result Apci
unfolding domain_address_from
domain_address_response_from_knx = domain_address_from domain_address_response

unfoldable pub domain_address_response_to_knx : Bytes → Result Bytes
unfolding domain_address_to
domain_address_response_to_knx = domain_address_to 0x3E2

unfoldable pub domain_address_selective_read_from_knx : Bytes → Result Apci
domain_address_selective_read_from_knx (_ ∷ _ ∷ x ∷ asdu) =
    ok (domain_address_selective_read (x ∷ asdu))
domain_address_selective_read_from_knx _ = err conversion_error

unfoldable pub domain_address_selective_read_to_knx : Bytes → Result Bytes
domain_address_selective_read_to_knx [] = err conversion_error
domain_address_selective_read_to_knx (x ∷ asdu) = ok (encode 0x3E3 0 (x ∷ asdu))

-- `[GroupAddress.from_knx(raw[i : i + 2]) for i in range(4, len(raw), 2)]`
unfoldable pub addresses_from : Bytes → Result (List GroupAddress)
addresses_from [] = ok []
addresses_from (x ∷ []) = do a ← group_from_knx (x ∷ []); ok (a ∷ [])
addresses_from (x ∷ y ∷ rest) = do
  a ← group_from_knx (x ∷ y ∷ [])
  as' ← addresses_from rest
  ok (a ∷ as')

unfoldable pub addresses_to : List GroupAddress → Result Bytes
addresses_to [] = ok []
addresses_to (a ∷ rest) = do x ← group_to_knx a; xs ← addresses_to rest; ok (x ++ xs)

-- The remainder is even and at most 12 octets.
unfoldable pub link_response_from_knx : Bytes → Result Apci
unfolding addresses_from
link_response_from_knx (_ ∷ _ ∷ g ∷ b ∷ rest) = do
  raise_if (not (length rest % 2 == 0) || ltb 12 (length rest)) conversion_error
  l ← addresses_from rest
  ok (link_response g (b / 16) (bit_and b 0x0F) l)
link_response_from_knx _ = err conversion_error

unfoldable pub link_response_to_knx : ℕ → ℕ → ℕ → List GroupAddress → Result Bytes
unfolding addresses_to
link_response_to_knx group_object_number sending_address start_index group_address_list = do
  raise_if (ltb 0xFF group_object_number) conversion_error
  raise_if (ltb 0xF sending_address) conversion_error
  raise_if (ltb 0xF start_index) conversion_error
  raise_if (ltb 6 (length group_address_list)) conversion_error
  g ← pack_octet group_object_number
  b ← pack_octet (bit_or (sending_address * 16) start_index)
  l ← addresses_to group_address_list
  ok (encode 0x3E6 0 (g ∷ b ∷ l))

unfoldable pub link_write_from_knx : Bytes → Result Apci
link_write_from_knx (_ ∷ _ ∷ g ∷ f ∷ h ∷ l ∷ []) = do
  a ← group_from_knx (h ∷ l ∷ [])
  ok (link_write g a (not (bit_and f 2 == 0)) (not (bit_and f 1 == 0)))
link_write_from_knx _ = err conversion_error

abbrev flag : Bool → ℕ
flag true = 1
flag false = 0

unfoldable pub link_write_to_knx : ℕ → GroupAddress → Bool → Bool → Result Bytes
link_write_to_knx group_object_number group_address delete sending = do
  raise_if (ltb 0xFF group_object_number) conversion_error
  g ← pack_octet group_object_number
  f ← pack_octet (bit_or (flag delete * 2) (flag sending))
  a ← group_to_knx group_address
  ok (encode 0x3E7 0 (g ∷ f ∷ a))

unfoldable pub domain_address_serial_number_response_from_knx : Bytes → Result Apci
domain_address_serial_number_response_from_knx raw =
    let domain_address = drop 8 raw in
    if ltb (length raw) 8 || not (length domain_address == 2 || length domain_address == 6)
    then err conversion_error
    else ok (domain_address_serial_number_response (take 6 (drop 2 raw)) domain_address)

unfoldable pub domain_address_serial_number_response_to_knx : Bytes → Bytes → Result Bytes
domain_address_serial_number_response_to_knx serial domain_address = do
  raise_if (not (length serial == 6)) conversion_error
  raise_if (not (length domain_address == 2 || length domain_address == 6)) conversion_error
  ok (encode 0x3ED 0 (serial ++ domain_address))

-- Serial number, domain address, and what follows it where the remainder has 21 octets.
serial_write_of : Bytes → Bytes → Result Apci
serial_write_of serial (a ∷ b ∷ c ∷ d ∷ version ∷ backbone_key) =
    if length backbone_key == 16
    then ok (
        domain_address_serial_number_write serial (a ∷ b ∷ c ∷ d ∷ []) (some version)
          (some backbone_key))
    else ok (
        domain_address_serial_number_write serial (a ∷ b ∷ c ∷ d ∷ version ∷ backbone_key) none
          none)
serial_write_of serial remainder =
    ok (domain_address_serial_number_write serial remainder none none)

unfoldable pub domain_address_serial_number_write_from_knx : Bytes → Result Apci
unfolding serial_write_of
domain_address_serial_number_write_from_knx raw =
    let n = length (drop 8 raw) in
    if ltb (length raw) 8 || not (n == 2 || n == 4 || n == 6 || n == 21)
    then err conversion_error
    else serial_write_of (take 6 (drop 2 raw)) (drop 8 raw)

-- The octets for a secure backbone: both fields or none.
secure_fields : Bytes → Option ℕ → Option Bytes → Result Bytes
secure_fields domain_address none none = ok []
secure_fields domain_address (some version) (some backbone_key) = do
  raise_if (not (length domain_address == 4)) conversion_error
  raise_if (ltb 0xFF version) conversion_error
  raise_if (not (length backbone_key == 16)) conversion_error
  ok (version ∷ backbone_key)
secure_fields domain_address _ _ = err conversion_error

unfoldable pub domain_address_serial_number_write_to_knx :
    Bytes → Bytes → Option ℕ → Option Bytes → Result Bytes
unfolding secure_fields
domain_address_serial_number_write_to_knx serial domain_address version backbone_key = do
  raise_if (not (length serial == 6)) conversion_error
  raise_if
      (not (length domain_address == 2 || length domain_address == 4 || length domain_address == 6))
      conversion_error
  more ← secure_fields domain_address version backbone_key
  ok (encode 0x3EE 0 (serial ++ (domain_address ++ more)))

-- At least 13 octets: a control field, six for the sequence number and four for the code.
unfoldable pub secure_apdu_from_knx : Bytes → Result Apci
secure_apdu_from_knx (_ ∷ _ ∷ scf ∷ rest) = do
  raise_if (ltb (length rest) 10) conversion_error
  f ← scf_from_knx scf
  ok (secure_apdu f (secure_data_from_knx rest))
secure_apdu_from_knx _ = err conversion_error

unfoldable pub secure_apdu_to_knx : SecurityControlField → SecureData → Result Bytes
secure_apdu_to_knx scf secured_data =
    ok (encode 0x3F1 0 (scf_to_knx scf ++ secure_data_to_knx secured_data))
