-- ===== src/Telegram/Apci/Basic.antt =====
-- xknx/telegram/apci.py: individual addresses, A/D converter, device descriptors and restart.
use xknx.Prelude.{
  ℕ, ltb, [], ◌∷◌, Bytes, bit_and, Result, ok, err, conversion_error, ◌>>=◌, ◌>>◌, raise_if,
}
use xknx.Prelude.Int.{pos}
use xknx.Telegram.Address.{IndividualAddress, individual_address, int_arg, individual_to_knx}
use xknx.Telegram.Apci.Pack.{encode, word, pack, pack_octet, value}
use xknx.Telegram.Apci.Services.{
  Apci, individual_address_write, individual_address_read, individual_address_response, adc_read,
  adc_response, device_descriptor_read, device_descriptor_response, restart, restart_master_reset,
  restart_master_reset_response,
}

unfoldable pub individual_address_write_from_knx : Bytes → Result Apci
individual_address_write_from_knx (_ ∷ _ ∷ h ∷ l ∷ []) = do
  address ← individual_address (int_arg (pos (word h l)))
  ok (individual_address_write address)
individual_address_write_from_knx _ = err conversion_error

unfoldable pub individual_address_write_to_knx : IndividualAddress → Result Bytes
individual_address_write_to_knx address = do p1 ← individual_to_knx address; ok (encode 0x0C0 0 p1)

unfoldable pub individual_address_read_from_knx : Bytes → Result Apci
individual_address_read_from_knx (_ ∷ _ ∷ []) = ok individual_address_read
individual_address_read_from_knx _ = err conversion_error

unfoldable pub individual_address_read_to_knx : Result Bytes
individual_address_read_to_knx = ok (encode 0x100 0 [])

unfoldable pub individual_address_response_from_knx : Bytes → Result Apci
individual_address_response_from_knx (_ ∷ _ ∷ []) = ok individual_address_response
individual_address_response_from_knx _ = err conversion_error

unfoldable pub individual_address_response_to_knx : Result Bytes
individual_address_response_to_knx = ok (encode 0x140 0 [])

unfoldable pub adc_read_from_knx : Bytes → Result Apci
adc_read_from_knx (_ ∷ q ∷ c ∷ []) = ok (adc_read (bit_and q 0x3F) c)
adc_read_from_knx _ = err conversion_error

unfoldable pub adc_read_to_knx : ℕ → ℕ → Result Bytes
adc_read_to_knx channel count = do
  p1 ← pack_octet channel
  p2 ← pack_octet count
  ok (encode 0x180 p1 (p2 ∷ []))

unfoldable pub adc_response_from_knx : Bytes → Result Apci
adc_response_from_knx (_ ∷ q ∷ c ∷ h ∷ l ∷ []) = ok (adc_response (bit_and q 0x3F) c (word h l))
adc_response_from_knx _ = err conversion_error

unfoldable pub adc_response_to_knx : ℕ → ℕ → ℕ → Result Bytes
adc_response_to_knx channel count value = do
  p1 ← pack_octet channel
  p2 ← pack_octet count
  p3 ← pack 2 value
  ok (encode 0x1C0 p1 (p2 ∷ p3))

unfoldable pub device_descriptor_read_from_knx : Bytes → Result Apci
device_descriptor_read_from_knx (_ ∷ q ∷ []) = ok (device_descriptor_read (bit_and q 0x3F))
device_descriptor_read_from_knx _ = err conversion_error

unfoldable pub device_descriptor_read_to_knx : ℕ → Result Bytes
device_descriptor_read_to_knx descriptor = do
  raise_if (ltb 0x3F descriptor) conversion_error
  ok (encode 0x300 descriptor [])

unfoldable pub device_descriptor_response_from_knx : Bytes → Result Apci
device_descriptor_response_from_knx (_ ∷ q ∷ h ∷ l ∷ []) =
    ok (device_descriptor_response (bit_and q 0x3F) (word h l))
device_descriptor_response_from_knx _ = err conversion_error

unfoldable pub device_descriptor_response_to_knx : ℕ → ℕ → Result Bytes
device_descriptor_response_to_knx descriptor value = do
  raise_if (ltb 0x3F descriptor) conversion_error
  p1 ← pack 2 value
  ok (encode 0x340 descriptor p1)

unfoldable pub restart_from_knx : Bytes → Result Apci
restart_from_knx (_ ∷ _ ∷ []) = ok restart
restart_from_knx _ = err conversion_error

unfoldable pub restart_to_knx : Result Bytes
restart_to_knx = ok (encode 0x380 0 [])

unfoldable pub restart_master_reset_from_knx : Bytes → Result Apci
restart_master_reset_from_knx (_ ∷ _ ∷ e ∷ c ∷ []) = ok (restart_master_reset e c)
restart_master_reset_from_knx _ = err conversion_error

unfoldable pub restart_master_reset_to_knx : ℕ → ℕ → Result Bytes
restart_master_reset_to_knx erase_code channel_number = do
  raise_if (ltb 0xFF erase_code) conversion_error
  raise_if (ltb 0xFF channel_number) conversion_error
  p1 ← pack_octet erase_code
  p2 ← pack_octet channel_number
  ok (encode 0x381 0 (p1 ∷ p2 ∷ []))

unfoldable pub restart_master_reset_response_from_knx : Bytes → Result Apci
restart_master_reset_response_from_knx (_ ∷ _ ∷ e ∷ h ∷ l ∷ []) =
    ok (restart_master_reset_response e (word h l))
restart_master_reset_response_from_knx _ = err conversion_error

unfoldable pub restart_master_reset_response_to_knx : ℕ → ℕ → Result Bytes
restart_master_reset_response_to_knx error_code process_time = do
  raise_if (ltb 0xFF error_code) conversion_error
  raise_if (ltb 0xFFFF process_time) conversion_error
  p1 ← pack_octet error_code
  p2 ← pack 2 process_time
  ok (encode 0x3A1 0 (p1 ∷ p2))
