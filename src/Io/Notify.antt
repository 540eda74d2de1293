-- ===== src/Io/Notify.antt =====
-- xknx/io/ip_secure.py and xknx/knxip/timer_notify.py: a timer notify and its message code.
use xknx.Prelude.{
  ℕ, not, [], ◌∷◌, ◌++◌, Bytes, to_bytes, Result, ok, knx_secure_validation_error, ◌>>=◌, raise_if,
}
use xknx.Secure.Primitives.{
  Cipher, calculate_message_authentication_code_cbc, decrypt_ctr, encrypt_data_ctr,
}
use xknx.Secure.Protection.{same_bytes}

pub record TimerNotify : Type 0 where
  pub timer_value : ℕ
  pub serial_number : Bytes
  pub message_tag : Bytes
  pub message_authentication_code : Bytes

abbrev pub timer_notify_header : Bytes
timer_notify_header = 0x06 ∷ 0x10 ∷ 0x09 ∷ 0x55 ∷ 0x00 ∷ 0x24 ∷ []

abbrev pub xknx_serial_number : Bytes
xknx_serial_number = 0x00 ∷ 0x00 ∷ 0x78 ∷ 0x6B ∷ 0x6E ∷ 0x78 ∷ []

-- What a code is calculated with, and the first counter block.
blocks : Bytes → Bytes → Bytes → Bytes → Bytes
blocks timer_bytes serial tag end = timer_bytes ++ (serial ++ (tag ++ end))

-- The notify that `send_timer_notify` gives to the transport.
unfoldable pub timer_notify :
    Cipher → Bytes → ℕ → (message_tag serial_number : Bytes) → Result TimerNotify
unfolding blocks
timer_notify cipher key timer_value tag serial = do
  timer_bytes ← to_bytes 6 timer_value
  mac_cbc ←
      calculate_message_authentication_code_cbc cipher key timer_notify_header []
        (blocks timer_bytes serial tag (0x00 ∷ 0x00 ∷ []))
  (empty, mac) ←
      encrypt_data_ctr cipher key (blocks timer_bytes serial tag (0xFF ∷ 0x00 ∷ [])) mac_cbc []
  ok (record {
    timer_value = timer_value;
    serial_number = serial;
    message_tag = tag;
    message_authentication_code = mac;
  })

unfoldable pub verify_timer_notify_mac : Cipher → Bytes → TimerNotify → Result (Unit {0})
unfolding blocks
verify_timer_notify_mac cipher key n = do
  timer_bytes ← to_bytes 6 n.timer_value
  (empty, mac_tr) ←
      decrypt_ctr cipher key (blocks timer_bytes n.serial_number n.message_tag (0xFF ∷ 0x00 ∷ []))
        n.message_authentication_code []
  mac_cbc ←
      calculate_message_authentication_code_cbc cipher key timer_notify_header []
        (blocks timer_bytes n.serial_number n.message_tag (0x00 ∷ 0x00 ∷ []))
  raise_if (not (same_bytes mac_cbc mac_tr)) knx_secure_validation_error
