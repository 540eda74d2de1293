-- ===== src/Telegram/Apci/Network.antt =====
-- xknx/telegram/apci.py: network parameters.
use xknx.Prelude.{
  ℕ, ◌*◌, ◌/◌, ltb, ◌∷◌, ◌++◌, Bytes, bit_or, Result, ok, err, conversion_error, ◌>>=◌, ◌>>◌,
  raise_if,
}
use xknx.Telegram.Apci.Pack.{encode, word, pack, pack_octet, pack_system_network_parameter_header}
use xknx.Telegram.Apci.Services.{
  Apci, network_parameter_read, network_parameter_response, network_parameter_write,
  system_network_parameter_read, system_network_parameter_response, system_network_parameter_write,
}

unfoldable pub network_parameter_read_from_knx : Bytes → Result Apci
network_parameter_read_from_knx (_ ∷ _ ∷ h ∷ l ∷ p ∷ payload) =
    ok (network_parameter_read (word h l) p payload)
network_parameter_read_from_knx _ = err conversion_error

unfoldable pub network_parameter_read_to_knx : ℕ → ℕ → Bytes → Result Bytes
network_parameter_read_to_knx object_type property_id payload = do
  raise_if (ltb 65535 object_type) conversion_error
  raise_if (ltb 0xFF property_id) conversion_error
  p1 ← pack 2 object_type
  p2 ← pack_octet property_id
  ok (encode 0x3DA 0 (p1 ++ (p2 ∷ payload)))

unfoldable pub network_parameter_response_from_knx : Bytes → Result Apci
network_parameter_response_from_knx (_ ∷ _ ∷ h ∷ l ∷ p ∷ payload) =
    ok (network_parameter_response (word h l) p payload)
network_parameter_response_from_knx _ = err conversion_error

unfoldable pub network_parameter_response_to_knx : ℕ → ℕ → Bytes → Result Bytes
network_parameter_response_to_knx object_type property_id payload = do
  raise_if (ltb 65535 object_type) conversion_error
  raise_if (ltb 0xFF property_id) conversion_error
  p1 ← pack 2 object_type
  p2 ← pack_octet property_id
  ok (encode 0x3DB 0 (p1 ++ (p2 ∷ payload)))

unfoldable pub network_parameter_write_from_knx : Bytes → Result Apci
network_parameter_write_from_knx (_ ∷ _ ∷ h ∷ l ∷ p ∷ payload) =
    ok (network_parameter_write (word h l) p payload)
network_parameter_write_from_knx _ = err conversion_error

unfoldable pub network_parameter_write_to_knx : ℕ → ℕ → Bytes → Result Bytes
network_parameter_write_to_knx object_type property_id payload = do
  raise_if (ltb 65535 object_type) conversion_error
  raise_if (ltb 0xFF property_id) conversion_error
  p1 ← pack 2 object_type
  p2 ← pack_octet property_id
  ok (encode 0x3E4 0 (p1 ++ (p2 ∷ payload)))

unfoldable pub system_network_parameter_read_from_knx : Bytes → Result Apci
system_network_parameter_read_from_knx (_ ∷ _ ∷ x ∷ y ∷ u ∷ v ∷ payload) =
    ok (system_network_parameter_read (word x y) (bit_or (u * 16) (v / 16)) payload)
system_network_parameter_read_from_knx _ = err conversion_error

unfoldable pub system_network_parameter_read_to_knx : ℕ → ℕ → Bytes → Result Bytes
system_network_parameter_read_to_knx object_type property_id payload = do
  p1 ← pack_system_network_parameter_header object_type property_id
  ok (encode 0x1C8 0 (p1 ++ payload))

unfoldable pub system_network_parameter_response_from_knx : Bytes → Result Apci
system_network_parameter_response_from_knx (_ ∷ _ ∷ x ∷ y ∷ u ∷ v ∷ payload) =
    ok (system_network_parameter_response (word x y) (bit_or (u * 16) (v / 16)) payload)
system_network_parameter_response_from_knx _ = err conversion_error

unfoldable pub system_network_parameter_response_to_knx : ℕ → ℕ → Bytes → Result Bytes
system_network_parameter_response_to_knx object_type property_id payload = do
  p1 ← pack_system_network_parameter_header object_type property_id
  ok (encode 0x1C9 0 (p1 ++ payload))

unfoldable pub system_network_parameter_write_from_knx : Bytes → Result Apci
system_network_parameter_write_from_knx (_ ∷ _ ∷ x ∷ y ∷ u ∷ v ∷ payload) =
    ok (system_network_parameter_write (word x y) (bit_or (u * 16) (v / 16)) payload)
system_network_parameter_write_from_knx _ = err conversion_error

unfoldable pub system_network_parameter_write_to_knx : ℕ → ℕ → Bytes → Result Bytes
system_network_parameter_write_to_knx object_type property_id payload = do
  p1 ← pack_system_network_parameter_header object_type property_id
  ok (encode 0x1CA 0 (p1 ++ payload))
