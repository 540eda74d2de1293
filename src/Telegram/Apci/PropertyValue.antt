-- ===== src/Telegram/Apci/PropertyValue.antt =====
-- xknx/telegram/apci.py: property values.
use xknx.Prelude.{
  ℕ, ◌+◌, ◌*◌, ◌/◌, ltb, [], ◌∷◌, Bytes, bit_and, Result, ok, err, conversion_error, ◌>>=◌, ◌>>◌,
  raise_if,
}
use xknx.Telegram.Apci.Pack.{encode, pack_octet}
use xknx.Telegram.Apci.Services.{
  Apci, property_value_read, property_value_write, property_value_response,
}

unfoldable pub property_value_read_from_knx : Bytes → Result Apci
property_value_read_from_knx (_ ∷ _ ∷ o ∷ p ∷ c ∷ s ∷ []) =
    ok (property_value_read o p (c / 16) (bit_and c 0x0F * 256 + s))
property_value_read_from_knx _ = err conversion_error

unfoldable pub property_value_read_to_knx : ℕ → ℕ → ℕ → ℕ → Result Bytes
property_value_read_to_knx object_index property_id count start_index = do
  raise_if (ltb 15 count) conversion_error
  p1 ← pack_octet object_index
  p2 ← pack_octet property_id
  p3 ← pack_octet (count * 16 + start_index / 256)
  p4 ← pack_octet (bit_and start_index 0xFF)
  ok (encode 0x3D5 0 (p1 ∷ p2 ∷ p3 ∷ p4 ∷ []))

unfoldable pub property_value_write_from_knx : Bytes → Result Apci
property_value_write_from_knx (_ ∷ _ ∷ o ∷ p ∷ c ∷ s ∷ payload) =
    ok (property_value_write o p (c / 16) (bit_and c 0x0F * 256 + s) payload)
property_value_write_from_knx _ = err conversion_error

unfoldable pub property_value_write_to_knx : ℕ → ℕ → ℕ → ℕ → Bytes → Result Bytes
property_value_write_to_knx object_index property_id count start_index payload = do
  raise_if (ltb 15 count) conversion_error
  p1 ← pack_octet object_index
  p2 ← pack_octet property_id
  p3 ← pack_octet (count * 16 + start_index / 256)
  p4 ← pack_octet (bit_and start_index 0xFF)
  ok (encode 0x3D7 0 (p1 ∷ p2 ∷ p3 ∷ p4 ∷ payload))

unfoldable pub property_value_response_from_knx : Bytes → Result Apci
property_value_response_from_knx (_ ∷ _ ∷ o ∷ p ∷ c ∷ s ∷ payload) =
    ok (property_value_response o p (c / 16) (bit_and c 0x0F * 256 + s) payload)
property_value_response_from_knx _ = err conversion_error

unfoldable pub property_value_response_to_knx : ℕ → ℕ → ℕ → ℕ → Bytes → Result Bytes
property_value_response_to_knx object_index property_id count start_index payload = do
  raise_if (ltb 15 count) conversion_error
  p1 ← pack_octet object_index
  p2 ← pack_octet property_id
  p3 ← pack_octet (count * 16 + start_index / 256)
  p4 ← pack_octet (bit_and start_index 0xFF)
  ok (encode 0x3D6 0 (p1 ∷ p2 ∷ p3 ∷ p4 ∷ payload))
