-- ===== src/Telegram/Apci/GroupProperty.antt =====
-- xknx/telegram/apci.py: group property values.
use xknx.Prelude.{ℕ, [], ◌∷◌, ◌++◌, Bytes, Result, ok, err, conversion_error, ◌>>=◌}
use xknx.Telegram.Apci.Pack.{encode, word, pack_group_prop_value_header}
use xknx.Telegram.Apci.Services.{
  Apci, group_prop_value_read, group_prop_value_response, group_prop_value_write,
  group_prop_value_info_report,
}

unfoldable pub group_prop_value_read_from_knx : Bytes → Result Apci
group_prop_value_read_from_knx (_ ∷ _ ∷ x ∷ y ∷ i ∷ p ∷ []) =
    ok (group_prop_value_read (word x y) i p)
group_prop_value_read_from_knx _ = err conversion_error

unfoldable pub group_prop_value_read_to_knx : ℕ → ℕ → ℕ → Result Bytes
group_prop_value_read_to_knx object_type object_instance property_id = do
  p1 ← pack_group_prop_value_header object_type object_instance property_id
  ok (encode 0x3E8 0 p1)

unfoldable pub group_prop_value_response_from_knx : Bytes → Result Apci
group_prop_value_response_from_knx (_ ∷ _ ∷ x ∷ y ∷ i ∷ p ∷ payload) =
    ok (group_prop_value_response (word x y) i p payload)
group_prop_value_response_from_knx _ = err conversion_error

unfoldable pub group_prop_value_response_to_knx : ℕ → ℕ → ℕ → Bytes → Result Bytes
group_prop_value_response_to_knx object_type object_instance property_id payload = do
  p1 ← pack_group_prop_value_header object_type object_instance property_id
  ok (encode 0x3E9 0 (p1 ++ payload))

unfoldable pub group_prop_value_write_from_knx : Bytes → Result Apci
group_prop_value_write_from_knx (_ ∷ _ ∷ x ∷ y ∷ i ∷ p ∷ payload) =
    ok (group_prop_value_write (word x y) i p payload)
group_prop_value_write_from_knx _ = err conversion_error

unfoldable pub group_prop_value_write_to_knx : ℕ → ℕ → ℕ → Bytes → Result Bytes
group_prop_value_write_to_knx object_type object_instance property_id payload = do
  p1 ← pack_group_prop_value_header object_type object_instance property_id
  ok (encode 0x3EA 0 (p1 ++ payload))

unfoldable pub group_prop_value_info_report_from_knx : Bytes → Result Apci
group_prop_value_info_report_from_knx (_ ∷ _ ∷ x ∷ y ∷ i ∷ p ∷ payload) =
    ok (group_prop_value_info_report (word x y) i p payload)
group_prop_value_info_report_from_knx _ = err conversion_error

unfoldable pub group_prop_value_info_report_to_knx : ℕ → ℕ → ℕ → Bytes → Result Bytes
group_prop_value_info_report_to_knx object_type object_instance property_id payload = do
  p1 ← pack_group_prop_value_header object_type object_instance property_id
  ok (encode 0x3EB 0 (p1 ++ payload))
