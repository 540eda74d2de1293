-- ===== src/Telegram/Apci/PropertyDescription.antt =====
-- xknx/telegram/apci.py: property descriptions.
use xknx.Prelude.{
  ℕ, ◌*◌, ◌/◌, Bool, not, ◌==◌, ltb, if◌then◌else◌, [], ◌∷◌, ◌++◌, Bytes, bit_and, bit_or, Result,
  ok, err, conversion_error, ◌>>=◌, ◌>>◌, raise_if,
}
use xknx.Telegram.Apci.Pack.{encode, word, pack, pack_octet, pack_function_property_ext_header}
use xknx.Telegram.Apci.Services.{
  Apci, property_ext_description_read, property_ext_description_response, property_description_read,
  property_description_response,
}

unfoldable pub property_ext_description_read_from_knx : Bytes → Result Apci
property_ext_description_read_from_knx (_ ∷ _ ∷ x ∷ y ∷ u ∷ v ∷ w ∷ d ∷ e ∷ []) = ok (
    property_ext_description_read (word x y) (bit_or (u * 16) (v / 16))
      (bit_or (bit_and v 15 * 256) w) (d / 16) (bit_or (bit_and d 15 * 256) e))
property_ext_description_read_from_knx _ = err conversion_error

unfoldable pub property_ext_description_read_to_knx : ℕ → ℕ → ℕ → ℕ → ℕ → Result Bytes
property_ext_description_read_to_knx object_type object_instance property_id description_type
      property_index =
    do
      raise_if (ltb 15 description_type) conversion_error
      raise_if (ltb 0xFFF property_index) conversion_error
      p1 ← pack_function_property_ext_header object_type object_instance property_id
      p2 ← pack_octet (bit_or (description_type * 16) (property_index / 256))
      p3 ← pack_octet (bit_and property_index 0xFF)
      ok (encode 0x1D2 0 (p1 ++ (p2 ∷ p3 ∷ [])))

unfoldable pub property_ext_description_response_from_knx : Bytes → Result Apci
property_ext_description_response_from_knx
      (_ ∷ _ ∷ x ∷ y ∷ u ∷ v ∷ w ∷ d ∷ e ∷ f ∷ g ∷ h ∷ i ∷ j ∷ k ∷ l ∷ m ∷ []) =
    ok (
      property_ext_description_response (word x y) (bit_or (u * 16) (v / 16))
        (bit_or (bit_and v 15 * 256) w) (d / 16) (bit_or (bit_and d 15 * 256) e) (word f g)
        (word h i) (not (bit_and j 0x80 == 0)) (bit_and j 0x3F) (word k l) (m / 16) (bit_and m 0xF))
property_ext_description_response_from_knx _ = err conversion_error

unfoldable pub property_ext_description_response_to_knx :
    ℕ → ℕ → ℕ → ℕ → ℕ → ℕ → ℕ → Bool → ℕ → ℕ → ℕ → ℕ → Result Bytes
property_ext_description_response_to_knx object_type object_instance property_id description_type
      property_index dpt_main dpt_sub writable pdt max_nr_of_elem read_level write_level =
    do
      raise_if (ltb 15 description_type) conversion_error
      raise_if (ltb 0xFFF property_index) conversion_error
      raise_if (ltb 65535 dpt_main) conversion_error
      raise_if (ltb 65535 dpt_sub) conversion_error
      raise_if (ltb 0x3F pdt) conversion_error
      raise_if (ltb 65535 max_nr_of_elem) conversion_error
      raise_if (ltb 15 read_level) conversion_error
      raise_if (ltb 15 write_level) conversion_error
      p1 ← pack_function_property_ext_header object_type object_instance property_id
      p2 ← pack_octet (bit_or (description_type * 16) (property_index / 256))
      p3 ← pack_octet (bit_and property_index 0xFF)
      p4 ← pack 2 dpt_main
      p5 ← pack 2 dpt_sub
      p6 ← pack_octet (bit_or (if writable then 0x80 else 0) pdt)
      p7 ← pack 2 max_nr_of_elem
      p8 ← pack_octet (bit_or (read_level * 16) write_level)
      ok (encode 0x1D3 0 (p1 ++ (p2 ∷ (p3 ∷ (p4 ++ (p5 ++ (p6 ∷ (p7 ++ (p8 ∷ [])))))))))

unfoldable pub property_description_read_from_knx : Bytes → Result Apci
property_description_read_from_knx (_ ∷ _ ∷ o ∷ p ∷ i ∷ []) = ok (property_description_read o p i)
property_description_read_from_knx _ = err conversion_error

unfoldable pub property_description_read_to_knx : ℕ → ℕ → ℕ → Result Bytes
property_description_read_to_knx object_index property_id property_index = do
  p1 ← pack_octet object_index
  p2 ← pack_octet property_id
  p3 ← pack_octet property_index
  ok (encode 0x3D8 0 (p1 ∷ p2 ∷ p3 ∷ []))

unfoldable pub property_description_response_from_knx : Bytes → Result Apci
property_description_response_from_knx (_ ∷ _ ∷ o ∷ p ∷ i ∷ t ∷ h ∷ l ∷ a ∷ []) =
    ok (property_description_response o p i t (bit_and (word h l) 0x0FFF) a)
property_description_response_from_knx _ = err conversion_error

unfoldable pub property_description_response_to_knx : ℕ → ℕ → ℕ → ℕ → ℕ → ℕ → Result Bytes
property_description_response_to_knx object_index property_id property_index type_ max_count
      access =
    do
      raise_if (ltb 0xFFF max_count) conversion_error
      p1 ← pack_octet object_index
      p2 ← pack_octet property_id
      p3 ← pack_octet property_index
      p4 ← pack_octet type_
      p5 ← pack 2 (bit_and max_count 0x0FFF)
      p6 ← pack_octet access
      ok (encode 0x3D9 0 (p1 ∷ (p2 ∷ (p3 ∷ (p4 ∷ (p5 ++ (p6 ∷ [])))))))
