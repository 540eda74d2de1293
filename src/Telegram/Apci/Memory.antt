-- ===== src/Telegram/Apci/Memory.antt =====
-- xknx/telegram/apci.py: memory and extended memory.
use xknx.Prelude.{
  ℕ, ltb, [], ◌∷◌, ◌++◌, Bytes, drop, bit_and, Result, ok, err, conversion_error, ◌>>=◌, ◌>>◌,
  raise_if,
}
use xknx.Telegram.Apci.Pack.{encode, word, pack, pack_octet}
use xknx.Telegram.Apci.Services.{
  Apci, memory_read, memory_write, memory_response, memory_extended_write,
  memory_extended_write_response, memory_extended_read, memory_extended_read_response,
}

unfoldable pub memory_read_from_knx : Bytes → Result Apci
memory_read_from_knx (_ ∷ q ∷ h ∷ l ∷ []) = ok (memory_read (word h l) (bit_and q 0x3F))
memory_read_from_knx _ = err conversion_error

unfoldable pub memory_read_to_knx : ℕ → ℕ → Result Bytes
memory_read_to_knx address count = do
  raise_if (ltb 0xFFFF address) conversion_error
  raise_if (ltb 0x3F count) conversion_error
  p1 ← pack_octet count
  p2 ← pack 2 address
  ok (encode 0x200 p1 p2)

unfoldable pub memory_write_from_knx : Bytes → Result Apci
memory_write_from_knx (_ ∷ q ∷ h ∷ l ∷ payload) =
    ok (memory_write (word h l) payload (bit_and q 0x3F))
memory_write_from_knx _ = err conversion_error

unfoldable pub memory_write_to_knx : ℕ → Bytes → ℕ → Result Bytes
memory_write_to_knx address payload count = do
  raise_if (ltb 0xFFFF address) conversion_error
  raise_if (ltb 0x3F count) conversion_error
  p1 ← pack_octet count
  p2 ← pack 2 address
  ok (encode 0x280 p1 (p2 ++ payload))

unfoldable pub memory_response_from_knx : Bytes → Result Apci
memory_response_from_knx (_ ∷ q ∷ h ∷ l ∷ payload) =
    ok (memory_response (word h l) payload (bit_and q 0x3F))
memory_response_from_knx _ = err conversion_error

unfoldable pub memory_response_to_knx : ℕ → Bytes → ℕ → Result Bytes
memory_response_to_knx address payload count = do
  raise_if (ltb 0xFFFF address) conversion_error
  raise_if (ltb 0x3F count) conversion_error
  p1 ← pack_octet count
  p2 ← pack 2 address
  ok (encode 0x240 p1 (p2 ++ payload))

unfoldable pub memory_extended_write_from_knx : Bytes → Result Apci
memory_extended_write_from_knx (_ ∷ _ ∷ c ∷ x ∷ y ∷ z ∷ payload) =
    ok (memory_extended_write (word (word x y) z) payload c)
memory_extended_write_from_knx _ = err conversion_error

unfoldable pub memory_extended_write_to_knx : ℕ → Bytes → ℕ → Result Bytes
memory_extended_write_to_knx address payload count = do
  raise_if (ltb 0xFFFFFF address) conversion_error
  raise_if (ltb 250 count) conversion_error
  p1 ← pack_octet count
  p2 ← pack 4 address
  ok (encode 0x1FB 0 (p1 ∷ (drop 1 p2 ++ payload)))

unfoldable pub memory_extended_write_response_from_knx : Bytes → Result Apci
memory_extended_write_response_from_knx (_ ∷ _ ∷ c ∷ x ∷ y ∷ z ∷ payload) =
    ok (memory_extended_write_response c (word (word x y) z) payload)
memory_extended_write_response_from_knx _ = err conversion_error

unfoldable pub memory_extended_write_response_to_knx : ℕ → ℕ → Bytes → Result Bytes
memory_extended_write_response_to_knx return_code address confirmation_data = do
  raise_if (ltb 0xFFFFFF address) conversion_error
  raise_if (ltb 0xFF return_code) conversion_error
  p1 ← pack_octet return_code
  p2 ← pack 4 address
  ok (encode 0x1FC 0 (p1 ∷ (drop 1 p2 ++ confirmation_data)))

unfoldable pub memory_extended_read_from_knx : Bytes → Result Apci
memory_extended_read_from_knx (_ ∷ _ ∷ c ∷ x ∷ y ∷ z ∷ []) =
    ok (memory_extended_read c (word (word x y) z))
memory_extended_read_from_knx _ = err conversion_error

unfoldable pub memory_extended_read_to_knx : ℕ → ℕ → Result Bytes
memory_extended_read_to_knx count address = do
  raise_if (ltb 0xFFFFFF address) conversion_error
  raise_if (ltb 250 count) conversion_error
  p1 ← pack_octet count
  p2 ← pack 4 address
  ok (encode 0x1FD 0 (p1 ∷ drop 1 p2))

unfoldable pub memory_extended_read_response_from_knx : Bytes → Result Apci
memory_extended_read_response_from_knx (_ ∷ _ ∷ c ∷ x ∷ y ∷ z ∷ payload) =
    ok (memory_extended_read_response c (word (word x y) z) payload)
memory_extended_read_response_from_knx _ = err conversion_error

unfoldable pub memory_extended_read_response_to_knx : ℕ → ℕ → Bytes → Result Bytes
memory_extended_read_response_to_knx return_code address payload = do
  raise_if (ltb 0xFFFFFF address) conversion_error
  raise_if (ltb 0xFF return_code) conversion_error
  p1 ← pack_octet return_code
  p2 ← pack 4 address
  ok (encode 0x1FE 0 (p1 ∷ (drop 1 p2 ++ payload)))
