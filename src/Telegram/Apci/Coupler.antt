-- ===== src/Telegram/Apci/Coupler.antt =====
-- xknx/telegram/apci.py: filter tables and router memory.
use xknx.Prelude.{
  ℕ, ◌||◌, ltb, [], ◌∷◌, ◌++◌, Bytes, Result, ok, err, conversion_error, ◌>>=◌, ◌>>◌, raise_if,
}
use xknx.Telegram.Apci.Pack.{encode, word, pack, pack_octet}
use xknx.Telegram.Apci.Services.{
  Apci, filter_table_open, filter_table_read, filter_table_response, filter_table_write,
  router_memory_read, router_memory_response, router_memory_write,
}

unfoldable pub filter_table_open_from_knx : Bytes → Result Apci
filter_table_open_from_knx (_ ∷ _ ∷ []) = ok filter_table_open
filter_table_open_from_knx _ = err conversion_error

unfoldable pub filter_table_open_to_knx : Result Bytes
filter_table_open_to_knx = ok (encode 0x3C0 0 [])

unfoldable pub filter_table_read_from_knx : Bytes → Result Apci
filter_table_read_from_knx (_ ∷ _ ∷ n ∷ h ∷ l ∷ []) = ok (filter_table_read (word h l) n)
filter_table_read_from_knx _ = err conversion_error

unfoldable pub filter_table_read_to_knx : ℕ → ℕ → Result Bytes
filter_table_read_to_knx filter_table_address number = do
  raise_if (ltb number 1 || ltb 254 number) conversion_error
  raise_if (ltb 65535 filter_table_address) conversion_error
  p1 ← pack_octet number
  p2 ← pack 2 filter_table_address
  ok (encode 0x3c1 0 (p1 ∷ p2))

unfoldable pub filter_table_response_from_knx : Bytes → Result Apci
filter_table_response_from_knx (_ ∷ _ ∷ n ∷ h ∷ l ∷ payload) =
    ok (filter_table_response (word h l) payload n)
filter_table_response_from_knx _ = err conversion_error

unfoldable pub filter_table_response_to_knx : ℕ → Bytes → ℕ → Result Bytes
filter_table_response_to_knx filter_table_address payload number = do
  raise_if (ltb 254 number) conversion_error
  raise_if (ltb 65535 filter_table_address) conversion_error
  p1 ← pack_octet number
  p2 ← pack 2 filter_table_address
  ok (encode 0x3c2 0 (p1 ∷ (p2 ++ payload)))

unfoldable pub filter_table_write_from_knx : Bytes → Result Apci
filter_table_write_from_knx (_ ∷ _ ∷ n ∷ h ∷ l ∷ x ∷ payload) =
    ok (filter_table_write (word h l) (x ∷ payload) n)
filter_table_write_from_knx _ = err conversion_error

unfoldable pub filter_table_write_to_knx : ℕ → Bytes → ℕ → Result Bytes
filter_table_write_to_knx filter_table_address payload number = do
  raise_if (ltb number 1 || ltb 254 number) conversion_error
  raise_if (ltb 65535 filter_table_address) conversion_error
  p1 ← pack_octet number
  p2 ← pack 2 filter_table_address
  ok (encode 0x3c3 0 (p1 ∷ (p2 ++ payload)))

unfoldable pub router_memory_read_from_knx : Bytes → Result Apci
router_memory_read_from_knx (_ ∷ _ ∷ n ∷ h ∷ l ∷ []) = ok (router_memory_read (word h l) n)
router_memory_read_from_knx _ = err conversion_error

unfoldable pub router_memory_read_to_knx : ℕ → ℕ → Result Bytes
router_memory_read_to_knx memory_address number = do
  raise_if (ltb number 1 || ltb 254 number) conversion_error
  raise_if (ltb 65535 memory_address) conversion_error
  p1 ← pack_octet number
  p2 ← pack 2 memory_address
  ok (encode 0x3c8 0 (p1 ∷ p2))

unfoldable pub router_memory_response_from_knx : Bytes → Result Apci
router_memory_response_from_knx (_ ∷ _ ∷ n ∷ h ∷ l ∷ payload) =
    ok (router_memory_response (word h l) payload n)
router_memory_response_from_knx _ = err conversion_error

unfoldable pub router_memory_response_to_knx : ℕ → Bytes → ℕ → Result Bytes
router_memory_response_to_knx memory_address payload number = do
  raise_if (ltb 254 number) conversion_error
  raise_if (ltb 65535 memory_address) conversion_error
  p1 ← pack_octet number
  p2 ← pack 2 memory_address
  ok (encode 0x3c9 0 (p1 ∷ (p2 ++ payload)))

unfoldable pub router_memory_write_from_knx : Bytes → Result Apci
router_memory_write_from_knx (_ ∷ _ ∷ n ∷ h ∷ l ∷ x ∷ payload) =
    ok (router_memory_write (word h l) (x ∷ payload) n)
router_memory_write_from_knx _ = err conversion_error

unfoldable pub router_memory_write_to_knx : ℕ → Bytes → ℕ → Result Bytes
router_memory_write_to_knx memory_address payload number = do
  raise_if (ltb number 1 || ltb 254 number) conversion_error
  raise_if (ltb 65535 memory_address) conversion_error
  p1 ← pack_octet number
  p2 ← pack 2 memory_address
  ok (encode 0x3ca 0 (p1 ∷ (p2 ++ payload)))
