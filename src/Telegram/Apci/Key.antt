-- ===== src/Telegram/Apci/Key.antt =====
-- xknx/telegram/apci.py: authorisation and keys.
use xknx.Prelude.{ℕ, ltb, [], ◌∷◌, Bytes, Result, ok, err, conversion_error, ◌>>=◌, ◌>>◌, raise_if}
use xknx.Telegram.Apci.Pack.{encode, word, pack, pack_octet}
use xknx.Telegram.Apci.Services.{
  Apci, authorize_request, authorize_response, key_write, key_response,
}

unfoldable pub authorize_request_from_knx : Bytes → Result Apci
authorize_request_from_knx (_ ∷ _ ∷ _ ∷ x ∷ y ∷ z ∷ w ∷ []) =
    ok (authorize_request (word (word (word x y) z) w))
authorize_request_from_knx _ = err conversion_error

unfoldable pub authorize_request_to_knx : ℕ → Result Bytes
authorize_request_to_knx key = do p1 ← pack_octet 0; p2 ← pack 4 key; ok (encode 0x3D1 0 (p1 ∷ p2))

unfoldable pub authorize_response_from_knx : Bytes → Result Apci
authorize_response_from_knx (_ ∷ _ ∷ l ∷ []) = ok (authorize_response l)
authorize_response_from_knx _ = err conversion_error

unfoldable pub authorize_response_to_knx : ℕ → Result Bytes
authorize_response_to_knx level = do p1 ← pack_octet level; ok (encode 0x3D2 0 (p1 ∷ []))

unfoldable pub key_write_from_knx : Bytes → Result Apci
key_write_from_knx (_ ∷ _ ∷ l ∷ x ∷ y ∷ z ∷ w ∷ []) = ok (key_write l (word (word (word x y) z) w))
key_write_from_knx _ = err conversion_error

unfoldable pub key_write_to_knx : ℕ → ℕ → Result Bytes
key_write_to_knx level key = do
  raise_if (ltb 0xFF level) conversion_error
  raise_if (ltb 0xFFFFFFFF key) conversion_error
  p1 ← pack_octet level
  p2 ← pack 4 key
  ok (encode 0x3D3 0 (p1 ∷ p2))

unfoldable pub key_response_from_knx : Bytes → Result Apci
key_response_from_knx (_ ∷ _ ∷ l ∷ []) = ok (key_response l)
key_response_from_knx _ = err conversion_error

unfoldable pub key_response_to_knx : ℕ → Result Bytes
key_response_to_knx level = do
  raise_if (ltb 0xFF level) conversion_error
  p1 ← pack_octet level
  ok (encode 0x3D4 0 (p1 ∷ []))
