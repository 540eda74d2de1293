-- ===== src/Telegram/Apci/RoundTrip/Key.antt =====
-- Reading back: authorisation and keys.
use xknx.Prelude.{ℕ, ◌<◌, arith}
use xknx.Telegram.Apci.Dispatch.{from_knx}
use xknx.Telegram.Apci.Methods.{calculated_length}
use xknx.Telegram.Apci.RoundTrip.Octets.{Encodes}
use xknx.Telegram.Apci.Key.{
  authorize_request_from_knx, authorize_request_to_knx, authorize_response_from_knx,
  authorize_response_to_knx, key_write_from_knx, key_write_to_knx, key_response_from_knx,
  key_response_to_knx,
}
use xknx.Telegram.Apci.Services.{authorize_request, authorize_response, key_write, key_response}

pub authorize_request-Encodes :
    (key : ℕ)
    → key < 4294967296
    → Encodes from_knx
        (authorize_request_to_knx key)
        (authorize_request key)
        (calculated_length (authorize_request key))
unfolding authorize_request_to_knx authorize_request_from_knx from_knx calculated_length
authorize_request-Encodes key h0 = ground arith

pub authorize_response-Encodes :
    (level : ℕ)
    → level < 256
    → Encodes from_knx
        (authorize_response_to_knx level)
        (authorize_response level)
        (calculated_length (authorize_response level))
unfolding authorize_response_to_knx authorize_response_from_knx from_knx calculated_length
authorize_response-Encodes level h0 = ground arith

pub key_write-Encodes :
    (level : ℕ) (key : ℕ)
    → level < 256
    → key < 4294967296
    → Encodes from_knx
        (key_write_to_knx level key)
        (key_write level key)
        (calculated_length (key_write level key))
unfolding key_write_to_knx key_write_from_knx from_knx calculated_length
key_write-Encodes level key h0 h1 = ground arith

pub key_response-Encodes :
    (level : ℕ)
    → level < 256
    → Encodes from_knx
        (key_response_to_knx level)
        (key_response level)
        (calculated_length (key_response level))
unfolding key_response_to_knx key_response_from_knx from_knx calculated_length
key_response-Encodes level h0 = ground arith
