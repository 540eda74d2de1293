-- ===== src/Telegram/Apci/RoundTrip/Coupler.antt =====
-- Reading back: filter tables and router memory.
use xknx.Prelude.{ℕ, ◌<◌, ◌≤◌, ◌∷◌, Bytes, length, arith}
use xknx.Telegram.Apci.Dispatch.{from_knx}
use xknx.Telegram.Apci.Methods.{calculated_length}
use xknx.Telegram.Apci.RoundTrip.Octets.{Encodes}
use xknx.Telegram.Apci.Coupler.{
  filter_table_open_from_knx, filter_table_open_to_knx, filter_table_read_from_knx,
  filter_table_read_to_knx, filter_table_response_from_knx, filter_table_response_to_knx,
  filter_table_write_from_knx, filter_table_write_to_knx, router_memory_read_from_knx,
  router_memory_read_to_knx, router_memory_response_from_knx, router_memory_response_to_knx,
  router_memory_write_from_knx, router_memory_write_to_knx,
}
use xknx.Telegram.Apci.Services.{
  filter_table_open, filter_table_read, filter_table_response, filter_table_write,
  router_memory_read, router_memory_response, router_memory_write,
}

pub filter_table_open-Encodes :
    Encodes from_knx filter_table_open_to_knx filter_table_open
      (calculated_length filter_table_open)
unfolding filter_table_open_to_knx filter_table_open_from_knx from_knx calculated_length
filter_table_open-Encodes = ground arith

pub filter_table_read-Encodes :
    (filter_table_address : ℕ) (number : ℕ)
    → filter_table_address < 65536
    → 1 ≤ number
    → number ≤ 254
    → Encodes from_knx
        (filter_table_read_to_knx filter_table_address number)
        (filter_table_read filter_table_address number)
        (calculated_length (filter_table_read filter_table_address number))
unfolding filter_table_read_to_knx filter_table_read_from_knx from_knx calculated_length
filter_table_read-Encodes filter_table_address number h0 h1 h2 = ground arith

pub filter_table_response-Encodes :
    (filter_table_address : ℕ) (payload : Bytes) (number : ℕ)
    → filter_table_address < 65536
    → number ≤ 254
    → Encodes from_knx
        (filter_table_response_to_knx filter_table_address payload number)
        (filter_table_response filter_table_address payload number)
        (calculated_length (filter_table_response filter_table_address payload number))
unfolding filter_table_response_to_knx filter_table_response_from_knx from_knx calculated_length
filter_table_response-Encodes filter_table_address payload number h0 h1 = ground arith

pub filter_table_write-Encodes :
    (filter_table_address : ℕ) (payload : Bytes) (number : ℕ)
    → filter_table_address < 65536
    → 1 ≤ number
    → number ≤ 254
    → 1 ≤ length payload
    → Encodes from_knx
        (filter_table_write_to_knx filter_table_address payload number)
        (filter_table_write filter_table_address payload number)
        (calculated_length (filter_table_write filter_table_address payload number))
unfolding filter_table_write_to_knx filter_table_write_from_knx from_knx calculated_length
filter_table_write-Encodes filter_table_address (x ∷ payload) number h0 h1 h2 h3 = ground arith
filter_table_write-Encodes filter_table_address _ number h0 h1 h2 h3 = absurd (omega arith)

pub router_memory_read-Encodes :
    (memory_address : ℕ) (number : ℕ)
    → memory_address < 65536
    → 1 ≤ number
    → number ≤ 254
    → Encodes from_knx
        (router_memory_read_to_knx memory_address number)
        (router_memory_read memory_address number)
        (calculated_length (router_memory_read memory_address number))
unfolding router_memory_read_to_knx router_memory_read_from_knx from_knx calculated_length
router_memory_read-Encodes memory_address number h0 h1 h2 = ground arith

pub router_memory_response-Encodes :
    (memory_address : ℕ) (payload : Bytes) (number : ℕ)
    → memory_address < 65536
    → number ≤ 254
    → Encodes from_knx
        (router_memory_response_to_knx memory_address payload number)
        (router_memory_response memory_address payload number)
        (calculated_length (router_memory_response memory_address payload number))
unfolding router_memory_response_to_knx router_memory_response_from_knx from_knx calculated_length
router_memory_response-Encodes memory_address payload number h0 h1 = ground arith

pub router_memory_write-Encodes :
    (memory_address : ℕ) (payload : Bytes) (number : ℕ)
    → memory_address < 65536
    → 1 ≤ number
    → number ≤ 254
    → 1 ≤ length payload
    → Encodes from_knx
        (router_memory_write_to_knx memory_address payload number)
        (router_memory_write memory_address payload number)
        (calculated_length (router_memory_write memory_address payload number))
unfolding router_memory_write_to_knx router_memory_write_from_knx from_knx calculated_length
router_memory_write-Encodes memory_address (x ∷ payload) number h0 h1 h2 h3 = ground arith
router_memory_write-Encodes memory_address _ number h0 h1 h2 h3 = absurd (omega arith)
