-- ===== src/Telegram/Apci/Tests.antt =====
-- Concrete runs, and the theorems at concrete inputs.
use xknx.Prelude.{◌≡◌, refl, ok, err, arith, ◌∷◌, [], conversion_error, ◌>>=◌}
use xknx.Telegram.Apci.Dispatch.{from_knx}
use xknx.Telegram.Apci.Methods.{to_knx, calculated_length}
use xknx.Telegram.Apci.PropertyValue.{property_value_read_to_knx, property_value_write_to_knx}
use xknx.Telegram.Apci.RoundTrip.Octets.{Encodes}
use xknx.Telegram.Apci.RoundTrip.PropertyValue.{property_value_read_to_knx-carry}
use xknx.Telegram.Apci.RoundTrip.Validity.{IsEncodable}
use xknx.Telegram.Apci.RoundTrip.Whole.{from_knx-to_knx}
use xknx.Telegram.Apci.Services.{
  Apci, property_value_write, property_value_read, group_value_write, dpt_binary,
}
use xknx.Telegram.Apci.Special.{group_value_write_from_knx}

abbrev written : Apci
written = property_value_write 1 56 3 2 (7 ∷ 9 ∷ [])

written_octets : to_knx written ≡ ok (0x03 ∷ 0xD7 ∷ 1 ∷ 56 ∷ 0x30 ∷ 2 ∷ 7 ∷ 9 ∷ [])
unfolding to_knx property_value_write_to_knx
written_octets = refl

written-IsEncodable : IsEncodable written
unfolding IsEncodable
written-IsEncodable = ground arith

read_switch : from_knx (0x00 ∷ 0x81 ∷ []) ≡ ok (group_value_write (dpt_binary 1))
unfolding from_knx group_value_write_from_knx
read_switch = refl

read_short : from_knx (0x00 ∷ []) ≡ err conversion_error
unfolding from_knx
read_short = refl

from_knx-to_knx_example : Encodes from_knx (to_knx written) written (calculated_length written)
from_knx-to_knx_example = from_knx-to_knx written written-IsEncodable

property_value_read_to_knx-carry_example :
    (property_value_read_to_knx 1 56 2 5000 >>= from_knx) ≡ ok (property_value_read 1 56 3 904)
property_value_read_to_knx-carry_example =
    property_value_read_to_knx-carry 1 56 2 5000 (omega arith) (omega arith) (omega arith)
      (omega arith) (omega arith)
