-- ===== src/Telegram/Address/Tests.antt =====
-- Concrete runs, and the theorems at concrete inputs.
use xknx.Prelude.{◌≡◌, refl, ok, err, could_not_parse_address, arith, ◌+◌, ◌*◌, ◌≤◌, ◌∷◌, []}
use xknx.Prelude.Int.{negsuc}
use xknx.Prelude.Text.{codes, split, decimal}
use xknx.Telegram.Address.Forms.{
  IndividualAddress, GroupAddress, InternalGroupAddress, int_arg, str_arg, long, short,
  individual_address, group_address, internal_group_address, parse_device_group_address, internal,
  area, main, line, group_main, group_middle, group_sub, individual_str, group_str,
  individual_from_knx, individual_to_knx, internal_of,
}
use xknx.Telegram.Address.Parts.{
  individual_address-range, group_address-range, individual_to_knx-from_knx, individual_parts_lem,
  group_parts_lem, weigh,
}
use xknx.Telegram.Address.Print.{individual_address-str, group_address-str}
use xknx.Telegram.Address.Internal.{
  IsDevice, internal_group_address-raw, parse_device_group_address-IsDevice,
}

abbrev device : IndividualAddress
device = record { raw = 0x1203 }

abbrev lamp : GroupAddress
lamp = record { raw = 2563 }

abbrev scene : InternalGroupAddress
scene = record { raw = codes "i-scene" }

parse_long : group_address (str_arg (codes "1/2/3")) ≡ ok lamp
unfolding group_address split
parse_long = refl

parse_line_feed : individual_address (str_arg (codes "1.2.3\n")) ≡ ok device
unfolding individual_address split
parse_line_feed = refl

parse_bad : individual_address (str_arg (codes "1.16.3")) ≡ err could_not_parse_address
unfolding individual_address split
parse_bad = refl

parse_negative : individual_address (int_arg (negsuc 0)) ≡ err could_not_parse_address
unfolding individual_address
parse_negative = refl

print_short : group_str short lamp ≡ codes "1/515"
unfolding group_str decimal
print_short = refl

parse_internal : internal_group_address (str_arg (codes "I_ scene ")) ≡ ok scene
unfolding internal_group_address internal_of
parse_internal = refl

parse_device : parse_device_group_address (str_arg (codes "i scene")) ≡ ok (internal scene)
unfolding parse_device_group_address group_address internal_group_address split
parse_device = refl

individual_address-range_example : device.raw ≤ 65535
individual_address-range_example =
    individual_address-range (str_arg (codes "1.2.3\n")) device parse_line_feed

group_address-range_example : lamp.raw ≤ 65535
group_address-range_example = group_address-range (str_arg (codes "1/2/3")) lamp parse_long

individual_parts_lem_example :
    (area device ≤ 15)
    × (main device ≤ 15)
    × (line device ≤ 255)
    × (device.raw ≡ area device * 4096 + main device * 256 + line device)
individual_parts_lem_example = individual_parts_lem device (omega arith)

group_parts_lem_example :
    lamp.raw ≡ weigh long (group_main long lamp) (group_middle long lamp) (group_sub long lamp)
group_parts_lem_example = group_parts_lem long lamp (omega arith)

individual_to_knx-from_knx_example :
    (a : IndividualAddress) × (individual_from_knx (0x12 ∷ 3 ∷ []) ≡ ok a)
    × (individual_to_knx a ≡ ok (0x12 ∷ 3 ∷ []))
individual_to_knx-from_knx_example = individual_to_knx-from_knx 0x12 3 (omega arith) (omega arith)

individual_address-str_example : individual_address (str_arg (individual_str device)) ≡ ok device
individual_address-str_example = individual_address-str device (omega arith)

group_address-str_example : group_address (str_arg (group_str short lamp)) ≡ ok lamp
group_address-str_example = group_address-str short lamp (omega arith)

internal_group_address-raw_example : internal_group_address (str_arg scene.raw) ≡ ok scene
internal_group_address-raw_example =
    internal_group_address-raw (codes "I_ scene ") scene parse_internal

parse_device_group_address-IsDevice_example : IsDevice (internal scene)
parse_device_group_address-IsDevice_example =
    parse_device_group_address-IsDevice (codes "i scene") (internal scene) parse_device
