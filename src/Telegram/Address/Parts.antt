-- ===== src/Telegram/Address/Parts.antt =====
-- Octets, ranges and parts of individual and group addresses.
use xknx.Prelude.{ℕ, ◌+◌, ◌*◌, ◌/◌, ◌≤◌, ◌≡◌, refl, arith, Option, none, some, ok, ◌∷◌, [], IsByte}
use xknx.Prelude.Bits.{and_7, and_15, and_31, and_255, and_2047}
use xknx.Prelude.Int.{pos}
use xknx.Telegram.Address.Forms.{
  IndividualAddress, GroupAddress, Addressable, int_arg, str_arg, GroupAddressType, free, short,
  long, individual_address, group_address, individual_from_knx, group_from_knx, individual_to_knx,
  group_to_knx, area, main, line, group_main, group_middle, group_sub,
}

-- Every individual address that is constructed, from whatever argument, is at most 65535.
pub individual_address-range :
    (x : Addressable) (a : IndividualAddress) → individual_address x ≡ ok a → a.raw ≤ 65535
unfolding individual_address
individual_address-range (int_arg (pos n)) a e = ground arith
individual_address-range (str_arg s) a e = ground arith
individual_address-range _ a e = ground arith

-- Every group address that is constructed, from whatever argument, is at most 65535.
pub group_address-range :
    (x : Addressable) (a : GroupAddress) → group_address x ≡ ok a → a.raw ≤ 65535
unfolding group_address
group_address-range (int_arg (pos n)) a e = ground arith
group_address-range _ a e = ground arith

-- Two octets are read as an individual address that is written as those octets.
pub individual_to_knx-from_knx :
    (x y : ℕ)
    → IsByte x
    → IsByte y
    → (a : IndividualAddress) × (individual_from_knx (x ∷ y ∷ []) ≡ ok a)
      × (individual_to_knx a ≡ ok (x ∷ y ∷ []))
unfolding individual_from_knx individual_to_knx
individual_to_knx-from_knx x y h k = (record { raw = x * 256 + y }, ground arith, ground arith)

pub group_to_knx-from_knx :
    (x y : ℕ)
    → IsByte x
    → IsByte y
    → (a : GroupAddress) × (group_from_knx (x ∷ y ∷ []) ≡ ok a) × (group_to_knx a ≡ ok (x ∷ y ∷ []))
unfolding group_from_knx group_to_knx
group_to_knx-from_knx x y h k = (record { raw = x * 256 + y }, ground arith, ground arith)

-- The area and the main line of an individual address up to 65535 are at most 15, its line part is at
-- most 255, and the three determine the address.
pub individual_parts_lem :
    (a : IndividualAddress)
    → a.raw ≤ 65535
    → (area a ≤ 15)
      × (main a ≤ 15)
      × (line a ≤ 255)
      × (a.raw ≡ area a * 4096 + main a * 256 + line a)
unfolding area main line
individual_parts_lem a h = omega (arith, and_15 (a.raw / 4096), and_15 (a.raw / 256), and_255 a.raw)

abbrev number : Option ℕ → ℕ
number none = 0
number (some n) = n

-- The value of the parts in a format: a format that has no such part gives none.
abbrev pub weigh : GroupAddressType → Option ℕ → Option ℕ → ℕ → ℕ
weigh free m i s = s
weigh short m i s = number m * 2048 + s
weigh long m i s = number m * 2048 + number i * 256 + s

-- In every format the parts of a group address up to 65535, weighed by their places, give the
-- address.
pub group_parts_lem :
    (f : GroupAddressType) (a : GroupAddress)
    → a.raw ≤ 65535
    → a.raw ≡ weigh f (group_main f a) (group_middle f a) (group_sub f a)
unfolding group_main group_middle group_sub
group_parts_lem free a h = refl
group_parts_lem short a h = omega (arith, and_31 (a.raw / 2048), and_2047 a.raw)
group_parts_lem long a h = omega (arith, and_31 (a.raw / 2048), and_7 (a.raw / 256), and_255 a.raw)
