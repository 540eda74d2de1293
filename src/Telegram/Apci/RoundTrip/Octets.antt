-- ===== src/Telegram/Apci/RoundTrip/Octets.antt =====
-- The octets that the headers and packed fields give, and reading them back.
use xknx.Prelude.{
  ℕ, ◌+◌, ◌*◌, ◌/◌, ◌%◌, ◌<◌, ◌≡◌, Bool, true, false, not, ◌==◌, if◌then◌else◌, ◌∷◌, [], Bytes,
  length, bit_and, bit_or, Result, ok, arith,
}
use xknx.Prelude.Bits.{
  and_15, and_63, and_255, and_2047, bit_and_half, and_high, halves, and_1023, or_disjoint, and_pow,
}
use xknx.Telegram.Apci.Pack.{
  pack_function_property_ext_header, pack_system_network_parameter_header,
  pack_group_prop_value_header,
}
use xknx.Telegram.Apci.Services.{Apci}

-- The service `x` is written as an APDU of `n` octets behind the first, and that is read as `x`.
abbrev pub Encodes : (Bytes → Result Apci) → Result Bytes → Apci → Result ℕ → Type 0
Encodes read (ok raw) x (ok n) = (read raw ≡ ok x) × (length raw ≡ n + 1)
Encodes read _ x _ = ⊥

pub nibbles : (h l : ℕ) → l < 16 → bit_or (h * 16) l ≡ h * 16 + l
nibbles h l k = or_disjoint 4 h l k

pub and_4095 : (a : ℕ) → bit_and a 4095 ≡ a % 4096
and_4095 a = omega (arith, bit_and_half a 4095, and_2047 (a / 2))

pub and_65535 : (a : ℕ) → bit_and a 65535 ≡ a % 65536
and_65535 a = omega (
  arith,
  bit_and_half a 65535,
  bit_and_half (a / 2) 32767,
  bit_and_half (a / 2 / 2) 16383,
  bit_and_half (a / 2 / 2 / 2) 8191,
  and_4095 (a / 2 / 2 / 2 / 2),
)

-- A 12 bit instance and a 12 bit property in three octets.
pub function_property_ext_octets :
    (t i p : ℕ)
    → t < 65536
    → i < 4096
    → p < 4096
    → (pack_function_property_ext_header t i p
        ≡ ok (t / 256 % 256 ∷ t % 256 ∷ i / 16 ∷ (i % 16 * 16 + p / 256) ∷ p % 256 ∷ []))
      × (bit_or (i / 16 * 16) ((i % 16 * 16 + p / 256) / 16) ≡ i)
      × (bit_or (bit_and (i % 16 * 16 + p / 256) 15 * 256) (p % 256) ≡ p)
unfolding pack_function_property_ext_header
function_property_ext_octets t i p ht hi hp =
    let joined = nibbles (i % 16) (p / 256) (omega arith) in
    let low = and_15 (i % 16 * 16 + p / 256) in
    (
      ground (arith, and_15 i, and_255 p, joined),
      omega (arith, nibbles (i / 16) ((i % 16 * 16 + p / 256) / 16)),
      rw low (omega (arith, or_disjoint 8 ((i % 16 * 16 + p / 256) % 16) (p % 256) (omega arith))),
    )

pub system_network_octets :
    (t p : ℕ)
    → t < 65536
    → p < 4096
    → (pack_system_network_parameter_header t p
        ≡ ok (t / 256 % 256 ∷ t % 256 ∷ p * 16 / 256 ∷ p * 16 % 256 ∷ []))
      × (bit_or (p * 16 / 256 * 16) (p * 16 % 256 / 16) ≡ p)
unfolding pack_system_network_parameter_header
system_network_octets t p ht hp =
    (ground arith, omega (arith, nibbles (p * 16 / 256) (p * 16 % 256 / 16)))

pub group_prop_octets :
    (t i p : ℕ)
    → t < 65536
    → i < 256
    → p < 256
    → pack_group_prop_value_header t i p ≡ ok (t / 256 % 256 ∷ t % 256 ∷ i ∷ p ∷ [])
unfolding pack_group_prop_value_header
group_prop_octets t i p ht hi hp = ground arith

pub description_octets :
    (d p : ℕ)
    → d < 16
    → p < 4096
    → (bit_or (d * 16) (p / 256) ≡ d * 16 + p / 256)
      × (bit_and p 0xFF ≡ p % 256)
      × (bit_or (bit_and (d * 16 + p / 256) 15 * 256) (p % 256) ≡ p)
description_octets d p hd hp = (
  nibbles d (p / 256) (omega arith),
  and_255 p,
  rw (and_15 (d * 16 + p / 256))
      (omega (arith, or_disjoint 8 ((d * 16 + p / 256) % 16) (p % 256) (omega arith))),
)

pub writable_octet :
    (w : Bool) (t : ℕ)
    → t < 64
    → (bit_or (if w then 0x80 else 0) t ≡ (if w then 0x80 else 0) + t)
      × (not (bit_and ((if w then 0x80 else 0) + t) 0x80 == 0) ≡ w)
      × (bit_and ((if w then 0x80 else 0) + t) 0x3F ≡ t)
writable_octet true t h = (
  or_disjoint 7 1 t (omega arith),
  ground (arith, and_pow 7 (0x80 + t)),
  omega (arith, and_63 (0x80 + t)),
)
writable_octet false t h = (
  or_disjoint 7 0 t (omega arith),
  ground (arith, and_pow 7 (0 + t)),
  omega (arith, and_63 (0 + t)),
)

pub user_memory_octets :
    (a c : ℕ)
    → a < 1048576
    → c < 16
    → (bit_or (bit_and a 0xF0000 / 65536 * 16) (bit_and c 0xF) ≡ a / 65536 * 16 + c)
      × (bit_and a 0xFFFF ≡ a % 65536)
      × (bit_and (a / 65536 * 16 + c) 0xF0 ≡ a / 65536 * 16)
      × (bit_and (a / 65536 * 16 + c) 0xF ≡ c)
user_memory_octets a c ha hc =
    let top : bit_and a 0xF0000 ≡ a / 65536 * 65536 =
      omega (arith, and_high 16 a 15, and_15 (halves 16 a)) in
    let b = a / 65536 * 16 + c in
    (
      rw (top, and_15) (omega (arith, nibbles (a / 65536 * 65536 / 65536) (c % 16))),
      and_65535 a,
      omega (arith, and_high 4 b 15, and_15 (halves 4 b)),
      omega (arith, and_15 b),
    )

-- The second octet of a service that keeps six bits for a value, and the code that is read back.
pub command_octet : (q p : ℕ) → p < 64 → bit_or (q * 64) (bit_and p 0x3F) ≡ q * 64 + p
command_octet q p h = rw and_63 (omega (arith, or_disjoint 6 q (p % 64)))

pub command_fields :
    (q p : ℕ)
    → q < 16
    → p < 64
    → (bit_and (q * 64 + p) 0x3FF ≡ q * 64 + p)
      × (bit_and (q * 64 + p) 0x3C0 ≡ q * 64)
      × (bit_and (q % 4 * 64 + p) 0x3F ≡ p)
command_fields q p hq hp =
    let n = q * 64 + p in
    (
      omega (arith, and_1023 n),
      omega (arith, and_high 6 n 15, and_15 (halves 6 n)),
      omega (arith, and_63 (q % 4 * 64 + p)),
    )
