-- ===== src/Telegram/Apci/RoundTrip/Special.antt =====
-- Reading back: group values, bit writes, links, domain addresses and secured data.
use xknx.Prelude.{
  ℕ, ◌+◌, ◌*◌, ◌/◌, ◌%◌, ◌<◌, ◌≤◌, ◌≡◌, refl, ◌⊎◌, Bool, true, false, [], ◌∷◌, Bytes, length, ok,
  arith, List, All, IsByte, length-append, take-append_self, drop-append_self, bit_or,
}
use xknx.Prelude.Bits.{and_15, or_disjoint}
use xknx.Telegram.Address.{GroupAddress, group_from_knx, group_to_knx}
use xknx.Telegram.Apci.Dispatch.{from_knx}
use xknx.Telegram.Apci.Methods.{calculated_length}
use xknx.Telegram.Apci.RoundTrip.Octets.{Encodes, nibbles, command_octet, command_fields}
use xknx.Telegram.Apci.Special.{
  octets, addresses_from, addresses_to, group_value_read_from_knx, group_value_read_to_knx,
  group_value_write_from_knx, group_value_write_to_knx, group_value_response_from_knx,
  group_value_response_to_knx, user_memory_bit_write_from_knx, user_memory_bit_write_to_knx,
  memory_bit_write_from_knx, memory_bit_write_to_knx, domain_address_write_from_knx,
  domain_address_write_to_knx, domain_address_response_from_knx, domain_address_response_to_knx,
  domain_address_selective_read_from_knx, domain_address_selective_read_to_knx,
  link_response_from_knx, link_response_to_knx, link_write_from_knx, link_write_to_knx,
}
use xknx.Telegram.Apci.Services.{
  GroupValue, dpt_binary, dpt_array, group_value_read, group_value_write, group_value_response,
  user_memory_bit_write, memory_bit_write, domain_address_write, domain_address_response,
  domain_address_selective_read, link_response, link_write,
}

pub group_value_read-Encodes :
    Encodes from_knx group_value_read_to_knx group_value_read (calculated_length group_value_read)
unfolding group_value_read_to_knx group_value_read_from_knx from_knx calculated_length
group_value_read-Encodes = ground arith

octets_lem : (vs : Bytes) → All IsByte vs → octets vs ≡ ok vs
unfolding octets
octets_lem [] h = refl
octets_lem (v ∷ vs) h = ground (arith, octets_lem vs h.1)

-- Six bits, or octets; no octet at all would be read as six bits.
abbrev pub FitsGroup : GroupValue → Type 0
FitsGroup (dpt_binary v) = v < 64
FitsGroup (dpt_array vs) = All IsByte vs × (1 ≤ length vs)

pub group_value_write-Encodes :
    (v : GroupValue)
    → FitsGroup v
    → Encodes from_knx
        (group_value_write_to_knx v)
        (group_value_write v)
        (calculated_length (group_value_write v))
unfolding group_value_write_to_knx group_value_write_from_knx from_knx calculated_length
group_value_write-Encodes (dpt_binary v) h = ground (arith, command_octet 2 v, command_fields 2 v)
group_value_write-Encodes (dpt_array []) h = absurd (omega arith)
group_value_write-Encodes (dpt_array (v ∷ vs)) h = rw (octets_lem (v ∷ vs) h.0) (ground arith)

pub group_value_response-Encodes :
    (v : GroupValue)
    → FitsGroup v
    → Encodes from_knx
        (group_value_response_to_knx v)
        (group_value_response v)
        (calculated_length (group_value_response v))
unfolding group_value_response_to_knx group_value_response_from_knx from_knx calculated_length
group_value_response-Encodes (dpt_binary v) h =
    ground (arith, command_octet 1 v, command_fields 1 v)
group_value_response-Encodes (dpt_array []) h = absurd (omega arith)
group_value_response-Encodes (dpt_array (v ∷ vs)) h = rw (octets_lem (v ∷ vs) h.0) (ground arith)

-- An address of two octets.
word_or : (a : ℕ) → a < 65536 → bit_or (a / 256 % 256 * 256) (a % 256) ≡ a
word_or a h = omega (arith, or_disjoint 8 (a / 256 % 256) (a % 256) (omega arith))

pub user_memory_bit_write-Encodes :
    (a : ℕ) (ands xors : Bytes)
    → a < 65536
    → length xors ≡ length ands
    → 1 ≤ length ands
    → length ands < 256
    → Encodes from_knx
        (user_memory_bit_write_to_knx a ands xors)
        (user_memory_bit_write a ands xors)
        (calculated_length (user_memory_bit_write a ands xors))
unfolding user_memory_bit_write_to_knx user_memory_bit_write_from_knx from_knx calculated_length
user_memory_bit_write-Encodes a [] xors h0 h1 h2 h3 = absurd (omega arith)
user_memory_bit_write-Encodes a (x ∷ ands) xors h0 h1 h2 h3 = ground (
  arith,
  word_or a h0,
  length-append ands xors,
  take-append_self ands xors,
  drop-append_self ands xors,
)

pub memory_bit_write-Encodes :
    (a : ℕ) (ands xors : Bytes)
    → a < 65536
    → length xors ≡ length ands
    → 1 ≤ length ands
    → length ands < 256
    → Encodes from_knx
        (memory_bit_write_to_knx a ands xors)
        (memory_bit_write a ands xors)
        (calculated_length (memory_bit_write a ands xors))
unfolding memory_bit_write_to_knx memory_bit_write_from_knx from_knx calculated_length
memory_bit_write-Encodes a [] xors h0 h1 h2 h3 = absurd (omega arith)
memory_bit_write-Encodes a (x ∷ ands) xors h0 h1 h2 h3 = ground (
  arith,
  word_or a h0,
  length-append ands xors,
  take-append_self ands xors,
  drop-append_self ands xors,
)

pub domain_address_write-Encodes :
    (d : Bytes)
    → (length d ≡ 2) ⊎ (length d ≡ 6)
    → Encodes from_knx
        (domain_address_write_to_knx d)
        (domain_address_write d)
        (calculated_length (domain_address_write d))
unfolding domain_address_write_to_knx domain_address_write_from_knx from_knx calculated_length
domain_address_write-Encodes d h = ground arith

pub domain_address_response-Encodes :
    (d : Bytes)
    → (length d ≡ 2) ⊎ (length d ≡ 6)
    → Encodes from_knx
        (domain_address_response_to_knx d)
        (domain_address_response d)
        (calculated_length (domain_address_response d))
unfolding domain_address_response_to_knx domain_address_response_from_knx from_knx calculated_length
domain_address_response-Encodes d h = ground arith

pub domain_address_selective_read-Encodes :
    (asdu : Bytes)
    → 1 ≤ length asdu
    → Encodes from_knx
        (domain_address_selective_read_to_knx asdu)
        (domain_address_selective_read asdu)
        (calculated_length (domain_address_selective_read asdu))
unfolding domain_address_selective_read_to_knx domain_address_selective_read_from_knx from_knx
    calculated_length
domain_address_selective_read-Encodes [] h = absurd (omega arith)
domain_address_selective_read-Encodes (x ∷ asdu) h = ground arith

abbrev pub InRange : GroupAddress → Type 0
InRange a = a.raw < 65536

pub link_write-Encodes :
    (g : ℕ) (a : GroupAddress) (d s : Bool)
    → g < 256
    → InRange a
    → Encodes from_knx
        (link_write_to_knx g a d s)
        (link_write g a d s)
        (calculated_length (link_write g a d s))
unfolding link_write_to_knx link_write_from_knx from_knx calculated_length group_to_knx
    group_from_knx
link_write-Encodes g a true true h k = ground arith
link_write-Encodes g a true false h k = ground arith
link_write-Encodes g a false true h k = ground arith
link_write-Encodes g a false false h k = ground arith

-- What the addresses of a link response are written as, and reading them.
abbrev address_octets : List GroupAddress → Bytes
address_octets [] = []
address_octets (a ∷ l) = a.raw / 256 % 256 ∷ a.raw % 256 ∷ address_octets l

length-address_octets : (l : List GroupAddress) → length (address_octets l) ≡ 2 * length l
length-address_octets [] = refl
length-address_octets (a ∷ l) = omega (arith, length-address_octets l)

addresses_to_lem : (l : List GroupAddress) → All InRange l → addresses_to l ≡ ok (address_octets l)
unfolding addresses_to group_to_knx
addresses_to_lem [] h = refl
addresses_to_lem (a ∷ l) h = ground (arith, addresses_to_lem l h.1)

addresses_from_lem :
    (l : List GroupAddress) → All InRange l → addresses_from (address_octets l) ≡ ok l
unfolding addresses_from group_from_knx
addresses_from_lem [] h = refl
addresses_from_lem (a ∷ l) h = rw (addresses_from_lem l h.1) (ground arith)

pub link_response-Encodes :
    (g s i : ℕ) (l : List GroupAddress)
    → g < 256
    → s < 16
    → i < 16
    → length l ≤ 6
    → All InRange l
    → Encodes from_knx
        (link_response_to_knx g s i l)
        (link_response g s i l)
        (calculated_length (link_response g s i l))
unfolding link_response_to_knx link_response_from_knx from_knx calculated_length
link_response-Encodes g s i l hg hs hi hl h = rw (addresses_to_lem l h) (
    ground
      (arith, nibbles s i hi, and_15 (s * 16 + i), length-address_octets l, addresses_from_lem l h))
