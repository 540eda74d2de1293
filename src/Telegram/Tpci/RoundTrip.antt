-- ===== src/Telegram/Tpci/RoundTrip.antt =====
-- Reading back what `to_knx` writes, and what `resolve` reads in general.
use xknx.Prelude.{
  ℕ, ◌+◌, ◌*◌, ◌/◌, ◌%◌, ◌<◌, ◌≡◌, Bool, true, false, arith, bit_and, bit_or, leb, if◌then◌else◌,
}
use xknx.Prelude.{ok, err, conversion_error, ◌≤◌, ◌==◌}
use xknx.Prelude.Bits.{and_pow, or_pow, and_3, and_15, or_add}
use xknx.Telegram.Tpci.{
  Tpci, t_data_group, t_data_broadcast, t_data_tag_group, t_data_individual, t_data_connected,
  t_connect, t_disconnect, t_ack, t_nak, to_knx, resolve,
}

-- The destinations that a service is sent to.
abbrev pub IsFor : Tpci → Bool → Bool → Type 0
IsFor t_data_group group zero = (group ≡ true) × (zero ≡ false)
IsFor t_data_broadcast group zero = (group ≡ true) × (zero ≡ true)
IsFor t_data_tag_group group zero = group ≡ true
IsFor _ group zero = group ≡ false

-- The sequence number fits its field of four bits.
abbrev pub HasSequence : Tpci → Type 0
HasSequence (t_data_connected s) = s < 16
HasSequence (t_ack s) = s < 16
HasSequence (t_nak s) = s < 16
HasSequence _ = Unit {0}

-- `to_knx` of a numbered service, as plain arithmetic.
pub numbered_octet :
    (c s f : ℕ)
    → s < 16
    → f < 4
    → bit_or (bit_or (bit_or (c * 128) 64) (bit_and s 0xF * 4)) f ≡ c * 128 + 64 + s * 4 + f
numbered_octet c s f hs hf = rw and_15 (
    rw (or_add 7 c (c * 128) 64 (omega arith) (omega arith)) (
      rw (or_add 6 (c * 2 + 1) (c * 128 + 64) (s % 16 * 4) (omega arith) (omega arith)) (
        rw (or_add 2 (c * 32 + 16 + s) (c * 128 + 64 + s % 16 * 4) f (omega arith) hf)
          (omega arith))))

-- The fields of such an octet.
octet_fields :
    (c s f : ℕ)
    → c < 2
    → s < 16
    → f < 4
    → (bit_and (c * 128 + 64 + s * 4 + f) 0x80 ≡ c * 128)
      × (bit_and (c * 128 + 64 + s * 4 + f) 0x40 ≡ 64)
      × (bit_and ((c * 128 + 64 + s * 4 + f) / 4) 0xF ≡ s)
      × (bit_and (c * 128 + 64 + s * 4 + f) 3 ≡ f)
octet_fields c s f hc hs hf =
    let n = c * 128 + 64 + s * 4 + f in
    omega (arith, and_pow 7 n, and_pow 6 n, and_15 (n / 4), and_3 n)

-- A transport service that is sent to its own kind of destination, with a sequence number below 16
-- where it has one, is written as an octet that `resolve` reads as that same service.
pub resolve-to_knx :
    (t : Tpci) (group zero : Bool)
    → IsFor t group zero
    → HasSequence t
    → resolve (to_knx t) group zero ≡ ok t
unfolding resolve to_knx
resolve-to_knx t_data_group group zero h k = ground arith
resolve-to_knx t_data_broadcast group zero h k = ground arith
resolve-to_knx t_data_tag_group group zero h k = ground arith
resolve-to_knx t_data_individual group zero h k = ground arith
resolve-to_knx (t_data_connected s) group zero h k =
    ground (arith, numbered_octet 0 s 0 k, octet_fields 0 s 0 (omega arith) k)
resolve-to_knx t_connect group zero h k = ground arith
resolve-to_knx t_disconnect group zero h k = ground arith
resolve-to_knx (t_ack s) group zero h k =
    ground (arith, numbered_octet 1 s 2 k, octet_fields 1 s 2 (omega arith) k)
resolve-to_knx (t_nak s) group zero h k =
    ground (arith, numbered_octet 1 s 3 k, octet_fields 1 s 3 (omega arith) k)

-- The octet that an accepted one stands for: the last two bits of a data service belong to the APCI,
-- and an acknowledgement without the numbered flag is read as one with the flag.
abbrev pub canonical : ℕ → ℕ
canonical raw =
    if leb 128 raw then (if leb 2 (raw % 4) then bit_or raw 0x40 else raw) else raw / 4 * 4

-- Whatever octet `resolve` accepts, the service is one for that kind of destination, its sequence
-- number is below 16, and it is written as the canonical form of the octet.
pub resolve_sound :
    (raw : ℕ) (group zero : Bool) (t : Tpci)
    → raw < 256
    → resolve raw group zero ≡ ok t
    → IsFor t group zero × HasSequence t × (to_knx t ≡ canonical raw)
unfolding resolve to_knx
resolve_sound raw group zero t h e = ground (
  arith,
  and_pow 7 raw,
  and_pow 6 raw,
  or_pow 6 raw,
  and_15 (raw / 4),
  and_3 raw,
  numbered_octet 0 (raw / 4 % 16) 0,
  numbered_octet 1 (raw / 4 % 16) 2,
  numbered_octet 1 (raw / 4 % 16) 3,
)

-- An unnumbered control octet to an individual destination, with the flags of an acknowledgement, is
-- accepted as the acknowledgement, or the negative one, with number 0 where its number is 0, and is
-- refused where it is not.
pub resolve_unnumbered_ack :
    (raw : ℕ) (zero : Bool)
    → 128 ≤ raw
    → raw < 192
    → 2 ≤ raw % 4
    → resolve raw false zero ≡ (
        if raw / 4 % 16 == 0
        then ok (if raw % 4 == 2 then t_ack 0 else t_nak 0)
        else err conversion_error)
unfolding resolve
resolve_unnumbered_ack raw zero h k l =
    ground (arith, and_pow 7 raw, and_pow 6 raw, and_15 (raw / 4), and_3 raw)
