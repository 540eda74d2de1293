-- ===== src/Telegram/Tpci/Shared.antt =====
-- The octet whose two low bits belong to the application layer.
use xknx.Prelude.{ℕ, ◌+◌, ◌*◌, ◌/◌, ◌%◌, ◌<◌, ◌≡◌, Bool, false, arith, bit_and, bit_or, ok}
use xknx.Prelude.Bits.{and_pow, and_3, and_15, or_low}
use xknx.Telegram.Tpci.{
  Tpci, t_data_group, t_data_broadcast, t_data_tag_group, t_data_individual, t_data_connected,
  t_connect, t_disconnect, t_ack, t_nak, to_knx, control, resolve,
}
use xknx.Telegram.Tpci.RoundTrip.{IsFor, HasSequence, numbered_octet}

pub to_knx-lt : (t : Tpci) → HasSequence t → to_knx t < 256
unfolding to_knx
to_knx-lt t_data_group h = ground arith
to_knx-lt t_data_broadcast h = ground arith
to_knx-lt t_data_tag_group h = ground arith
to_knx-lt t_data_individual h = ground arith
to_knx-lt (t_data_connected s) h = omega (arith, numbered_octet 0 s 0 h)
to_knx-lt t_connect h = ground arith
to_knx-lt t_disconnect h = ground arith
to_knx-lt (t_ack s) h = omega (arith, numbered_octet 1 s 2 h)
to_knx-lt (t_nak s) h = omega (arith, numbered_octet 1 s 3 h)

-- A data service leaves the two low bits to the application layer.
pub to_knx-mod_4 : (t : Tpci) → control t ≡ false → HasSequence t → to_knx t % 4 ≡ 0
unfolding to_knx control
to_knx-mod_4 t_data_group e h = ground arith
to_knx-mod_4 t_data_broadcast e h = ground arith
to_knx-mod_4 t_data_tag_group e h = ground arith
to_knx-mod_4 t_data_individual e h = ground arith
to_knx-mod_4 (t_data_connected s) e h = omega (arith, numbered_octet 0 s 0 h)
to_knx-mod_4 t_connect e h = cc
to_knx-mod_4 t_disconnect e h = cc
to_knx-mod_4 (t_ack s) e h = cc
to_knx-mod_4 (t_nak s) e h = cc

-- These two bits do not matter to `resolve` for a data service.
pub resolve-shared :
    (t : Tpci) (group zero : Bool) (a : ℕ)
    → control t ≡ false
    → IsFor t group zero
    → HasSequence t
    → a < 4
    → resolve (to_knx t + a) group zero ≡ ok t
unfolding resolve to_knx control
resolve-shared t_data_group group zero a e h k l =
    ground (arith, and_pow 7 a, and_pow 6 a, and_15 (a / 4))
resolve-shared t_data_broadcast group zero a e h k l =
    ground (arith, and_pow 7 a, and_pow 6 a, and_15 (a / 4))
resolve-shared t_data_tag_group group zero a e h k l =
    ground (arith, and_pow 7 (4 + a), and_pow 6 (4 + a), and_15 ((4 + a) / 4))
resolve-shared t_data_individual group zero a e h k l =
    ground (arith, and_pow 7 a, and_pow 6 a, and_15 (a / 4))
resolve-shared (t_data_connected s) group zero a e h k l =
    let n = 64 + s * 4 + a in
    rw (numbered_octet 0 s 0 k (omega arith))
      (ground (arith, and_pow 7 n, and_pow 6 n, and_15 (n / 4)))
resolve-shared t_connect group zero a e h k l = cc
resolve-shared t_disconnect group zero a e h k l = cc
resolve-shared (t_ack s) group zero a e h k l = cc
resolve-shared (t_nak s) group zero a e h k l = cc

-- The octet with both, and the bits that are cut out of it again.
pub joined :
    (t : Tpci) (a : ℕ)
    → control t ≡ false
    → HasSequence t
    → a < 4
    → (bit_or a (to_knx t) ≡ to_knx t + a) × (bit_and (to_knx t + a) 3 ≡ a)
joined t a e h l =
    let low = to_knx-mod_4 t e h in
    (or_low a (to_knx t) l low, rw (and_3 (to_knx t + a)) (omega arith))
