-- ===== src/Cemi/LinkData/Hops.antt =====
-- The hop count in the flags.
use xknx.Prelude.{ℕ, ◌+◌, ◌*◌, ◌/◌, ◌%◌, ◌<◌, ◌≡◌, bit_and, bit_or, arith, ap}
use xknx.Prelude.Bits.{bit_and_half, bit_or_half, or_disjoint, and_511, and_7, and_high, halves}
use xknx.Cemi.LinkData.{CemiLData, hops, set_hops}

-- The mask of all flags but the hop count, from its upper bits down.
and_1022 : (f : ℕ) → bit_and f 1022 ≡ f / 2 % 512 * 2
and_1022 f = omega (arith, bit_and_half f 1022, and_511 (f / 2))

and_2044 : (f : ℕ) → bit_and f 2044 ≡ f / 4 % 512 * 4
and_2044 f = omega (arith, bit_and_half f 2044, and_1022 (f / 2))

and_4088 : (f : ℕ) → bit_and f 4088 ≡ f / 8 % 512 * 8
and_4088 f = omega (arith, bit_and_half f 4088, and_2044 (f / 2))

and_8177 : (f : ℕ) → bit_and f 8177 ≡ f / 16 % 512 * 16 + f % 2
and_8177 f = omega (arith, bit_and_half f 8177, and_4088 (f / 2))

and_16355 : (f : ℕ) → bit_and f 16355 ≡ f / 32 % 512 * 32 + f % 4
and_16355 f = omega (arith, bit_and_half f 16355, and_8177 (f / 2))

and_32711 : (f : ℕ) → bit_and f 32711 ≡ f / 64 % 512 * 64 + f % 8
and_32711 f = omega (arith, bit_and_half f 32711, and_16355 (f / 2))

hops_mask : (f : ℕ) → f < 65536 → bit_and f 0xFF8F ≡ f / 128 * 128 + f % 16
hops_mask f h = omega (arith, bit_and_half f 65423, and_32711 (f / 2))

-- A join with a multiple leaves the low bits.
or_2 : (a v : ℕ) → bit_or a (v * 2) ≡ bit_or (a / 2) v * 2 + a % 2
or_2 a v =
    let half : v * 2 / 2 ≡ v = omega arith in
    omega (arith, bit_or_half a (v * 2), ap (λ (t : ℕ). bit_or (a / 2) t) half)

or_4 : (a v : ℕ) → bit_or a (v * 2 * 2) ≡ bit_or (a / 2 / 2) v * 4 + a % 4
or_4 a v = omega (arith, or_2 a (v * 2), or_2 (a / 2) v)

or_16 : (a v : ℕ) → bit_or a (v * 2 * 2 * 2 * 2) ≡ bit_or (a / 2 / 2 / 2 / 2) v * 16 + a % 16
or_16 a v = omega (arith, or_4 a (v * 2 * 2), or_4 (a / 2 / 2) v)

hops_join : (h l v : ℕ) → l < 16 → v < 8 → bit_or (h * 128 + l) (v * 16) ≡ h * 128 + v * 16 + l
hops_join h l v k m =
    let high : (h * 128 + l) / 2 / 2 / 2 / 2 ≡ h * 8 = omega arith in
    let multiple : v * 16 ≡ v * 2 * 2 * 2 * 2 = omega arith in
    let joined : bit_or ((h * 128 + l) / 2 / 2 / 2 / 2) v ≡ h * 8 + v =
      rw high (or_disjoint 3 h v m) in
    rw multiple (omega (arith, or_16 (h * 128 + l) v, joined))

-- A hop count below 8 that is set in flags of 16 bits is read back, and all other bits of the flags
-- stay as they are.
pub hops-set_hops :
    (d : CemiLData) (v : ℕ)
    → d.flags < 65536
    → v < 8
    → (hops (set_hops d v) ≡ v)
      × ((set_hops d v).flags / 128 ≡ d.flags / 128)
      × ((set_hops d v).flags % 16 ≡ d.flags % 16)
unfolding hops set_hops
hops-set_hops d v h k =
    let mask = hops_mask d.flags h in
    let join = hops_join (d.flags / 128) (d.flags % 16) v (omega arith) k in
    let n = d.flags / 128 * 128 + v * 16 + d.flags % 16 in
    (
      rw mask (rw join (omega (arith, and_high 4 n 7, and_7 (halves 4 n)))),
      rw mask (rw join (omega arith)),
      rw mask (rw join (omega arith)),
    )
