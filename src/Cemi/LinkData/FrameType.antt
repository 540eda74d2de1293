-- ===== src/Cemi/LinkData/FrameType.antt =====
-- When a frame is a standard frame.
use xknx.Prelude.{
  ℕ, ◌+◌, ◌/◌, ◌<◌, ◌≤◌, ◌≡◌, ◌↔◌, Bool, true, false, Bytes, length, Option, none, some, ok, arith,
}
use xknx.Prelude.Bits.{and_pow, or_pow}
use xknx.Cemi.LinkData.{CemiLData, to_knx, from_knx, calculated_length, length_of, frame_type}
use xknx.Cemi.LinkData.RoundTrip.{IsSendable, to_knx-IsSendable, sent, npdu_length}
use xknx.Telegram.Apci.Services.{Apci}
use xknx.Telegram.Tpci.{control}

frame_type-standard : (flags n : ℕ) → flags < 65536 → (frame_type flags n / 32768 ≡ 1) ↔ (n ≤ 15)
unfolding frame_type
frame_type-standard flags n h = (
  λ e. ground (arith, and_pow 15 flags, or_pow 15 flags),
  λ k. ground (arith, and_pow 15 flags, or_pow 15 flags),
)

-- The length of the unit within the length of the frame.
length_lem : (c : Bool) (o : Option Apci) (n : ℕ) → length_of c o ≡ ok n → n ≡ 8 + npdu_length c o
unfolding length_of
length_lem true none n h = ground arith
length_lem false (some x) n h = ground arith
length_lem true (some x) n h = cc
length_lem false none n h = cc

-- The frame that sendable link layer data is written as is read as data with the flag of a standard
-- frame exactly when it has at most 23 octets, which leaves 15 behind the octet that the transport
-- layer shares.
pub to_knx-standard :
    (d x : CemiLData) (raw : Bytes)
    → IsSendable d
    → to_knx d ≡ ok raw
    → from_knx raw ≡ ok x
    → (x.flags / 32768 ≡ 1) ↔ (length raw ≤ 23)
unfolding calculated_length
to_knx-standard d x raw s e k =
    let (octets, written, read, total) = to_knx-IsSendable d s in
    let same : octets ≡ raw = cc in
    let found : x ≡ sent d = cc in
    let counted = length_lem (control d.tpci) d.payload (length octets) total in
    rw (found, ← same)
      (let lem = frame_type-standard d.flags (npdu_length (control d.tpci) d.payload) s.flags_fit in
        (λ y. omega (arith, lem.0 y), λ y. lem.1 (omega arith)))
