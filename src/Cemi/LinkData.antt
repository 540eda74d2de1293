-- ===== src/Cemi/LinkData.antt =====
-- xknx/cemi/cemi_frame.py: CEMILData, and the constants of xknx/cemi/const.py that it uses.
pub mod RoundTrip
pub mod Hops
pub mod FrameType
use xknx.Prelude.{
  ℕ, ◌+◌, ◌-◌, ◌*◌, ◌/◌, Bool, true, false, not, ltb, leb, ◌==◌, if◌then◌else◌, [], ◌∷◌, ◌++◌,
  Bytes, length, to_bytes, Option, none, some, bit_and, bit_or, Result, ok, err, ◌>>=◌, ◌>>◌,
  raise_if, conversion_error, could_not_parse_cemi, unsupported_apci_service,
  unsupported_cemi_message, type_error, index_error,
}
use xknx.Telegram.Address.{
  IndividualAddress, GroupAddress, individual_from_knx, individual_to_knx, group_from_knx,
  group_to_knx,
}
use xknx.Telegram.Apci.Services.{Apci}
use xknx.Telegram.Apci.Dispatch as Dispatch
use xknx.Telegram.Apci.Methods as Methods
use xknx.Telegram.Tpci.{Tpci, control, resolve}
use xknx.Telegram.Tpci as Transport

-- `GroupAddress | IndividualAddress`
pub data Destination : Type 0 where
  to_group : GroupAddress → Destination
  to_individual : IndividualAddress → Destination

pub record CemiLData : Type 0 where
  pub flags : ℕ
  pub src_addr : IndividualAddress
  pub dst_addr : Destination
  pub tpci : Tpci
  pub payload : Option Apci

abbrev pub destination_to_knx : Destination → Result Bytes
destination_to_knx (to_group a) = group_to_knx a
destination_to_knx (to_individual a) = individual_to_knx a

abbrev pub is_zero : Destination → Bool
is_zero (to_group a) = a.raw == 0
is_zero (to_individual a) = a.raw == 0

unfoldable pub hops : CemiLData → ℕ
hops d = bit_and d.flags 0x0070 / 16

unfoldable pub set_hops : CemiLData → ℕ → CemiLData
set_hops d val = record d { flags = bit_or (bit_and d.flags 0xFF8F) (val * 16) }

unfoldable pub length_of : Bool → Option Apci → Result ℕ
length_of false (some x) = do n ← Methods.calculated_length x; ok (8 + n)
length_of true none = ok 8
length_of _ _ = err type_error

unfoldable pub calculated_length : CemiLData → Result ℕ
unfolding length_of
calculated_length d = length_of (control d.tpci) d.payload

-- `tpdu[0] |= ...`
or_first : ℕ → Bytes → Result Bytes
or_first n (a ∷ rest) = ok (bit_or a n ∷ rest)
or_first n [] = err index_error

-- The transport unit and the length that the frame gives for it.
unfoldable pub transport_unit : Tpci → Bool → Option Apci → Result (Bytes × ℕ)
unfolding or_first
transport_unit t true payload = do b ← to_bytes 1 (Transport.to_knx t); ok (b, 0)
transport_unit t false none = err conversion_error
transport_unit t false (some x) = do
  raw ← Methods.to_knx x
  tpdu ← or_first (Transport.to_knx t) raw
  n ← Methods.calculated_length x
  ok (tpdu, n)

-- `flags | FRAME_TYPE_STANDARD`, or `flags & ~FRAME_TYPE_STANDARD` for a long frame.
unfoldable pub frame_type : ℕ → ℕ → ℕ
frame_type flags npdu_len =
    if leb npdu_len 15 then bit_or flags 0x8000 else flags - bit_and flags 0x8000

unfoldable pub to_knx : CemiLData → Result Bytes
unfolding transport_unit frame_type
to_knx d = do
  (tpdu, npdu_len) ← transport_unit d.tpci (control d.tpci) d.payload
  raise_if (ltb 254 npdu_len) conversion_error
  f ← to_bytes 2 (frame_type d.flags npdu_len)
  s ← individual_to_knx d.src_addr
  t ← destination_to_knx d.dst_addr
  n ← to_bytes 1 npdu_len
  ok (f ++ (s ++ (t ++ (n ++ tpdu))))

-- Which exception is raised in place of that of `TPCI.resolve` and of `APCI.from_knx`.
abbrev pub tpci_error : Result Tpci → Result Tpci
tpci_error (err conversion_error) = err unsupported_cemi_message
tpci_error r = r

abbrev pub apci_error : Result Apci → Result Apci
apci_error (err unsupported_apci_service) = err unsupported_cemi_message
apci_error (err conversion_error) = err could_not_parse_cemi
apci_error r = r

-- From the service on: a control unit has no payload.
unfoldable pub payload_of : Bool → ℕ → Bytes → Result (Option Apci)
payload_of true npdu_len apdu = do raise_if (not (npdu_len == 0)) could_not_parse_cemi; ok none
payload_of false npdu_len apdu = do x ← apci_error (Dispatch.from_knx apdu); ok (some x)

abbrev pub destination_from : Bool → Bytes → Result Destination
destination_from true raw = do a ← group_from_knx raw; ok (to_group a)
destination_from false raw = do a ← individual_from_knx raw; ok (to_individual a)

unfoldable pub from_knx : Bytes → Result CemiLData
unfolding payload_of
from_knx (f1 ∷ f2 ∷ s1 ∷ s2 ∷ d1 ∷ d2 ∷ npdu_len ∷ t ∷ rest) = do
  src ← individual_from_knx (s1 ∷ s2 ∷ [])
  raise_if (not (bit_and (f1 * 256 + f2) 0x000F == 0)) unsupported_cemi_message
  dst ← destination_from (not (bit_and (f1 * 256 + f2) 0x0080 == 0)) (d1 ∷ d2 ∷ [])
  raise_if (not (length rest == npdu_len)) could_not_parse_cemi
  p ← tpci_error (resolve t (not (bit_and (f1 * 256 + f2) 0x0080 == 0)) (is_zero dst))
  x ← payload_of (control p) npdu_len (bit_and t 3 ∷ rest)
  ok (record { flags = f1 * 256 + f2; src_addr = src; dst_addr = dst; tpci = p; payload = x })
from_knx _ = err could_not_parse_cemi
