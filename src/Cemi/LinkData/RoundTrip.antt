-- ===== src/Cemi/LinkData/RoundTrip.antt =====
-- Link layer data is read back, with its frame type set by the length.
use xknx.Prelude.{
  ℕ, ◌+◌, ◌/◌, ◌%◌, ◌<◌, ◌≤◌, ◌≡◌, refl, Bool, true, false, not, ◌==◌, ap, [], ◌∷◌, Bytes, length,
  Option, none, some, bit_and, Result, ok, err, arith,
}
use xknx.Prelude.Bits.{and_15, and_pow, or_pow}
use xknx.Cemi.LinkData.{
  Destination, to_group, to_individual, CemiLData, is_zero, destination_to_knx, frame_type,
  transport_unit, payload_of, to_knx, from_knx, calculated_length,
}
use xknx.Telegram.Address.{
  IndividualAddress, individual_from_knx, individual_to_knx, group_from_knx, group_to_knx,
}
use xknx.Telegram.Apci.Dispatch as Dispatch
use xknx.Telegram.Apci.Methods as Methods
use xknx.Telegram.Apci.RoundTrip.Octets.{Encodes}
use xknx.Telegram.Apci.RoundTrip.Validity.{IsEncodable}
use xknx.Telegram.Apci.RoundTrip.Whole.{from_knx-to_knx}
use xknx.Telegram.Apci.Services.{Apci}
use xknx.Telegram.Apci.Space.Octet.{LeavesSpace}
use xknx.Telegram.Apci.Space.Whole.{to_knx-LeavesSpace}
use xknx.Telegram.Tpci.{Tpci, control, resolve}
use xknx.Telegram.Tpci as Transport
use xknx.Telegram.Tpci.RoundTrip.{IsFor, HasSequence, resolve-to_knx}
use xknx.Telegram.Tpci.Shared.{to_knx-lt, resolve-shared, joined}

abbrev pub is_group : Destination → Bool
is_group (to_group a) = true
is_group (to_individual a) = false

abbrev pub raw_of : Destination → ℕ
raw_of (to_group a) = a.raw
raw_of (to_individual a) = a.raw

abbrev FitsUnit : Result ℕ → Type 0
FitsUnit (ok n) = n ≤ 254
FitsUnit (err e) = ⊥

-- A control service has no payload; a data service has one that can be written, in one frame.
abbrev pub Carries : Bool → Option Apci → Type 0
Carries true none = Unit {0}
Carries false (some x) = IsEncodable x × FitsUnit (Methods.calculated_length x)
Carries _ _ = ⊥

-- Link layer data that a frame can hold: the flags name the kind of the destination and no extended
-- frame format, and the transport service is one for that destination.
pub record IsSendable (d : CemiLData) : Type 0 where
  pub flags_fit : d.flags < 65536
  pub standard_format : d.flags % 16 ≡ 0
  pub kind : not (d.flags / 128 % 2 == 0) ≡ is_group d.dst_addr
  pub source_fits : d.src_addr.raw < 65536
  pub target_fits : raw_of d.dst_addr < 65536
  pub service : IsFor d.tpci (is_group d.dst_addr) (is_zero d.dst_addr)
  pub number : HasSequence d.tpci
  pub carries : Carries (control d.tpci) d.payload

-- The frame type is one bit, above those that are read.
pub frame_type_lem :
    (flags n : ℕ)
    → flags < 65536
    → (frame_type flags n < 65536)
      × (frame_type flags n % 16 ≡ flags % 16)
      × (frame_type flags n / 128 % 2 ≡ flags / 128 % 2)
unfolding frame_type
frame_type_lem flags n h = ground (arith, and_pow 15 flags, or_pow 15 flags)

-- Reading a frame, field by field.
frame_lem :
    (flags n t : ℕ) (rest : Bytes) (src : IndividualAddress) (dst : Destination) (p : Tpci)
    (x : Option Apci)
    → flags < 65536
    → flags % 16 ≡ 0
    → not (flags / 128 % 2 == 0) ≡ is_group dst
    → src.raw < 65536
    → raw_of dst < 65536
    → length rest ≡ n
    → resolve t (is_group dst) (is_zero dst) ≡ ok p
    → payload_of (control p) n (bit_and t 3 ∷ rest) ≡ ok x
    → from_knx (
        flags / 256
        ∷ flags % 256
        ∷ src.raw / 256
        ∷ src.raw % 256
        ∷ raw_of dst / 256
        ∷ raw_of dst % 256
        ∷ n
        ∷ t
        ∷ rest)
      ≡ ok (record { flags = flags; src_addr = src; dst_addr = dst; tpci = p; payload = x })
unfolding from_knx individual_from_knx group_from_knx
frame_lem flags n t rest src (to_group a) p x h0 h1 h2 h3 h4 h5 h6 h7 =
    ground (arith, and_15 flags, and_pow 7 flags)
frame_lem flags n t rest src (to_individual a) p x h0 h1 h2 h3 h4 h5 h6 h7 =
    ground (arith, and_15 flags, and_pow 7 flags)

-- What an APDU that is read back consists of.
pub apdu_parts :
    (x : Apci) (r : Result Bytes) (c : Result ℕ)
    → Encodes Dispatch.from_knx r x c
    → LeavesSpace r
    → (a : ℕ) × (rest : Bytes) × (n : ℕ) × (r ≡ ok (a ∷ rest))
      × (c ≡ ok n)
      × (Dispatch.from_knx (a ∷ rest) ≡ ok x)
      × (length rest ≡ n)
      × (a < 4)
apdu_parts x (ok (a ∷ rest)) (ok n) h l = (a, rest, n, refl, refl, h.0, omega arith, l)
apdu_parts x (ok []) c h l = absurd l
apdu_parts x (err e) c h l = absurd h
apdu_parts x (ok (a ∷ rest)) (err e) h l = absurd h

abbrev or_none : Result ℕ → ℕ
or_none (ok n) = n
or_none (err e) = 0

-- The length that the frame gives for its transport unit.
abbrev pub npdu_length : Bool → Option Apci → ℕ
npdu_length false (some x) = or_none (Methods.calculated_length x)
npdu_length _ _ = 0

-- The same data, with the frame type of its length.
abbrev pub sent : CemiLData → CemiLData
sent d = record d { flags = frame_type d.flags (npdu_length (control d.tpci) d.payload) }

-- Data that is written in a frame of as many octets as `calculated_length` gives, and read as `sent`.
abbrev pub IsRead : CemiLData → Type 0
IsRead d =
    (raw : Bytes) × (to_knx d ≡ ok raw)
    × (from_knx raw ≡ ok (sent d))
    × (calculated_length d ≡ ok (length raw))

pub destination_octets :
    (dst : Destination)
    → raw_of dst < 65536
    → destination_to_knx dst ≡ ok (raw_of dst / 256 ∷ raw_of dst % 256 ∷ [])
unfolding group_to_knx individual_to_knx
destination_octets (to_group a) h = ground arith
destination_octets (to_individual a) h = ground arith

-- Writing a frame, field by field.
written_lem :
    (d : CemiLData) (tpdu : Bytes) (n : ℕ)
    → d.flags < 65536
    → d.src_addr.raw < 65536
    → raw_of d.dst_addr < 65536
    → transport_unit d.tpci (control d.tpci) d.payload ≡ ok (tpdu, n)
    → n ≤ 254
    → let flags = frame_type d.flags n in
      to_knx d
      ≡ ok (
          flags / 256
          ∷ flags % 256
          ∷ d.src_addr.raw / 256
          ∷ d.src_addr.raw % 256
          ∷ raw_of d.dst_addr / 256
          ∷ raw_of d.dst_addr % 256
          ∷ n
          ∷ tpdu)
unfolding to_knx individual_to_knx
written_lem d tpdu n hf hs ht e h =
    rw (e, destination_octets d.dst_addr ht) (ground (arith, frame_type_lem d.flags n hf))

-- A unit of which both directions are known makes data that is read.
unit-IsRead :
    (d : CemiLData) (t : ℕ) (rest : Bytes) (n : ℕ)
    → IsSendable d
    → transport_unit d.tpci (control d.tpci) d.payload ≡ ok (t ∷ rest, n)
    → resolve t (is_group d.dst_addr) (is_zero d.dst_addr) ≡ ok d.tpci
    → payload_of (control d.tpci) n (bit_and t 3 ∷ rest) ≡ ok d.payload
    → npdu_length (control d.tpci) d.payload ≡ n
    → calculated_length d ≡ ok (8 + n)
    → n ≤ 254
    → length rest ≡ n
    → IsRead d
unit-IsRead d t rest n s written read carried len total h k =
    let flags = frame_type_lem d.flags n s.flags_fit in
    (
      _,
      written_lem d (t ∷ rest) n s.flags_fit s.source_fits s.target_fits written h,
      rw len (
          frame_lem (frame_type d.flags n) n t rest d.src_addr d.dst_addr d.tpci d.payload flags.0
            (omega (arith, s.standard_format)) (rw flags.2 s.kind) s.source_fits s.target_fits k
            read carried),
      rw total (ap ok (omega arith)),
    )

control-IsRead :
    (d : CemiLData) → control d.tpci ≡ true → d.payload ≡ none → IsSendable d → IsRead d
unfolding transport_unit payload_of calculated_length
control-IsRead d e q s =
    unit-IsRead d (Transport.to_knx d.tpci) [] 0 s
      (rw e (ground (arith, to_knx-lt d.tpci s.number)))
      (resolve-to_knx d.tpci _ _ s.service s.number) (rw (e, q) refl) (rw e refl) (rw (e, q) refl)
      (omega arith) refl

pub carries_lem :
    (c : Bool) (o : Option Apci) (x : Apci)
    → c ≡ false
    → o ≡ some x
    → Carries c o
    → IsEncodable x × FitsUnit (Methods.calculated_length x)
carries_lem false (some y) x e q h = let same : y ≡ x = cc in rw (← same) h
carries_lem false none x e q h = cc
carries_lem true o x e q h = cc

FitsUnit_lem : (r : Result ℕ) (n : ℕ) → r ≡ ok n → FitsUnit r → n ≤ 254
FitsUnit_lem (ok m) n e h = ground arith
FitsUnit_lem (err x) n e h = absurd h

octets-IsRead :
    (d : CemiLData) (x : Apci) (a : ℕ) (rest : Bytes) (n : ℕ)
    → control d.tpci ≡ false
    → d.payload ≡ some x
    → IsSendable d
    → Methods.to_knx x ≡ ok (a ∷ rest)
    → Methods.calculated_length x ≡ ok n
    → Dispatch.from_knx (a ∷ rest) ≡ ok x
    → length rest ≡ n
    → a < 4
    → n ≤ 254
    → IsRead d
unfolding transport_unit payload_of calculated_length
octets-IsRead d x a rest n e q s written len read k l short =
    let octet = joined d.tpci a e s.number l in
    unit-IsRead d (Transport.to_knx d.tpci + a) rest n s
      (rw (e, q) (rw (written, len) (rw octet.0 refl)))
      (resolve-shared d.tpci _ _ a e s.service s.number l) (rw (e, q, octet.1) (rw read refl))
      (rw (e, q) (rw len refl)) (rw (e, q) (rw len refl)) short k

data-IsRead :
    (d : CemiLData) (x : Apci)
    → control d.tpci ≡ false
    → d.payload ≡ some x
    → IsSendable d
    → IsRead d
data-IsRead d x e q s =
    let held = carries_lem (control d.tpci) d.payload x e q s.carries in
    let (a, rest, n, written, len, read, k, l) =
      apdu_parts x (Methods.to_knx x) (Methods.calculated_length x) (from_knx-to_knx x held.0)
        (to_knx-LeavesSpace x) in
    octets-IsRead d x a rest n e q s written len read k l
      (FitsUnit_lem (Methods.calculated_length x) n len held.1)

-- Link layer data whose fields fit, with a payload exactly when it is no control service, is written
-- as a frame of as many octets as `calculated_length` gives, which is read as that data with the
-- frame type of its length.
pub to_knx-IsSendable : (d : CemiLData) → IsSendable d → IsRead d
to_knx-IsSendable d s = cases (control d.tpci) d.payload refl refl s.carries
  where
    cases :
        (c : Bool) (o : Option Apci) → control d.tpci ≡ c → d.payload ≡ o → Carries c o → IsRead d
    cases true none e q h = control-IsRead d e q s
    cases false (some x) e q h = data-IsRead d x e q s
    cases true (some x) e q h = absurd h
    cases false none e q h = absurd h
