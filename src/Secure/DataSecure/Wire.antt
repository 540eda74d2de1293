-- ===== src/Secure/DataSecure/Wire.antt =====
-- A secured frame over the wire: from the state that secures it to the state that recovers it.
use xknx.Prelude.{
  ℕ, ◌<◌, ◌≤◌, ◌≡◌, refl, Bool, true, false, ◌∷◌, Bytes, length, some, ok, bit_and, arith,
  from_bytes-big_endian, length-big_endian,
}
use xknx.Prelude.Bits.{and_143}
use xknx.Prelude.Tables.{lookup}
use xknx.Secure.Asdu.{SecureData, secure_data_length}
use xknx.Secure.Primitives.{Cipher, IsCipher}
use xknx.Secure.Protection.RoundTrip.{IsProtected, get_plain_apdu-init_from_plain_apdu}
use xknx.Secure.Protection.Flags.{get_plain_apdu_flags}
use xknx.Secure.DataSecure.{
  DataSecure, sequence_number_max, key_of, key_found, receive_key, recovered, address_fields,
  context_of, sending_scf, received_cemi, outgoing_cemi,
}
use xknx.Secure.DataSecure.Growth.{number_of, noted}
use xknx.Secure.DataSecure.Sending.{sending_key, advanced}
use xknx.Secure.DataSecure.Success.{secures, recovers}
use xknx.Cemi.LinkData.{CemiLData, to_group, to_individual, frame_type, to_knx, from_knx, is_zero}
use xknx.Cemi.LinkData.RoundTrip.{
  IsSendable, sent, to_knx-IsSendable, is_group, raw_of, frame_type_lem, npdu_length, apdu_parts,
  destination_octets, carries_lem,
}
use xknx.Telegram.Address.{GroupAddress}
use xknx.Telegram.Apci.Services.{Apci, secure_apdu}
use xknx.Telegram.Apci.Dispatch as Dispatch
use xknx.Telegram.Apci.Methods as Methods
use xknx.Telegram.Apci.RoundTrip.Validity.{IsEncodable}
use xknx.Telegram.Apci.RoundTrip.Whole.{from_knx-to_knx}
use xknx.Telegram.Apci.Space.Whole.{to_knx-LeavesSpace}
use xknx.Telegram.Tpci.{Tpci, control, t_data_group, t_data_broadcast, t_data_tag_group}
use xknx.Telegram.Tpci as Transport
use xknx.Telegram.Tpci.RoundTrip.{IsFor}

-- A service to a group carries data, and its octet is below 64.
group_service :
    (t : Tpci) (group zero : Bool)
    → group ≡ true
    → IsFor t group zero
    → (control t ≡ false) × (Transport.to_knx t < 64)
unfolding Transport.to_knx Transport.control
group_service t group zero g h = ground arith

address_fields_lem :
    (d : CemiLData)
    → d.src_addr.raw < 65536
    → raw_of d.dst_addr < 65536
    → (fields : Bytes) × (address_fields d ≡ ok fields) × (length fields ≡ 4)
address_fields_lem d h k =
    rw (destination_octets (to_individual d.src_addr) h, destination_octets d.dst_addr k)
      (_, refl, refl)

-- The frame with the secured data can be sent.
secured-IsSendable :
    (d : CemiLData) (secured : SecureData)
    → IsSendable d
    → control d.tpci ≡ false
    → length secured.sequence_number_bytes ≡ 6
    → length secured.message_authentication_code ≡ 4
    → length secured.secured_apdu ≤ 242
    → IsSendable (record d { payload = some (secure_apdu sending_scf secured) })
unfolding Methods.calculated_length secure_data_length IsEncodable
secured-IsSendable d secured s c six four short = record {
  flags_fit = s.flags_fit;
  standard_format = s.standard_format;
  kind = s.kind;
  source_fits = s.source_fits;
  target_fits = s.target_fits;
  service = s.service;
  number = s.number;
  carries = rw c ((six, four), omega (arith, short));
}

same_mask : (flags n : ℕ) → flags < 65536 → bit_and (frame_type flags n) 0x8F ≡ bit_and flags 0x8F
same_mask flags n h =
    omega (arith, frame_type_lem flags n h, and_143 flags, and_143 (frame_type flags n))

-- The state and what was recovered, and the flags that the frame had when it was read.
abbrev pub IsDelivered : Cipher → CemiLData → ℕ → DataSecure → DataSecure → Type 0
IsDelivered cipher d n s r =
    (out : CemiLData) × (raw : Bytes) × (read : CemiLData) × (flags : ℕ) × (outgoing_cemi cipher d s
      ≡ (ok out, advanced s))
    × (to_knx out ≡ ok raw)
    × (from_knx raw ≡ ok read)
    × (received_cemi cipher read r ≡ (ok (record d { flags = flags }), noted r d.src_addr.raw n))

module _ (cipher : Cipher) (lawful : IsCipher cipher) (d : CemiLData) (x : Apci)
    (key fields : Bytes) (raw : Bytes) (secured : SecureData) (s r : DataSecure) (last : ℕ) where
  delivered :
      IsSendable d
      → control d.tpci ≡ false
      → d.payload ≡ some x
      → Methods.to_knx x ≡ ok raw
      → Dispatch.from_knx raw ≡ ok x
      → length raw ≤ 242
      → address_fields d ≡ ok fields
      → sending_key d.dst_addr s ≡ some key
      → receive_key d.dst_addr r.group_key_table ≡ ok key
      → lookup d.src_addr.raw r.individual_address_table ≡ some last
      → last < s.sequence_number_sending
      → s.sequence_number_sending ≤ sequence_number_max
      → IsProtected cipher key sending_scf
          (context_of d fields)
          raw
          s.sequence_number_sending
          secured
      → IsDelivered cipher d s.sequence_number_sending s r
  unfolding recovered
  delivered sendable carried held written reads short q hs hr hl above fits made =
      let out = record d { payload = some (secure_apdu sending_scf secured) } in
      let six : length secured.sequence_number_bytes ≡ 6 =
        rw made.number (length-big_endian 6 s.sequence_number_sending) in
      let number : number_of secured ≡ s.sequence_number_sending =
        rw made.number (from_bytes-big_endian 6 s.sequence_number_sending (omega (arith, fits))) in
      let short' : length secured.secured_apdu ≤ 242 = omega (arith, short, made.payload_length) in
      let (octets, sends, receives, total) =
        to_knx-IsSendable out
          (secured-IsSendable d secured sendable carried six made.code_length short') in
      let mask = same_mask d.flags (npdu_length (control d.tpci) out.payload) sendable.flags_fit in
      (
        out,
        octets,
        sent out,
        (sent out).flags,
        secures cipher d key raw fields secured s hs (rw (held, written) refl) fits q made.written,
        sends,
        receives,
        rw held (
            rw number at (
              recovers cipher (sent out) key raw secured r last x refl hr hl (rw number above)
                (rw q (
                  rw
                    (get_plain_apdu_flags cipher key sending_scf (context_of d fields)
                      (sent out).flags mask secured)
                    made.recovered))
                reads)),
      )

-- A group frame whose payload of at most 242 octets is sent secured, written as octets, read from them
-- and received by a state with the same key, that knows a lower number of the sender, is delivered:
-- what is received is the frame that was sent, but for its flags, and the number of the sender is
-- noted.
pub received_cemi-outgoing_cemi :
    (cipher : Cipher) (d : CemiLData) (g : GroupAddress) (x : Apci) (key : Bytes) (n last : ℕ)
    (s r : DataSecure)
    → IsCipher cipher
    → IsSendable d
    → d.dst_addr ≡ to_group g
    → d.payload ≡ some x
    → Methods.calculated_length x ≡ ok n
    → n ≤ 241
    → length key ≡ 16
    → key_of g.raw s.group_key_table ≡ some key
    → key_of g.raw r.group_key_table ≡ some key
    → lookup d.src_addr.raw r.individual_address_table ≡ some last
    → last < s.sequence_number_sending
    → s.sequence_number_sending ≤ sequence_number_max
    → IsDelivered cipher d s.sequence_number_sending s r
unfolding receive_key key_found
received_cemi-outgoing_cemi cipher d g x key n last s r lawful sendable dst held total short long hs
      hr hl above fits =
    let (carried, octet) =
      group_service d.tpci (is_group d.dst_addr) (is_zero d.dst_addr) (rw dst refl)
        sendable.service in
    let valid = carries_lem (control d.tpci) d.payload x carried held sendable.carries in
    let (a, rest, m, written, len, reads, k, l) =
      apdu_parts x (Methods.to_knx x) (Methods.calculated_length x) (from_knx-to_knx x valid.0)
        (to_knx-LeavesSpace x) in
    let same : m ≡ n = cc (len, total) in
    let (fields, q, four) = address_fields_lem d sendable.source_fits sendable.target_fits in
    let (secured, made) =
      get_plain_apdu-init_from_plain_apdu cipher key sending_scf (context_of d fields) (a ∷ rest)
        s.sequence_number_sending lawful
        (record {
          key_octets = long;
          address_octets = four;
          service_fits = octet;
          payload_fits = omega (arith, k, same, short);
        })
        (omega (arith, fits)) in
    delivered cipher lawful d x key fields (a ∷ rest) secured s r last sendable carried held written
      reads (omega (arith, k, same, short)) q (rw dst hs) (rw dst (rw hr refl)) hl above fits made
