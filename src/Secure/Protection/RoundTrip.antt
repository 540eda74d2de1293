-- ===== src/Secure/Protection/RoundTrip.antt =====
-- What is protected is recovered, with a cipher that does what its library documents.
use xknx.Prelude.{
  ℕ, zero, suc, ◌+◌, ◌-◌, ◌*◌, ◌%◌, ◌<◌, ◌≤◌, ◌^◌, ◌≡◌, refl, ap, ◌∙◌, true, [], ◌∷◌, ◌++◌, Bytes,
  length, take, drop, length-append, length-take, length-drop, take-append_self, take-append-drop,
  drop-append_self, to_bytes_ok, big_endian, length-big_endian, Result, ok, ◌>>=◌, arith, bit_and,
}
use xknx.Prelude.Bits.{and_bound}
use xknx.Secure.Asdu.{
  SecurityControlField, SecureData, SecurityAlgorithmIdentifier, ccm_authentication, ccm_encryption,
  scf_to_knx,
}
use xknx.Secure.Primitives.{
  Cipher, IsCipher, zeros, byte_pad, calculate_message_authentication_code_cbc, decrypt_ctr,
  encrypt_data_ctr,
}
use xknx.Secure.Protection.{
  octets, block_0, counter_0, same_bytes, Context, plain_code, payload_code, protect,
  init_from_plain_apdu, recover, get_plain_apdu,
}
use xknx.Telegram.Tpci as Transport

length-zeros : (n : ℕ) → length (zeros n) ≡ n
length-zeros zero = refl
length-zeros (suc n) = ap suc (length-zeros n)

length-byte_pad : (text : Bytes) → length (byte_pad text 16) % 16 ≡ 0
unfolding byte_pad
length-byte_pad text = ground (
  arith,
  length-append text (zeros (16 - length text % 16)),
  length-zeros (16 - length text % 16),
)

length-byte_pad_le : (text : Bytes) → length text ≤ length (byte_pad text 16)
unfolding byte_pad
length-byte_pad_le text = ground (arith, length-append text (zeros (16 - length text % 16)))

same_bytes_refl : (bs : Bytes) → same_bytes bs bs ≡ true
same_bytes_refl [] = refl
same_bytes_refl (b ∷ bs) = ground (arith, same_bytes_refl bs)

-- So many octets are returned.
abbrev Returns : ℕ → Result Bytes → Type 0
Returns n r = (out : Bytes) × (r ≡ ok out) × (length out ≡ n)

code_lem :
    (cipher : Cipher) (key additional payload block : Bytes)
    → IsCipher cipher
    → length key ≡ 16
    → length additional < 65536
    → length block ≡ 16
    → Returns 16 (calculate_message_authentication_code_cbc cipher key additional payload block)
unfolding calculate_message_authentication_code_cbc
code_lem cipher key additional payload block lawful hk ha hb =
    let n = to_bytes_ok 2 (length additional) ha in
    let text = block ++ (big_endian 2 (length additional) ++ (additional ++ payload)) in
    let (out, q, l) = lawful.cbc_accepts key (byte_pad text 16) hk (length-byte_pad text) in
    let long = length-append block (big_endian 2 (length additional) ++ (additional ++ payload)) in
    (
      drop (length out - 16) out,
      rw (n, q) refl,
      omega (arith, length-drop (length out - 16) out, l, length-byte_pad_le text, long, hb),
    )

octets_lem :
    (flags t n : ℕ)
    → t < 64
    → n < 256
    → octets (0 ∷ bit_and flags 0x8F ∷ (t * 4 + 3) ∷ 0xF1 ∷ 0 ∷ n ∷ [])
      ≡ ok (0 ∷ bit_and flags 0x8F ∷ (t * 4 + 3) ∷ 0xF1 ∷ 0 ∷ n ∷ [])
unfolding octets
octets_lem flags t n h k = ground (arith, and_bound 8 flags 0x8F (omega arith))

block_lem :
    (number fields : Bytes) (flags t n : ℕ)
    → length number ≡ 6
    → length fields ≡ 4
    → t < 64
    → n < 256
    → Returns 16 (block_0 number fields flags t n)
unfolding block_0
block_lem number fields flags t n h k l m =
    let tail = 0 ∷ bit_and flags 0x8F ∷ (t * 4 + 3) ∷ 0xF1 ∷ 0 ∷ n ∷ [] in
    (
      number ++ (fields ++ tail),
      rw (octets_lem flags t n l m) refl,
      omega (arith, length-append number (fields ++ tail), length-append fields tail, h, k),
    )

-- A frame whose address fields, transport service and payload fit the blocks for the cipher.
pub record IsProtectable (key : Bytes) (c : Context) (apdu : Bytes) : Type 0 where
  pub key_octets : length key ≡ 16
  pub address_octets : length c.address_fields_raw ≡ 4
  pub service_fits : Transport.to_knx c.service < 64
  pub payload_fits : length apdu < 256

-- Secured data that gives the payload back.
pub record IsProtected (cipher : Cipher) (key : Bytes) (f : SecurityControlField) (c : Context)
    (apdu : Bytes) (n : ℕ) (secured : SecureData) : Type 0 where
  pub written : init_from_plain_apdu cipher key f c apdu n ≡ ok secured
  pub recovered : get_plain_apdu cipher key f c secured ≡ ok apdu
  pub number : secured.sequence_number_bytes ≡ big_endian 6 n
  pub payload_length : length secured.secured_apdu ≡ length apdu
  pub code_length : length secured.message_authentication_code ≡ 4

module _ (cipher : Cipher) (lawful : IsCipher cipher) (key : Bytes) (f : SecurityControlField)
    (c : Context) (apdu : Bytes) (fits : IsProtectable key c apdu) (number : Bytes)
    (six : length number ≡ 6) where
  first_four : (r : Result Bytes) → Returns 16 r → Returns 4 (r >>= λ code. ok (take 4 code))
  first_four r (code, q, l) = (take 4 code, rw q refl, length-take 4 code (omega (arith, l)))

  payload_code_lem : Returns 4 (payload_code cipher key f c number apdu)
  unfolding payload_code scf_to_knx
  payload_code_lem =
      let (block, q, l) =
        block_lem number c.address_fields_raw c.frame_flags (Transport.to_knx c.service)
          (length apdu) six fits.address_octets fits.service_fits fits.payload_fits in
      rw q (
        first_four _
          (code_lem cipher key (scf_to_knx f) apdu block lawful fits.key_octets (omega arith) l))

  plain_code_lem : Returns 4 (plain_code cipher key f c number apdu)
  unfolding plain_code scf_to_knx
  plain_code_lem =
      let (block, q, l) =
        block_lem number c.address_fields_raw c.frame_flags (Transport.to_knx c.service) 0 six
          fits.address_octets fits.service_fits (omega arith) in
      rw q (
        first_four _ (
          code_lem cipher key (scf_to_knx f ++ apdu) [] block lawful fits.key_octets
            (omega (arith, fits.payload_fits)) l))

  counter-length : length (counter_0 number c.address_fields_raw) ≡ 16
  unfolding counter_0
  counter-length = omega (
    arith,
    length-append number (c.address_fields_raw ++ 0 ∷ 0 ∷ 0 ∷ 0 ∷ 1 ∷ 0 ∷ []),
    length-append c.address_fields_raw (0 ∷ 0 ∷ 0 ∷ 0 ∷ 1 ∷ 0 ∷ []),
    six,
    fits.address_octets,
  )

  -- The two parts of an encrypted stream.
  stream_lem :
      (mac : Bytes)
      → length mac ≡ 4
      → (text code : Bytes) × (encrypt_data_ctr cipher key
            (counter_0 number c.address_fields_raw)
            mac
            apdu
          ≡ ok (text, code))
        × (decrypt_ctr cipher key (counter_0 number c.address_fields_raw) code text
            ≡ ok (apdu, mac))
        × (length text ≡ length apdu)
        × (length code ≡ 4)
  unfolding encrypt_data_ctr decrypt_ctr
  stream_lem mac four =
      let (out, q, l, back) =
        lawful.encrypt_accepts key (counter_0 number c.address_fields_raw) (mac ++ apdu)
          fits.key_octets counter-length in
      let whole = length-append mac apdu in
      let short = length-take (length mac) out (omega (arith, l, whole)) in
      (
        drop (length mac) out,
        take (length mac) out,
        rw q refl,
        rw
            (
              take-append-drop (length mac) out,
              back,
              short,
              drop-append_self mac apdu,
              take-append_self mac apdu,
            )
            refl,
        omega (arith, length-drop (length mac) out, l, whole),
        short ∙ four,
      )

  protect_lem :
      (a : SecurityAlgorithmIdentifier)
      → (secured : SecureData) × (protect cipher key f c a number apdu ≡ ok secured)
        × (recover cipher key f c a secured ≡ ok apdu)
        × (secured.sequence_number_bytes ≡ number)
        × (length secured.secured_apdu ≡ length apdu)
        × (length secured.message_authentication_code ≡ 4)
  unfolding protect recover
  protect_lem ccm_authentication =
      let (mac, q, l) = plain_code_lem in
      (_, rw q refl, rw (q, same_bytes_refl mac) refl, refl, refl, l)
  protect_lem ccm_encryption =
      let (mac, q, l) = payload_code_lem in
      let (text, code, written, read, len, four) = stream_lem mac l in
      (
        record {
          sequence_number_bytes = number;
          secured_apdu = text;
          message_authentication_code = code;
        },
        rw q (rw written refl),
        rw read (rw q (rw (same_bytes_refl mac) refl)),
        refl,
        len,
        four,
      )

-- With a cipher as documented, a key of 16 octets, an address of four and a payload below 256 octets,
-- either algorithm protects the payload, and recovers it from what was made.
pub get_plain_apdu-init_from_plain_apdu :
    (cipher : Cipher) (key : Bytes) (f : SecurityControlField) (c : Context) (apdu : Bytes) (n : ℕ)
    → IsCipher cipher
    → IsProtectable key c apdu
    → n < 256 ^ 6
    → (secured : SecureData) × IsProtected cipher key f c apdu n secured
unfolding init_from_plain_apdu get_plain_apdu
get_plain_apdu-init_from_plain_apdu cipher key f c apdu n lawful fits h =
    let (secured, written, read, number, len, four) =
      protect_lem cipher lawful key f c apdu fits (big_endian 6 n) (length-big_endian 6 n)
        f.algorithm in
    (
      secured,
      record {
        written = rw (to_bytes_ok 6 n h) written;
        recovered = read;
        number = number;
        payload_length = len;
        code_length = four;
      },
    )
