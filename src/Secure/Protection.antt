-- ===== src/Secure/Protection.antt =====
-- xknx/secure/data_secure_asdu.py: an APDU is protected as secured data and recovered from it.
pub mod RoundTrip
pub mod Numbers
pub mod Flags
use xknx.Prelude.{
  ℕ, ◌+◌, ◌*◌, Bool, true, false, not, ltb, [], ◌∷◌, ◌++◌, Bytes, length, take, to_bytes, bit_and,
  Result, ok, ◌>>=◌, ◌>>◌, raise_if, value_error, data_secure_error, ◌&&◌, ◌==◌,
}
use xknx.Secure.Asdu.{
  SecurityControlField, SecureData, ccm_authentication, ccm_encryption, scf_to_knx,
  SecurityAlgorithmIdentifier,
}
use xknx.Secure.Primitives.{
  Cipher, calculate_message_authentication_code_cbc, decrypt_ctr, encrypt_data_ctr,
}
use xknx.Telegram.Tpci.{Tpci}
use xknx.Telegram.Tpci as Transport

-- `bytes((...))`
octets : Bytes → Result Bytes
octets [] = ok []
octets (b ∷ bs) = do raise_if (ltb 255 b) value_error; rest ← octets bs; ok (b ∷ rest)

unfoldable pub block_0 :
    (sequence_number address_fields_raw : Bytes)
    → (frame_flags tpci_int payload_length : ℕ) → Result Bytes
unfolding octets
block_0 sequence_number address_fields_raw frame_flags tpci_int payload_length = do
  fields ←
      octets (0 ∷ bit_and frame_flags 0x8F ∷ (tpci_int * 4 + 3) ∷ 0xF1 ∷ 0 ∷ payload_length ∷ [])
  ok (sequence_number ++ (address_fields_raw ++ fields))

unfoldable pub counter_0 : (sequence_number address_fields_raw : Bytes) → Bytes
counter_0 sequence_number address_fields_raw =
    sequence_number ++ (address_fields_raw ++ 0 ∷ 0 ∷ 0 ∷ 0 ∷ 1 ∷ 0 ∷ [])

-- `a == b` on bytes
abbrev pub same_bytes : Bytes → Bytes → Bool
same_bytes [] [] = true
same_bytes (x ∷ xs) (y ∷ ys) = x == y && same_bytes xs ys
same_bytes _ _ = false

-- What a message code is calculated for beside the key and the payload.
pub record Context : Type 0 where
  pub address_fields_raw : Bytes
  pub frame_flags : ℕ
  pub service : Tpci

module _ (cipher : Cipher) (key : Bytes) (scf : SecurityControlField) (context : Context) where
  open context use {address_fields_raw, frame_flags, service}

  -- The first four octets of the code, for a plain and for an encrypted payload.
  unfoldable pub plain_code : Bytes → Bytes → Result Bytes
  plain_code sequence_number apdu = do
    b ← block_0 sequence_number address_fields_raw frame_flags (Transport.to_knx service) 0
    code ← calculate_message_authentication_code_cbc cipher key (scf_to_knx scf ++ apdu) [] b
    ok (take 4 code)

  unfoldable pub payload_code : Bytes → Bytes → Result Bytes
  payload_code sequence_number apdu = do
    b ←
        block_0 sequence_number address_fields_raw frame_flags (Transport.to_knx service)
          (length apdu)
    code ← calculate_message_authentication_code_cbc cipher key (scf_to_knx scf) apdu b
    ok (take 4 code)

  protect : SecurityAlgorithmIdentifier → Bytes → Bytes → Result SecureData
  unfolding plain_code payload_code
  protect ccm_authentication number apdu = do
    mac ← plain_code number apdu
    ok (record {
      sequence_number_bytes = number;
      secured_apdu = apdu;
      message_authentication_code = mac;
    })
  protect ccm_encryption number apdu = do
    mac_cbc ← payload_code number apdu
    (secured_apdu, mac) ←
        encrypt_data_ctr cipher key (counter_0 number address_fields_raw) mac_cbc apdu
    ok (record {
      sequence_number_bytes = number;
      secured_apdu = secured_apdu;
      message_authentication_code = mac;
    })

  unfoldable pub init_from_plain_apdu : Bytes → ℕ → Result SecureData
  unfolding protect
  init_from_plain_apdu apdu sequence_number = do
    number ← to_bytes 6 sequence_number
    protect scf.algorithm number apdu

  recover : SecurityAlgorithmIdentifier → SecureData → Result Bytes
  unfolding plain_code payload_code
  recover ccm_encryption d = do
    (dec_payload, mac_tr) ←
        decrypt_ctr cipher key (counter_0 d.sequence_number_bytes address_fields_raw)
          d.message_authentication_code d.secured_apdu
    mac_cbc ← payload_code d.sequence_number_bytes dec_payload
    raise_if (not (same_bytes mac_cbc mac_tr)) data_secure_error
    ok dec_payload
  recover ccm_authentication d = do
    mac ← plain_code d.sequence_number_bytes d.secured_apdu
    raise_if (not (same_bytes mac d.message_authentication_code)) data_secure_error
    ok d.secured_apdu

  unfoldable pub get_plain_apdu : SecureData → Result Bytes
  unfolding recover
  get_plain_apdu d = recover scf.algorithm d
