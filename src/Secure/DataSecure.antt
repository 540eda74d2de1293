-- ===== src/Secure/DataSecure.antt =====
-- xknx/secure/data_secure.py: how Data Secure recovers and secures the frames that pass.
mod State
pub mod Growth
pub mod Sending
pub mod Traffic
pub mod Replay
pub mod Success
pub mod Refusal
pub mod Wire
pub mod Samples
mod Tests
use xknx.Prelude.{
  ℕ, ◌+◌, Bool, false, not, ◌||◌, ltb, [], Bytes, Option, none, some, Result, ok, data_secure_error,
  from_bytes,
}
use xknx.Prelude.Actions.{Action, pure, raise, calls, gets, modify, raises_if, ◌>>=◌, ◌>>◌}
use xknx.Prelude.Tables.{lookup, insert, contains}
use xknx.Secure.Asdu.{SecurityControlField, SecureData, s_a_data, ccm_encryption}
use xknx.Secure.Primitives.{Cipher}
use xknx.Secure.Protection.{init_from_plain_apdu}
use xknx.Cemi.LinkData.{CemiLData, Destination, to_group, to_individual}
use xknx.Telegram.Apci.Services.{Apci, secure_apdu}
use xknx.Telegram.Apci.Dispatch as Dispatch
use xknx.Telegram.Apci.Methods as Methods
pub use State.{DataSecure, sequence_number_max, is_s_a_data, address_fields, context_of}
unfoldable pub use State.{
  is_data_secure, is_secure_payload, data_secure, init_from_keyring, key_of, key_found, receive_key,
  recovered,
}

unfoldable pub get_sequence_number : Action DataSecure ℕ
get_sequence_number = do
  seq_nr ← gets (λ s. s.sequence_number_sending)
  raises_if (ltb sequence_number_max seq_nr) data_secure_error
  modify (λ s. record s { sequence_number_sending = s.sequence_number_sending + 1 })
  pure seq_nr

-- What the table says of the sender: none raises, as KeyError does, and a number that is not above
-- the last valid one does too.
check_number : Option ℕ → ℕ → Action DataSecure (Unit {0})
check_number none received = raise data_secure_error
check_number (some last_valid) received =
    raises_if (not (ltb last_valid received)) data_secure_error

-- The body of a `with check_sequence_number(...)`, between the check and the update.
unfoldable pub check_sequence_number :
    {Value : Type 0} → ℕ → ℕ → Action DataSecure Value → Action DataSecure Value
unfolding check_number
check_sequence_number source_address received body = do
  last_valid ← gets (λ s. lookup source_address s.individual_address_table)
  check_number last_valid received
  value ← body
  modify (λ s. record s {
    individual_address_table = insert source_address received s.individual_address_table;
  })
  pure value

-- The payload of a frame without an APDU (TConnect) is empty.
abbrev plain_apdu : Option Apci → Result Bytes
plain_apdu none = ok []
plain_apdu (some x) = Methods.to_knx x

-- The control field of the frames that are sent.
abbrev pub sending_scf : SecurityControlField
sending_scf = record {
  tool_access = false;
  algorithm = ccm_encryption;
  system_broadcast = false;
  service = s_a_data;
}

module _ (cipher : Cipher) where
  unfoldable pub received_secure_cemi :
      CemiLData → SecurityControlField → SecureData → Action DataSecure CemiLData
  received_secure_cemi d scf secured = do
    raises_if (not (is_s_a_data scf.service)) data_secure_error
    raises_if (scf.system_broadcast || scf.tool_access) data_secure_error
    found ← gets (λ s. receive_key d.dst_addr s.group_key_table)
    key ← calls found
    plain_apdu_raw ←
        check_sequence_number d.src_addr.raw (from_bytes secured.sequence_number_bytes)
          (calls (recovered cipher key scf secured d))
    decrypted_payload ← calls (Dispatch.from_knx plain_apdu_raw)
    pure (record d { payload = some decrypted_payload })

  received_plain_cemi : CemiLData → Destination → Action DataSecure CemiLData
  received_plain_cemi d (to_group a) = do
    secure ← gets (λ s. contains a.raw s.group_key_table)
    raises_if secure data_secure_error
    pure d
  received_plain_cemi d (to_individual a) = pure d

  received_payload : CemiLData → Option Apci → Action DataSecure CemiLData
  received_payload d (some (secure_apdu scf secured)) = received_secure_cemi d scf secured
  received_payload d _ = received_plain_cemi d d.dst_addr

  unfoldable pub received_cemi : CemiLData → Action DataSecure CemiLData
  unfolding received_payload received_plain_cemi
  received_cemi d = received_payload d d.payload

  unfoldable pub secure_data_cemi :
      Bytes → SecurityControlField → CemiLData → Action DataSecure CemiLData
  secure_data_cemi key scf d = do
    plain_apdu_raw ← calls (plain_apdu d.payload)
    sequence_number ← get_sequence_number
    fields ← calls (address_fields d)
    secure_asdu ←
        calls
          (init_from_plain_apdu cipher key scf (context_of d fields) plain_apdu_raw sequence_number)
    pure (record d { payload = some (secure_apdu scf secure_asdu) })

  with_key : CemiLData → Option Bytes → Action DataSecure CemiLData
  with_key d (some key) = secure_data_cemi key sending_scf d
  with_key d none = pure d

  outgoing_to : CemiLData → Destination → Action DataSecure CemiLData
  outgoing_to d (to_group a) = do key ← gets (λ s. key_of a.raw s.group_key_table); with_key d key
  outgoing_to d (to_individual a) = pure d

  unfoldable pub outgoing_cemi : CemiLData → Action DataSecure CemiLData
  unfolding with_key outgoing_to
  outgoing_cemi d = outgoing_to d d.dst_addr
