-- ===== src/Secure/DataSecure/Tests.antt =====
-- Concrete runs, and the theorems at concrete inputs.
use xknx.Prelude.{◌≡◌, ◌<◌, ◌≤◌, refl, ok, err, data_secure_error, some, List, [], ◌∷◌, arith}
use xknx.Secure.Asdu.{SecureData, scf_to_knx}
use xknx.Secure.Primitives.{
  byte_pad, calculate_message_authentication_code_cbc, decrypt_ctr, encrypt_data_ctr,
}
use xknx.Secure.Protection.{block_0, counter_0, payload_code, get_plain_apdu, init_from_plain_apdu}
use xknx.Secure.DataSecure.{
  key_of, key_found, receive_key, recovered, check_sequence_number, received_secure_cemi,
  received_cemi, outgoing_cemi, secure_data_cemi, get_sequence_number, sending_scf,
  sequence_number_max,
}
use xknx.Secure.DataSecure.Growth.{Keeps, number_of}
use xknx.Secure.DataSecure.Traffic.{
  Event, received, sent, after_traffic, after_traffic-Keeps, outgoing_cemi-ascends,
  outgoing_cemi-exhausted,
}
use xknx.Secure.DataSecure.Replay.{received_cemi-replay}
use xknx.Secure.DataSecure.Wire.{IsDelivered, received_cemi-outgoing_cemi}
use xknx.Secure.DataSecure.Samples.{sample, sample-IsCipher, group_key, station, switch_on}
use xknx.Cemi.LinkData.{CemiLData}
use xknx.Cemi.LinkData.RoundTrip.{IsSendable}
use xknx.Telegram.Address.{individual_to_knx, group_to_knx}
use xknx.Telegram.Apci.Services.{secure_apdu, group_value_write, dpt_binary}
use xknx.Telegram.Apci.RoundTrip.Validity.{IsEncodable}
use xknx.Telegram.Apci.Dispatch as Dispatch
use xknx.Telegram.Apci.Methods as Methods
use xknx.Telegram.Apci.Special.{group_value_write_to_knx, group_value_write_from_knx}
use xknx.Telegram.Tpci.{control}
use xknx.Telegram.Tpci as Transport

abbrev secured : SecureData
secured = record {
  sequence_number_bytes = 0 ∷ 0 ∷ 0 ∷ 0 ∷ 0 ∷ 50 ∷ [];
  secured_apdu = 129 ∷ 0 ∷ [];
  message_authentication_code = 1 ∷ 0 ∷ 0 ∷ 16 ∷ [];
}

abbrev secured_frame : CemiLData
secured_frame = record switch_on { payload = some (secure_apdu sending_scf secured) }

leaves_secured : (outgoing_cemi sample switch_on (station 50)).0 ≡ ok secured_frame
unfolding outgoing_cemi secure_data_cemi get_sequence_number init_from_plain_apdu payload_code
    block_0 counter_0 calculate_message_authentication_code_cbc byte_pad encrypt_data_ctr scf_to_knx
    Transport.to_knx individual_to_knx group_to_knx key_of Methods.to_knx group_value_write_to_knx
leaves_secured = refl

is_accepted : (received_cemi sample secured_frame (station 7)).0 ≡ ok switch_on
unfolding received_cemi received_secure_cemi receive_key key_found key_of check_sequence_number
    recovered get_plain_apdu payload_code block_0 counter_0
    calculate_message_authentication_code_cbc byte_pad decrypt_ctr scf_to_knx Transport.to_knx
    individual_to_knx group_to_knx Dispatch.from_knx group_value_write_from_knx
is_accepted = refl

abbrev traffic : List Event
traffic = sent switch_on ∷ received secured_frame ∷ []

switch_on-IsSendable : IsSendable switch_on
unfolding control IsEncodable Methods.calculated_length
switch_on-IsSendable = record {
  flags_fit = omega arith;
  standard_format = refl;
  kind = refl;
  source_fits = omega arith;
  target_fits = omega arith;
  service = (refl, refl);
  number = tt;
  carries = (omega arith, omega arith);
}

received_cemi-replay_example :
    let later = after_traffic sample traffic (received_cemi sample secured_frame (station 7)).1 in
    received_cemi sample secured_frame later ≡ (err data_secure_error, later)
received_cemi-replay_example =
    received_cemi-replay sample secured_frame secured_frame switch_on sending_scf sending_scf
      secured secured traffic (station 7) refl refl refl (omega arith) is_accepted

after_traffic-Keeps_example : Keeps (station 7) (after_traffic sample traffic (station 7))
after_traffic-Keeps_example = after_traffic-Keeps sample traffic (station 7)

abbrev secured_last : SecureData
secured_last = record {
  sequence_number_bytes = 0xFF ∷ 0xFF ∷ 0xFF ∷ 0xFF ∷ 0xFF ∷ 0xFF ∷ [];
  secured_apdu = 129 ∷ 0 ∷ [];
  message_authentication_code = 1 ∷ 0 ∷ 0 ∷ 16 ∷ [];
}

abbrev last_frame : CemiLData
last_frame = record switch_on { payload = some (secure_apdu sending_scf secured_last) }

outgoing_cemi-exhausted_example :
    let later =
      after_traffic sample
        (sent switch_on ∷ [])
        (outgoing_cemi sample switch_on (station 0xFFFFFFFFFFFF)).1 in
    outgoing_cemi sample switch_on later ≡ (err data_secure_error, later)
unfolding after_traffic outgoing_cemi secure_data_cemi get_sequence_number init_from_plain_apdu
    payload_code block_0 counter_0 calculate_message_authentication_code_cbc byte_pad
    encrypt_data_ctr scf_to_knx Transport.to_knx individual_to_knx group_to_knx key_of
    Methods.to_knx group_value_write_to_knx
outgoing_cemi-exhausted_example =
    outgoing_cemi-exhausted sample switch_on switch_on last_frame group_key group_key sending_scf
      secured_last (sent switch_on ∷ []) (station 0xFFFFFFFFFFFF) refl refl refl refl refl

received_cemi-outgoing_cemi_example : IsDelivered sample switch_on 50 (station 50) (station 7)
unfolding key_of Methods.calculated_length
received_cemi-outgoing_cemi_example =
    received_cemi-outgoing_cemi sample switch_on (record { raw = 0x0A03 })
      (group_value_write (dpt_binary 1)) group_key 1 40 (station 50) (station 7) sample-IsCipher
      switch_on-IsSendable refl refl refl (omega arith) refl refl refl refl (omega arith)
      (omega arith)

abbrev secured_next : SecureData
secured_next = record {
  sequence_number_bytes = 0 ∷ 0 ∷ 0 ∷ 0 ∷ 0 ∷ 51 ∷ [];
  secured_apdu = 129 ∷ 0 ∷ [];
  message_authentication_code = 1 ∷ 0 ∷ 0 ∷ 16 ∷ [];
}

abbrev next_frame : CemiLData
next_frame = record switch_on { payload = some (secure_apdu sending_scf secured_next) }

outgoing_cemi-ascends_example :
    (x : SecureData) × (y : SecureData) × (secured_frame.payload ≡ some (secure_apdu sending_scf x))
    × (next_frame.payload ≡ some (secure_apdu sending_scf y))
    × (number_of x < number_of y)
    × (number_of y ≤ sequence_number_max)
unfolding after_traffic outgoing_cemi secure_data_cemi get_sequence_number init_from_plain_apdu
    payload_code block_0 counter_0 calculate_message_authentication_code_cbc byte_pad
    encrypt_data_ctr scf_to_knx Transport.to_knx individual_to_knx group_to_knx key_of
    Methods.to_knx group_value_write_to_knx
outgoing_cemi-ascends_example =
    outgoing_cemi-ascends sample switch_on switch_on secured_frame next_frame group_key group_key []
      (station 50) refl refl leaves_secured refl
