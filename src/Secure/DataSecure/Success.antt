-- ===== src/Secure/DataSecure/Success.antt =====
-- What securing and recovering a frame do where nothing is wrong with it.
use xknx.Prelude.{ℕ, ◌<◌, ◌≤◌, ◌≡◌, refl, true, false, ltb, Bytes, some, ok, arith}
use xknx.Prelude.Tables.{lookup}
use xknx.Secure.Asdu.{SecureData}
use xknx.Secure.Primitives.{Cipher}
use xknx.Secure.Protection.{init_from_plain_apdu}
use xknx.Secure.DataSecure.{
  DataSecure, sequence_number_max, receive_key, recovered, address_fields, context_of, check_number,
  check_sequence_number, get_sequence_number, plain_apdu, secure_data_cemi, sending_scf,
  received_secure_cemi, received_cemi, outgoing_cemi,
}
use xknx.Secure.DataSecure.Growth.{number_of, noted}
use xknx.Secure.DataSecure.Replay.{secure_branch}
use xknx.Secure.DataSecure.Sending.{sending_key, advanced, outgoing_keyed}
use xknx.Cemi.LinkData.{CemiLData}
use xknx.Telegram.Apci.Services.{Apci, secure_apdu}
use xknx.Telegram.Apci.Dispatch as Dispatch

module _ (cipher : Cipher) where
  -- A frame that can be secured leaves with the secured data, and the number is used up.
  pub secures :
      (d : CemiLData) (key raw fields : Bytes) (secured : SecureData) (s : DataSecure)
      → sending_key d.dst_addr s ≡ some key
      → plain_apdu d.payload ≡ ok raw
      → s.sequence_number_sending ≤ sequence_number_max
      → address_fields d ≡ ok fields
      → init_from_plain_apdu cipher key sending_scf
          (context_of d fields)
          raw
          s.sequence_number_sending
        ≡ ok secured
      → outgoing_cemi cipher d s
        ≡ (ok (record d { payload = some (secure_apdu sending_scf secured) }), advanced s)
  unfolding secure_data_cemi get_sequence_number
  secures d key raw fields secured s h p l q i =
      let low : ltb sequence_number_max s.sequence_number_sending ≡ false = ground (arith, l) in
      rw (outgoing_keyed cipher d key s h) (rw (p, low, q, i) refl)

  -- A secured frame of a known sender whose payload is recovered is accepted, and its number noted.
  pub recovers :
      (d : CemiLData) (key raw : Bytes) (secured : SecureData) (s : DataSecure) (last : ℕ)
      (x : Apci)
      → d.payload ≡ some (secure_apdu sending_scf secured)
      → receive_key d.dst_addr s.group_key_table ≡ ok key
      → lookup d.src_addr.raw s.individual_address_table ≡ some last
      → last < number_of secured
      → recovered cipher key sending_scf secured d ≡ ok raw
      → Dispatch.from_knx raw ≡ ok x
      → received_cemi cipher d s
        ≡ (ok (record d { payload = some x }), noted s d.src_addr.raw (number_of secured))
  unfolding received_secure_cemi check_sequence_number check_number
  recovers d key raw secured s last x p k h l r f =
      let above : ltb last (number_of secured) ≡ true = ground (arith, l) in
      rw (secure_branch cipher d sending_scf secured s p) (rw (k, h, above, r, f) refl)
