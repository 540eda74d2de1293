-- ===== src/Secure/DataSecure/Refusal.antt =====
-- A plain frame for a group with a key is refused.
use xknx.Prelude.{◌≡◌, refl, true, false, Option, some, none, err, data_secure_error}
use xknx.Prelude.Tables.{contains}
use xknx.Secure.Primitives.{Cipher}
use xknx.Secure.DataSecure.{
  DataSecure, is_data_secure, is_secure_payload, received_cemi, received_payload,
  received_plain_cemi,
}
use xknx.Cemi.LinkData.{CemiLData, to_group}
use xknx.Telegram.Address.{GroupAddress}
use xknx.Telegram.Apci.Services.{Apci, secure_apdu}

module _ (cipher : Cipher) where
  plain_lem :
      (d : CemiLData) (o : Option Apci) (s : DataSecure)
      → is_secure_payload o ≡ false
      → received_payload cipher d o s ≡ received_plain_cemi cipher d d.dst_addr s
  unfolding received_payload is_secure_payload
  plain_lem d (some (secure_apdu f x)) s h = cc
  plain_lem d (some x) s h = refl
  plain_lem d none s h = refl

  -- A frame with a plain payload, or none, is refused with a DataSecureError for a group with a key.
  pub received_cemi-plain :
      (d : CemiLData) (g : GroupAddress) (s : DataSecure)
      → is_data_secure d ≡ false
      → d.dst_addr ≡ to_group g
      → contains g.raw s.group_key_table ≡ true
      → received_cemi cipher d s ≡ (err data_secure_error, s)
  unfolding received_cemi received_plain_cemi is_data_secure
  received_cemi-plain d g s h dst key = rw (plain_lem d d.payload s h) (rw dst (rw key refl))
