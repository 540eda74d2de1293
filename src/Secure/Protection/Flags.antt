-- ===== src/Secure/Protection/Flags.antt =====
-- The message code depends on two fields of the frame flags: the address type and the extended frame
-- format.
use xknx.Prelude.{ℕ, ◌≡◌, refl, bit_and}
use xknx.Secure.Asdu.{
  SecurityControlField, SecureData, SecurityAlgorithmIdentifier, ccm_authentication, ccm_encryption,
}
use xknx.Secure.Primitives.{Cipher}
use xknx.Prelude.{Bytes}
use xknx.Secure.Protection.{Context, block_0, plain_code, payload_code, recover, get_plain_apdu}

module _ (cipher : Cipher) (key : Bytes) (f : SecurityControlField) (c : Context) (flags : ℕ)
    (h : bit_and flags 0x8F ≡ bit_and c.frame_flags 0x8F) where
  recover_flags :
      (a : SecurityAlgorithmIdentifier) (d : SecureData)
      → recover cipher key f (record c { frame_flags = flags }) a d ≡ recover cipher key f c a d
  unfolding recover plain_code payload_code block_0
  recover_flags ccm_authentication d = rw h refl
  recover_flags ccm_encryption d = rw h refl

  pub get_plain_apdu_flags :
      (d : SecureData)
      → get_plain_apdu cipher key f (record c { frame_flags = flags }) d
        ≡ get_plain_apdu cipher key f c d
  unfolding get_plain_apdu
  get_plain_apdu_flags d = recover_flags f.algorithm d
