-- ===== src/Secure/Protection/Numbers.antt =====
-- The sequence number that secured data carries is the one that it was made with.
use xknx.Prelude.{
  ℕ, ◌^◌, ◌≡◌, Bytes, ok, >>=-eq-ok, big_endian, from_bytes, from_bytes-big_endian, ltb, Bool-cases,
  inl, inr, arith,
}
use xknx.Secure.Asdu.{
  SecurityControlField, SecureData, SecurityAlgorithmIdentifier, ccm_authentication, ccm_encryption,
}
use xknx.Secure.Primitives.{Cipher, encrypt_data_ctr}
use xknx.Secure.Protection.{
  Context, plain_code, payload_code, counter_0, protect, init_from_plain_apdu,
}

module _ (cipher : Cipher) (key : Bytes) (f : SecurityControlField) (c : Context) where
  protect-number :
      (a : SecurityAlgorithmIdentifier) (number apdu : Bytes) (secured : SecureData)
      → protect cipher key f c a number apdu ≡ ok secured
      → secured.sequence_number_bytes ≡ number
  unfolding protect
  protect-number ccm_authentication number apdu secured h =
      let (mac, q, k) = >>=-eq-ok (plain_code cipher key f c number apdu) _ secured h in cc
  protect-number ccm_encryption number apdu secured h =
      let (mac, q, k) = >>=-eq-ok (payload_code cipher key f c number apdu) _ secured h in
      let (parts, r, l) =
        >>=-eq-ok (encrypt_data_ctr cipher key (counter_0 number c.address_fields_raw) mac apdu) _
          secured k in
      cc

  pub init_from_plain_apdu-number :
      (apdu : Bytes) (n : ℕ) (secured : SecureData)
      → init_from_plain_apdu cipher key f c apdu n ≡ ok secured
      → from_bytes secured.sequence_number_bytes ≡ n
  unfolding init_from_plain_apdu
  init_from_plain_apdu-number apdu n secured h = elim (Bool-cases (ltb n (256 ^ 6))) [
    | inl b ↦
        let same = protect-number f.algorithm (big_endian 6 n) apdu secured (rw b at h) in
        rw same (from_bytes-big_endian 6 n (ground (arith, b)))
    | inr b ↦ absurd (cc (rw b at h))
  ]
