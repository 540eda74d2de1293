-- ===== src/Secure/DataSecure/Sending.antt =====
-- Frames for a group with a key leave secured, each with a sequence number of its own.
use xknx.Prelude.{
  ℕ, ◌+◌, ◌≤◌, ◌≡◌, refl, ◌⊎◌, inl, inr, ltb, Bool-cases, Result-cases, Option, some, none, Bytes,
  Result, ok, err, Error, data_secure_error, arith,
}
use xknx.Secure.Asdu.{SecureData}
use xknx.Secure.Primitives.{Cipher}
use xknx.Secure.Protection.{init_from_plain_apdu}
use xknx.Secure.Protection.Numbers.{init_from_plain_apdu-number}
use xknx.Secure.DataSecure.{
  DataSecure, sequence_number_max, key_of, address_fields, context_of, get_sequence_number,
  plain_apdu, secure_data_cemi, sending_scf, with_key, outgoing_to, outgoing_cemi,
}
use xknx.Secure.DataSecure.Growth.{number_of, Keeps, Keeps-refl}
use xknx.Cemi.LinkData.{CemiLData, Destination, to_group, to_individual}
use xknx.Telegram.Apci.Services.{secure_apdu}

abbrev pub advanced : DataSecure → DataSecure
advanced s = record s { sequence_number_sending = s.sequence_number_sending + 1 }

-- The key that a frame is secured with, if any.
abbrev pub sending_key : Destination → DataSecure → Option Bytes
sending_key (to_group a) s = key_of a.raw s.group_key_table
sending_key (to_individual a) s = none

-- What is returned is the frame with secured data under a number.
abbrev pub IsSecured : CemiLData → ℕ → Result CemiLData → Type 0
IsSecured d n (err e) = Unit {0}
IsSecured d n (ok a) =
    (secured : SecureData) × (a ≡ record d { payload = some (secure_apdu sending_scf secured) })
    × (number_of secured ≡ n)

advanced-Keeps : (s : DataSecure) → Keeps s (advanced s)
advanced-Keeps s = record {
  same_keys = refl;
  sending_grows = omega arith;
  grown = λ source. (Keeps-refl s).grown source;
}

module _ (cipher : Cipher) where
  -- A frame is secured under the next number, which is used up, or it raises.
  secure_data_cemi_lem :
      (key : Bytes) (d : CemiLData) (s : DataSecure)
      → ((e : Error) × (secure_data_cemi cipher key sending_scf d s ≡ (err e, s)))
        ⊎ ((s.sequence_number_sending ≤ sequence_number_max)
            × ((secure_data_cemi cipher key sending_scf d s).1 ≡ advanced s)
            × IsSecured d s.sequence_number_sending (secure_data_cemi cipher key sending_scf d s).0)
  unfolding secure_data_cemi get_sequence_number
  secure_data_cemi_lem key d s = elim (Result-cases (plain_apdu d.payload)) [
    | inr (e, p) ↦ inl (e, rw p refl)
    | inl (raw, p) ↦ elim (Bool-cases (ltb sequence_number_max s.sequence_number_sending)) [
      | inl h ↦ inl (data_secure_error, rw (p, h) refl)
      | inr h ↦ elim (Result-cases (address_fields d)) [
        | inr (e, q) ↦ inr (ground (arith, h), rw (p, h, q) refl, rw (p, h, q) tt)
        | inl (fields, q) ↦
            elim (Result-cases (
              init_from_plain_apdu cipher key sending_scf (context_of d fields) raw
                s.sequence_number_sending)) [
                  | inr (e, i) ↦ inr (ground (arith, h), rw (p, h, q, i) refl, rw (p, h, q, i) tt)
                  | inl (secured, i) ↦ inr (
                    ground (arith, h),
                    rw (p, h, q, i) refl,
                    rw (p, h, q, i)
                        (
                          secured,
                          refl,
                          init_from_plain_apdu-number cipher key sending_scf (context_of d fields)
                              raw s.sequence_number_sending secured i,
                        ),
                  )
                ]
      ]
    ]
  ]

  with_key-Keeps :
      (d : CemiLData) (key : Option Bytes) (s : DataSecure) → Keeps s (with_key cipher d key s).1
  unfolding with_key
  with_key-Keeps d none s = Keeps-refl s
  with_key-Keeps d (some key) s = elim (secure_data_cemi_lem key d s) [
    | inl (e, h) ↦ rw h (Keeps-refl s)
    | inr (l, h, z) ↦ rw h (advanced-Keeps s)
  ]

  outgoing_lem :
      (d : CemiLData) (dst : Destination) (s : DataSecure)
      → outgoing_to cipher d dst s ≡ with_key cipher d (sending_key dst s) s
  unfolding outgoing_to with_key
  outgoing_lem d (to_group a) s = refl
  outgoing_lem d (to_individual a) s = refl

  pub outgoing_cemi-Keeps : (d : CemiLData) (s : DataSecure) → Keeps s (outgoing_cemi cipher d s).1
  unfolding outgoing_cemi
  outgoing_cemi-Keeps d s =
      rw (outgoing_lem d d.dst_addr s) (with_key-Keeps d (sending_key d.dst_addr s) s)

  pub outgoing_keyed :
      (d : CemiLData) (key : Bytes) (s : DataSecure)
      → sending_key d.dst_addr s ≡ some key
      → outgoing_cemi cipher d s ≡ secure_data_cemi cipher key sending_scf d s
  unfolding outgoing_cemi with_key
  outgoing_keyed d key s h = rw (outgoing_lem d d.dst_addr s, h) refl

  -- What leaves for a group with a key, where nothing is raised, is the frame with secured data that is
  -- encrypted under the next sequence number, at most 48 bits, and this number is used up.
  pub outgoing_cemi-IsSecured :
      (d a : CemiLData) (key : Bytes) (s : DataSecure)
      → sending_key d.dst_addr s ≡ some key
      → (outgoing_cemi cipher d s).0 ≡ ok a
      → (s.sequence_number_sending ≤ sequence_number_max)
        × ((outgoing_cemi cipher d s).1 ≡ advanced s)
        × IsSecured d s.sequence_number_sending (ok a)
  outgoing_cemi-IsSecured d a key s h q =
      let keyed = outgoing_keyed d key s h in
      elim (secure_data_cemi_lem key d s) [
        | inl (e, x) ↦ cc (keyed, x, q)
        | inr (l, x, z) ↦ (l, rw keyed x, rw (rw keyed at q) at z)
      ]
