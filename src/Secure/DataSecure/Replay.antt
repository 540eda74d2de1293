-- ===== src/Secure/DataSecure/Replay.antt =====
-- No frame is accepted twice.
use xknx.Prelude.{
  ℕ, ◌≤◌, ◌≡◌, refl, inl, inr, ltb, ◌||◌, Bool-cases, false, Result-cases, List, Option, some, none,
  ok, err, Error, data_secure_error, arith, Bytes,
}
use xknx.Prelude.Tables.{lookup, Table, lookup-insert_self}
use xknx.Secure.Asdu.{SecurityControlField, SecureData}
use xknx.Secure.Primitives.{Cipher}
use xknx.Secure.DataSecure.{
  DataSecure, is_s_a_data, key_of, key_found, check_number, receive_key, check_sequence_number,
  received_secure_cemi, received_cemi, received_payload,
}
use xknx.Secure.DataSecure.Growth.{number_of, Grown, received_secure_cemi_lem}
use xknx.Secure.DataSecure.Traffic.{Event, after_traffic, after_traffic-Keeps}
use xknx.Cemi.LinkData.{CemiLData, Destination, to_group, to_individual}
use xknx.Telegram.Apci.Services.{secure_apdu}

receive_key_error :
    (dst : Destination) (table : Table Bytes) (e : Error)
    → receive_key dst table ≡ err e
    → e ≡ data_secure_error
unfolding receive_key key_found
receive_key_error (to_group a) table e h = cases (key_of a.raw table) h
  where
    cases : (o : Option Bytes) → key_found o ≡ err e → e ≡ data_secure_error
    cases (some key) h = cc
    cases none h = cc
receive_key_error (to_individual a) table e h = cc

module _ (cipher : Cipher) where
  -- A number that is not above the last valid one is refused, whatever else the frame has.
  refused :
      (d : CemiLData) (scf : SecurityControlField) (secured : SecureData) (s : DataSecure)
      (last : ℕ)
      → lookup d.src_addr.raw s.individual_address_table ≡ some last
      → number_of secured ≤ last
      → received_secure_cemi cipher d scf secured s ≡ (err data_secure_error, s)
  unfolding received_secure_cemi check_sequence_number check_number
  refused d scf secured s last h l = elim (Bool-cases (is_s_a_data scf.service)) [
    | inr b ↦ rw b refl
    | inl b ↦ elim (Bool-cases (scf.system_broadcast || scf.tool_access)) [
      | inl c ↦ rw (b, c) refl
      | inr c ↦ elim (Result-cases (receive_key d.dst_addr s.group_key_table)) [
        | inr (e, k) ↦ rw (b, c, k, receive_key_error d.dst_addr s.group_key_table e k) refl
        | inl (key, k) ↦
            let low : ltb last (number_of secured) ≡ false = ground arith in
            rw (b, c, k, h, low) refl
      ]
    ]
  ]

  noted_number :
      (d : CemiLData) (scf : SecurityControlField) (secured : SecureData) (s : DataSecure)
      (a : CemiLData)
      → (received_secure_cemi cipher d scf secured s).0 ≡ ok a
      → lookup d.src_addr.raw
          (received_secure_cemi cipher d scf secured s).1.individual_address_table
        ≡ some (number_of secured)
  noted_number d scf secured s a h = elim (received_secure_cemi_lem cipher d scf secured s) [
    | inl (e, q) ↦ cc (q, h)
    | inr (last, q, l, t) ↦
        rw (t, lookup-insert_self d.src_addr.raw (number_of secured) s.individual_address_table)
          refl
  ]

  still_high : (n : ℕ) (o p : Option ℕ) → o ≡ some n → Grown o p → (m : ℕ) × (p ≡ some m) × (n ≤ m)
  still_high n (some k) (some m) e g = (m, refl, ground arith)
  still_high n (some k) none e g = absurd g
  still_high n none p e g = cc

  pub secure_branch :
      (d : CemiLData) (f : SecurityControlField) (secured : SecureData) (s : DataSecure)
      → d.payload ≡ some (secure_apdu f secured)
      → received_cemi cipher d s ≡ received_secure_cemi cipher d f secured s
  unfolding received_cemi received_payload
  secure_branch d f secured s h = rw h refl

  -- Once a secured frame is accepted, and whatever frames are received and sent after it, a secured frame of
  -- the same sender whose sequence number is not higher is refused with a DataSecureError, and the
  -- state stays.
  pub received_cemi-replay :
      (d e a : CemiLData) (f g : SecurityControlField) (secured again : SecureData)
      (events : List Event) (s : DataSecure)
      → d.payload ≡ some (secure_apdu f secured)
      → e.payload ≡ some (secure_apdu g again)
      → e.src_addr.raw ≡ d.src_addr.raw
      → number_of again ≤ number_of secured
      → (received_cemi cipher d s).0 ≡ ok a
      → let later = after_traffic cipher events (received_cemi cipher d s).1 in
        received_cemi cipher e later ≡ (err data_secure_error, later)
  received_cemi-replay d e a f g secured again events s hd he same low accepted =
      let branch = secure_branch d f secured s hd in
      let entry = noted_number d f secured s a (rw branch at accepted) in
      let grown =
        (after_traffic-Keeps cipher events (received_cemi cipher d s).1).grown d.src_addr.raw in
      let (n, found, h) = still_high (number_of secured) _ _ (rw branch entry) grown in
      rw (secure_branch e g again _ he)
        (refused e g again _ n (rw same found) (omega (arith, low, h)))
