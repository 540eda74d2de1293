-- ===== src/Secure/DataSecure/Growth.antt =====
-- What receiving frames does to the state: the sequence number of a sender only grows.
use xknx.Prelude.{
  ℕ, ◌<◌, ◌≤◌, ◌≡◌, refl, ◌⊎◌, inl, inr, ltb, ◌||◌, ◌==◌, ◌∙◌, Option, none, some, Result, ok, err,
  Error, data_secure_error, from_bytes, arith, Bool-cases, Option-cases, Result-cases,
}
use xknx.Prelude.Actions.{calls}
use xknx.Prelude.Tables.{lookup, contains, insert, lookup-insert_self, lookup-insert_other}
use xknx.Secure.Asdu.{SecurityControlField, SecureData}
use xknx.Secure.Primitives.{Cipher}
use xknx.Secure.DataSecure.{
  DataSecure, is_s_a_data, recovered, receive_key, check_sequence_number, received_secure_cemi,
  received_cemi, received_plain_cemi, received_payload,
}
use xknx.Cemi.LinkData.{CemiLData, Destination, to_group, to_individual}
use xknx.Telegram.Apci.Services.{Apci, secure_apdu}
use xknx.Telegram.Apci.Dispatch as Dispatch

abbrev pub number_of : SecureData → ℕ
number_of secured = from_bytes secured.sequence_number_bytes

-- The state in which a number is the last valid one of a sender.
abbrev pub noted : DataSecure → ℕ → ℕ → DataSecure
noted s source n = record s {
  individual_address_table = insert source n s.individual_address_table;
}

pub check_sequence_number_lem :
    {Value : Type 0} (source n : ℕ) (r : Result Value) (s : DataSecure)
    → ((e : Error) × (check_sequence_number source n (calls r) s ≡ (err e, s)))
      ⊎ ((a : Value) × (last : ℕ) × (lookup source s.individual_address_table ≡ some last)
          × (last < n)
          × (r ≡ ok a)
          × (check_sequence_number source n (calls r) s ≡ (ok a, noted s source n)))
unfolding check_sequence_number
check_sequence_number_lem source n r s =
    elim (Option-cases (lookup source s.individual_address_table)) [
      | inl h ↦ inl (data_secure_error, rw h refl)
      | inr (last, h) ↦ elim (Bool-cases (ltb last n)) [
        | inr b ↦ inl (data_secure_error, rw (h, b) refl)
        | inl b ↦ elim (Result-cases r) [
          | inl (a, q) ↦ inr (a, last, h, ground (arith, b), q, rw (h, b, q) refl)
          | inr (e, q) ↦ inl (e, rw (h, b, q) refl)
        ]
      ]
    ]

-- Entries of the table before and after: none is added or taken away, and a number only grows.
abbrev pub Grown : Option ℕ → Option ℕ → Type 0
Grown none none = Unit {0}
Grown (some n) (some m) = n ≤ m
Grown _ _ = ⊥

-- What the traffic keeps of the state.
pub record Keeps (s t : DataSecure) : Type 0 where
  pub same_keys : t.group_key_table ≡ s.group_key_table
  pub sending_grows : s.sequence_number_sending ≤ t.sequence_number_sending
  pub grown :
      (source : ℕ)
      → Grown (lookup source s.individual_address_table) (lookup source t.individual_address_table)

Grown-refl : (o : Option ℕ) → Grown o o
Grown-refl none = tt
Grown-refl (some n) = omega arith

Grown-trans : (o p q : Option ℕ) → Grown o p → Grown p q → Grown o q
Grown-trans o p q h k = ground arith

pub Keeps-refl : (s : DataSecure) → Keeps s s
Keeps-refl s = record {
  same_keys = refl;
  sending_grows = omega arith;
  grown = λ source. Grown-refl (lookup source s.individual_address_table);
}

pub Keeps-trans : (s t u : DataSecure) → Keeps s t → Keeps t u → Keeps s u
Keeps-trans s t u h k = record {
  same_keys = k.same_keys ∙ h.same_keys;
  sending_grows = omega (arith, h.sending_grows, k.sending_grows);
  grown = λ source.
      Grown-trans (lookup source s.individual_address_table)
        (lookup source t.individual_address_table) (lookup source u.individual_address_table)
        (h.grown source) (k.grown source);
}

noted-Grown :
    (s : DataSecure) (source last n k : ℕ)
    → lookup source s.individual_address_table ≡ some last
    → last < n
    → Grown
        (lookup k s.individual_address_table)
        (lookup k (noted s source n).individual_address_table)
noted-Grown s source last n k e h = elim (Bool-cases (k == source)) [
  | inl q ↦
      let same : k ≡ source = ground (arith, q) in
      rw (same, e, lookup-insert_self source n s.individual_address_table) (omega (arith, h))
  | inr q ↦
      rw
        (lookup-insert_other k source n s.individual_address_table
          (λ same. ground (arith, q, same)))
        (Grown-refl (lookup k s.individual_address_table))
]

noted-Keeps :
    (s : DataSecure) (source last n : ℕ)
    → lookup source s.individual_address_table ≡ some last
    → last < n
    → Keeps s (noted s source n)
noted-Keeps s source last n e h = record {
  same_keys = refl;
  sending_grows = omega arith;
  grown = λ k. noted-Grown s source last n k e h;
}

module _ (cipher : Cipher) where
  pub received_secure_cemi_lem :
      (d : CemiLData) (scf : SecurityControlField) (secured : SecureData) (s : DataSecure)
      → ((e : Error) × (received_secure_cemi cipher d scf secured s ≡ (err e, s)))
        ⊎ ((last : ℕ) × (lookup d.src_addr.raw s.individual_address_table ≡ some last)
            × (last < number_of secured)
            × ((received_secure_cemi cipher d scf secured s).1
                ≡ noted s d.src_addr.raw (number_of secured)))
  unfolding received_secure_cemi
  received_secure_cemi_lem d scf secured s = elim (Bool-cases (is_s_a_data scf.service)) [
    | inr b ↦ inl (data_secure_error, rw b refl)
    | inl b ↦ elim (Bool-cases (scf.system_broadcast || scf.tool_access)) [
      | inl c ↦ inl (data_secure_error, rw (b, c) refl)
      | inr c ↦ elim (Result-cases (receive_key d.dst_addr s.group_key_table)) [
        | inr (e, k) ↦ inl (e, rw (b, c, k) refl)
        | inl (key, k) ↦
            elim (check_sequence_number_lem d.src_addr.raw (number_of secured)
              (recovered cipher key scf secured d) s) [
                | inl (e, h) ↦ inl (e, rw (b, c, k, h) refl)
                | inr (raw, last, h, l, q, t) ↦ elim (Result-cases (Dispatch.from_knx raw)) [
                  | inl (x, f) ↦ inr (last, h, l, rw (b, c, k, t, f) refl)
                  | inr (e, f) ↦ inr (last, h, l, rw (b, c, k, t, f) refl)
                ]
              ]
      ]
    ]
  ]

  received_secure_cemi-Keeps :
      (d : CemiLData) (scf : SecurityControlField) (secured : SecureData) (s : DataSecure)
      → Keeps s (received_secure_cemi cipher d scf secured s).1
  received_secure_cemi-Keeps d scf secured s = elim (received_secure_cemi_lem d scf secured s) [
    | inl (e, h) ↦ rw h (Keeps-refl s)
    | inr (last, h, l, t) ↦ rw t (noted-Keeps s d.src_addr.raw last (number_of secured) h l)
  ]

  received_plain_cemi_lem :
      (d : CemiLData) (dst : Destination) (s : DataSecure)
      → (received_plain_cemi cipher d dst s).1 ≡ s
  unfolding received_plain_cemi
  received_plain_cemi_lem d (to_group a) s = elim (Bool-cases (contains a.raw s.group_key_table)) [
    | inl h ↦ rw h refl
    | inr h ↦ rw h refl
  ]
  received_plain_cemi_lem d (to_individual a) s = refl

  received_payload-Keeps :
      (d : CemiLData) (o : Option Apci) (s : DataSecure) → Keeps s (received_payload cipher d o s).1
  unfolding received_payload
  received_payload-Keeps d (some (secure_apdu scf secured)) s =
      received_secure_cemi-Keeps d scf secured s
  received_payload-Keeps d (some x) s = rw (received_plain_cemi_lem d d.dst_addr s) (Keeps-refl s)
  received_payload-Keeps d none s = rw (received_plain_cemi_lem d d.dst_addr s) (Keeps-refl s)

  pub received_cemi-Keeps : (d : CemiLData) (s : DataSecure) → Keeps s (received_cemi cipher d s).1
  unfolding received_cemi
  received_cemi-Keeps d s = received_payload-Keeps d d.payload s
