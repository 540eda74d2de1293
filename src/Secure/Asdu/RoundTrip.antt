-- ===== src/Secure/Asdu/RoundTrip.antt =====
-- Reading back the security control field and the secured data.
use xknx.Prelude.{
  ℕ, ◌-◌, ◌≡◌, refl, Bool, [], ◌∷◌, ◌++◌, Bytes, length, ok, take, drop, length-append,
  take-append_self, drop-append_self, arith,
}
use mathlib.Core.List.{append_assoc}
use xknx.Secure.Asdu.{
  SecurityControlField, SecurityAlgorithmIdentifier, SecurityAlService, SecureData, scf_from_knx,
  scf_to_knx, secure_data_from_knx, secure_data_to_knx, secure_data_length,
}

abbrev pub first : Bytes → ℕ
first [] = 0
first (x ∷ xs) = x

scf_fields :
    (t b : Bool) (a : SecurityAlgorithmIdentifier) (s : SecurityAlService)
    → scf_from_knx (
        first (
          scf_to_knx
            (record { tool_access = t; algorithm = a; system_broadcast = b; service = s })))
      ≡ ok (record { tool_access = t; algorithm = a; system_broadcast = b; service = s })
unfolding scf_from_knx scf_to_knx
scf_fields t b a s = ground arith

-- Every security control field is read back from the octet that it is written as.
pub scf_from_knx-to_knx : (f : SecurityControlField) → scf_from_knx (first (scf_to_knx f)) ≡ ok f
scf_from_knx-to_knx f = scf_fields f.tool_access f.system_broadcast f.algorithm f.service

-- Three pieces, the first of `i` octets and the last of `j`, are cut apart by counting.
module _ (s u m : Bytes) (i j : ℕ) (h : length s ≡ i) (k : length m ≡ j) where
  front : length (s ++ (u ++ m)) - j ≡ length (s ++ u)
  front = omega (arith, length-append s (u ++ m), length-append u m, length-append s u)

  cut_first : take i (s ++ (u ++ m)) ≡ s
  cut_first = rw (← h) (take-append_self s (u ++ m))

  cut_middle : drop i (take (length (s ++ (u ++ m)) - j) (s ++ (u ++ m))) ≡ u
  cut_middle =
      rw (front, ← append_assoc s u m, take-append_self (s ++ u) m, ← h) (drop-append_self s u)

  cut_last : drop (length (s ++ (u ++ m)) - j) (s ++ (u ++ m)) ≡ m
  cut_last = rw (front, ← append_assoc s u m) (drop-append_self (s ++ u) m)

-- Secured data with a sequence number of six octets and a code of four is read back from its octets.
pub secure_data_from_knx-to_knx :
    (d : SecureData)
    → length d.sequence_number_bytes ≡ 6
    → length d.message_authentication_code ≡ 4
    → secure_data_from_knx (secure_data_to_knx d) ≡ d
unfolding secure_data_from_knx secure_data_to_knx
secure_data_from_knx-to_knx d h k = λ n. record {
  sequence_number_bytes = cut_first s u m 6 4 h k n;
  secured_apdu = cut_middle s u m 6 4 h k n;
  message_authentication_code = cut_last s u m 6 4 h k n;
}
  where
    open d use {sequence_number_bytes as s, secured_apdu as u, message_authentication_code as m}

pub scf_octet : (f : SecurityControlField) → scf_to_knx f ≡ first (scf_to_knx f) ∷ []
unfolding scf_to_knx
scf_octet f = refl

pub length-secure_data_to_knx :
    (d : SecureData)
    → length d.sequence_number_bytes ≡ 6
    → length d.message_authentication_code ≡ 4
    → length (secure_data_to_knx d) ≡ secure_data_length d
unfolding secure_data_to_knx secure_data_length
length-secure_data_to_knx d h k = omega (
  arith,
  length-append d.sequence_number_bytes (d.secured_apdu ++ d.message_authentication_code),
  length-append d.secured_apdu d.message_authentication_code,
)
