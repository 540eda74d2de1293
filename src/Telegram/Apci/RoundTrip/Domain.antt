-- ===== src/Telegram/Apci/RoundTrip/Domain.antt =====
-- Reading back: domain addresses with a serial number, and secured data.
use xknx.Prelude.{ℕ, ◌<◌, ◌≡◌, ◌⊎◌, [], ◌∷◌, Bytes, length, arith, Option, none, some}
use xknx.Secure.Asdu.{SecurityControlField, SecureData, secure_data_length}
use xknx.Secure.Asdu.RoundTrip.{
  scf_octet, length-secure_data_to_knx, scf_from_knx-to_knx, secure_data_from_knx-to_knx,
}
use xknx.Telegram.Apci.Dispatch.{from_knx}
use xknx.Telegram.Apci.Methods.{calculated_length}
use xknx.Telegram.Apci.RoundTrip.Octets.{Encodes}
use xknx.Telegram.Apci.Special.{
  domain_address_serial_number_response_from_knx, domain_address_serial_number_response_to_knx,
  domain_address_serial_number_write_from_knx, domain_address_serial_number_write_to_knx,
  secure_apdu_from_knx, secure_apdu_to_knx,
}
use xknx.Telegram.Apci.Services.{
  domain_address_serial_number_response, domain_address_serial_number_write, secure_apdu,
}

pub domain_address_serial_number_response-Encodes :
    (serial d : Bytes)
    → length serial ≡ 6
    → (length d ≡ 2) ⊎ (length d ≡ 6)
    → Encodes from_knx
        (domain_address_serial_number_response_to_knx serial d)
        (domain_address_serial_number_response serial d)
        (calculated_length (domain_address_serial_number_response serial d))
unfolding domain_address_serial_number_response_to_knx
    domain_address_serial_number_response_from_knx from_knx calculated_length
domain_address_serial_number_response-Encodes (a ∷ b ∷ c ∷ u ∷ e ∷ f ∷ []) d h k = ground arith
domain_address_serial_number_response-Encodes _ d h k = absurd (omega arith)

-- The version and the backbone key come together, behind a domain address of four octets.
abbrev pub FitsBackbone : Bytes → Option ℕ → Option Bytes → Type 0
FitsBackbone d none none = (length d ≡ 2) ⊎ ((length d ≡ 4) ⊎ (length d ≡ 6))
FitsBackbone d (some v) (some k) = (length d ≡ 4) × (v < 256) × (length k ≡ 16)
FitsBackbone d _ _ = ⊥

plain-Encodes :
    (serial d : Bytes)
    → length serial ≡ 6
    → FitsBackbone d none none
    → Encodes from_knx
        (domain_address_serial_number_write_to_knx serial d none none)
        (domain_address_serial_number_write serial d none none)
        (calculated_length (domain_address_serial_number_write serial d none none))
unfolding domain_address_serial_number_write_to_knx domain_address_serial_number_write_from_knx
    from_knx calculated_length
plain-Encodes (a ∷ b ∷ c ∷ u ∷ e ∷ f ∷ []) (p ∷ q ∷ []) h k = ground arith
plain-Encodes (a ∷ b ∷ c ∷ u ∷ e ∷ f ∷ []) (p ∷ q ∷ r ∷ s ∷ []) h k = ground arith
plain-Encodes (a ∷ b ∷ c ∷ u ∷ e ∷ f ∷ []) (p ∷ q ∷ r ∷ s ∷ t ∷ v ∷ []) h k = ground arith
plain-Encodes (a ∷ b ∷ c ∷ u ∷ e ∷ f ∷ []) _ h k = absurd (omega arith)
plain-Encodes _ d h k = absurd (omega arith)

backbone-Encodes :
    (serial d : Bytes) (v : ℕ) (key : Bytes)
    → length serial ≡ 6
    → FitsBackbone d (some v) (some key)
    → Encodes from_knx
        (domain_address_serial_number_write_to_knx serial d (some v) (some key))
        (domain_address_serial_number_write serial d (some v) (some key))
        (calculated_length (domain_address_serial_number_write serial d (some v) (some key)))
unfolding domain_address_serial_number_write_to_knx domain_address_serial_number_write_from_knx
    from_knx calculated_length
backbone-Encodes (a ∷ b ∷ c ∷ u ∷ e ∷ f ∷ []) (p ∷ q ∷ r ∷ s ∷ []) v key h k = ground arith
backbone-Encodes (a ∷ b ∷ c ∷ u ∷ e ∷ f ∷ []) _ v key h k = absurd (omega arith)
backbone-Encodes _ d v key h k = absurd (omega arith)

pub domain_address_serial_number_write-Encodes :
    (serial d : Bytes) (v : Option ℕ) (key : Option Bytes)
    → length serial ≡ 6
    → FitsBackbone d v key
    → Encodes from_knx
        (domain_address_serial_number_write_to_knx serial d v key)
        (domain_address_serial_number_write serial d v key)
        (calculated_length (domain_address_serial_number_write serial d v key))
domain_address_serial_number_write-Encodes serial d none none h k = plain-Encodes serial d h k
domain_address_serial_number_write-Encodes serial d (some v) (some key) h k =
    backbone-Encodes serial d v key h k
domain_address_serial_number_write-Encodes serial d none (some key) h k = absurd k
domain_address_serial_number_write-Encodes serial d (some v) none h k = absurd k

-- The lengths that the format gives to the sequence number and the code.
abbrev pub FitsSecure : SecureData → Type 0
FitsSecure d = (length d.sequence_number_bytes ≡ 6) × (length d.message_authentication_code ≡ 4)

pub secure_apdu-Encodes :
    (f : SecurityControlField) (d : SecureData)
    → FitsSecure d
    → Encodes from_knx
        (secure_apdu_to_knx f d)
        (secure_apdu f d)
        (calculated_length (secure_apdu f d))
unfolding secure_apdu_to_knx secure_apdu_from_knx from_knx calculated_length secure_data_length
secure_apdu-Encodes f d h = ground (
  arith,
  scf_octet f,
  scf_from_knx-to_knx f,
  secure_data_from_knx-to_knx d,
  length-secure_data_to_knx d,
)
