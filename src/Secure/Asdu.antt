-- ===== src/Secure/Asdu.antt =====
-- xknx/secure/data_secure_asdu.py: the security control field and the secured service data unit.
pub mod RoundTrip
mod Tests
use xknx.Prelude.{
  ℕ, ◌+◌, ◌-◌, ◌*◌, ◌/◌, Bool, true, false, not, ◌==◌, if◌then◌else◌, [], ◌∷◌, ◌++◌, Bytes, length,
  take, drop, bit_and, bit_or, Result, ok, err, value_error, ◌>>=◌,
}

pub data SecurityAlgorithmIdentifier : Type 0 where
  ccm_authentication ccm_encryption : SecurityAlgorithmIdentifier

pub data SecurityAlService : Type 0 where
  s_a_data s_a_sync_req s_a_sync_res : SecurityAlService

pub record SecurityControlField : Type 0 where
  pub tool_access : Bool
  pub algorithm : SecurityAlgorithmIdentifier
  pub system_broadcast : Bool
  pub service : SecurityAlService

pub record SecureData : Type 0 where
  pub sequence_number_bytes : Bytes
  pub secured_apdu : Bytes
  pub message_authentication_code : Bytes

-- The enum classes raise ValueError on a number that they lack.
algorithm_of : ℕ → Result SecurityAlgorithmIdentifier
algorithm_of n =
    if n == 0 then ok ccm_authentication else if n == 1 then ok ccm_encryption else err value_error

service_of : ℕ → Result SecurityAlService
service_of n =
    if n == 0
    then ok s_a_data
    else if n == 1
    then ok s_a_sync_req
    else if n == 3
    then ok s_a_sync_res
    else err value_error

abbrev algorithm_number : SecurityAlgorithmIdentifier → ℕ
algorithm_number ccm_authentication = 0
algorithm_number ccm_encryption = 1

abbrev service_number : SecurityAlService → ℕ
service_number s_a_data = 0
service_number s_a_sync_req = 1
service_number s_a_sync_res = 3

abbrev bool_number : Bool → ℕ
bool_number true = 1
bool_number false = 0

unfoldable pub scf_from_knx : ℕ → Result SecurityControlField
unfolding algorithm_of service_of
scf_from_knx raw = do
  a ← algorithm_of (bit_and (raw / 16) 7)
  s ← service_of (bit_and raw 7)
  ok (record {
    tool_access = not (bit_and raw 0x80 == 0);
    algorithm = a;
    system_broadcast = not (bit_and raw 8 == 0);
    service = s;
  })

unfoldable pub scf_to_knx : SecurityControlField → Bytes
scf_to_knx f =
    bit_or
      (bit_or
        (bit_or (bit_or 0 (bool_number f.tool_access * 128)) (algorithm_number f.algorithm * 16))
        (bool_number f.system_broadcast * 8))
      (service_number f.service)
    ∷ []

-- `len(secured_data)`
unfoldable pub secure_data_length : SecureData → ℕ
secure_data_length d = 10 + length d.secured_apdu

unfoldable pub secure_data_to_knx : SecureData → Bytes
secure_data_to_knx d = d.sequence_number_bytes ++ (d.secured_apdu ++ d.message_authentication_code)

-- `raw[:6]`, `raw[6:-4]` and `raw[-4:]`
unfoldable pub secure_data_from_knx : Bytes → SecureData
secure_data_from_knx raw = record {
  sequence_number_bytes = take 6 raw;
  secured_apdu = drop 6 (take (length raw - 4) raw);
  message_authentication_code = drop (length raw - 4) raw;
}
