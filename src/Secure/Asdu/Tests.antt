-- ===== src/Secure/Asdu/Tests.antt =====
-- Concrete runs, and the theorems at concrete inputs.
use xknx.Prelude.{◌≡◌, refl, true, false, ok, err, value_error, ◌∷◌, []}
use xknx.Secure.Asdu.{
  SecurityControlField, SecureData, ccm_encryption, s_a_data, scf_from_knx, scf_to_knx,
  secure_data_from_knx, secure_data_to_knx,
}
use xknx.Secure.Asdu.RoundTrip.{first, scf_from_knx-to_knx, secure_data_from_knx-to_knx}

abbrev tool_field : SecurityControlField
tool_field = record {
  tool_access = true;
  algorithm = ccm_encryption;
  system_broadcast = false;
  service = s_a_data;
}

abbrev secured : SecureData
secured = record {
  sequence_number_bytes = 0 ∷ 0 ∷ 0 ∷ 0 ∷ 0 ∷ 7 ∷ [];
  secured_apdu = 0x80 ∷ 1 ∷ [];
  message_authentication_code = 1 ∷ 2 ∷ 3 ∷ 4 ∷ [];
}

scf_tool : scf_from_knx 0x90 ≡ ok tool_field
unfolding scf_from_knx
scf_tool = refl

scf_unknown : scf_from_knx 0x24 ≡ err value_error
unfolding scf_from_knx
scf_unknown = refl

scf_from_knx-to_knx_example : scf_from_knx (first (scf_to_knx tool_field)) ≡ ok tool_field
scf_from_knx-to_knx_example = scf_from_knx-to_knx tool_field

secure_data_from_knx-to_knx_example : secure_data_from_knx (secure_data_to_knx secured) ≡ secured
secure_data_from_knx-to_knx_example = secure_data_from_knx-to_knx secured refl refl
