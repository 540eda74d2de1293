-- ===== src/Secure/DataSecure/State.antt =====
-- xknx/secure/data_secure.py: the tables of Data Secure, what they are made from, and the lookups in
-- them. The tables are keyed by the number of an address.
use xknx.Prelude.{
  ℕ, Bool, true, false, ◌&&◌, ltb, leb, if◌then◌else◌, zero, suc, [], ◌∷◌, ◌++◌, Bytes, Option,
  none, some, Result, ok, err, data_secure_error, ◌>>=◌,
}
use xknx.Prelude.Tables.{Table, lookup}
use xknx.Secure.Asdu.{SecurityControlField, SecureData, SecurityAlService, s_a_data}
use xknx.Secure.Primitives.{Cipher}
use xknx.Secure.Protection.{Context, get_plain_apdu}
use xknx.Cemi.LinkData.{CemiLData, Destination, to_group, to_individual, destination_to_knx}
use xknx.Telegram.Address.{individual_to_knx}
use xknx.Telegram.Apci.Services.{Apci, secure_apdu}

pub record DataSecure : Type 0 where
  pub group_key_table : Table Bytes
  pub individual_address_table : Table ℕ
  pub sequence_number_sending : ℕ

abbrev pub sequence_number_max : ℕ
sequence_number_max = 0xFFFFFFFFFFFF

unfoldable pub is_secure_payload : Option Apci → Bool
is_secure_payload (some (secure_apdu scf secured)) = true
is_secure_payload _ = false

unfoldable pub is_data_secure : CemiLData → Bool
unfolding is_secure_payload
is_data_secure d = is_secure_payload d.payload

-- `last_sequence_number_sending or _initial_sequence_number()`, where the latter reads the clock.
initial : Option ℕ → ℕ → ℕ
initial none clock = clock
initial (some zero) clock = clock
initial (some (suc n)) clock = suc n

unfoldable pub data_secure : Table Bytes → Table ℕ → Option ℕ → (clock : ℕ) → Result DataSecure
unfolding initial
data_secure group_keys senders last clock =
    if ltb 0 (initial last clock) && leb (initial last clock) sequence_number_max
    then ok (record {
      group_key_table = group_keys;
      individual_address_table = senders;
      sequence_number_sending = initial last clock;
    })
    else err data_secure_error

-- The tables are those of the keyring.
unfoldable pub init_from_keyring : Table Bytes → Table ℕ → (clock : ℕ) → Result (Option DataSecure)
unfolding data_secure
init_from_keyring [] senders clock = ok none
init_from_keyring (entry ∷ group_keys) senders clock = do
  s ← data_secure (entry ∷ group_keys) senders none clock
  ok (some s)

-- `self._group_key_table.get(address)` as a condition: an empty key counts as none.
filled : Option Bytes → Option Bytes
filled (some (k ∷ key)) = some (k ∷ key)
filled _ = none

unfoldable pub key_of : ℕ → Table Bytes → Option Bytes
unfolding filled
key_of address table = filled (lookup address table)

abbrev pub is_s_a_data : SecurityAlService → Bool
is_s_a_data s_a_data = true
is_s_a_data _ = false

unfoldable pub key_found : Option Bytes → Result Bytes
key_found (some key) = ok key
key_found none = err data_secure_error

-- The key for a frame that is received: group communication only.
unfoldable pub receive_key : Destination → Table Bytes → Result Bytes
unfolding key_found
receive_key (to_group a) table = key_found (key_of a.raw table)
receive_key (to_individual a) table = err data_secure_error

abbrev pub address_fields : CemiLData → Result Bytes
address_fields d = do
  s ← individual_to_knx d.src_addr
  t ← destination_to_knx d.dst_addr
  ok (s ++ t)

abbrev pub context_of : CemiLData → Bytes → Context
context_of d fields = record {
  address_fields_raw = fields;
  frame_flags = d.flags;
  service = d.tpci;
}

-- What is done once the sequence number is checked.
unfoldable pub recovered :
    Cipher → Bytes → SecurityControlField → SecureData → CemiLData → Result Bytes
recovered cipher key scf secured d = do
  fields ← address_fields d
  get_plain_apdu cipher key scf (context_of d fields) secured
