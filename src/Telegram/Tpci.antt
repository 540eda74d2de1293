-- ===== src/Telegram/Tpci.antt =====
-- xknx/telegram/tpci.py: transport layer control information. A class is a constructor; the class
-- attributes are functions of it.
pub mod RoundTrip
pub mod Shared
mod Tests
use xknx.Prelude.{
  ℕ, ◌*◌, ◌/◌, Bool, true, false, ◌||◌, ◌&&◌, Option, none, some, ◌==◌, if◌then◌else◌, not, bit_and,
  bit_or,
}
use xknx.Prelude.{Result, ok, err, conversion_error, ◌>>=◌, ◌>>◌, raise_if}

pub data Tpci : Type 0 where
  t_data_group t_data_broadcast t_data_tag_group t_data_individual : Tpci
  t_data_connected : ℕ → Tpci
  t_connect t_disconnect : Tpci
  t_ack t_nak : ℕ → Tpci

unfoldable pub control : Tpci → Bool
control t_connect = true
control t_disconnect = true
control (t_ack s) = true
control (t_nak s) = true
control _ = false

unfoldable pub numbered : Tpci → Bool
numbered (t_data_connected s) = true
numbered (t_ack s) = true
numbered (t_nak s) = true
numbered _ = false

unfoldable pub sequence_number : Tpci → ℕ
sequence_number t_data_tag_group = 1
sequence_number (t_data_connected s) = s
sequence_number (t_ack s) = s
sequence_number (t_nak s) = s
sequence_number _ = 0

unfoldable pub control_flags : Tpci → Option ℕ
control_flags t_connect = some 0
control_flags t_disconnect = some 1
control_flags (t_ack s) = some 2
control_flags (t_nak s) = some 3
control_flags _ = none

abbrev of_bool : Bool → ℕ
of_bool true = 1
of_bool false = 0

abbrev or_zero : Option ℕ → ℕ
or_zero none = 0
or_zero (some f) = f

-- The method of the base class.
unfoldable pub base_to_knx : Tpci → ℕ
unfolding control numbered sequence_number control_flags
base_to_knx t =
    bit_or
      (bit_or (bit_or (of_bool (control t) * 128) (of_bool (numbered t) * 64))
        (bit_and (sequence_number t) 0xF * 4))
      (or_zero (control_flags t))

-- Three classes override it.
unfoldable pub to_knx : Tpci → ℕ
unfolding base_to_knx
to_knx t_data_group = 0
to_knx t_data_broadcast = 0
to_knx t_data_individual = 0
to_knx t = base_to_knx t

-- The branch for a group address; `none` falls through to the code after it.
resolve_group : Bool → Bool → ℕ → Bool → Result (Option Tpci)
resolve_group is_control is_numbered number dst_is_zero =
    if is_control || is_numbered
    then err conversion_error
    else if number == 0
    then ok (some (if dst_is_zero then t_data_broadcast else t_data_group))
    else if number == 1
    then ok (some t_data_tag_group)
    else ok none

abbrev or_else : Result Tpci → Option Tpci → Result Tpci
or_else rest none = rest
or_else rest (some t) = ok t

-- The part that a group address can fall through to.
resolve_rest : Bool → Bool → ℕ → ℕ → Result Tpci
resolve_rest is_control is_numbered number flags =
    if not is_numbered && not (number == 0)
    then err conversion_error
    else if not is_control
    then ok (if is_numbered then t_data_connected number else t_data_individual)
    else if not is_numbered && flags == 0
    then ok t_connect
    else if not is_numbered && flags == 1
    then ok t_disconnect
    else if flags == 2
    then ok (t_ack number)
    else if flags == 3
    then ok (t_nak number)
    else err conversion_error

unfoldable pub resolve : ℕ → Bool → Bool → Result Tpci
unfolding resolve_group resolve_rest
resolve raw_tpci dst_is_group_address dst_is_zero =
    let is_control = not (bit_and raw_tpci 0x80 == 0) in
    let is_numbered = not (bit_and raw_tpci 0x40 == 0) in
    let number = bit_and (raw_tpci / 4) 0xF in
    let rest = resolve_rest is_control is_numbered number (bit_and raw_tpci 3) in
    if dst_is_group_address
    then (resolve_group is_control is_numbered number dst_is_zero >>= or_else rest)
    else rest
