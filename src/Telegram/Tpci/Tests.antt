-- ===== src/Telegram/Tpci/Tests.antt =====
-- Concrete runs, and the theorems at concrete inputs.
use xknx.Prelude.{
  ◌/◌, ◌%◌, ◌==◌, if◌then◌else◌, ◌≡◌, refl, true, false, ok, err, conversion_error, arith,
}
use xknx.Telegram.Tpci.{resolve, t_data_connected, t_ack, t_data_group, to_knx, t_nak}
use xknx.Telegram.Tpci.RoundTrip.{
  IsFor, HasSequence, canonical, resolve-to_knx, resolve_sound, resolve_unnumbered_ack,
}

resolve_connected : resolve 0x4D false false ≡ ok (t_data_connected 3)
unfolding resolve
resolve_connected = refl

resolve_group_control : resolve 0x80 true false ≡ err conversion_error
unfolding resolve
resolve_group_control = refl

resolve_group_data : resolve 0x02 true false ≡ ok t_data_group
unfolding resolve
resolve_group_data = refl

to_knx_nak : to_knx (t_nak 5) ≡ 0xD7
unfolding to_knx
to_knx_nak = refl

resolve-to_knx_example : resolve (to_knx (t_ack 9)) false false ≡ ok (t_ack 9)
resolve-to_knx_example = resolve-to_knx (t_ack 9) false false refl (omega arith)

resolve_sound_example :
    IsFor (t_data_connected 3) false false
    × HasSequence (t_data_connected 3)
    × (to_knx (t_data_connected 3) ≡ canonical 0x4D)
resolve_sound_example =
    resolve_sound 0x4D false false (t_data_connected 3) (omega arith) resolve_connected

resolve_unnumbered_ack_example : resolve 0x83 false false ≡ (
    if 0x83 / 4 % 16 == 0
    then ok (if 0x83 % 4 == 2 then t_ack 0 else t_nak 0)
    else err conversion_error)
resolve_unnumbered_ack_example =
    resolve_unnumbered_ack 0x83 false (omega arith) (omega arith) (omega arith)
