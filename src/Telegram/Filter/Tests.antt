-- ===== src/Telegram/Filter/Tests.antt =====
-- Concrete runs, and the theorems at concrete inputs.
use xknx.Prelude.{◌≡◌, refl, Bool, true, false, ok, err, value_error, arith, ◌≤◌, ◌↔◌, ◌==◌, ◌>>=◌}
use Prim.Native.Nat.{min, max}
use xknx.Prelude.Text.{Text, codes, split}
use xknx.Telegram.Address.{
  GroupAddress, long, group_str, group, group_main, group_middle, group_sub,
}
use xknx.Telegram.Filter.Patterns.{
  Range, range, match_digit, max_free, pattern_bounds, range_bounds, adjust_range, flip_range,
  match_level, ranges, level_filter, level_filters_of, address_filter, match,
}
use xknx.Telegram.Filter.Ranges.{range_bounded, match_digit-range}
use xknx.Telegram.Filter.Exact.{match-exact}

abbrev lamp : GroupAddress
lamp = record { raw = 2563 }

abbrev never : Text → Text → Bool
never a p = false

abbrev five_to_two : Range
five_to_two = record { range_from = 2; range_to = 5 }

range_flipped : range (codes "5-2") ≡ ok five_to_two
unfolding range pattern_bounds range_bounds adjust_range flip_range split
range_flipped = refl

bounds_flipped : pattern_bounds (codes "5-2") ≡ ok (5, 2)
unfolding pattern_bounds range_bounds split
bounds_flipped = refl

range_three : range (codes "1-2-3") ≡ err value_error
unfolding range pattern_bounds range_bounds adjust_range flip_range split
range_three = refl

match_middle :
    (address_filter (codes "1/1-3,7/*") >>= λ f. match never long f (group lamp)) ≡ ok true
unfolding address_filter level_filters_of level_filter ranges range pattern_bounds range_bounds
    adjust_range flip_range split match match_level match_digit group_main group_middle group_sub
match_middle = refl

range_bounded_example :
    (five_to_two.range_from ≤ five_to_two.range_to) × (five_to_two.range_to ≤ max_free)
range_bounded_example = range_bounded (codes "5-2") five_to_two range_flipped

match_digit-range_example :
    (match_digit five_to_two 4 ≡ true) ↔ ((min (min 5 2) max_free ≤ 4) × (4 ≤ max 5 2))
match_digit-range_example =
    match_digit-range (codes "5-2") 5 2 4 five_to_two bounds_flipped range_flipped (omega arith)

match-exact_example :
    (address_filter (group_str long lamp) >>= λ p. match never long p (group lamp))
    ≡ ok (lamp.raw == lamp.raw)
match-exact_example = match-exact never long lamp lamp (omega arith) (omega arith)
