-- ===== src/Telegram/Filter/Exact.antt =====
-- The text of a group address as a pattern.
use xknx.Prelude.{
  ℕ, ◌/◌, ◌≤◌, ◌≡◌, refl, Bool, true, false, ◌&&◌, arith, none, List, [], ◌∷◌, ◌++◌, ◌==◌, length,
  ok, ◌>>=◌, ap, bit_and,
}
use xknx.Prelude.Bits.{and_7, and_31, and_255, and_2047}
use xknx.Prelude.Text.{
  Text, split, decimal, all_digits, all_digits-decimal, all_digits-Lacks, split_last,
}
use xknx.Telegram.Address.{
  GroupAddress, GroupAddressType, free, short, long, group_main, group_middle, group_sub, group_str,
  group,
}
use mathlib.Core.List.{append-nil}
use xknx.Telegram.Address.Print.{split_three, split_two}
use xknx.Telegram.Filter.Patterns.{
  Range, max_free, match_level, ranges, level_filter, level_filters_of, address_filter, match,
  starts_with_i,
}
use xknx.Telegram.Filter.Ranges.{range-decimal}

abbrev exactly : ℕ → List Range
exactly n = record { range_from = n; range_to = n } ∷ []

level_filter-decimal : (n : ℕ) → n ≤ max_free → level_filter (decimal n) ≡ ok (exactly n)
unfolding level_filter ranges
level_filter-decimal n h =
    rw (split_last b',' (decimal n) (all_digits-Lacks b',' (decimal n) refl (all_digits-decimal n)))
      (rw (range-decimal n h))

match_level-exactly : (n d : ℕ) → match_level (exactly n) d ≡ (n == d)
unfolding match_level
match_level-exactly n d = ground arith

-- No numeral starts like an internal group address.
digits-not_internal :
    (cs rest : Text)
    → all_digits cs ≡ true
    → starts_with_i rest ≡ false
    → starts_with_i (cs ++ rest) ≡ false
digits-not_internal [] rest h k = k
digits-not_internal (c ∷ cs) rest h k = ground arith

abbrev levels : GroupAddressType → GroupAddress → List (List Range)
levels free g = exactly g.raw ∷ []
levels short g = exactly (bit_and (g.raw / 2048) 31) ∷ exactly (bit_and g.raw 2047) ∷ []
levels long g =
    exactly (bit_and (g.raw / 2048) 31)
    ∷ exactly (bit_and (g.raw / 256) 7)
    ∷ exactly (bit_and g.raw 255)
    ∷ []

address_filter-parts :
    (p : Text) (parts : List Text) (ls : List (List Range))
    → starts_with_i p ≡ false
    → split b'/' p ≡ parts
    → level_filters_of parts ≡ ok ls
    → length ls ≤ 3
    → address_filter p ≡ ok (record { level_filters = ls; internal_pattern = none })
unfolding address_filter
address_filter-parts p parts ls i s l n = rw (i, s, l) (ground arith)

level_filters_of-cons :
    (n : ℕ) (ps : List Text) (ls : List (List Range))
    → n ≤ max_free
    → level_filters_of ps ≡ ok ls
    → level_filters_of (decimal n ∷ ps) ≡ ok (exactly n ∷ ls)
unfolding level_filters_of
level_filters_of-cons n ps ls h e = rw (level_filter-decimal n h) (rw e)

level_filters_of-nil : level_filters_of [] ≡ ok []
unfolding level_filters_of
level_filters_of-nil = refl

decimal-not_internal :
    (n : ℕ) (rest : Text) → starts_with_i rest ≡ false → starts_with_i (decimal n ++ rest) ≡ false
decimal-not_internal n rest = digits-not_internal (decimal n) rest (all_digits-decimal n)

address_filter-str :
    (f : GroupAddressType) (g : GroupAddress)
    → g.raw ≤ 65535
    → address_filter (group_str f g)
      ≡ ok (record { level_filters = levels f g; internal_pattern = none })
unfolding group_str
address_filter-str free g h =
    address_filter-parts (decimal g.raw) _ _ (rw append-nil at (decimal-not_internal g.raw [] refl))
      (split_last b'/' (decimal g.raw)
        (all_digits-Lacks b'/' (decimal g.raw) refl (all_digits-decimal g.raw)))
      (level_filters_of-cons g.raw _ _ h level_filters_of-nil) (omega arith)
address_filter-str short g h =
    let m = bit_and (g.raw / 2048) 31 in
    let s = bit_and g.raw 2047 in
    address_filter-parts (decimal m ++ b'/' ∷ decimal s) _ _ (decimal-not_internal m _ refl)
      (split_two b'/' m s refl)
      (level_filters_of-cons m _ _ (omega (arith, and_31 (g.raw / 2048)))
        (level_filters_of-cons s _ _ (omega (arith, and_2047 g.raw)) level_filters_of-nil))
      (omega arith)
address_filter-str long g h =
    let m = bit_and (g.raw / 2048) 31 in
    let i = bit_and (g.raw / 256) 7 in
    let s = bit_and g.raw 255 in
    address_filter-parts (decimal m ++ b'/' ∷ (decimal i ++ b'/' ∷ decimal s)) _ _
      (decimal-not_internal m _ refl) (split_three b'/' m i s refl)
      (level_filters_of-cons m _ _ (omega (arith, and_31 (g.raw / 2048))) (
        level_filters_of-cons i _ _ (omega (arith, and_7 (g.raw / 256)))
          (level_filters_of-cons s _ _ (omega (arith, and_255 g.raw)) level_filters_of-nil)))
      (omega arith)

-- The parts are equal exactly where the addresses are.
parts_short :
    (a b : ℕ)
    → a ≤ 65535
    → b ≤ 65535
    → (bit_and (a / 2048) 31 == bit_and (b / 2048) 31 && bit_and a 2047 == bit_and b 2047)
      ≡ (a == b)
parts_short a b h k = rw (and_31, and_31, and_2047, and_2047) (ground arith)

parts_long :
    (a b : ℕ)
    → a ≤ 65535
    → b ≤ 65535
    → (bit_and (a / 2048) 31 == bit_and (b / 2048) 31
        && bit_and (a / 256) 7 == bit_and (b / 256) 7
        && bit_and a 255 == bit_and b 255)
      ≡ (a == b)
parts_long a b h k = rw (and_31, and_31, and_7, and_7, and_255, and_255) (ground arith)

-- In every format, the filter whose pattern is the text of a group address up to 65535 matches, among
-- the group addresses up to 65535, that address and no other, whatever `fnmatch` is.
pub match-exact :
    (fnmatch : Text → Text → Bool) (f : GroupAddressType) (g other : GroupAddress)
    → g.raw ≤ 65535
    → other.raw ≤ 65535
    → (address_filter (group_str f g) >>= λ p. match fnmatch f p (group other))
      ≡ ok (g.raw == other.raw)
unfolding match group_main group_middle group_sub
match-exact fnmatch free g other h k =
    rw (address_filter-str free g h) (ap ok (match_level-exactly g.raw other.raw))
match-exact fnmatch short g other h k =
    rw (address_filter-str short g h)
      (simp match_level-exactly (ap ok (parts_short g.raw other.raw h k)))
match-exact fnmatch long g other h k =
    rw (address_filter-str long g h)
      (simp match_level-exactly (ap ok (parts_long g.raw other.raw h k)))
