-- ===== src/Telegram/Filter/Ranges.antt =====
-- What a range pattern means.
use xknx.Prelude.{ℕ, ◌≤◌, ◌≡◌, refl, true, false, arith, [], ◌∷◌, ◌↔◌, ok, inl, inr, Result-cases}
use xknx.Prelude.Text.{
  Text, decimal, all_digits, all_digits-decimal, to_int-decimal, is_digit-decimal,
}
use xknx.Telegram.Filter.Patterns.{
  Range, range, match_digit, pattern_bounds, adjust_range, flip_range, max_free, is_wildcard,
}
use Prim.Native.Nat.{min, max}

flip_range-adjust_range :
    (a b : ℕ)
    → let r = flip_range (adjust_range a) (adjust_range b) in
      (r.range_from ≤ r.range_to) × (r.range_to ≤ max_free)
unfolding flip_range adjust_range
flip_range-adjust_range a b = ground arith

-- Every range that a pattern gives is ordered and within the 16 bits of an address.
pub range_bounded :
    (p : Text) (r : Range) → range p ≡ ok r → (r.range_from ≤ r.range_to) × (r.range_to ≤ max_free)
unfolding range
range_bounded p r e = elim (Result-cases (pattern_bounds p)) [
  | inl ((a, b), h) ↦ ground (arith, flip_range-adjust_range a b)
  | inr (x, h) ↦ ground arith
]

match_digit-bounds :
    (a b digit : ℕ)
    → digit ≤ max_free
    → (match_digit (flip_range (adjust_range a) (adjust_range b)) digit ≡ true)
      ↔ ((min (min a b) max_free ≤ digit) × (digit ≤ max a b))
unfolding match_digit flip_range adjust_range
match_digit-bounds a b digit k = (λ e. ground arith, λ e. ground arith)

-- A range pattern whose bounds are `a` and `b`, in any order, matches a number up to 65535 exactly when
-- it lies between them, a bound above 65535 counting as 65535.
pub match_digit-range :
    (p : Text) (a b digit : ℕ) (r : Range)
    → pattern_bounds p ≡ ok (a, b)
    → range p ≡ ok r
    → digit ≤ max_free
    → (match_digit r digit ≡ true) ↔ ((min (min a b) max_free ≤ digit) × (digit ≤ max a b))
unfolding range
match_digit-range p a b digit r e h k =
    let same : r ≡ flip_range (adjust_range a) (adjust_range b) = ground arith in
    rw same (match_digit-bounds a b digit k)

digits-not_wildcard : (cs : Text) → all_digits cs ≡ true → is_wildcard cs ≡ false
digits-not_wildcard [] h = refl
digits-not_wildcard (c ∷ []) h = ground arith
digits-not_wildcard (c ∷ d ∷ cs) h = refl

pattern_bounds-decimal : (n : ℕ) → pattern_bounds (decimal n) ≡ ok (n, n)
unfolding pattern_bounds
pattern_bounds-decimal n =
    rw
      (digits-not_wildcard (decimal n) (all_digits-decimal n), is_digit-decimal n, to_int-decimal n)

-- A numeral is the range of that number alone.
pub range-decimal :
    (n : ℕ) → n ≤ max_free → range (decimal n) ≡ ok (record { range_from = n; range_to = n })
unfolding range adjust_range flip_range
range-decimal n h = rw pattern_bounds-decimal (ground arith)
