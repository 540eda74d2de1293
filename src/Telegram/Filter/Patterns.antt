-- ===== src/Telegram/Filter/Patterns.antt =====
-- Parsing patterns and matching addresses.
use xknx.Prelude.{
  ℕ, ◌+◌, ◌-◌, ◌*◌, Bool, true, false, ◌&&◌, ◌||◌, Option, none, some, List, [], ◌∷◌, ◌==◌, ltb,
  leb, if◌then◌else◌, length,
}
use xknx.Prelude.{
  Result, ok, err, connection_error, conversion_error, value_error, ◌>>=◌, ◌>>◌, raise_if,
}
use xknx.Prelude.Text.{Text, is_digit, is_digit_code, to_int, split}
use xknx.Telegram.Address.{
  InternalGroupAddress, int_arg, str_arg, group_arg, internal_arg, internal_group_address,
  group_main, group_middle, group_sub, GroupAddressType, Addressable, parse_device_group_address,
  DeviceGroupAddress, group, internal,
}

pub record Range : Type 0 where
  pub range_from : ℕ
  pub range_to : ℕ

pub record AddressFilter : Type 0 where
  pub level_filters : List (List Range)
  pub internal_pattern : Option Text

abbrev pub max_free : ℕ
max_free = 65535

-- `int(text)` of Python, for a text with no minus sign: blanks around it, a plus sign and single
-- underscores between digits are allowed.
abbrev is_blank : ℕ → Bool
is_blank c = (leb 9 c && leb c 13) || c == 32

blanks : Text → Bool
blanks [] = true
blanks (c ∷ cs) = is_blank c && blanks cs

-- After a digit.
digits_then_blanks : ℕ → Text → Result ℕ
unfolding blanks
digits_then_blanks acc [] = ok acc
digits_then_blanks acc (c ∷ []) =
    if is_digit_code c
    then ok (acc * 10 + (c - b'0'))
    else if is_blank c
    then ok acc
    else err value_error
digits_then_blanks acc (c ∷ d ∷ cs) =
    let more = digits_then_blanks (acc * 10 + (c - b'0')) (d ∷ cs) in
    let skip = digits_then_blanks (acc * 10 + (d - b'0')) cs in
    if is_digit_code c
    then more
    else if c == b'_' && is_digit_code d
    then skip
    else if is_blank c && blanks (d ∷ cs)
    then ok acc
    else err value_error

first_digit : Text → Result ℕ
unfolding digits_then_blanks
first_digit [] = err value_error
first_digit (c ∷ cs) = if is_digit_code c then digits_then_blanks (c - b'0') cs else err value_error

after_blanks : Text → Result ℕ
unfolding first_digit
after_blanks [] = err value_error
after_blanks (c ∷ cs) =
    let rest = after_blanks cs in
    if is_blank c then rest else if c == b'+' then first_digit cs else first_digit (c ∷ cs)

unfoldable pub int_text : Text → Result ℕ
unfolding after_blanks
int_text = after_blanks

abbrev or_default : ℕ → Text → Result ℕ
or_default d [] = ok d
or_default d (c ∷ cs) = int_text (c ∷ cs)

-- `(range_from, range_to) = pattern.split("-")` raises unless there are two pieces.
unfoldable pub range_bounds : List Text → Result (ℕ × ℕ)
unfolding int_text
range_bounds (f ∷ t ∷ []) = do a ← or_default 0 f; b ← or_default max_free t; ok (a, b)
range_bounds _ = err value_error

-- A value is never negative here.
unfoldable pub adjust_range : ℕ → ℕ
adjust_range digit = if ltb max_free digit then max_free else digit

unfoldable pub flip_range : ℕ → ℕ → Range
flip_range from to =
    if ltb to from
    then record { range_from = to; range_to = from }
    else record { range_from = from; range_to = to }

unfoldable pub has_dash : Text → Bool
has_dash [] = false
has_dash (c ∷ cs) = c == b'-' || has_dash cs

abbrev pub is_wildcard : Text → Bool
is_wildcard (c ∷ []) = c == b'*'
is_wildcard _ = false

-- A pattern of another form keeps the initial bounds 0 and 0.
unfoldable pub pattern_bounds : Text → Result (ℕ × ℕ)
unfolding range_bounds has_dash
pattern_bounds p =
    if is_wildcard p
    then ok (0, max_free)
    else if is_digit p
    then ok (to_int p, to_int p)
    else if has_dash p
    then range_bounds (split b'-' p)
    else ok (0, 0)

unfoldable pub range : Text → Result Range
unfolding pattern_bounds adjust_range flip_range
range p = do (from, to) ← pattern_bounds p; ok (flip_range (adjust_range from) (adjust_range to))

unfoldable pub match_digit : Range → ℕ → Bool
match_digit r digit = leb r.range_from digit && leb digit r.range_to

unfoldable pub ranges : List Text → Result (List Range)
ranges [] = ok []
ranges (p ∷ ps) = do r ← range p; rs ← ranges ps; ok (r ∷ rs)

unfoldable pub level_filter : Text → Result (List Range)
level_filter p = ranges (split b',' p)

unfoldable pub match_level : List Range → ℕ → Bool
unfolding match_digit
match_level [] digit = false
match_level (r ∷ rs) digit = match_digit r digit || match_level rs digit

unfoldable pub level_filters_of : List Text → Result (List (List Range))
level_filters_of [] = ok []
level_filters_of (p ∷ ps) = do l ← level_filter p; ls ← level_filters_of ps; ok (l ∷ ls)

abbrev pub starts_with_i : Text → Bool
starts_with_i [] = false
starts_with_i (c ∷ cs) = c == b'i'

abbrev internal_filter : InternalGroupAddress → AddressFilter
internal_filter a = record { level_filters = []; internal_pattern = some a.raw }

unfoldable pub address_filter : Text → Result AddressFilter
address_filter p =
    let levels = level_filters_of (split b'/' p) >>= λ ls.
    raise_if (ltb 3 (length ls)) conversion_error
    >> ok (record { level_filters = ls; internal_pattern = none }) in
    if starts_with_i p
    then (internal_group_address (str_arg p) >>= λ a. ok (internal_filter a))
    else levels

-- The group address against one, two or three level filters. A part that the format lacks raises.
match_levels : List (List Range) → Option ℕ → Option ℕ → ℕ → Result Bool
unfolding match_level
match_levels (f ∷ g ∷ h ∷ []) (some main) (some middle) sub =
    ok (match_level f main && match_level g middle && match_level h sub)
match_levels (f ∷ g ∷ h ∷ []) _ _ sub = err connection_error
match_levels (f ∷ g ∷ []) (some main) _ sub = ok (match_level f main && match_level g sub)
match_levels (f ∷ g ∷ []) none _ sub = err connection_error
match_levels (f ∷ _) _ _ sub = ok (match_level f sub)
match_levels [] _ _ sub = ok false

module _ (fnmatch : Text → Text → Bool) (format : GroupAddressType) where
  match_internal : Option Text → InternalGroupAddress → Result Bool
  match_internal none a = ok false
  match_internal (some p) a = ok (fnmatch a.raw p)

  unfoldable pub match : AddressFilter → DeviceGroupAddress → Result Bool
  unfolding match_levels match_internal
  match f (group a) =
      match_levels f.level_filters (group_main format a) (group_middle format a)
        (group_sub format a)
  match f (internal a) = match_internal f.internal_pattern a

  -- A text or a number is parsed first; an address is matched as it is, and no other argument matches.
  unfoldable pub match_argument : AddressFilter → Addressable → Result Bool
  unfolding match
  match_argument f (int_arg n) = parse_device_group_address (int_arg n) >>= match f
  match_argument f (str_arg text) = parse_device_group_address (str_arg text) >>= match f
  match_argument f (group_arg a) = match f (group a)
  match_argument f (internal_arg a) = match f (internal a)
  match_argument f _ = ok false
