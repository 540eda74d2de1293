-- ===== src/Telegram/Address/Forms.antt =====
-- The address classes: construction, parts, text and octets.
use xknx.Prelude.{
  ℕ, ◌+◌, ◌*◌, ◌/◌, Bool, ◌&&◌, ◌||◌, not, Option, none, some, List, [], ◌∷◌, ◌++◌, ◌==◌, ltb, leb,
  if◌then◌else◌, bit_and, length, Bytes, to_bytes, from_bytes,
}
use xknx.Prelude.{
  Result, ok, err, Error, could_not_parse_address, invalid_prefix, ◌>>=◌, ◌>>◌, raise_if,
}
use xknx.Prelude.Int.{ℤ, pos, negsuc}
use xknx.Prelude.Text.{Text, is_digit, to_int, decimal, split}

pub record IndividualAddress : Type 0 where
  pub raw : ℕ

pub record GroupAddress : Type 0 where
  pub raw : ℕ

pub record InternalGroupAddress : Type 0 where
  pub raw : Text

-- What a constructor is called with.
pub data Addressable : Type 0 where
  int_arg : ℤ → Addressable
  str_arg : Text → Addressable
  individual_arg : IndividualAddress → Addressable
  group_arg : GroupAddress → Addressable
  internal_arg : InternalGroupAddress → Addressable
  other_arg : Addressable

pub data GroupAddressType : Type 0 where
  free short long : GroupAddressType

-- `$` of a regular expression also matches before a last line feed.
abbrev pub chomp : Text → Text
chomp [] = []
chomp (c ∷ []) = if c == 10 then [] else c ∷ []
chomp (c ∷ d ∷ cs) = c ∷ chomp (d ∷ cs)

-- `\d{1,n}`
abbrev pub is_group : ℕ → Text → Bool
is_group n p = is_digit p && leb (length p) n

individual_parts : List Text → Result (Text × Text × Text)
individual_parts (a ∷ m ∷ l ∷ []) =
    if is_group 2 a && is_group 2 m && is_group 3 (chomp l)
    then ok (a, m, chomp l)
    else err could_not_parse_address
individual_parts _ = err could_not_parse_address

unfoldable pub individual_string_to_int : Text → Result ℕ
unfolding individual_parts
individual_string_to_int address = do
  (a, m, l) ← individual_parts (split b'.' address)
  raise_if (ltb 15 (to_int a)) could_not_parse_address
  raise_if (ltb 15 (to_int m)) could_not_parse_address
  raise_if (ltb 255 (to_int l)) could_not_parse_address
  ok (to_int a * 4096 + to_int m * 256 + to_int l)

-- `if not 0 <= self.raw <= 65535`
abbrev check_range : ℤ → Result ℕ
check_range (pos n) = if leb n 65535 then ok n else err could_not_parse_address
check_range (negsuc n) = err could_not_parse_address

abbrev as_individual : ℕ → Result IndividualAddress
as_individual n = ok (record { raw = n })

abbrev as_group : ℕ → Result GroupAddress
as_group n = ok (record { raw = n })

unfoldable pub individual_address : Addressable → Result IndividualAddress
unfolding individual_string_to_int
individual_address (int_arg i) = do n ← check_range i; as_individual n
individual_address (individual_arg a) = do n ← check_range (pos a.raw); as_individual n
individual_address (str_arg s) = do
  i ← (if is_digit s then ok (to_int s) else individual_string_to_int s)
  n ← check_range (pos i)
  as_individual n
individual_address _ = err could_not_parse_address

-- The groups main, middle and sub of the regular expression.
group_parts : List Text → Result (Text × Option Text × Text)
group_parts (m ∷ s ∷ []) =
    if is_group 2 m && is_group 4 (chomp s)
    then ok (m, none, chomp s)
    else err could_not_parse_address
group_parts (m ∷ i ∷ s ∷ []) =
    if is_group 2 m && is_group 2 i && is_group 4 (chomp s)
    then ok (m, some i, chomp s)
    else err could_not_parse_address
group_parts _ = err could_not_parse_address

group_number : ℕ → Option Text → ℕ → Result ℕ
group_number m (some i) s = do
  raise_if (ltb 7 (to_int i)) could_not_parse_address
  raise_if (ltb 255 s) could_not_parse_address
  ok (m * 2048 + to_int i * 256 + s)
group_number m none s = do raise_if (ltb 2047 s) could_not_parse_address; ok (m * 2048 + s)

unfoldable pub group_string_to_int : Text → Result ℕ
unfolding group_parts group_number
group_string_to_int address = do
  (m, i, s) ← group_parts (split b'/' address)
  raise_if (ltb 31 (to_int m)) could_not_parse_address
  group_number (to_int m) i (to_int s)

unfoldable pub group_address : Addressable → Result GroupAddress
unfolding group_string_to_int
group_address (int_arg i) = do n ← check_range i; as_group n
group_address (group_arg a) = do n ← check_range (pos a.raw); as_group n
group_address (str_arg s) = do
  i ← (if is_digit s then ok (to_int s) else group_string_to_int s)
  n ← check_range (pos i)
  as_group n
group_address _ = err could_not_parse_address

-- The ASCII characters that `str.strip` takes away.
abbrev pub is_space : ℕ → Bool
is_space c = (leb 9 c && leb c 13) || (leb 28 c && leb c 32)

abbrev pub lstrip : Text → Text
lstrip [] = []
lstrip (c ∷ cs) = if is_space c then lstrip cs else c ∷ cs

abbrev pub keep : ℕ → Text → Text
keep c [] = if is_space c then [] else c ∷ []
keep c (d ∷ ds) = c ∷ d ∷ ds

abbrev pub rstrip : Text → Text
rstrip [] = []
rstrip (c ∷ cs) = keep c (rstrip cs)

abbrev pub strip : Text → Text
strip cs = rstrip (lstrip cs)

-- `f"i-{_raw}"`, if there is a character left.
unfoldable pub internal_of : Text → Result InternalGroupAddress
internal_of [] = err could_not_parse_address
internal_of (c ∷ cs) = ok (record { raw = b'i' ∷ b'-' ∷ c ∷ cs })

-- A text with two characters at least; `invalid_prefix` is the error with that message.
internal_of_text : ℕ → ℕ → Text → Result InternalGroupAddress
unfolding internal_of
internal_of_text c d cs =
    if not (c == b'i' || c == b'I')
    then err invalid_prefix
    else if d == b'-' || d == b'_'
    then internal_of (strip cs)
    else internal_of (strip (d ∷ cs))

unfoldable pub internal_group_address : Addressable → Result InternalGroupAddress
unfolding internal_of_text
internal_group_address (internal_arg a) = ok a
internal_group_address (str_arg []) = err invalid_prefix
internal_group_address (str_arg (c ∷ [])) = err invalid_prefix
internal_group_address (str_arg (c ∷ d ∷ cs)) = internal_of_text c d cs
internal_group_address _ = err could_not_parse_address

pub data DeviceGroupAddress : Type 0 where
  group : GroupAddress → DeviceGroupAddress
  internal : InternalGroupAddress → DeviceGroupAddress

-- The first exception is raised again where the second one is about the prefix.
unfoldable pub or_internal : Error → Result InternalGroupAddress → Result DeviceGroupAddress
or_internal ex (ok a) = ok (internal a)
or_internal ex (err invalid_prefix) = err ex
or_internal ex (err other) = err other

unfoldable pub device_of : Addressable → Result GroupAddress → Result DeviceGroupAddress
unfolding or_internal
device_of address (ok g) = if g.raw == 0 then err could_not_parse_address else ok (group g)
device_of (str_arg s) (err ex) = or_internal ex (internal_group_address (str_arg s))
device_of (internal_arg a) (err ex) = or_internal ex (internal_group_address (internal_arg a))
device_of _ (err ex) = err ex

unfoldable pub parse_device_group_address : Addressable → Result DeviceGroupAddress
unfolding device_of
parse_device_group_address address = device_of address (group_address address)

unfoldable pub individual_from_knx : Bytes → Result IndividualAddress
unfolding individual_address
individual_from_knx raw = individual_address (int_arg (pos (from_bytes raw)))

unfoldable pub group_from_knx : Bytes → Result GroupAddress
unfolding group_address
group_from_knx raw = group_address (int_arg (pos (from_bytes raw)))

unfoldable pub individual_to_knx : IndividualAddress → Result Bytes
individual_to_knx a = to_bytes 2 a.raw

unfoldable pub group_to_knx : GroupAddress → Result Bytes
group_to_knx a = to_bytes 2 a.raw

unfoldable pub area : IndividualAddress → ℕ
area a = bit_and (a.raw / 4096) 15

unfoldable pub main : IndividualAddress → ℕ
main a = bit_and (a.raw / 256) 15

unfoldable pub line : IndividualAddress → ℕ
line a = bit_and a.raw 255

unfoldable pub group_main : GroupAddressType → GroupAddress → Option ℕ
group_main free a = none
group_main _ a = some (bit_and (a.raw / 2048) 31)

unfoldable pub group_middle : GroupAddressType → GroupAddress → Option ℕ
group_middle long a = some (bit_and (a.raw / 256) 7)
group_middle _ a = none

unfoldable pub group_sub : GroupAddressType → GroupAddress → ℕ
group_sub short a = bit_and a.raw 2047
group_sub long a = bit_and a.raw 255
group_sub free a = a.raw

unfoldable pub individual_str : IndividualAddress → Text
unfolding area main line
individual_str a = decimal (area a) ++ b'.' ∷ (decimal (main a) ++ b'.' ∷ decimal (line a))

-- A part that the format lacks would be printed as "None"; neither branch prints one.
abbrev number_str : Option ℕ → Text
number_str (some n) = decimal n
number_str none = b'N' ∷ b'o' ∷ b'n' ∷ b'e' ∷ []

unfoldable pub group_str : GroupAddressType → GroupAddress → Text
unfolding group_main group_middle group_sub
group_str long a =
    number_str (group_main long a)
    ++ b'/' ∷ (number_str (group_middle long a) ++ b'/' ∷ decimal (group_sub long a))
group_str short a = number_str (group_main short a) ++ b'/' ∷ decimal (group_sub short a)
group_str free a = decimal (group_sub free a)
