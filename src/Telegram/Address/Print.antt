-- ===== src/Telegram/Address/Print.antt =====
-- The text of an address is read back as the address.
use xknx.Prelude.{
  ℕ, suc, ◌+◌, ◌*◌, ◌/◌, ◌^◌, ◌≤◌, ◌<◌, ◌≡◌, refl, true, false, arith, ok, ◌∷◌, ◌++◌, [], ap,
  bit_and,
}
use xknx.Prelude.Text.{
  Text, is_digit, all_digits, is_digit_code, decimal, split, split_piece, split_last,
  all_digits-Lacks, all_digits-decimal, to_int-decimal, is_digit-decimal, length-decimal,
}
use xknx.Telegram.Address.Forms.{
  IndividualAddress, GroupAddress, str_arg, GroupAddressType, free, short, long, chomp, is_group,
  individual_address, group_address, area, main, line, individual_str, group_str,
  individual_string_to_int, group_string_to_int,
}
use xknx.Prelude.Bits.{and_7, and_31, and_255, and_2047}
use xknx.Telegram.Address.Parts.{individual_parts_lem, group_parts_lem}

-- A numeral ends in no line feed.
chomp-digits : (cs : Text) → all_digits cs ≡ true → chomp cs ≡ cs
chomp-digits [] h = refl
chomp-digits (c ∷ []) h = ground arith
chomp-digits (c ∷ d ∷ cs) h = ap (λ t. c ∷ t) (chomp-digits (d ∷ cs) (ground arith))

-- A number of at most `w` digits is matched by `\d{1,w}`, at the end of a text too.
is_group-decimal :
    (n w : ℕ)
    → n < 10 ^ suc w
    → (is_group (suc w) (decimal n) ≡ true) × (chomp (decimal n) ≡ decimal n)
is_group-decimal n w h =
    let size = length-decimal n w h in
    let digits = all_digits-decimal n in
    (rw (is_digit-decimal n) (ground (arith, size)), chomp-digits (decimal n) digits)

-- A text with a separator is no numeral.
is_digit-separated :
    (p rest : Text) (sep : ℕ) → is_digit_code sep ≡ false → is_digit (p ++ sep ∷ rest) ≡ false
is_digit-separated [] rest sep h = ground arith
is_digit-separated (c ∷ []) rest sep h = ground arith
is_digit-separated (c ∷ d ∷ p) rest sep h = ground (arith, is_digit-separated (d ∷ p) rest sep h)

-- The three parts that `split` finds.
pub split_three :
    (sep a b c : ℕ)
    → is_digit_code sep ≡ false
    → split sep (decimal a ++ sep ∷ (decimal b ++ sep ∷ decimal c))
      ≡ decimal a ∷ decimal b ∷ decimal c ∷ []
split_three sep a b c h = rw (
  split_piece sep (decimal a) (decimal b ++ sep ∷ decimal c)
      (all_digits-Lacks sep (decimal a) h (all_digits-decimal a)),
  split_piece sep (decimal b) (decimal c)
      (all_digits-Lacks sep (decimal b) h (all_digits-decimal b)),
  split_last sep (decimal c) (all_digits-Lacks sep (decimal c) h (all_digits-decimal c)),
)

pub split_two :
    (sep a b : ℕ)
    → is_digit_code sep ≡ false
    → split sep (decimal a ++ sep ∷ decimal b) ≡ decimal a ∷ decimal b ∷ []
split_two sep a b h = rw (
  split_piece sep (decimal a) (decimal b)
      (all_digits-Lacks sep (decimal a) h (all_digits-decimal a)),
  split_last sep (decimal b) (all_digits-Lacks sep (decimal b) h (all_digits-decimal b)),
)

individual_string_to_int-decimal :
    (a m l : ℕ)
    → a ≤ 15
    → m ≤ 15
    → l ≤ 255
    → individual_string_to_int (decimal a ++ b'.' ∷ (decimal m ++ b'.' ∷ decimal l))
      ≡ ok (a * 4096 + m * 256 + l)
unfolding individual_string_to_int
individual_string_to_int-decimal a m l ha hm hl = rw (split_three b'.' a m l refl) (
    ground (
      arith,
      is_group-decimal a 1,
      is_group-decimal m 1,
      is_group-decimal l 2,
      to_int-decimal a,
      to_int-decimal m,
      to_int-decimal l,
    ))

-- The text of an individual address up to 65535 is parsed to that address.
pub individual_address-str :
    (a : IndividualAddress) → a.raw ≤ 65535 → individual_address (str_arg (individual_str a)) ≡ ok a
unfolding individual_address individual_str
individual_address-str a h =
    let parts = individual_parts_lem a h in
    rw
      (is_digit-separated (decimal (area a)) (decimal (main a) ++ b'.' ∷ decimal (line a)) b'.'
        refl)
      (ground (arith, parts, individual_string_to_int-decimal (area a) (main a) (line a)))

group_string_to_int-long :
    (m i s : ℕ)
    → m ≤ 31
    → i ≤ 7
    → s ≤ 255
    → group_string_to_int (decimal m ++ b'/' ∷ (decimal i ++ b'/' ∷ decimal s))
      ≡ ok (m * 2048 + i * 256 + s)
unfolding group_string_to_int
group_string_to_int-long m i s hm hi hs = rw (split_three b'/' m i s refl) (
    ground (
      arith,
      is_group-decimal m 1,
      is_group-decimal i 1,
      is_group-decimal s 3,
      to_int-decimal m,
      to_int-decimal i,
      to_int-decimal s,
    ))

group_string_to_int-short :
    (m s : ℕ)
    → m ≤ 31
    → s ≤ 2047
    → group_string_to_int (decimal m ++ b'/' ∷ decimal s) ≡ ok (m * 2048 + s)
unfolding group_string_to_int
group_string_to_int-short m s hm hs =
    rw (split_two b'/' m s refl) (
      ground
        (arith, is_group-decimal m 1, is_group-decimal s 3, to_int-decimal m, to_int-decimal s))

-- In every format the text of a group address up to 65535 is parsed to that address.
pub group_address-str :
    (f : GroupAddressType) (a : GroupAddress)
    → a.raw ≤ 65535
    → group_address (str_arg (group_str f a)) ≡ ok a
unfolding group_address group_str
group_address-str free a h = rw is_digit-decimal (rw to_int-decimal (ground arith))
group_address-str short a h =
    let m = bit_and (a.raw / 2048) 31 in
    let s = bit_and a.raw 2047 in
    rw (is_digit-separated (decimal m) (decimal s) b'/' refl) (
      ground (
        arith,
        group_parts_lem short a h,
        and_31 (a.raw / 2048),
        and_2047 a.raw,
        group_string_to_int-short m s,
      ))
group_address-str long a h =
    let m = bit_and (a.raw / 2048) 31 in
    let i = bit_and (a.raw / 256) 7 in
    let s = bit_and a.raw 255 in
    rw (is_digit-separated (decimal m) (decimal i ++ b'/' ∷ decimal s) b'/' refl) (
      ground (
        arith,
        and_31 (a.raw / 2048),
        and_7 (a.raw / 256),
        and_255 a.raw,
        group_string_to_int-long m i s,
      ))
