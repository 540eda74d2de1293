-- ===== src/Prelude/Text.antt =====
-- ASCII text as lists of character codes: decimal numerals and splitting at a separator.
use Prim.Native.Nat.{ℕ, zero, suc, ◌+◌, ◌-◌, ◌*◌, ◌/◌, ◌%◌, ◌^◌, ◌≤◌, ◌<◌}
use Prim.Native.String.{String}
use Prim.Native.Char.{code}
use mathlib.Core.Path.{◌≡◌, refl}
use mathlib.Core.Bool.{Bool, true, false, ◌&&◌}
use mathlib.Core.List.{List, [], ◌∷◌, ◌++◌}
use native.Mathlib.Nat.{pow-suc}
use native.Mathlib.Omega.{arith}
use xknx.Prelude.Tests.{ltb, leb, ◌==◌, if◌then◌else◌}
use xknx.Prelude.Lists.{length, All, length-append}

abbrev pub Text : Type 0
Text = List ℕ

abbrev pub codes : String → Text
codes String.[] = []
codes (String.◌∷◌ c s) = code c ∷ codes s

abbrev pub is_digit_code : ℕ → Bool
is_digit_code c = leb b'0' c && leb c b'9'

abbrev pub all_digits : Text → Bool
all_digits [] = true
all_digits (c ∷ cs) = is_digit_code c && all_digits cs

-- `str.isdigit()` is false of the empty text.
abbrev pub is_digit : Text → Bool
is_digit [] = false
is_digit (c ∷ cs) = all_digits (c ∷ cs)

abbrev pub value_from : ℕ → Text → ℕ
value_from acc [] = acc
value_from acc (c ∷ cs) = value_from (acc * 10 + (c - b'0')) cs

-- `int(text)` for a text of digits.
abbrev pub to_int : Text → ℕ
to_int = value_from 0

-- `str(n)`: at most `k` digits more than one.
decimal_fuel : ℕ → ℕ → Text
decimal_fuel zero n = (b'0' + n % 10) ∷ []
decimal_fuel (suc k) n =
    let rest = decimal_fuel k (n / 10) ++ (b'0' + n % 10) ∷ [] in
    if ltb n 10 then (b'0' + n) ∷ [] else rest

unfoldable pub decimal : ℕ → Text
unfolding decimal_fuel
decimal n = decimal_fuel n n

value_from-snoc :
    (acc : ℕ) (cs : Text) (c : ℕ)
    → value_from acc (cs ++ c ∷ []) ≡ value_from acc cs * 10 + (c - b'0')
value_from-snoc acc [] c = refl
value_from-snoc acc (x ∷ cs) c = value_from-snoc (acc * 10 + (x - b'0')) cs c

to_int-decimal_fuel : (k n : ℕ) → n ≤ k → to_int (decimal_fuel k n) ≡ n
unfolding decimal_fuel
to_int-decimal_fuel zero n h = omega arith
to_int-decimal_fuel (suc k) n h = ground (
  arith,
  value_from-snoc 0 (decimal_fuel k (n / 10)) (b'0' + n % 10),
  to_int-decimal_fuel k (n / 10) (omega arith),
)

-- `int(str(n)) == n`
pub to_int-decimal : (n : ℕ) → to_int (decimal n) ≡ n
unfolding decimal
to_int-decimal n = to_int-decimal_fuel n n (omega arith)

all_digits-snoc :
    (cs : Text) (c : ℕ)
    → all_digits cs ≡ true
    → is_digit_code c ≡ true
    → all_digits (cs ++ c ∷ []) ≡ true
all_digits-snoc [] c h k = rw k refl
all_digits-snoc (x ∷ cs) c h k = ground (arith, all_digits-snoc cs c)

all_digits-decimal_fuel : (k n : ℕ) → all_digits (decimal_fuel k n) ≡ true
unfolding decimal_fuel
all_digits-decimal_fuel zero n = ground arith
all_digits-decimal_fuel (suc k) n = ground (
  arith,
  all_digits-decimal_fuel k (n / 10),
  all_digits-snoc (decimal_fuel k (n / 10)) (b'0' + n % 10),
)

pub all_digits-decimal : (n : ℕ) → all_digits (decimal n) ≡ true
unfolding decimal
all_digits-decimal n = all_digits-decimal_fuel n n

length-decimal_fuel :
    (k n w : ℕ)
    → n < 10 ^ suc w
    → (1 ≤ length (decimal_fuel k n)) × (length (decimal_fuel k n) ≤ suc w)
unfolding decimal_fuel
length-decimal_fuel zero n w h = omega arith
length-decimal_fuel (suc k) n zero h = ground arith
length-decimal_fuel (suc k) n (suc w) h = ground (
  arith,
  length-append (decimal_fuel k (n / 10)) ((b'0' + n % 10) ∷ []),
  length-decimal_fuel k (n / 10) w (omega (arith, pow-suc 10 (suc w))),
)

pub length-decimal :
    (n w : ℕ) → n < 10 ^ suc w → (1 ≤ length (decimal n)) × (length (decimal n) ≤ suc w)
unfolding decimal
length-decimal n w h = length-decimal_fuel n n w h

-- A text of digits with a character is a numeral.
pub is_digit-all : (cs : Text) → 1 ≤ length cs → all_digits cs ≡ true → is_digit cs ≡ true
is_digit-all [] h k = absurd (omega arith)
is_digit-all (c ∷ cs) h k = k

length-decimal_fuel-pos : (k n : ℕ) → 1 ≤ length (decimal_fuel k n)
unfolding decimal_fuel
length-decimal_fuel-pos zero n = omega arith
length-decimal_fuel-pos (suc k) n =
    ground (arith, length-append (decimal_fuel k (n / 10)) ((b'0' + n % 10) ∷ []))

pub is_digit-decimal : (n : ℕ) → is_digit (decimal n) ≡ true
unfolding decimal
is_digit-decimal n =
    is_digit-all (decimal_fuel n n) (length-decimal_fuel-pos n n) (all_digits-decimal_fuel n n)

-- `text.split(sep)`: never an empty list.
abbrev cons_head : ℕ → List Text → List Text
cons_head c [] = (c ∷ []) ∷ []
cons_head c (p ∷ ps) = (c ∷ p) ∷ ps

unfoldable pub split : ℕ → Text → List Text
split sep [] = [] ∷ []
split sep (c ∷ cs) = let rest = split sep cs in if c == sep then [] ∷ rest else cons_head c rest

abbrev pub Lacks : ℕ → Text → Type 0
Lacks sep cs = All (λ c. (c == sep) ≡ false) cs

pub split_piece :
    (sep : ℕ) (p rest : Text) → Lacks sep p → split sep (p ++ sep ∷ rest) ≡ p ∷ split sep rest
unfolding split
split_piece sep [] rest h = ground arith
split_piece sep (c ∷ p) rest h = rw (h.0, split_piece sep p rest h.1)

pub split_last : (sep : ℕ) (p : Text) → Lacks sep p → split sep p ≡ p ∷ []
unfolding split
split_last sep [] h = refl
split_last sep (c ∷ p) h = rw (h.0, split_last sep p h.1)

-- Digits hold no separator.
pub all_digits-Lacks :
    (sep : ℕ) (cs : Text) → is_digit_code sep ≡ false → all_digits cs ≡ true → Lacks sep cs
all_digits-Lacks sep [] h k = tt
all_digits-Lacks sep (c ∷ cs) h k = (ground arith, all_digits-Lacks sep cs h (ground arith))
