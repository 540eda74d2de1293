-- ===== src/Prelude/Bits.antt =====
-- Masks and joins of bit fields as arithmetic.
use Prim.Native.Nat.{
  ℕ, zero, suc, ◌+◌, ◌-◌, ◌*◌, ◌/◌, ◌%◌, ◌^◌, ◌≤◌, ◌<◌, min, max, bit_and, bit_or, digits,
  bit_and-bitwise, bit_or-bitwise,
}
use mathlib.Core.Path.{◌≡◌, refl, ap, ◌∙◌}
use native.Mathlib.Nat.{two-pow-succ}
use native.Mathlib.Omega.{arith}

-- More fuel than the number changes no digit.
module _ (last : ℕ → ℕ) (join : ℕ → ℕ → ℕ) where
  digits_enough : (m n a b : ℕ) → a ≤ m → a ≤ n → digits last join m a b ≡ digits last join n a b
  digits_enough zero n zero b h k = digits_zero n
    where
      digits_zero : (n : ℕ) → last b ≡ digits last join n 0 b
      digits_zero zero = refl
      digits_zero (suc n) = refl
  digits_enough zero n (suc a) b h k = absurd (omega arith)
  digits_enough (suc m) zero zero b h k = refl
  digits_enough (suc m) (suc n) zero b h k = refl
  digits_enough (suc m) zero (suc a) b h k = absurd (omega arith)
  digits_enough (suc m) (suc n) (suc a) b h k =
      omega (arith, digits_enough m n (suc a / 2) (b / 2) (omega arith) (omega arith))

pub bit_and_half : (a b : ℕ) → bit_and a b ≡ bit_and (a / 2) (b / 2) * 2 + min (a % 2) (b % 2)
bit_and_half zero b = omega (arith, bit_and-bitwise 0 b, bit_and-bitwise 0 (b / 2))
bit_and_half (suc a) b =
    let inner =
      digits_enough (λ _. zero) min a (suc a / 2) (suc a / 2) (b / 2) (omega arith) (omega arith) in
    omega (arith, bit_and-bitwise (suc a) b, bit_and-bitwise (suc a / 2) (b / 2), inner)

pub bit_or_half : (a b : ℕ) → bit_or a b ≡ bit_or (a / 2) (b / 2) * 2 + max (a % 2) (b % 2)
bit_or_half zero b = omega (arith, bit_or-bitwise 0 b, bit_or-bitwise 0 (b / 2))
bit_or_half (suc a) b =
    let inner =
      digits_enough (λ x. x) max a (suc a / 2) (suc a / 2) (b / 2) (omega arith) (omega arith) in
    omega (arith, bit_or-bitwise (suc a) b, bit_or-bitwise (suc a / 2) (b / 2), inner)

bit_and_zero : (k a : ℕ) → a ≤ k → bit_and a 0 ≡ 0
bit_and_zero k zero h = bit_and-bitwise 0 0
bit_and_zero zero (suc a) h = absurd (omega arith)
bit_and_zero (suc k) (suc a) h =
    omega (arith, bit_and_half (suc a) 0, bit_and_zero k (suc a / 2) (omega arith))

pub and_bound : (k a m : ℕ) → m < 2 ^ k → bit_and a m < 2 ^ k
and_bound zero a zero h = omega (arith, bit_and_zero a a)
and_bound zero a (suc m) h = absurd (omega arith)
and_bound (suc k) a m h = omega (
  arith,
  bit_and_half a m,
  two-pow-succ k,
  and_bound k (a / 2) (m / 2) (omega (arith, two-pow-succ k)),
)

or_nothing : (k a : ℕ) → a ≤ k → bit_or a 0 ≡ a
or_nothing k zero h = bit_or-bitwise 0 0
or_nothing zero (suc a) h = absurd (omega arith)
or_nothing (suc k) (suc a) h =
    omega (arith, bit_or_half (suc a) 0, or_nothing k (suc a / 2) (omega arith))

-- A mask of low ones keeps a remainder.
and_1 : (a : ℕ) → bit_and a 1 ≡ a % 2
and_1 a = omega (arith, bit_and_half a 1, bit_and_zero (a / 2) (a / 2))

pub and_3 : (a : ℕ) → bit_and a 3 ≡ a % 4
and_3 a = omega (arith, bit_and_half a 3, and_1 (a / 2))

pub and_7 : (a : ℕ) → bit_and a 7 ≡ a % 8
and_7 a = omega (arith, bit_and_half a 7, and_3 (a / 2))

pub and_15 : (a : ℕ) → bit_and a 15 ≡ a % 16
and_15 a = omega (arith, bit_and_half a 15, and_7 (a / 2))

pub and_31 : (a : ℕ) → bit_and a 31 ≡ a % 32
and_31 a = omega (arith, bit_and_half a 31, and_15 (a / 2))

pub and_63 : (a : ℕ) → bit_and a 63 ≡ a % 64
and_63 a = omega (arith, bit_and_half a 63, and_31 (a / 2))

pub and_127 : (a : ℕ) → bit_and a 127 ≡ a % 128
and_127 a = omega (arith, bit_and_half a 127, and_63 (a / 2))

pub and_255 : (a : ℕ) → bit_and a 255 ≡ a % 256
and_255 a = omega (arith, bit_and_half a 255, and_127 (a / 2))

pub and_511 : (a : ℕ) → bit_and a 511 ≡ a % 512
and_511 a = omega (arith, bit_and_half a 511, and_255 (a / 2))

pub and_1023 : (a : ℕ) → bit_and a 1023 ≡ a % 1024
and_1023 a = omega (arith, bit_and_half a 1023, and_511 (a / 2))

pub and_2047 : (a : ℕ) → bit_and a 2047 ≡ a % 2048
and_2047 a = omega (arith, bit_and_half a 2047, and_1023 (a / 2))

-- The bit of weight 2 ^ k.
abbrev pub bit : ℕ → ℕ → ℕ
bit zero a = a % 2
bit (suc k) a = bit k (a / 2)

pub bit_le_1 : (k a : ℕ) → bit k a ≤ 1
bit_le_1 zero a = omega arith
bit_le_1 (suc k) a = bit_le_1 k (a / 2)

-- A mask of one bit, and setting one bit.
pub and_pow : (k a : ℕ) → bit_and a (2 ^ k) ≡ bit k a * 2 ^ k
and_pow zero a = omega (arith, and_1 a)
and_pow (suc k) a =
    let halved : 2 ^ suc k / 2 ≡ 2 ^ k = omega (arith, two-pow-succ k) in
    omega (
      arith,
      two-pow-succ k,
      bit_and_half a (2 ^ suc k),
      ap (λ (t : ℕ). bit_and (a / 2) t) halved,
      and_pow k (a / 2),
      ap (λ (t : ℕ). bit k (a / 2) * t) (two-pow-succ k),
    )

or_1 : (a : ℕ) → bit_or a 1 ≡ a + (1 - a % 2)
or_1 a = omega (arith, bit_or_half a 1, or_nothing (a / 2) (a / 2))

pub or_pow : (k a : ℕ) → bit_or a (2 ^ k) ≡ a + (1 - bit k a) * 2 ^ k
or_pow zero a = omega (arith, or_1 a)
or_pow (suc k) a =
    let halved : 2 ^ suc k / 2 ≡ 2 ^ k = omega (arith, two-pow-succ k) in
    omega (
      arith,
      two-pow-succ k,
      bit_or_half a (2 ^ suc k),
      ap (λ (t : ℕ). bit_or (a / 2) t) halved,
      or_pow k (a / 2),
      ap (λ (t : ℕ). (1 - bit k (a / 2)) * t) (two-pow-succ k),
    )

-- A join of fields that do not overlap is a sum.
pub or_disjoint : (k a b : ℕ) → b < 2 ^ k → bit_or (a * 2 ^ k) b ≡ a * 2 ^ k + b
or_disjoint zero a zero h = or_nothing (a * 2 ^ 0) (a * 2 ^ 0) (omega arith) ∙ omega arith
or_disjoint zero a (suc b) h = absurd (omega arith)
or_disjoint (suc k) a b h =
    let doubled = ap (λ (t : ℕ). a * t) (two-pow-succ k) in
    let halved : a * 2 ^ suc k / 2 ≡ a * 2 ^ k = omega (arith, doubled) in
    omega (
      arith,
      doubled,
      bit_or_half (a * 2 ^ suc k) b,
      ap (λ (t : ℕ). bit_or t (b / 2)) halved,
      or_disjoint k a (b / 2) (omega (arith, two-pow-succ k)),
    )

pub or_add : (k q n m : ℕ) → n ≡ q * 2 ^ k → m < 2 ^ k → bit_or n m ≡ n + m
or_add k q n m e h = rw e (or_disjoint k q m h)

-- A mask that ends in zeros: the number halved `k` times under the rest of the mask.
abbrev pub halves : ℕ → ℕ → ℕ
halves zero a = a
halves (suc k) a = halves k (a / 2)

pub and_high : (k a m : ℕ) → bit_and a (m * 2 ^ k) ≡ bit_and (halves k a) m * 2 ^ k
and_high zero a m = let whole : m * 2 ^ 0 ≡ m = omega arith in rw whole (omega arith)
and_high (suc k) a m =
    let doubled = ap (λ (t : ℕ). m * t) (two-pow-succ k) in
    let halved : m * 2 ^ suc k / 2 ≡ m * 2 ^ k = omega (arith, doubled) in
    omega (
      arith,
      bit_and_half a (m * 2 ^ suc k),
      doubled,
      ap (λ (t : ℕ). bit_and (a / 2) t) halved,
      and_high k (a / 2) m,
      ap (λ (t : ℕ). bit_and (halves k (a / 2)) m * t) (two-pow-succ k),
    )

-- Two low bits under a multiple of four.
pub or_low : (a n : ℕ) → a < 4 → n % 4 ≡ 0 → bit_or a n ≡ n + a
or_low a n h k =
    let none_left : a / 2 / 2 ≡ 0 = omega arith in
    omega (
      arith,
      bit_or_half a n,
      bit_or_half (a / 2) (n / 2),
      ap (λ (t : ℕ). bit_or t (n / 2 / 2)) none_left,
      bit_or-bitwise 0 (n / 2 / 2),
    )

-- The mask of the address type and of the extended frame format.
pub and_143 : (a : ℕ) → bit_and a 143 ≡ a / 128 % 2 * 128 + a % 16
and_143 a = omega (arith, bit_and_half a 143, and_71 (a / 2))
  where
    and_8 : (a : ℕ) → bit_and a 8 ≡ a / 8 % 2 * 8
    and_8 a = ground (arith, and_pow 3 a)

    and_17 : (a : ℕ) → bit_and a 17 ≡ a / 16 % 2 * 16 + a % 2
    and_17 a = omega (arith, bit_and_half a 17, and_8 (a / 2))

    and_35 : (a : ℕ) → bit_and a 35 ≡ a / 32 % 2 * 32 + a % 4
    and_35 a = omega (arith, bit_and_half a 35, and_17 (a / 2))

    and_71 : (a : ℕ) → bit_and a 71 ≡ a / 64 % 2 * 64 + a % 8
    and_71 a = omega (arith, bit_and_half a 71, and_35 (a / 2))
