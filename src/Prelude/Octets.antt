-- ===== src/Prelude/Octets.antt =====
-- Python's bytes as lists of numbers below 256, and `int.to_bytes` and `int.from_bytes`, big endian.
use Prim.Native.Nat.{ℕ, zero, suc, ◌+◌, ◌*◌, ◌/◌, ◌%◌, ◌^◌, ◌<◌}
use mathlib.Core.Path.{◌≡◌, refl, ◌∙◌}
use mathlib.Core.List.{List, [], ◌∷◌, ◌++◌}
use native.Mathlib.Nat.{pow-suc}
use native.Mathlib.Omega.{arith}
use xknx.Prelude.Tests.{ltb, if◌then◌else◌, lt→ltb}
use xknx.Prelude.Lists.{length, All, length-append, All-append}
use xknx.Prelude.Results.{Result, ok, err, overflow_error}

abbrev pub IsByte : ℕ → Type 0
IsByte b = b < 256

abbrev pub Bytes : Type 0
Bytes = List ℕ

-- The `w` low bytes of a number, the highest first.
abbrev pub big_endian : ℕ → ℕ → Bytes
big_endian zero n = []
big_endian (suc w) n = big_endian w (n / 256) ++ n % 256 ∷ []

-- `n.to_bytes(w, "big")` raises where the number is too large.
abbrev pub to_bytes : ℕ → ℕ → Result Bytes
to_bytes w n = if ltb n (256 ^ w) then ok (big_endian w n) else err overflow_error

abbrev from_digits : ℕ → Bytes → ℕ
from_digits acc [] = acc
from_digits acc (b ∷ bs) = from_digits (acc * 256 + b) bs

-- `int.from_bytes(raw, "big")`
abbrev pub from_bytes : Bytes → ℕ
from_bytes = from_digits 0

pub length-big_endian : (w n : ℕ) → length (big_endian w n) ≡ w
length-big_endian zero n = refl
length-big_endian (suc w) n =
    length-append (big_endian w (n / 256)) _ ∙ omega (arith, length-big_endian w (n / 256))

pub big_endian-IsByte : (w n : ℕ) → All IsByte (big_endian w n)
big_endian-IsByte zero n = tt
big_endian-IsByte (suc w) n =
    All-append IsByte (big_endian w (n / 256)) _ (big_endian-IsByte w (n / 256)) (omega arith)

from_digits-snoc :
    (acc : ℕ) (bs : Bytes) (b : ℕ) → from_digits acc (bs ++ b ∷ []) ≡ from_digits acc bs * 256 + b
from_digits-snoc acc [] b = refl
from_digits-snoc acc (x ∷ bs) b = from_digits-snoc (acc * 256 + x) bs b

pub from_bytes-big_endian : (w n : ℕ) → n < 256 ^ w → from_bytes (big_endian w n) ≡ n
from_bytes-big_endian zero n h = omega arith
from_bytes-big_endian (suc w) n h =
    from_digits-snoc 0 (big_endian w (n / 256)) (n % 256)
    ∙ omega (arith, from_bytes-big_endian w (n / 256) (omega (arith, pow-suc 256 w)))

pub to_bytes_ok : (w n : ℕ) → n < 256 ^ w → to_bytes w n ≡ ok (big_endian w n)
to_bytes_ok w n h = rw (lt→ltb n (256 ^ w) h)
