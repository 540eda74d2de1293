-- ===== src/Prelude/Tables.antt =====
-- A dictionary whose keys are numbers, in the order of insertion.
use Prim.Native.Nat.{ℕ}
use mathlib.Core.Path.{◌≡◌, refl}
use mathlib.Core.Logic.{◌≢◌}
use mathlib.Core.Bool.{Bool, true, false}
use mathlib.Core.Option.{Option, none, some}
use mathlib.Core.List.{List, [], ◌∷◌}
use native.Mathlib.Omega.{arith}
use xknx.Prelude.Tests.{◌==◌, if◌then◌else◌}

abbrev pub Table {ℓ} : Type ℓ → Type ℓ
Table Value = List (ℕ × Value)

module _ {ℓ} {Value : Type ℓ} where
  -- `table.get(key)`
  abbrev pub lookup : ℕ → Table Value → Option Value
  lookup key [] = none
  lookup key (entry ∷ table) = if key == entry.0 then some entry.1 else lookup key table

  -- `table[key] = value`
  abbrev pub insert : ℕ → Value → Table Value → Table Value
  insert key value [] = (key, value) ∷ []
  insert key value (entry ∷ table) =
      if key == entry.0 then (key, value) ∷ table else entry ∷ insert key value table

  -- `del table[key]`, of the only entry with this key.
  abbrev pub erase : ℕ → Table Value → Table Value
  erase key [] = []
  erase key (entry ∷ table) = if key == entry.0 then table else entry ∷ erase key table

  -- `key in table`
  abbrev pub contains : ℕ → Table Value → Bool
  contains key table = elim (lookup key table) [ none ↦ false | some _ ↦ true ]

  pub lookup-insert_self :
      (key : ℕ) (value : Value) (table : Table Value)
      → lookup key (insert key value table) ≡ some value
  lookup-insert_self key value [] = ground arith
  lookup-insert_self key value (entry ∷ table) = ground (arith, lookup-insert_self key value table)

  pub lookup-insert_other :
      (k key : ℕ) (value : Value) (table : Table Value)
      → k ≢ key
      → lookup k (insert key value table) ≡ lookup k table
  lookup-insert_other k key value [] h = ground arith
  lookup-insert_other k key value (entry ∷ table) h =
      ground (arith, lookup-insert_other k key value table h)

  pub lookup-erase_other :
      (k key : ℕ) (table : Table Value) → k ≢ key → lookup k (erase key table) ≡ lookup k table
  lookup-erase_other k key [] h = refl
  lookup-erase_other k key (entry ∷ table) h = ground (arith, lookup-erase_other k key table h)
