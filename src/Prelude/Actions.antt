-- ===== src/Prelude/Actions.antt =====
-- A method call on mutable state: it returns or raises, and the state comes back in both cases,
-- since what was written stays written.
use mathlib.Core.Bool.{Bool}
use xknx.Prelude.Results.{Error, Result, ok, err, raise_if}

abbrev pub Action : Type 0 → Type 0 → Type 0
Action State Value = State → Result Value × State

module _ {State : Type 0} where
  abbrev pub pure : {Value : Type 0} → Value → Action State Value
  pure value s = (ok value, s)

  abbrev pub raise : {Value : Type 0} → Error → Action State Value
  raise e s = (err e, s)

  -- A call that does not touch the state.
  abbrev pub calls : {Value : Type 0} → Result Value → Action State Value
  calls r s = (r, s)

  abbrev pub gets : {Value : Type 0} → (State → Value) → Action State Value
  gets f s = (ok (f s), s)

  abbrev pub modify : (State → State) → Action State (Unit {0})
  modify f s = (ok tt, f s)

  abbrev pub raises_if : Bool → Error → Action State (Unit {0})
  raises_if bad e s = (raise_if bad e, s)

  -- What was returned is given on, with the state.
  abbrev pub carry :
      {Value Next : Type 0}
      → Result Value × State
      → (Value → Action State Next)
      → Result Next × State
  carry (ok value, after) f = f value after
  carry (err e, after) f = (err e, after)

  infixl 5 ◌>>=◌ ◌>>◌
  abbrev pub ◌>>=◌ :
      {Value Next : Type 0} → Action State Value → (Value → Action State Next) → Action State Next
  ◌>>=◌ m f s = carry (m s) f

  abbrev pub ◌>>◌ :
      {Next : Type 0} → Action State (Unit {0}) → Action State Next → Action State Next
  m >> k = m >>= λ _. k
