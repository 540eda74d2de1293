-- ===== src/Prelude/Futures.antt =====
-- Futures of asyncio.
use mathlib.Core.Bool.{Bool, true, false}
use xknx.Prelude.Results.{Result, err, cancelled_error}

-- An asyncio future: what was set on it, a result or an exception, or nothing yet.
pub data Future (Value : Type 0) : Type 0 where
  pending : Future Value
  finished : Result Value → Future Value

module _ {Value : Type 0} where
  abbrev pub done : Future Value → Bool
  done pending = false
  done (finished r) = true

  -- `cancel()` does nothing to a future that is done.
  abbrev pub cancel : Future Value → Future Value
  cancel pending = finished (err cancelled_error)
  cancel (finished r) = finished r
