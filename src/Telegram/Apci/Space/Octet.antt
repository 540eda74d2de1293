-- ===== src/Telegram/Apci/Space/Octet.antt =====
-- The octet that is shared with the transport layer.
use xknx.Prelude.{◌<◌, ◌∷◌, [], Bytes, Result, ok, err}

-- What is written has a first octet, of two bits.
abbrev pub LeavesSpace : Result Bytes → Type 0
LeavesSpace (ok (a ∷ _)) = a < 4
LeavesSpace (ok []) = ⊥
LeavesSpace (err _) = Unit {0}
