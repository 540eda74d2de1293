-- ===== src/Telegram/Address/Internal.antt =====
-- Internal group addresses, and the choice between the two kinds of device addresses.
use xknx.Prelude.{
  ℕ, ◌≤◌, ◌<◌, ◌≡◌, refl, false, arith, Result, ok, err, invalid_prefix, Error, ◌∷◌, [], inl, inr,
  Bool-cases, drop, length, ◌||◌, ◌==◌,
}
use xknx.Prelude.Text.{Text}
use xknx.Telegram.Address.Forms.{
  internal_of, or_internal, device_of, GroupAddress, InternalGroupAddress, str_arg, group_address,
  internal_group_address, parse_device_group_address, DeviceGroupAddress, group, internal, is_space,
  keep, lstrip, rstrip, strip,
}
use xknx.Telegram.Address.Parts.{group_address-range}

-- What `rstrip` leaves has no space to strip at its end, nor one at its front if it had none.
rstrip-rstrip : (cs : Text) → rstrip (rstrip cs) ≡ rstrip cs
rstrip-rstrip [] = refl
rstrip-rstrip (c ∷ cs) = ground (arith, rstrip-rstrip cs)

lstrip-keep : (c : ℕ) (cs : Text) → is_space c ≡ false → lstrip (keep c cs) ≡ keep c cs
lstrip-keep c [] e = rw e (rw e)
lstrip-keep c (d ∷ ds) e = rw e

lstrip-rstrip-lstrip : (cs : Text) → lstrip (rstrip (lstrip cs)) ≡ rstrip (lstrip cs)
lstrip-rstrip-lstrip [] = refl
lstrip-rstrip-lstrip (c ∷ cs) = elim (Bool-cases (is_space c)) [
  | inl e ↦ rw e (lstrip-rstrip-lstrip cs)
  | inr e ↦ rw e (lstrip-keep c (rstrip cs) e)
]

strip-strip : (cs : Text) → strip (strip cs) ≡ strip cs
strip-strip cs = rw lstrip-rstrip-lstrip (rstrip-rstrip (lstrip cs))

internal_of-raw :
    (u : Text) (a : InternalGroupAddress)
    → strip u ≡ u
    → internal_of u ≡ ok a
    → internal_group_address (str_arg a.raw) ≡ ok a
unfolding internal_of internal_group_address
internal_of-raw [] a e h = cc
internal_of-raw (c ∷ cs) a e h =
    let raw : a ≡ record { raw = b'i' ∷ b'-' ∷ c ∷ cs } = ground arith in
    rw raw (rw (e, internal_of))

-- When a text is parsed to an internal group address, the text that this address holds is parsed to
-- it again.
pub internal_group_address-raw :
    (s : Text) (a : InternalGroupAddress)
    → internal_group_address (str_arg s) ≡ ok a
    → internal_group_address (str_arg a.raw) ≡ ok a
unfolding internal_group_address
internal_group_address-raw [] a h = cc
internal_group_address-raw (c ∷ []) a h = cc
internal_group_address-raw (c ∷ d ∷ cs) a h = elim (Bool-cases (d == b'-' || d == b'_')) [
  | inl e ↦ internal_of-raw (strip cs) a (strip-strip cs) (ground arith)
  | inr e ↦ internal_of-raw (strip (d ∷ cs)) a (strip-strip (d ∷ cs)) (ground arith)
]

-- A device address is a group address in range that is no broadcast, or an internal one: `i-` and
-- a text that is not empty.
abbrev pub IsInternal : InternalGroupAddress → Type 0
IsInternal a = (a.raw ≡ b'i' ∷ b'-' ∷ drop 2 a.raw) × (2 < length a.raw)

abbrev pub IsDevice : DeviceGroupAddress → Type 0
IsDevice (group g) = (0 < g.raw) × (g.raw ≤ 65535)
IsDevice (internal a) = IsInternal a

internal_of-IsInternal : (u : Text) (a : InternalGroupAddress) → internal_of u ≡ ok a → IsInternal a
unfolding internal_of
internal_of-IsInternal [] a h = cc
internal_of-IsInternal (c ∷ cs) a h = ground arith

internal_group_address-IsInternal :
    (s : Text) (a : InternalGroupAddress) → internal_group_address (str_arg s) ≡ ok a → IsInternal a
unfolding internal_group_address
internal_group_address-IsInternal [] a h = cc
internal_group_address-IsInternal (c ∷ []) a h = cc
internal_group_address-IsInternal (c ∷ d ∷ cs) a h =
    ground (arith, internal_of-IsInternal (strip cs) a, internal_of-IsInternal (strip (d ∷ cs)) a)

or_internal-IsDevice :
    (x : Error) (r : Result InternalGroupAddress) (a : DeviceGroupAddress)
    → ((i : InternalGroupAddress) → r ≡ ok i → IsInternal i)
    → or_internal x r ≡ ok a
    → IsDevice a
unfolding or_internal
or_internal-IsDevice x (ok i) (group g) h e = cc
or_internal-IsDevice x (ok i) (internal j) h e = ground (arith, h i)
or_internal-IsDevice x (err invalid_prefix) a h e = cc
or_internal-IsDevice x (err _) a h e = cc

device_of-IsDevice :
    (s : Text) (r : Result GroupAddress) (a : DeviceGroupAddress)
    → group_address (str_arg s) ≡ r
    → device_of (str_arg s) r ≡ ok a
    → IsDevice a
unfolding device_of
device_of-IsDevice s (ok g) (group h) e k = ground (arith, group_address-range (str_arg s) g)
device_of-IsDevice s (ok g) (internal i) e k = ground arith
device_of-IsDevice s (err x) a e k =
    or_internal-IsDevice x (internal_group_address (str_arg s)) a
      (internal_group_address-IsInternal s) k

-- Every text that `parse_device_group_address` accepts gives a group address from 1 up to 65535 or an
-- internal address whose text is the prefix and a text that is not empty.
pub parse_device_group_address-IsDevice :
    (s : Text) (a : DeviceGroupAddress) → parse_device_group_address (str_arg s) ≡ ok a → IsDevice a
unfolding parse_device_group_address
parse_device_group_address-IsDevice s a e =
    device_of-IsDevice s (group_address (str_arg s)) a refl e
