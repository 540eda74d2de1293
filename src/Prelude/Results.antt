-- ===== src/Prelude/Results.antt =====
-- Raised exceptions as values: a call returns a value or raises.
use mathlib.Core.Path.{◌≡◌, refl}
use mathlib.Core.Bool.{Bool, true, false}
use mathlib.Core.Logic.{◌⊎◌, inl, inr}

-- The exceptions of exceptions/exception.py that the modelled code raises, and those of Python.
pub data Error : Type 0 where
  could_not_parse_address invalid_prefix conversion_error unsupported_apci_service : Error
  not_implemented_error : Error
  could_not_parse_cemi unsupported_cemi_message could_not_parse_knxip incomplete_knxip_frame : Error
  data_secure_error connection_error ip_secure_error : Error
  type_error value_error index_error overflow_error struct_error invalid_state_error : Error
  knx_secure_validation_error communication_error confirmation_error tunnelling_ack_error
        timeout_error cancelled_error :
      Error
  management_connection_error management_connection_refused management_connection_timeout : Error

pub data Result {ℓ} (Value : Type ℓ) : Type ℓ where
  err : (raised : Error) → Result Value
  ok : (returned : Value) → Result Value

infixl 5 ◌>>=◌ ◌>>◌
-- Code runs on with the value that was returned; what was raised is raised.
abbrev pub ◌>>=◌ {ℓ ℓ'} :
    {Value : Type ℓ} {Next : Type ℓ'} → Result Value → (Value → Result Next) → Result Next
err raised >>= continue = err raised
ok returned >>= continue = continue returned

abbrev pub ◌>>◌ {ℓ} : {Next : Type ℓ} → Result (Unit {0}) → Result Next → Result Next
err raised >> following = err raised
ok tt >> following = following

-- `if bad: raise e`
abbrev pub raise_if : Bool → Error → Result (Unit {0})
raise_if true e = err e
raise_if false e = ok tt

pub Result-cases {ℓ} :
    {A : Type ℓ} (r : Result A) → ((a : A) × (r ≡ ok a)) ⊎ ((e : Error) × (r ≡ err e))
Result-cases (ok a) = inl (a, refl)
Result-cases (err e) = inr (e, refl)

-- What ran on returned.
pub >>=-eq-ok {ℓ ℓ'} :
    {A : Type ℓ} {B : Type ℓ'} (r : Result A) (f : A → Result B) (b : B)
    → (r >>= f) ≡ ok b
    → (a : A) × (r ≡ ok a) × (f a ≡ ok b)
>>=-eq-ok (ok a) f b h = (a, refl, h)
>>=-eq-ok (err e) f b h = cc
