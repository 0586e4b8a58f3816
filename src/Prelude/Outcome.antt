-- ===== src/Prelude/Outcome.antt =====
-- `Result` with the `?` operator as bind, and its inversion.
use mathlib.Core.Path.{◌≡◌, refl}
use mathlib.Core.Logic.{◌⊎◌, inl, inr}
use mathlib.Core.Bool.{Bool, true, false}
use mathlib.Core.Option.{Option, none, some}

pub data Result {ε α} (Failure : Type ε) (Value : Type α) : Type (ε ⊔ α) where
  err : Failure → Result Failure Value
  ok : Value → Result Failure Value

-- either outcome
pub Result-cases {ε α} :
    {Failure : Type ε} {Value : Type α} (outcome : Result Failure Value)
    → ((value : Value) × (outcome ≡ ok value)) ⊎ ((failure : Failure) × (outcome ≡ err failure))
Result-cases (err failure) = inr (failure, refl)
Result-cases (ok value) = inl (value, refl)

-- `if bad { return Err(failure) }`
abbrev pub refuse_if {ε} : {Failure : Type ε} → Bool → Failure → Result Failure (Unit {0})
refuse_if false failure = ok tt
refuse_if true failure = err failure

-- `option.ok_or(failure)`
abbrev pub ok_or {ε α} :
    {Failure : Type ε} {Value : Type α} → Option Value → Failure → Result Failure Value
ok_or (some value) failure = ok value
ok_or none failure = err failure

infixl 5 ◌>>=◌
abbrev pub ◌>>=◌ {ε α β} :
    {Failure : Type ε} {Value : Type α} {Next : Type β}
    → Result Failure Value
    → (Value → Result Failure Next)
    → Result Failure Next
err failure >>= rest = err failure
ok value >>= rest = rest value

infixl 5 ◌>>◌
abbrev pub ◌>>◌ {ε β} :
    {Failure : Type ε} {Next : Type β}
    → Result Failure (Unit {0})
    → Result Failure Next
    → Result Failure Next
check >> rest = check >>= λ _. rest

-- a chain that went through began with a step that did
pub >>=-eq-ok {ε α β} :
    {Failure : Type ε} {Value : Type α} {Next : Type β} (step : Result Failure Value)
    (rest : Value → Result Failure Next) {end : Next}
    → (step >>= rest) ≡ ok end
    → (value : Value) × (step ≡ ok value) × (rest value ≡ ok end)
>>=-eq-ok (err failure) rest through = cc
>>=-eq-ok (ok value) rest through = (value, refl, through)
