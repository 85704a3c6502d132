-- ===== src/Result.antt =====
-- Python exceptions as values: a function that may raise returns a `Result`.
use tacorank.Prelude.{
  String, ◌≡◌, refl, ◌⊎◌, inl, inr, Bool, true, false, Option, none, some, arith,
}

-- The exceptions that the modelled code raises, with the message where it has one.
pub data Error : Type 0 where
  transition_error : String → Error
  value_error : String → Error
  finalization_error : String → Error
  no_op_recovery_required : Error
  ledger_error : String → Error
  ledger_corruption_error : String → Error
  duplicate_idempotency_key : String → Error
  key_error : Error
  index_error : Error
  attribute_error : Error

pub data Result {ℓ} (V : Type ℓ) : Type ℓ where
  err : Error → Result V
  ok : V → Result V

infixl 5 ◌>>=◌ ◌>>◌
-- what follows a call: skipped where the call raised
abbrev pub ◌>>=◌ {ℓ κ} : {V : Type ℓ} {W : Type κ} → Result V → (V → Result W) → Result W
err raised >>= next = err raised
ok value >>= next = next value

abbrev pub ◌>>◌ {ℓ κ} : {V : Type ℓ} {W : Type κ} → Result V → Result W → Result W
first >> second = first >>= λ _. second

abbrev pub Check : Type 0
Check = Result (Unit {0})

-- `_require(condition, message)` of orchestrator/state_machine.py
abbrev pub require : Bool → String → Check
require true message = ok tt
require false message = err (transition_error message)

-- if not condition: raise error
abbrev pub require_or : Bool → Error → Check
require_or true error = ok tt
require_or false error = err error

-- `_require(x is not None and condition(x), message)`, and the value that it leaves
abbrev pub require_some {ℓ} : {A : Type ℓ} → Option A → (A → Bool) → String → Result A
require_some none condition message = err (transition_error message)
require_some (some a) condition message = require (condition a) message >>= λ _. ok a

-- a Python lookup that raises where there is nothing
abbrev pub or_raise {ℓ} : {A : Type ℓ} → Error → Option A → Result A
or_raise e none = err e
or_raise e (some a) = ok a

-- A call that returns has returned at every step.
pub >>=-eq-ok {ℓ κ} :
    {V : Type ℓ} {W : Type κ} (call : Result V) (next : V → Result W) {w : W}
    → (call >>= next) ≡ ok w
    → (v : V) × (call ≡ ok v) × (next v ≡ ok w)
>>=-eq-ok (err raised) next h = cc
>>=-eq-ok (ok v) next h = (v, refl, h)

pub >>-eq-ok {κ} :
    {W : Type κ} (check : Check) (later : Result W) {w : W}
    → (check >> later) ≡ ok w
    → (check ≡ ok tt) × (later ≡ ok w)
>>-eq-ok (err raised) later h = cc
>>-eq-ok (ok u) later h = (refl, h)

pub require_or-eq-ok : (b : Bool) (error : Error) → require_or b error ≡ ok tt → b ≡ true
require_or-eq-ok true error h = refl
require_or-eq-ok false error h = cc

pub require-eq-ok : (b : Bool) (message : String) {u : Unit} → require b message ≡ ok u → b ≡ true
require-eq-ok true message h = refl
require-eq-ok false message h = cc

pub require_some-eq-ok {ℓ} :
    {A : Type ℓ} (o : Option A) (p : A → Bool) (message : String) {a : A}
    → require_some o p message ≡ ok a
    → (o ≡ some a) × (p a ≡ true)
require_some-eq-ok none p message h = cc
require_some-eq-ok (some x) p message h = ground arith

pub result_cases {ℓ} :
    {A : Type ℓ} (r : Result A) → ((a : A) × (r ≡ ok a)) ⊎ ((e : Error) × (r ≡ err e))
result_cases (ok a) = inl (a, refl)
result_cases (err e) = inr (e, refl)

pub ok_injective {ℓ} : {A : Type ℓ} (a b : A) → ◌≡◌ {A = Result A} (ok a) (ok b) → a ≡ b
ok_injective a b h = cc
