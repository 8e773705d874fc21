-- ===== src/Prelude/Results.antt =====
-- Go's `(value, error)` pair. An error is the text of its message, without the formatted values.
use Prim.Native.String.{String}
use mathlib.Core.Path.{◌≡◌, refl}
use mathlib.Core.Bool.{Bool, true, false}
use mathlib.Core.Option.{Option, none, some}

-- `panics` is a Go panic. `stuck` is no Go value: a loop of the model ran out of fuel.
pub data Result {κ} (V : Type κ) : Type κ where
  stuck : Result V
  panics err : String → Result V
  ok : V → Result V

-- `if bad { return err }`.
abbrev pub fail_if : Bool → String → Result (Unit {0})
fail_if bad message = elim bad [ true ↦ err message | false ↦ ok tt ]

-- A parser of another package that answers a negative length is `none`.
abbrev pub or_err {κ} : {V : Type κ} → Option V → String → Result V
or_err (some value) message = ok value
or_err none message = err message

-- What follows a call, unless the call returned early.
infixl 5 ◌>>=◌
abbrev pub ◌>>=◌ {κ μ} : {V : Type κ} {W : Type μ} → Result V → (V → Result W) → Result W
stuck >>= next = stuck
panics message >>= next = panics message
err message >>= next = err message
ok value >>= next = next value

infixl 5 ◌>>◌
abbrev pub ◌>>◌ {μ} : {W : Type μ} → Result (Unit {0}) → Result W → Result W
check >> next = check >>= (λ (_ : Unit {0}). next)

-- Two calls in a row that succeed: so did the first, and the second on its value.
pub >>=-eq-ok {κ μ} :
    {V : Type κ} {W : Type μ} (first : Result V) (next : V → Result W) {result : W}
    → (first >>= next) ≡ ok result
    → (value : V) × (first ≡ ok value) × (next value ≡ ok result)
>>=-eq-ok stuck next returned = cc
>>=-eq-ok (panics message) next returned = cc
>>=-eq-ok (err message) next returned = cc
>>=-eq-ok (ok value) next returned = (value, refl, returned)

-- A call on an object that is returned with the outcome: what follows it, unless it returned early.
abbrev pub and_then {ε κ μ} :
    {E : Type ε} {V : Type κ} {W : Type μ} → E → Result V → (V → E × Result W) → E × Result W
and_then object stuck next = (object, stuck)
and_then object (panics message) next = (object, panics message)
and_then object (err message) next = (object, err message)
and_then object (ok value) next = next value

pub and_then-eq_ok {ε κ μ} :
    {E : Type ε} {V : Type κ} {W : Type μ} (object : E) (m : Result V) (next : V → E × Result W)
    (result : W)
    → (and_then object m next).1 ≡ ok result
    → (value : V) × (m ≡ ok value) × ((next value).1 ≡ ok result)
and_then-eq_ok object stuck next result returned = cc
and_then-eq_ok object (panics message) next result returned = cc
and_then-eq_ok object (err message) next result returned = cc
and_then-eq_ok object (ok value) next result returned = (value, refl, returned)

-- What holds of the object before, and of it after what follows, holds of it at the end.
pub and_then-keeps {ε κ μ π} :
    {E : Type ε} {V : Type κ} {W : Type μ} (P : E → Type π) (object : E) (m : Result V)
    (next : V → E × Result W)
    → P object
    → ((value : V) → m ≡ ok value → P (next value).0)
    → P (and_then object m next).0
and_then-keeps P object stuck next before after = before
and_then-keeps P object (panics message) next before after = before
and_then-keeps P object (err message) next before after = before
and_then-keeps P object (ok value) next before after = after value refl

pub some-injective {ℓ} : {A : Type ℓ} {a b : A} → some a ≡ some b → a ≡ b
some-injective e = cc

pub some_ne_none {ℓ} : {A : Type ℓ} (a : A) → ¬ (some a ≡ none)
some_ne_none a e = cc
