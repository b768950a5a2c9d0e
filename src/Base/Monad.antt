-- ===== src/Base/Monad.antt =====
-- What a call of the program gives: a value, an `R.err` of execution-result.ts, or a thrown error
-- (a failed `assert`, an `Error`, or a read of a missing element). Messages and diagnostics are
-- left out: `E` says which error is returned.
use mathlib.Core.Path.{◌≡◌, refl}
use mathlib.Core.Bool.{Bool, true, false}
use mathlib.Core.Option.{Option, none, some}

pub data Result {ℓ κ} (E : Type κ) (A : Type ℓ) : Type (ℓ ⊔ κ) where
  ok : A → Result E A
  err : E → Result E A
  throws : Result E A

-- The errors of a call that returns none: it gives a value or throws.
pub data NoError : Type 0 where

infixl 5 ◌>>=◌ ◌>>◌
abbrev pub ◌>>=◌ {ℓ κ ι} :
    {E : Type ι} {A : Type ℓ} {B : Type κ} → Result E A → (A → Result E B) → Result E B
ok a >>= f = f a
err e >>= f = err e
throws >>= f = throws

abbrev pub ◌>>◌ {κ ι} : {E : Type ι} {B : Type κ} → Result E (Unit {0}) → Result E B → Result E B
m >> k = m >>= λ _. k

-- `assert(b)`
abbrev pub assert {ι} : {E : Type ι} → Bool → Result E (Unit {0})
assert true = ok tt
assert false = throws

-- `assert(x !== undefined)`, after which `x` is used
abbrev pub defined {ℓ ι} : {E : Type ι} {A : Type ℓ} → Option A → Result E A
defined none = throws
defined (some a) = ok a

pub >>=-eq-ok {ℓ κ ι} :
    {E : Type ι} {A : Type ℓ} {B : Type κ} (call : Result E A) (next : A → Result E B) {y : B}
    → (call >>= next) ≡ ok y
    → (x : A) × (call ≡ ok x) × (next x ≡ ok y)
>>=-eq-ok throws next e = cc
>>=-eq-ok (err code) next e = cc
>>=-eq-ok (ok x) next e = (x, refl, e)

pub ok_injective {ℓ ι} :
    {E : Type ι} {A : Type ℓ} {a b : A} → ◌≡◌ {A = Result E A} (ok a) (ok b) → a ≡ b
ok_injective h = cc

pub assert-eq-ok {ℓ ι} :
    {E : Type ι} {A : Type ℓ} (b : Bool) (k : Result E A) {a : A}
    → (assert b >> k) ≡ ok a
    → (b ≡ true) × (k ≡ ok a)
assert-eq-ok true k h = (refl, h)
assert-eq-ok false k h = cc

pub defined-eq-ok {ℓ κ ι} :
    {E : Type ι} {A : Type ℓ} {B : Type κ} (o : Option A) (k : A → Result E B) {b : B}
    → (defined o >>= k) ≡ ok b
    → (a : A) × (o ≡ some a) × (k a ≡ ok b)
defined-eq-ok none k h = cc
defined-eq-ok (some a) k h = (a, refl, h)
