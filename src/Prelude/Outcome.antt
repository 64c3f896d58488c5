-- ===== src/Prelude/Outcome.antt =====
-- Go's `(value, error)` results as values, with `do` blocks for chains of early returns.
use mathlib.Core.Path.{◌≡◌, refl}
use mathlib.Core.Bool.{Bool, true, false}
use mathlib.Core.Option.{Option, none, some}

pub data Result {ℓ} (E A : Type ℓ) : Type ℓ where
  ok : A → Result E A
  err : E → Result E A

infixl 5 ◌>>=◌ ◌>>◌
-- The rest runs on the value of what comes before, and a failure ends the chain.
abbrev pub ◌>>=◌ : {E A B : Type 0} → Result E A → (A → Result E B) → Result E B
err failure >>= rest = err failure
ok value >>= rest = rest value

abbrev pub ◌>>◌ : {E B : Type 0} → Result E Unit → Result E B → Result E B
check >> rest = check >>= λ done. rest

-- `if !test { return failure }`.
abbrev pub guard : {E : Type 0} → Bool → E → Result E Unit
guard false failure = err failure
guard true failure = ok tt

-- `if !found { return e }` for a value that may be missing.
abbrev pub or_fail : {E A : Type 0} → Option A → E → Result E A
or_fail none e = err e
or_fail (some a) e = ok a

-- What a chain that succeeds says of its first part and of the rest.
pub >>=-eq-ok :
    {E A B : Type 0} {b : B} (rest : A → Result E B) (first : Result E A)
    → (first >>= rest) ≡ ok b
    → (value : A) × (first ≡ ok value) × (rest value ≡ ok b)
>>=-eq-ok rest (err failure) done = cc
>>=-eq-ok rest (ok value) done = (value, refl, done)

pub guard-eq-ok : {E : Type 0} (b : Bool) (e : E) → guard b e ≡ ok tt → b ≡ true
guard-eq-ok true e h = refl
guard-eq-ok false e h = cc

-- Behind a test that a chain passes.
pub guard-then-eq-ok :
    {E B : Type 0} {b : B} (test : Bool) (e : E) (rest : Result E B)
    → (guard test e >> rest) ≡ ok b
    → (test ≡ true) × (rest ≡ ok b)
guard-then-eq-ok true e rest done = (refl, done)
guard-then-eq-ok false e rest done = cc

pub or_fail-eq-ok : {E A : Type 0} (o : Option A) (e : E) {a : A} → or_fail o e ≡ ok a → o ≡ some a
or_fail-eq-ok none e h = cc
or_fail-eq-ok (some a) e h = cc

pub ok-injective : {E A : Type 0} {a b : A} → ◌≡◌ {A = Result E A} (ok a) (ok b) → a ≡ b
ok-injective e = cc
