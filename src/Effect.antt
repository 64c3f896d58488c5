-- ===== src/Effect.antt =====
-- Go code that calls collaborators: a computation on their state that returns a value or an error.
use ani_inference_service.Prelude.{
  Result, ok, err, Bool, ◌≡◌, refl, Option, none, some, true, false, ap, ok-injective,
}

-- `S` is the state of everything that the code calls, `E` are its errors.
abbrev pub Effect : Type 0 → Type 0 → Type 0 → Type 0
Effect S E A = S → Result E A × S

module _ {S E : Type 0} where
  abbrev pub return : {A : Type 0} → A → Effect S E A
  return a s = (ok a, s)

  abbrev pub fail : {A : Type 0} → E → Effect S E A
  fail e s = (err e, s)

  abbrev pub lift : {A : Type 0} → Result E A → Effect S E A
  lift r s = (r, s)

  -- Reads the state.
  abbrev pub gets : {A : Type 0} → (S → A) → Effect S E A
  gets f s = (ok (f s), s)

  -- The error as a value, for code that looks at it.
  abbrev pub attempt : {A : Type 0} → Effect S E A → Effect S E (Result E A)
  attempt m s = let (r, s') = m s in (ok r, s')

  -- `if !test { return err }`.
  abbrev pub require : Bool → E → Effect S E Unit
  require true e s = (ok tt, s)
  require false e s = (err e, s)

  -- `if p == nil { return err }`.
  abbrev pub need : {A : Type 0} → Option A → E → Effect S E A
  need none e s = (err e, s)
  need (some a) e s = (ok a, s)

  unfoldable pub continue : {A B : Type 0} → (A → Effect S E B) → Result E A × S → Result E B × S
  continue f (ok a, s) = f a s
  continue f (err e, s) = (err e, s)

  infixl 5 ◌>>=◌ ◌>>◌
  abbrev pub ◌>>=◌ : {A B : Type 0} → Effect S E A → (A → Effect S E B) → Effect S E B
  ◌>>=◌ m f s = continue f (m s)

  abbrev pub ◌>>◌ : {B : Type 0} → Effect S E Unit → Effect S E B → Effect S E B
  m >> k = m >>= λ done. k

  -- What a computation that succeeds says of its first part and of the rest.
  pub bind-eq-ok :
      {A B : Type 0} {b : B} {s' : S} {rest : A → Effect S E B} {first : Result E A × S}
      → continue rest first ≡ (ok b, s')
      → (value : A) × (between : S) × (first ≡ (ok value, between))
        × (rest value between ≡ (ok b, s'))
  unfolding continue
  bind-eq-ok {first = (ok value, between)} done = (value, between, refl, done)
  bind-eq-ok {first = (err e, between)} done = cc

  pub require-eq-ok :
      {test : Bool} (e : E) {s s' : S} {u : Unit}
      → require test e s ≡ (ok u, s')
      → (test ≡ true) × (s ≡ s')
  require-eq-ok {test = true} e done = (refl, cc)
  require-eq-ok {test = false} e done = cc

  pub need-eq-ok :
      {A : Type 0} {found : Option A} (e : E) {s s' : S} {a : A}
      → need found e s ≡ (ok a, s')
      → (found ≡ some a) × (s ≡ s')
  need-eq-ok {found = some a} e done = (cc, cc)
  need-eq-ok {found = none} e done = cc

  pub attempt-eq-ok :
      {A : Type 0} {found : Result E A} {s' : S} (answer : Result E A × S)
      → ◌≡◌ {A = Result E (Result E A) × S} (ok answer.0, answer.1) (ok found, s')
      → answer ≡ (found, s')
  attempt-eq-ok (r, s) done = pair_eq (ok-injective (ap (λ x. x.0) done)) (ap (λ x. x.1) done)
    where
      pair_eq :
          {B : Type 0} {r r' : B} {t t' : S} → r ≡ r' → t ≡ t' → ◌≡◌ {A = B × S} (r, t) (r', t')
      pair_eq e f = cc
