-- ===== src/Runner/Inversion.antt =====
-- Rules to reason about the runner's computations part by part: what their results satisfy, and
-- which properties of the history of calls they keep.
use ani_inference_service.Prelude.{ok, ◌≡◌, subst, Bool, err, Result, true, if◌then◌else◌, false}
use ani_inference_service.Failure.{Error}
use ani_inference_service.Runner.World.{
  Exec, History, return, fail, lift, gets, attempt, require, continue, ◌>>=◌,
}

-- Whatever the ports answer, a value that `m` returns satisfies `P`.
pub record Ensures {A : Type 0} (P : A → Type 0) (m : Exec A) : Type 0 where
  pub result : (h : History) (a : A) → (m h).0 ≡ ok a → P a

ok-injective : {A : Type 0} {a b : A} → ◌≡◌ {A = Result Error A} (ok a) (ok b) → a ≡ b
ok-injective e = cc

module _ {A : Type 0} {P : A → Type 0} where
  pub return-Ensures : (a : A) → P a → Ensures P (return a)
  unfolding return
  return-Ensures a p = record { result = λ h b e. subst P (ok-injective e) p }

  pub fail-Ensures : (x : Error) → Ensures P (fail x)
  unfolding fail
  fail-Ensures x = record { result = λ h b e. cc }

  pub if-Ensures :
      (test : Bool) (m n : Exec A) → Ensures P m → Ensures P n → Ensures P (if test then m else n)
  if-Ensures true m n p q = p
  if-Ensures false m n p q = q

module _ {A B : Type 0} {P : B → Type 0} where
  continue-Ensures :
      (r : Result Error A) (f : A → Exec B) → ((a : A) → Ensures P (f a)) → Ensures P (continue r f)
  unfolding continue
  continue-Ensures (ok a) f p = p a
  continue-Ensures (err x) f p = record { result = λ h b e. cc }

  -- Only what comes last decides.
  pub bind-Ensures :
      (m : Exec A) (f : A → Exec B) → ((a : A) → Ensures P (f a)) → Ensures P (m >>= f)
  unfolding ◌>>=◌
  bind-Ensures m f p = record {
    result = λ h b e. let (r, h') = m h in (continue-Ensures r f p).result h' b e;
  }

pub ruleset ensures_rules = (return-Ensures, fail-Ensures, if-Ensures, bind-Ensures)

-- Whatever the ports answer, `m` keeps the property `I` of the calls made so far.
pub record Keeps {A : Type 0} (I : History → Type 0) (m : Exec A) : Type 0 where
  pub kept : (h : History) → I h → I (m h).1

module _ {A : Type 0} {I : History → Type 0} where
  pub return-Keeps : (a : A) → Keeps I (return a)
  unfolding return
  return-Keeps a = record { kept = λ h i. i }

  pub fail-Keeps : (x : Error) → Keeps I (fail {A = A} x)
  unfolding fail
  fail-Keeps x = record { kept = λ h i. i }

  pub lift-Keeps : (r : Result Error A) → Keeps I (lift r)
  unfolding lift
  lift-Keeps r = record { kept = λ h i. i }

  pub gets-Keeps : (f : History → A) → Keeps I (gets f)
  unfolding gets
  gets-Keeps f = record { kept = λ h i. i }

  pub attempt-Keeps : (m : Exec A) → Keeps I m → Keeps I (attempt m)
  unfolding attempt
  attempt-Keeps m k = record { kept = k.kept }

  pub if-Keeps :
      (test : Bool) (m n : Exec A) → Keeps I m → Keeps I n → Keeps I (if test then m else n)
  if-Keeps true m n k l = k
  if-Keeps false m n k l = l

pub require-Keeps : {I : History → Type 0} (test : Bool) (x : Error) → Keeps I (require test x)
unfolding require
require-Keeps true x = record { kept = λ h i. i }
require-Keeps false x = record { kept = λ h i. i }

module _ {A B : Type 0} {I : History → Type 0} where
  pub continue-Keeps :
      (r : Result Error A) (f : A → Exec B) → ((a : A) → Keeps I (f a)) → Keeps I (continue r f)
  unfolding continue
  continue-Keeps (ok a) f k = k a
  continue-Keeps (err x) f k = record { kept = λ h i. i }

  pub bind-Keeps :
      (m : Exec A) (f : A → Exec B) → Keeps I m → ((a : A) → Keeps I (f a)) → Keeps I (m >>= f)
  unfolding ◌>>=◌
  bind-Keeps m f k l = record {
    kept = λ h i. let (r, h') = m h in (continue-Keeps r f l).kept h' (k.kept h i);
  }

pub ruleset keeps_rules = (
  return-Keeps, fail-Keeps, lift-Keeps, gets-Keeps, attempt-Keeps, if-Keeps, require-Keeps,
  bind-Keeps,
)
