-- ===== src/Prelude/Rows.antt =====
-- Rows of a table looked up by a test.
use mathlib.Core.Path.{◌≡◌, refl}
use mathlib.Core.Bool.{Bool, true, false, not, ◌||◌}
use mathlib.Core.List.{List, [], ◌∷◌, ◌++◌}
use mathlib.Core.Option.{Option, none, some}
use native.Mathlib.Omega.{arith}
use ani_inference_service.Prelude.Tests.{if◌then◌else◌}

-- The first row with a property, and whether there is one.
unfoldable pub find_row : {A : Type 0} → (A → Bool) → List A → Option A
find_row test [] = none
find_row test (r ∷ rs) = if test r then some r else find_row test rs

unfoldable pub any_row : {A : Type 0} → (A → Bool) → List A → Bool
any_row test [] = false
any_row test (r ∷ rs) = test r || any_row test rs

module _ {A : Type 0} (test : A → Bool) where
  pub find_row-none : (rs : List A) → any_row test rs ≡ false → find_row test rs ≡ none
  unfolding any_row find_row
  find_row-none [] h = refl
  find_row-none (r ∷ rs) h = ground (arith, find_row-none rs)

  pub find_row-last :
      (rs : List A) (r : A)
      → find_row test rs ≡ none
      → test r ≡ true
      → find_row test (rs ++ r ∷ []) ≡ some r
  unfolding find_row
  find_row-last [] r h t = rw t
  find_row-last (x ∷ rs) r h t =
      ground (arith, λ (e : find_row test rs ≡ none). find_row-last rs r e t)

  pub any_row-none : (rs : List A) → find_row test rs ≡ none → any_row test rs ≡ false
  unfolding any_row find_row
  any_row-none [] h = refl
  any_row-none (r ∷ rs) h = ground (arith, any_row-none rs)

pub ||-eq-false : (a b : Bool) → (a || b) ≡ false → (a ≡ false) × (b ≡ false)
||-eq-false false b h = (refl, h)
||-eq-false true b h = cc

pub not-eq-true : (b : Bool) → not b ≡ true → b ≡ false
not-eq-true false h = refl
not-eq-true true h = cc
