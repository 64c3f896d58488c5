-- ===== src/Policy/Trim.antt =====
-- `strings.TrimSpace` leaves nothing to trim.
use ani_inference_service.Prelude.{
  ◌∙◌, ◌≡◌, refl, String, true, trim_left, trim_space, trim_right, not, Bool, ap, is_space, false,
  if◌then◌else◌, ◌&&◌, str_eq, arith,
}
use Prim.Native.Char.{code}

-- The text does not begin with a space.
leads : String → Bool
leads String.[] = true
leads (String.◌∷◌ c s) = not (is_space (code c))

leads-trim_left : (s : String) → leads (trim_left s) ≡ true
unfolding trim_left leads
leads-trim_left String.[] = refl
leads-trim_left (String.◌∷◌ c s) = by_test (is_space (code c)) refl (leads-trim_left s)
  where
    by_test :
        (b : Bool)
        → is_space (code c) ≡ b
        → leads (trim_left s) ≡ true
        → leads (if b then trim_left s else String.◌∷◌ c s) ≡ true
    by_test true e later = later
    by_test false e later = ap not e

leads-trim_right : (s : String) → leads s ≡ true → leads (trim_right s) ≡ true
unfolding trim_right leads
leads-trim_right String.[] h = refl
leads-trim_right (String.◌∷◌ c s) h = by_test (is_space (code c) && str_eq (trim_right s) "")
  where
    by_test : (b : Bool) → leads (if b then "" else String.◌∷◌ c (trim_right s)) ≡ true
    by_test true = refl
    by_test false = h

trim_left-same : (s : String) → leads s ≡ true → trim_left s ≡ s
unfolding trim_left leads
trim_left-same String.[] h = refl
trim_left-same (String.◌∷◌ c s) h = ground (arith, h)

trim_right-trim_right : (s : String) → trim_right (trim_right s) ≡ trim_right s
unfolding trim_right
trim_right-trim_right String.[] = refl
trim_right-trim_right (String.◌∷◌ c s) =
    by_test (is_space (code c) && str_eq (trim_right s) "") refl (trim_right-trim_right s)
  where
    kept : Bool → String
    kept b = if b then "" else String.◌∷◌ c (trim_right s)

    by_test :
        (b : Bool)
        → (is_space (code c) && str_eq (trim_right s) "") ≡ b
        → trim_right (trim_right s) ≡ trim_right s
        → trim_right (kept b) ≡ kept b
    by_test true e later = refl
    by_test false e later = rw (later, e)

pub trim_space-trim_space : (s : String) → trim_space (trim_space s) ≡ trim_space s
unfolding trim_space
trim_space-trim_space s =
    ap trim_right (
      trim_left-same (trim_right (trim_left s))
        (leads-trim_right (trim_left s) (leads-trim_left s)))
    ∙ trim_right-trim_right (trim_left s)
