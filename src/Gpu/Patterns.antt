-- ===== src/Gpu/Patterns.antt =====
-- The regular expressions of internal/biz/gpu/gpu.go as functions on a text's characters.
use ani_inference_service.Prelude.{
  false, leb, Bool, ◌==◌, ◌∷◌, List, ◌&&◌, [], codes, ℕ, ◌||◌, true, length, String,
}

is_hex : ℕ → Bool
is_hex c = (leb b'0' c && leb c b'9') || (leb b'a' c && leb c b'f')

-- What one character of the UUID pattern may be.
pub data Place : Type 0 where
  hex version variant dash : Place

fits : Place → ℕ → Bool
unfolding is_hex
fits hex c = is_hex c
fits version c = leb b'1' c && leb c b'8'
fits variant c = c == b'8' || c == b'9' || c == b'a' || c == b'b'
fits dash c = c == b'-'

all_fit : List Place → List ℕ → Bool
unfolding fits
all_fit [] [] = true
all_fit [] (c ∷ cs) = false
all_fit (p ∷ ps) [] = false
all_fit (p ∷ ps) (c ∷ cs) = fits p c && all_fit ps cs

abbrev hex4 : List Place → List Place
hex4 rest = hex ∷ hex ∷ hex ∷ hex ∷ rest

-- `uuidPattern`.
unfoldable pub is_uuid : String → Bool
unfolding all_fit
is_uuid s =
    all_fit
      (hex4 (
        hex4 (
          dash
          ∷ hex4 (
              dash
              ∷ version
              ∷ hex
              ∷ hex
              ∷ hex
              ∷ dash
              ∷ variant
              ∷ hex
              ∷ hex
              ∷ hex
              ∷ dash
              ∷ hex4 (hex4 (hex4 []))))))
      (codes s)

is_lower_alnum : ℕ → Bool
is_lower_alnum c = (leb b'a' c && leb c b'z') || (leb b'0' c && leb c b'9')

-- The rest of `namePattern` behind its first character: dashes inside, none at the end.
name_rest : List ℕ → Bool
unfolding is_lower_alnum
name_rest [] = true
name_rest (c ∷ []) = is_lower_alnum c
name_rest (c ∷ d ∷ cs) = (is_lower_alnum c || c == b'-') && name_rest (d ∷ cs)

is_name : List ℕ → Bool
unfolding name_rest
is_name [] = false
is_name (c ∷ cs) = is_lower_alnum c && name_rest cs

-- `namePattern` and the length test beside it. The pattern admits one byte to a character.
unfoldable pub is_container_name : String → Bool
unfolding is_name
is_container_name s = leb (length (codes s)) 63 && is_name (codes s)

all_hex : List ℕ → Bool
unfolding is_hex
all_hex [] = true
all_hex (c ∷ cs) = is_hex c && all_hex cs

-- `digestPattern`.
unfoldable pub is_digest : String → Bool
unfolding all_hex
is_digest s = length (codes s) == 64 && all_hex (codes s)
