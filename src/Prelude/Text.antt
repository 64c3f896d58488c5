-- ===== src/Prelude/Text.antt =====
-- Go's `strings` and `strconv` functions that the program calls, on the characters of a text.
use Prim.Native.Nat.{ℕ, zero, suc, ◌+◌, ◌/◌, ◌%◌}
use Prim.Native.Char.{code}
use Prim.Native.String.{String, slice, ◌++◌ as ◌&◌}
use mathlib.Core.Bool.{Bool, false, ◌&&◌, ◌||◌}
use mathlib.Core.List.{List, [], ◌∷◌}
use ani_inference_service.Prelude.Tests.{ltb, leb, ◌==◌, str_eq, if◌then◌else◌}

abbrev pub codes : String → List ℕ
codes String.[] = []
codes (String.◌∷◌ c s) = code c ∷ codes s

-- `unicode.IsSpace`.
unfoldable pub is_space : ℕ → Bool
is_space c =
    (leb 0x9 c && leb c 0xd)
    || c == 0x20
    || c == 0x85
    || c == 0xa0
    || c == 0x1680
    || (leb 0x2000 c && leb c 0x200a)
    || c == 0x2028
    || c == 0x2029
    || c == 0x202f
    || c == 0x205f
    || c == 0x3000

unfoldable pub trim_left : String → String
unfolding is_space
trim_left String.[] = ""
trim_left (String.◌∷◌ c s) = if is_space (code c) then trim_left s else String.◌∷◌ c s

-- Drops the spaces that end the text.
unfoldable pub trim_right : String → String
unfolding is_space
trim_right String.[] = ""
trim_right (String.◌∷◌ c s) =
    let rest = trim_right s in if is_space (code c) && str_eq rest "" then "" else String.◌∷◌ c rest

-- `strings.TrimSpace`.
unfoldable pub trim_space : String → String
unfolding trim_left trim_right
trim_space s = trim_right (trim_left s)

-- `strings.TrimSpace(s) == ""`.
unfoldable pub is_blank : String → Bool
unfolding trim_space
is_blank s = str_eq (trim_space s) ""

-- `strings.Contains(s, c)` for a single character.
unfoldable pub contains_code : ℕ → List ℕ → Bool
contains_code k [] = false
contains_code k (c ∷ cs) = c == k || contains_code k cs

digit : ℕ → String
digit d = slice "0123456789" d (d + 1)

-- The decimal digits of `n` in front of `rest`. `suc n` rounds are enough.
decimal_from : ℕ → ℕ → String → String
unfolding digit
decimal_from zero n rest = rest
decimal_from (suc fuel) n rest =
    let more = decimal_from fuel (n / 10) (digit (n % 10) & rest) in
    if ltb n 10 then digit n & rest else more

-- `strconv.FormatInt(n, 10)` for `n` that is not negative.
unfoldable pub format_int : ℕ → String
unfolding decimal_from
format_int n = decimal_from (suc n) n ""
