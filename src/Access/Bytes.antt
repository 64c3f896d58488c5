-- ===== src/Access/Bytes.antt =====
-- Go's strings as bytes, and the functions of its `strings` package that internal/biz/accesskey
-- calls on them.
use ani_inference_service.Prelude.{
  suc, All, ℕ, List, ◌/◌, ◌≢◌, arith, [], ◌&&◌, ◌≤◌, String, length, ◌%◌, false, ◌∷◌, if◌then◌else◌,
  true, refl, ◌+◌, ◌==◌, ltb, ◌<◌, zero, ◌≡◌, Bool, ◌++◌, ap,
}
use Prim.Native.Char.{code}

abbrev pub Bytes : Type 0
Bytes = List ℕ

-- What a byte is.
abbrev pub AreBytes : Bytes → Type 0
AreBytes = All (λ b. b < 256)

-- The bytes of a rune.
unfoldable pub encode_rune : ℕ → Bytes
encode_rune c =
    if ltb c 0x80
    then c ∷ []
    else if ltb c 0x800
    then (0xc0 + c / 64) ∷ (0x80 + c % 64) ∷ []
    else if ltb c 0x10000
    then (0xe0 + c / 4096) ∷ (0x80 + (c / 64) % 64) ∷ (0x80 + c % 64) ∷ []
    else (0xf0 + c / 262144)
      ∷ (0x80 + (c / 4096) % 64)
      ∷ (0x80 + (c / 64) % 64)
      ∷ (0x80 + c % 64)
      ∷ []

-- `[]byte(s)`.
unfoldable pub utf8 : String → Bytes
unfolding encode_rune
utf8 String.[] = []
utf8 (String.◌∷◌ c s) = encode_rune (code c) ++ utf8 s

abbrev pub bytes_eq : Bytes → Bytes → Bool
bytes_eq [] [] = true
bytes_eq (x ∷ xs) (y ∷ ys) = x == y && bytes_eq xs ys
bytes_eq _ _ = false

-- `b[:n]` and `b[n:]` where `n` is within bounds.
unfoldable pub take : ℕ → Bytes → Bytes
take (suc n) (b ∷ bs) = b ∷ take n bs
take _ _ = []

unfoldable pub drop : ℕ → Bytes → Bytes
drop (suc n) (b ∷ bs) = drop n bs
drop _ bs = bs

-- `strings.HasPrefix`.
unfoldable pub has_prefix : Bytes → Bytes → Bool
has_prefix _ [] = true
has_prefix [] (p ∷ ps) = false
has_prefix (b ∷ bs) (p ∷ ps) = b == p && has_prefix bs ps

abbrev pub push_byte : ℕ → List Bytes → List Bytes
push_byte b [] = (b ∷ []) ∷ []
push_byte b (part ∷ parts) = (b ∷ part) ∷ parts

-- `strings.Split` at one byte.
unfoldable pub split : ℕ → Bytes → List Bytes
split at [] = [] ∷ []
split at (b ∷ bs) = let parts = split at bs in if b == at then [] ∷ parts else push_byte b parts

-- No byte is `b`.
abbrev pub Lacks : ℕ → Bytes → Type 0
Lacks b = All (λ c. c ≢ b)

pub bytes_eq_refl : (bs : Bytes) → bytes_eq bs bs ≡ true
bytes_eq_refl [] = refl
bytes_eq_refl (b ∷ bs) = ground (arith, bytes_eq_refl bs)

pub take-append : (n : ℕ) (xs ys : Bytes) → length xs ≡ n → take n (xs ++ ys) ≡ xs
unfolding take
take-append zero [] ys e = refl
take-append (suc n) [] ys e = absurd (omega arith)
take-append zero (x ∷ xs) ys e = absurd (omega arith)
take-append (suc n) (x ∷ xs) ys e = ap (◌∷◌ x) (take-append n xs ys (omega arith))

pub drop-append : (n : ℕ) (xs ys : Bytes) → length xs ≡ n → drop n (xs ++ ys) ≡ ys
unfolding drop
drop-append zero [] ys e = refl
drop-append (suc n) [] ys e = absurd (omega arith)
drop-append zero (x ∷ xs) ys e = absurd (omega arith)
drop-append (suc n) (x ∷ xs) ys e = drop-append n xs ys (omega arith)

pub length-take : (n : ℕ) (xs : Bytes) → n ≤ length xs → length (take n xs) ≡ n
unfolding take
length-take zero xs h = refl
length-take (suc n) [] h = absurd (omega arith)
length-take (suc n) (x ∷ xs) h = omega (arith, length-take n xs (omega arith))

pub has_prefix-append : (ps bs : Bytes) → has_prefix (ps ++ bs) ps ≡ true
unfolding has_prefix
has_prefix-append [] bs = refl
has_prefix-append (p ∷ ps) bs = ground (arith, has_prefix-append ps bs)

pub split-last : (at : ℕ) (bs : Bytes) → Lacks at bs → split at bs ≡ bs ∷ []
unfolding split
split-last at [] h = refl
split-last at (b ∷ bs) (h, hs) = ground (arith, split-last at bs hs)

pub split-next :
    (at : ℕ) (bs rest : Bytes) → Lacks at bs → split at (bs ++ at ∷ rest) ≡ bs ∷ split at rest
unfolding split
split-next at [] rest h = ground arith
split-next at (b ∷ bs) rest (h, hs) = ground (arith, split-next at bs rest hs)
