-- ===== src/Access/Base64.antt =====
-- Go's base64.RawURLEncoding and base64.RawStdEncoding, which internal/biz/accesskey uses.
use ani_inference_service.Access.Bytes.{Bytes, AreBytes, Lacks}
use ani_inference_service.Prelude.{
  ltb, ◌<◌, some, ◌-◌, ◌+◌, leb, ◌∷◌, none, ◌==◌, ℕ, arith, ◌&&◌, ◌%◌, Option, if◌then◌else◌, ◌*◌,
  ◌/◌, ◌||◌, [], All-map, All, refl, length,
}
use mathlib.Core.Path.{◌≡◌}

pub data Encoding : Type 0 where
  raw_url raw_std : Encoding

-- The characters for 62 and 63.
abbrev pub char_62 : Encoding → ℕ
char_62 raw_url = 45
char_62 raw_std = 43

abbrev pub char_63 : Encoding → ℕ
char_63 raw_url = 95
char_63 raw_std = 47

-- The character of a sextet.
unfoldable pub sextet : Encoding → ℕ → ℕ
sextet e n =
    if ltb n 26
    then n + 65
    else if ltb n 52
    then n + 71
    else if ltb n 62
    then n - 4
    else if n == 62
    then char_62 e
    else char_63 e

-- The sextet of a character.
unfoldable pub value : Encoding → ℕ → Option ℕ
value e c =
    if leb 65 c && leb c 90
    then some (c - 65)
    else if leb 97 c && leb c 122
    then some (c - 71)
    else if leb 48 c && leb c 57
    then some (c + 4)
    else if c == char_62 e
    then some 62
    else if c == char_63 e
    then some 63
    else none

-- `EncodeToString`.
unfoldable pub encode : Encoding → Bytes → Bytes
unfolding sextet
encode e [] = []
encode e (a ∷ []) = sextet e (a / 4) ∷ sextet e (a % 4 * 16) ∷ []
encode e (a ∷ b ∷ []) =
    sextet e (a / 4) ∷ sextet e (a % 4 * 16 + b / 16) ∷ sextet e (b % 16 * 4) ∷ []
encode e (a ∷ b ∷ c ∷ rest) =
    sextet e (a / 4)
    ∷ sextet e (a % 4 * 16 + b / 16)
    ∷ sextet e (b % 16 * 4 + c / 64)
    ∷ sextet e (c % 64)
    ∷ encode e rest

infixl 5 ◌>>=◌
abbrev ◌>>=◌ : {A B : Type 0} → Option A → (A → Option B) → Option B
none >>= f = none
some a >>= f = f a

-- The bytes of a group of sextets.
abbrev first_byte : ℕ → ℕ → ℕ
first_byte w x = w * 4 + x / 16

abbrev second_byte : ℕ → ℕ → ℕ
second_byte x y = x % 16 * 16 + y / 4

-- Groups of four characters; a last group may have two or three.
unfoldable pub decode_groups : Encoding → Bytes → Option Bytes
unfolding value
decode_groups e [] = some []
decode_groups e (w ∷ []) = none
decode_groups e (w ∷ x ∷ []) = do i ← value e w; j ← value e x; some (first_byte i j ∷ [])
decode_groups e (w ∷ x ∷ y ∷ []) = do
  i ← value e w
  j ← value e x
  k ← value e y
  some (first_byte i j ∷ second_byte j k ∷ [])
decode_groups e (w ∷ x ∷ y ∷ z ∷ rest) = do
  i ← value e w
  j ← value e x
  k ← value e y
  l ← value e z
  more ← decode_groups e rest
  some (first_byte i j ∷ second_byte j k ∷ (k % 4 * 64 + l) ∷ more)

-- Line breaks are passed over.
unfoldable pub without_breaks : Bytes → Bytes
without_breaks [] = []
without_breaks (c ∷ cs) =
    let rest = without_breaks cs in if c == 10 || c == 13 then rest else c ∷ rest

-- `DecodeString`, where an error is `none`.
unfoldable pub decode : Encoding → Bytes → Option Bytes
unfolding decode_groups without_breaks
decode e cs = decode_groups e (without_breaks cs)

-- Every sextet has a character of its own.
value-sextet : (e : Encoding) (n : ℕ) → n < 64 → value e (sextet e n) ≡ some n
unfolding value sextet
value-sextet raw_url n h = ground arith
value-sextet raw_std n h = ground arith

-- A byte that is neither a line break nor the `$` between the parts of a hash.
pub IsPlain : ℕ → Type 0
IsPlain c = ¬ (c ≡ 10) × ¬ (c ≡ 13) × ¬ (c ≡ 36) × (c < 256)

sextet-IsPlain : (e : Encoding) (n : ℕ) → n < 64 → IsPlain (sextet e n)
unfolding sextet IsPlain
sextet-IsPlain raw_url n h = ground arith
sextet-IsPlain raw_std n h = ground arith

decode_groups-encode :
    (e : Encoding) (bs : Bytes) → AreBytes bs → decode_groups e (encode e bs) ≡ some bs
unfolding decode_groups encode
decode_groups-encode e [] h = refl
decode_groups-encode e (a ∷ []) (ha, h) =
    rw (value-sextet e (a / 4) (omega arith), value-sextet e (a % 4 * 16) (omega arith))
      (ground arith)
decode_groups-encode e (a ∷ b ∷ []) (ha, (hb, h)) =
    rw
      (
        value-sextet e (a / 4) (omega arith),
        value-sextet e (a % 4 * 16 + b / 16) (omega arith),
        value-sextet e (b % 16 * 4) (omega arith),
      )
      (ground arith)
decode_groups-encode e (a ∷ b ∷ c ∷ rest) (ha, (hb, (hc, h))) =
    rw
      (
        value-sextet e (a / 4) (omega arith),
        value-sextet e (a % 4 * 16 + b / 16) (omega arith),
        value-sextet e (b % 16 * 4 + c / 64) (omega arith),
        value-sextet e (c % 64) (omega arith),
        decode_groups-encode e rest h,
      )
      (ground arith)

-- Every character of an encoded text is plain.
pub encode-All : (e : Encoding) (bs : Bytes) → AreBytes bs → All IsPlain (encode e bs)
unfolding encode
encode-All e [] h = tt
encode-All e (a ∷ []) (ha, h) =
    let p = sextet-IsPlain e in (p (a / 4) (omega arith), (p (a % 4 * 16) (omega arith), tt))
encode-All e (a ∷ b ∷ []) (ha, (hb, h)) =
    let p = sextet-IsPlain e in
    let z = p (b % 16 * 4) (omega arith) in
    (p (a / 4) (omega arith), (p (a % 4 * 16 + b / 16) (omega arith), (z, tt)))
encode-All e (a ∷ b ∷ c ∷ rest) (ha, (hb, (hc, h))) =
    let p = sextet-IsPlain e in
    let y = p (b % 16 * 4 + c / 64) (omega arith) in
    let z = p (c % 64) (omega arith) in
    let tail = encode-All e rest h in
    (p (a / 4) (omega arith), (p (a % 4 * 16 + b / 16) (omega arith), (y, (z, tail))))

without_breaks-plain : (cs : Bytes) → All IsPlain cs → without_breaks cs ≡ cs
unfolding without_breaks IsPlain
without_breaks-plain [] h = refl
without_breaks-plain (c ∷ cs) ((lf, cr, d, b), h) = ground (arith, without_breaks-plain cs h)

pub decode-encode : (e : Encoding) (bs : Bytes) → AreBytes bs → decode e (encode e bs) ≡ some bs
unfolding decode
decode-encode e bs h =
    rw (without_breaks-plain (encode e bs) (encode-All e bs h)) (decode_groups-encode e bs h)

pub plain-Lacks : (cs : Bytes) → All IsPlain cs → Lacks 36 cs
unfolding IsPlain
plain-Lacks cs h = All-map cs (λ c (lf, cr, d, b). d) h

pub plain-AreBytes : (cs : Bytes) → All IsPlain cs → AreBytes cs
unfolding IsPlain
plain-AreBytes cs h = All-map cs (λ c (lf, cr, d, b). b) h

-- The number of characters of `n` bytes.
abbrev pub encoded_length : ℕ → ℕ
encoded_length n = n / 3 * 4 + (n % 3 * 4 + 2) / 3

pub length-encode : (e : Encoding) (bs : Bytes) → length (encode e bs) ≡ encoded_length (length bs)
unfolding encode
length-encode e [] = refl
length-encode e (a ∷ []) = refl
length-encode e (a ∷ b ∷ []) = refl
length-encode e (a ∷ b ∷ c ∷ rest) = omega (arith, length-encode e rest)
