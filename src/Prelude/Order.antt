-- ===== src/Prelude/Order.antt =====
-- Go's `<` on strings, a strict total order.
use Prim.Native.Char.{code}
use Prim.Native.String.{String}
use mathlib.Core.Path.{◌≡◌, refl}
use mathlib.Core.Bool.{Bool, true, false, ◌&&◌, ◌||◌}
use native.Mathlib.Omega.{arith}
use text.Mathlib.TextEquality.{Char-path}
use ani_inference_service.Prelude.Tests.{ltb, ◌==◌}

-- UTF-8 keeps the order of the code points.
unfoldable pub less : String → String → Bool
less String.[] String.[] = false
less String.[] (String.◌∷◌ d t) = true
less (String.◌∷◌ c s) String.[] = false
less (String.◌∷◌ c s) (String.◌∷◌ d t) = ltb (code c) (code d) || (code c == code d && less s t)

pub less-irreflexive : (s : String) → less s s ≡ false
unfolding less
less-irreflexive String.[] = refl
less-irreflexive (String.◌∷◌ c s) = ground (arith, less-irreflexive s)

less-empty : (s : String) → less s "" ≡ false
unfolding less
less-empty String.[] = refl
less-empty (String.◌∷◌ c s) = refl

pub less-transitive : (s t u : String) → less s t ≡ true → less t u ≡ true → less s u ≡ true
unfolding less
less-transitive s t String.[] a b = absurd (ground (arith, less-empty t, b))
less-transitive String.[] t (String.◌∷◌ e u) a b = refl
less-transitive (String.◌∷◌ c s) String.[] (String.◌∷◌ e u) a b = cc a
less-transitive (String.◌∷◌ c s) (String.◌∷◌ d t) (String.◌∷◌ e u) a b =
    ground (arith, a, b, less-transitive s t u)

pub less-total : (s t : String) → less s t ≡ false → less t s ≡ false → s ≡ t
unfolding less
less-total String.[] String.[] a b = refl
less-total String.[] (String.◌∷◌ d t) a b = cc
less-total (String.◌∷◌ c s) String.[] a b = cc
less-total (String.◌∷◌ c s) (String.◌∷◌ d t) a b =
    let same : c ≡ d = Char-path c d (ground (arith, a, b)) in
    let rest : s ≡ t = less-total s t (ground (arith, a, b)) (ground (arith, a, b)) in
    cc (same, rest)
