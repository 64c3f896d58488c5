-- ===== src/Names.antt =====
-- Lists of names: `sort.Strings`, the search of a name, and the keys of a Go map, as
-- internal/biz/accesspolicy/policy.go and internal/biz/resources/resources.go use them.
pub mod Sorted
use ani_inference_service.Prelude.{
  List, Bool, String, [], ◌∷◌, if◌then◌else◌, str_eq, ◌||◌, false, less,
}

-- `sort.Strings`.
unfoldable pub insert_sorted : String → List String → List String
unfolding less
insert_sorted x [] = x ∷ []
insert_sorted x (y ∷ ys) =
    let rest = insert_sorted x ys in if less x y then x ∷ y ∷ ys else y ∷ rest

unfoldable pub sort : List String → List String
unfolding insert_sorted
sort [] = []
sort (x ∷ xs) = insert_sorted x (sort xs)

-- The loop of `AllowsModel`.
unfoldable pub contains : String → List String → Bool
contains model [] = false
contains model (x ∷ xs) = str_eq x model || contains model xs

-- The keys of the map once a name is set, the newest first. Go ranges over them in any order.
unfoldable pub add_name : String → List String → List String
unfolding contains
add_name x names = if contains x names then names else x ∷ names
