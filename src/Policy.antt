-- ===== src/Policy.antt =====
-- Access policies (internal/biz/accesspolicy/policy.go): which models a key may call and how often.
pub mod Normal
pub mod Trim
pub mod Again
use ani_inference_service.Names.{contains, sort, add_name}
use ani_inference_service.Prelude.{
  trim_space, false, guard, ltb, List, Bool, ok, [], ◌&&◌, err, ltb_ℤ, String, if◌then◌else◌,
  Result, true, str_eq, not, ℤ, ◌>>=◌, ◌∷◌, ℕ, ◌>>◌, ◌==◌, pos, ◌||◌, less,
}

pub record Policy : Type 0 where
  pub id : String
  pub tenant_id : String
  pub name : String
  pub allowed_model_names : List String
  pub requests_per_second : ℤ
  pub requests_per_minute : ℤ
  pub requests_per_hour : ℤ
  pub version : ℕ

-- The errors that wrap ErrInvalidInput.
pub data PolicyError : Type 0 where
  name_required negative_limit empty_model_name : PolicyError

-- The loop over the names: the keys of the map of trimmed names.
unfoldable pub collect : List String → List String → Result PolicyError (List String)
unfolding trim_space add_name
collect names [] = ok names
collect names (x ∷ xs) =
    let rest = collect (add_name (trim_space x) names) xs in
    if str_eq (trim_space x) "" then err empty_model_name else rest

unfoldable pub has_negative_limit : Policy → Bool
has_negative_limit p =
    ltb_ℤ p.requests_per_second (pos 0)
    || ltb_ℤ p.requests_per_minute (pos 0)
    || ltb_ℤ p.requests_per_hour (pos 0)

abbrev pub with_names : Policy → List String → Policy
with_names p names = record p { name = trim_space p.name; allowed_model_names = names }

unfoldable pub normalize : Policy → Result PolicyError Policy
unfolding trim_space collect sort has_negative_limit
normalize p = do
  guard (not (str_eq (trim_space p.name) "")) name_required
  guard (not (has_negative_limit p)) negative_limit
  names ← collect [] p.allowed_model_names
  ok (with_names p (sort names))

unfoldable pub allows_model : Policy → String → Bool
unfolding contains
allows_model p model = contains model p.allowed_model_names
