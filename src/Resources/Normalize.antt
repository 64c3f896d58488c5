-- ===== src/Resources/Normalize.antt =====
-- `Normalize` (internal/biz/resources/resources.go). The quantities and names of Kubernetes are a
-- parameter. A Go map is the list of its entries; the first entry of a key counts.
use ani_inference_service.Prelude.{
  true, some, trim_space, ok, none, codes, Option, str_eq, false, if◌then◌else◌, ◌&&◌, Bool, ◌>>=◌,
  ◌>>◌, contains_code, guard, [], Result, ◌∷◌, List, not, String, or_fail, err, ℕ,
}
use text.Mathlib.Text.{starts_with}
use ani_inference_service.Resources.{Spec}
use ani_inference_service.Gpu.{validate_request, GpuError, GpuRequest}
use ani_inference_service.Names.{sort, add_name}

-- How two quantities compare: `Cmp`.
pub data Comparison : Type 0 where
  smaller equal greater : Comparison

-- `resource.Quantity` and `utilvalidation.IsQualifiedName`.
pub record Quantities : Type 1 where
  pub Quantity : Type 0
  pub parse : String → Option Quantity
  pub is_negative : Quantity → Bool
  pub cmp : Quantity → Quantity → Comparison
  pub print : Quantity → String
  -- `Mul`, which fails where the product is beyond the precision.
  pub mul : Quantity → ℕ → Option Quantity
  pub is_qualified : String → Bool

pub data ResourceError : Type 0 where
  invalid_gpu : GpuError → ResourceError
  extended_beside_gpu invalid_name invalid_request invalid_limit : String → ResourceError
  request_exceeds_limit unequal_extended : String → ResourceError

unfoldable pub lookup : {A : Type 0} → String → List (String × A) → Option A
lookup name [] = none
lookup name ((k, v) ∷ rest) = if str_eq k name then some v else lookup name rest

-- `strings.Contains(name, "/")`.
abbrev pub has_slash : String → Bool
has_slash name = contains_code 0x2f (codes name)

unfoldable pub is_extended : String → Bool
unfolding contains_code
is_extended name = has_slash name && not (starts_with name "kubernetes.io/")

-- The names of the entries, each once.
unfoldable pub add_keys : List (String × String) → List String → List String
unfolding add_name
add_keys [] names = names
add_keys ((k, v) ∷ rest) names = add_keys rest (add_name k names)

-- A name that no resource beside a GPU request may have.
unfoldable pub check_plain : List (String × String) → Result ResourceError Unit
unfolding contains_code
check_plain [] = ok tt
check_plain ((k, v) ∷ rest) = guard (not (has_slash k)) (extended_beside_gpu k) >> check_plain rest

abbrev pub valid_gpu : Result GpuError Unit → Result ResourceError Unit
valid_gpu (ok u) = ok tt
valid_gpu (err e) = err (invalid_gpu e)

abbrev pub is_greater : Comparison → Bool
is_greater greater = true
is_greater _ = false

abbrev pub is_equal : Comparison → Bool
is_equal equal = true
is_equal _ = false

-- `gpu.ValidateRequest`, and what may stand beside it.
unfoldable pub check_gpu : Spec → Option GpuRequest → Result ResourceError Unit
unfolding check_plain
check_gpu s none = ok tt
check_gpu s (some r) = do
  valid_gpu (validate_request r)
  check_plain s.requests
  check_plain s.limits

module _ (q : Quantities) where
  abbrev pub non_negative : Option q.Quantity → Option q.Quantity
  non_negative none = none
  non_negative (some a) = if q.is_negative a then none else some a

  unfoldable pub parse_quantity : String → Option q.Quantity
  unfolding trim_space
  parse_quantity raw =
      if str_eq (trim_space raw) "" then none else non_negative (q.parse (trim_space raw))

  unfoldable pub parse_raw :
      Option String → ResourceError → Result ResourceError (Option q.Quantity)
  unfolding parse_quantity
  parse_raw none e = ok none
  parse_raw (some raw) e = or_fail (parse_quantity raw) e >>= λ a. ok (some a)

  -- An extended resource without a request has its limit as its request.
  unfoldable pub effective : Bool → Option q.Quantity → Option q.Quantity → Option q.Quantity
  effective true none limit = limit
  effective _ request limit = request

  unfoldable pub exceeds : Option q.Quantity → Option q.Quantity → Bool
  exceeds (some a) (some b) = is_greater (q.cmp a b)
  exceeds _ _ = false

  unfoldable pub differ : Option q.Quantity → Option q.Quantity → Bool
  differ (some a) (some b) = not (is_equal (q.cmp a b))
  differ _ _ = false

  -- The tests on a parsed request and limit.
  unfoldable pub fit :
      Bool
      → String
      → Option q.Quantity
      → Option q.Quantity
      → Result ResourceError (Option q.Quantity × Option q.Quantity)
  unfolding effective exceeds differ
  fit extended name request limit = do
    guard (not (exceeds (effective extended request limit) limit)) (request_exceeds_limit name)
    guard (not (extended && differ request limit)) (unequal_extended name)
    ok (effective extended request limit, limit)

  -- One round of the loop: the request and the limit of one name.
  unfoldable pub settle_resource :
      Spec → String → Result ResourceError (Option q.Quantity × Option q.Quantity)
  unfolding parse_raw fit lookup is_extended
  settle_resource s name = do
    request ← parse_raw (lookup name s.requests) (invalid_request name)
    limit ← parse_raw (lookup name s.limits) (invalid_limit name)
    fit (is_extended name) name request limit

  unfoldable pub with_entry :
      String → Option q.Quantity → List (String × String) → List (String × String)
  with_entry name none entries = entries
  with_entry name (some a) entries = (name, q.print a) ∷ entries

  -- The loop over the names in their order.
  unfoldable pub settle_all :
      Spec → List String → Result ResourceError (List (String × String) × List (String × String))
  unfolding settle_resource with_entry
  settle_all s [] = ok ([], [])
  settle_all s (name ∷ names) = do
    guard (q.is_qualified name) (invalid_name name)
    entry ← settle_resource s name
    rest ← settle_all s names
    ok (with_entry name entry.0 rest.0, with_entry name entry.1 rest.1)

  -- Without entries the loop has no round, which is the early return.
  unfoldable pub normalize_resources : Spec → Result ResourceError Spec
  unfolding check_gpu settle_all sort add_keys
  normalize_resources s = do
    check_gpu s s.gpu
    entries ← settle_all s (sort (add_keys s.limits (add_keys s.requests [])))
    ok (record s { requests = entries.0; limits = entries.1 })
