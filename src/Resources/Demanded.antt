-- ===== src/Resources/Demanded.antt =====
-- What `Aggregate` returns, and how it stands to TotalPods and to `ValidateCreate`.
use ani_inference_service.Prelude.{
  if◌then◌else◌, Result, List, Option, str_eq, ◌∷◌, ok-injective, Bool, false, ok, [], or_fail,
  ◌>>=◌, none, String, ℤ, some, >>=-eq-ok, subst, or_fail-eq-ok, ◌≡◌, ℕ, true, refl, ap, err,
}
use ani_inference_service.Gpu.{RuntimeMode}
use ani_inference_service.Resources.{Spec, Demand}
use ani_inference_service.Resources.Scaled.{Units, units_of-Units}
use ani_inference_service.Resources.Normalize.{
  Quantities, normalize_resources, lookup, ResourceError,
}
use ani_inference_service.Resources.Aggregate.{
  AggregateError, scale, scale_all, beyond_precision, not_a_quantity, aggregate, demanded, units_of,
  valid_resources,
}

module _ (q : Quantities) where
  -- An entry and its multiple, or neither.
  pub data IsScaled (units : ℕ) : Option String → Option String → Type 0 where
    neither : IsScaled units none none
    times :
        (value : String) (a b : q.Quantity)
        → q.parse value ≡ some a
        → q.mul a units ≡ some b
        → IsScaled units (some value) (some (q.print b))

  -- A demand for a specification: its normal form with each quantity multiplied by the containers.
  pub record IsDemandOf (s : Spec) (replicas workers : ℤ) (mode : RuntimeMode) (d : Demand)
      : Type 0 where
    pub normal : Spec
    pub normalized : normalize_resources q s ≡ ok normal
    pub counted : Units replicas mode workers d.units
    pub requests_scaled :
        (name : String)
        → IsScaled d.units (lookup name normal.requests) (lookup name d.resources.requests)
    pub limits_scaled :
        (name : String)
        → IsScaled d.units (lookup name normal.limits) (lookup name d.resources.limits)
    pub same_gpu : d.resources.gpu ≡ normal.gpu

  scale-IsScaled :
      (units : ℕ) (name value out : String)
      → scale q units name value ≡ ok out
      → IsScaled units (some value) (some out)
  unfolding scale
  scale-IsScaled units name value out h =
      let last : q.Quantity → Result AggregateError String = λ b. ok (q.print b) in
      let more : q.Quantity → Result AggregateError String =
        λ a. or_fail (q.mul a units) (beyond_precision name) >>= last in
      let (a, read, h1) = >>=-eq-ok more (or_fail (q.parse value) (not_a_quantity value)) h in
      let (b, product, h2) = >>=-eq-ok last (or_fail (q.mul a units) (beyond_precision name)) h1 in
      subst (λ x. IsScaled units (some value) (some x)) (ok-injective h2)
        (times value a b (or_fail-eq-ok _ _ read) (or_fail-eq-ok _ _ product))

  scale_all-IsScaled :
      (units : ℕ) (es out : List (String × String))
      → scale_all q units es ≡ ok out
      → (name : String) → IsScaled units (lookup name es) (lookup name out)
  unfolding scale_all lookup
  scale_all-IsScaled units [] out h name =
      subst (λ o. IsScaled units none (lookup name o)) (ok-injective h) neither
  scale_all-IsScaled units ((k, v) ∷ es) out h name =
      let last : String → List (String × String) → Result AggregateError (List (String × String)) =
        λ scaled others. ok ((k, scaled) ∷ others) in
      let more : String → Result AggregateError (List (String × String)) =
        λ scaled. scale_all q units es >>= last scaled in
      let (scaled, first, h1) = >>=-eq-ok more (scale q units k v) h in
      let (others, rest, h2) = >>=-eq-ok (last scaled) (scale_all q units es) h1 in
      subst (λ o. IsScaled units (lookup name ((k, v) ∷ es)) (lookup name o)) (ok-injective h2)
        (by_name scaled others (str_eq k name) (scale-IsScaled units k v scaled first)
          (scale_all-IsScaled units es others rest name))
    where
      by_name :
          (scaled : String) (others : List (String × String)) (b : Bool)
          → IsScaled units (some v) (some scaled)
          → IsScaled units (lookup name es) (lookup name others)
          → IsScaled units
              (if b then some v else lookup name es)
              (if b then some scaled else lookup name others)
      by_name scaled others true own rest = own
      by_name scaled others false own rest = rest

  valid_resources-ok :
      (r : Result ResourceError Spec) (n : Spec) → valid_resources r ≡ ok n → r ≡ ok n
  valid_resources-ok (ok m) n h = ap ok (ok-injective h)
  valid_resources-ok (err e) n h = cc

  pub aggregate-parts :
      (s : Spec) (replicas workers : ℤ) (mode : RuntimeMode) (d : Demand)
      → aggregate q s replicas mode workers ≡ ok d
      → (units : ℕ) × (normal : Spec) × (units_of replicas mode workers ≡ ok units)
        × (normalize_resources q s ≡ ok normal)
        × (demanded q units normal ≡ ok d)
  unfolding aggregate
  aggregate-parts s replicas workers mode d h =
      let more : ℕ → Result AggregateError Demand =
        λ units. valid_resources (normalize_resources q s) >>= demanded q units in
      let (units, counted, h1) = >>=-eq-ok more (units_of replicas mode workers) h in
      let (normal, valid, h2) =
        >>=-eq-ok (demanded q units) (valid_resources (normalize_resources q s)) h1 in
      (units, normal, counted, valid_resources-ok (normalize_resources q s) normal valid, h2)

  demanded-IsDemandOf :
      (s : Spec) (replicas workers : ℤ) (mode : RuntimeMode) (units : ℕ) (n : Spec) (d : Demand)
      → Units replicas mode workers units
      → normalize_resources q s ≡ ok n
      → demanded q units n ≡ ok d
      → IsDemandOf s replicas workers mode d
  unfolding demanded
  demanded-IsDemandOf s replicas workers mode units n d counted normalized h =
      let last : List (String × String) → List (String × String) → Result AggregateError Demand =
        λ requests limits. ok (record {
          resources = record n { requests = requests; limits = limits };
          units = units;
        }) in
      let more : List (String × String) → Result AggregateError Demand =
        λ requests. scale_all q units n.limits >>= last requests in
      let (requests, r, h1) = >>=-eq-ok more (scale_all q units n.requests) h in
      let (limits, l, h2) = >>=-eq-ok (last requests) (scale_all q units n.limits) h1 in
      subst (IsDemandOf s replicas workers mode) (ok-injective h2) (record {
        normal = n;
        normalized = normalized;
        counted = counted;
        requests_scaled = scale_all-IsScaled units n.requests requests r;
        limits_scaled = scale_all-IsScaled units n.limits limits l;
        same_gpu = refl;
      })

  -- A demand that is aggregated is for the containers that its replicas and workers mean in their
  -- mode, and each request and limit of the specification's normal form stands in it multiplied by
  -- their number.
  pub aggregate-IsDemandOf :
      (s : Spec) (replicas workers : ℤ) (mode : RuntimeMode) (d : Demand)
      → aggregate q s replicas mode workers ≡ ok d
      → IsDemandOf s replicas workers mode d
  aggregate-IsDemandOf s replicas workers mode d h =
      let (units, normal, counted, normalized, done) =
        aggregate-parts s replicas workers mode d h in
      demanded-IsDemandOf s replicas workers mode units normal d
        (units_of-Units replicas workers mode units counted) normalized done
