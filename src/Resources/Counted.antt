-- ===== src/Resources/Counted.antt =====
-- How `Aggregate` stands to TotalPods and to `ValidateCreate`.
use ani_inference_service.Names.{sort}
use ani_inference_service.Prelude.{
  refl, List, String, ℕ, pos_part, ℤ, ◌∷◌, ◌≡◌, ◌≤◌, none, [], ◌↔◌, Bool, true, arith, subst, sym,
  false, ok, ◌>>=◌, >>=-eq-ok, Result, ◌∙◌, ap,
}
use ani_inference_service.Gpu.Pods.{
  Pods, single, groups, total_pods_iff, by_default, by_deployment, Single,
}
use ani_inference_service.Gpu.{RuntimeMode, total_pods, max_int32, leader_worker_set}
use ani_inference_service.Resources.{Spec, Demand}
use ani_inference_service.Resources.Scaled.{Units, alone, led, units_of-Units}
use ani_inference_service.Resources.Demanded.{aggregate-IsDemandOf, aggregate-parts, IsDemandOf}
use ani_inference_service.Resources.Normalize.{
  Quantities, normalize_resources, settle_all, settle_resource, check_gpu, add_keys, ResourceError,
}
use ani_inference_service.Resources.Aggregate.{aggregate, validate_create, check_shape}

-- int32 holds the replicas.
abbrev pub FitsInt32 : ℤ → Type 0
FitsInt32 z = pos_part z ≤ max_int32

Units-Pods :
    {replicas workers : ℤ} {mode : RuntimeMode} {n : ℕ}
    → Units replicas mode workers n
    → n ≤ max_int32
    → Pods replicas mode workers n
Units-Pods (alone m r w) fits = single m r w
Units-Pods (led r w) fits = groups r w fits

-- A mode that stands alone has no leader.
is_led : RuntimeMode → Bool
is_led leader_worker_set = true
is_led _ = false

is_led-Single : {mode : RuntimeMode} → Single mode → is_led mode ≡ false
unfolding is_led
is_led-Single by_default = refl
is_led-Single by_deployment = refl

Pods-Units :
    {replicas workers : ℤ} {mode : RuntimeMode} {n m : ℕ}
    → Pods replicas mode workers n
    → Units replicas mode workers m
    → FitsInt32 replicas
    → (n ≡ m) × (m ≤ max_int32)
unfolding is_led
Pods-Units (single a r w) (alone b s v) fits = (refl, fits)
Pods-Units (single a r w) (led s v) fits = absurd (ground (arith, is_led-Single a))
Pods-Units (groups r w m) (led s v) fits = (refl, m)
Pods-Units (groups r w m) (alone b s v) fits = absurd (ground (arith, is_led-Single b))

settle_all-gpu :
    (q : Quantities) (s : Spec) (names : List String)
    → settle_all q (record s { gpu = none }) names ≡ settle_all q s names
unfolding settle_all settle_resource
settle_all-gpu q s [] = refl
settle_all-gpu q s (name ∷ names) = rw (settle_all-gpu q s names)

check_shape-Units :
    {replicas workers : ℤ} {mode : RuntimeMode} {n : ℕ}
    → Units replicas mode workers n
    → check_shape replicas mode workers ≡ ok tt
unfolding check_shape
check_shape-Units (alone by_default r w) = ground arith
check_shape-Units (alone by_deployment r w) = ground arith
check_shape-Units (led r w) = ground arith

normalize_resources-gpu :
    (q : Quantities) (s n : Spec)
    → normalize_resources q s ≡ ok n
    → (m : Spec) × (normalize_resources q (record s { gpu = none }) ≡ ok m)
unfolding normalize_resources check_gpu
normalize_resources-gpu q s n h =
    let names = sort (add_keys s.limits (add_keys s.requests [])) in
    let last : List (String × String) × List (String × String) → Result ResourceError Spec =
      λ es. ok (record s { requests = es.0; limits = es.1 }) in
    let plain : List (String × String) × List (String × String) → Result ResourceError Spec =
      λ es. ok (record s { requests = es.0; limits = es.1; gpu = none }) in
    let (u, gpu, h1) = >>=-eq-ok (λ u. settle_all q s names >>= last) (check_gpu s s.gpu) h in
    let (es, settled, h2) = >>=-eq-ok last (settle_all q s names) h1 in
    (
      record s { requests = es.0; limits = es.1; gpu = none },
      ap (λ r. r >>= plain) (settle_all-gpu q s names ∙ settled),
    )

module _ (q : Quantities) (s : Spec) (replicas workers : ℤ) (mode : RuntimeMode) (d : Demand)
    (h : aggregate q s replicas mode workers ≡ ok d) where
  -- Where a demand is aggregated for replicas of an int32: TotalPods counts a number of Pods exactly if
  -- it is the number of containers of the demand and an int32 holds it.
  pub aggregate-total_pods :
      FitsInt32 replicas
      → (n : ℕ)
      → (total_pods replicas mode workers ≡ ok n) ↔ ((n ≡ d.units) × (d.units ≤ max_int32))
  aggregate-total_pods fits n = (counted, counts)
    where
      demand : IsDemandOf q s replicas workers mode d
      demand = aggregate-IsDemandOf q s replicas workers mode d h

      counted : total_pods replicas mode workers ≡ ok n → (n ≡ d.units) × (d.units ≤ max_int32)
      counted e = Pods-Units ((total_pods_iff replicas workers mode n).0 e) demand.counted fits

      counts : (n ≡ d.units) × (d.units ≤ max_int32) → total_pods replicas mode workers ≡ ok n
      counts (same, small) =
          (total_pods_iff replicas workers mode n).1
            (subst (Pods replicas mode workers) (sym same) (Units-Pods demand.counted small))

  -- A specification for which a demand is aggregated passes ValidateCreate, which looks at its
  -- requests and limits alone.
  pub aggregate-validate_create : validate_create q s replicas mode workers ≡ ok tt
  unfolding validate_create
  aggregate-validate_create =
      let (units, normal, counted, normalized, done) =
        aggregate-parts q s replicas workers mode d h in
      let (m, e) = normalize_resources-gpu q s normal normalized in
      rw (check_shape-Units (units_of-Units replicas workers mode units counted), e)
