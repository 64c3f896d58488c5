-- ===== src/Examples/Quantities.antt =====
-- The theorem about resources at a specification with a CPU and an accelerator.
use ani_inference_service.Gpu.{total_pods, leader_worker_set, max_int32}
use ani_inference_service.Prelude.{
  ◌≡◌, ok, none, some, format_int, refl, ◌==◌, Option, [], if◌then◌else◌, false, ◌∷◌, String, ltb,
  true, ℕ, str_eq, err, ◌*◌, arith, ◌≤◌, ◌↔◌, pos,
}
use ani_inference_service.Resources.{Spec, Demand}
use ani_inference_service.Resources.Demanded.{IsDemandOf, aggregate-IsDemandOf}
use ani_inference_service.Resources.Counted.{aggregate-total_pods, aggregate-validate_create}
use ani_inference_service.Resources.Aggregate.{aggregate, validate_create}
use ani_inference_service.Resources.Normalize.{
  Quantities, Comparison, normalize_resources, request_exceeds_limit,
}

abbrev compare_counts : ℕ → ℕ → Comparison
compare_counts a b =
    if ltb a b
    then Comparison.smaller
    else (if a == b then Comparison.equal else Comparison.greater)

abbrev parse_count : String → Option ℕ
parse_count s = if str_eq s "1" then some 1 else (if str_eq s "2" then some 2 else none)

abbrev counts : Quantities
counts = record {
  Quantity = ℕ;
  parse = parse_count;
  is_negative = λ a. false;
  cmp = compare_counts;
  print = format_int;
  mul = λ a n. some (a * n);
  is_qualified = λ s. true;
}

abbrev resources : Spec
resources = record {
  requests = ("cpu", " 1 ") ∷ [];
  limits = ("nvidia.com/gpu", "1") ∷ ("cpu", "2") ∷ [];
  gpu = none;
}

abbrev normal_resources : Spec
normal_resources = record resources {
  requests = ("cpu", "1") ∷ ("nvidia.com/gpu", "1") ∷ [];
  limits = ("cpu", "2") ∷ ("nvidia.com/gpu", "1") ∷ [];
}

-- A request above its limit is refused.
exceeding :
    normalize_resources counts
      (record resources { requests = ("cpu", "2") ∷ []; limits = ("cpu", "1") ∷ [] })
    ≡ err (request_exceeds_limit "cpu")
unfolding normalize_resources
exceeding = refl

-- Two leaders with one worker each.
abbrev four : Demand
four = record {
  resources = record resources {
    requests = ("cpu", "4") ∷ ("nvidia.com/gpu", "4") ∷ [];
    limits = ("cpu", "8") ∷ ("nvidia.com/gpu", "4") ∷ [];
  };
  units = 4;
}

aggregates : aggregate counts resources (pos 2) leader_worker_set (pos 1) ≡ ok four
unfolding aggregate format_int
aggregates = refl

aggregate-IsDemandOf_example : IsDemandOf counts resources (pos 2) (pos 1) leader_worker_set four
aggregate-IsDemandOf_example =
    aggregate-IsDemandOf counts resources (pos 2) (pos 1) leader_worker_set four aggregates

aggregate-total_pods_example :
    (total_pods (pos 2) leader_worker_set (pos 1) ≡ ok 4)
    ↔ ((◌≡◌ {A = ℕ} 4 four.units) × (four.units ≤ max_int32))
aggregate-total_pods_example =
    aggregate-total_pods counts resources (pos 2) (pos 1) leader_worker_set four aggregates
      (omega arith) 4

aggregate-validate_create_example :
    validate_create counts resources (pos 2) leader_worker_set (pos 1) ≡ ok tt
aggregate-validate_create_example =
    aggregate-validate_create counts resources (pos 2) (pos 1) leader_worker_set four aggregates
