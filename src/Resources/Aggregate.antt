-- ===== src/Resources/Aggregate.antt =====
-- `Aggregate` (internal/biz/resources/aggregate.go) and `ValidateCreate`
-- (internal/biz/admission/admission.go).
use ani_inference_service.Prelude.{
  String, ℤ, guard, or_fail, Result, ◌+◌, not, ok, none, ◌||◌, err, pos, ◌>>=◌, ltb_ℤ, pos_part,
  List, [], ◌*◌, ◌>>◌, ◌∷◌, ℕ,
}
use ani_inference_service.Resources.{Spec, Demand}
use ani_inference_service.Resources.Normalize.{Quantities, ResourceError, normalize_resources}
use ani_inference_service.Gpu.{RuntimeMode, unset_mode, deployment, leader_worker_set, other_mode}

pub data AggregateError : Type 0 where
  no_replicas workers_refused workers_missing : AggregateError
  mode_unknown not_a_quantity beyond_precision : String → AggregateError
  invalid_resources : ResourceError → AggregateError

-- The factors are int32, so int64 holds their product.
unfoldable pub units_by_mode : ℕ → RuntimeMode → ℤ → Result AggregateError ℕ
units_by_mode replicas unset_mode workers = do
  guard (not (ltb_ℤ (pos 1) workers || ltb_ℤ workers (pos 0))) workers_refused
  ok replicas
units_by_mode replicas deployment workers = do
  guard (not (ltb_ℤ (pos 1) workers || ltb_ℤ workers (pos 0))) workers_refused
  ok replicas
units_by_mode replicas leader_worker_set workers = do
  guard (not (ltb_ℤ workers (pos 1))) workers_missing
  ok (replicas * (pos_part workers + 1))
units_by_mode replicas (other_mode m) workers = err (mode_unknown m)

unfoldable pub units_of : ℤ → RuntimeMode → ℤ → Result AggregateError ℕ
unfolding units_by_mode
units_of replicas mode workers = do
  guard (not (ltb_ℤ replicas (pos 1))) no_replicas
  units_by_mode (pos_part replicas) mode workers

abbrev pub valid_resources : Result ResourceError Spec → Result AggregateError Spec
valid_resources (ok s) = ok s
valid_resources (err e) = err (invalid_resources e)

-- The test of `ValidateCreate` on the numbers.
unfoldable pub check_shape : ℤ → RuntimeMode → ℤ → Result AggregateError Unit
check_shape replicas unset_mode workers = do
  guard (not (ltb_ℤ replicas (pos 1))) no_replicas
  guard (not (ltb_ℤ (pos 1) workers)) workers_refused
check_shape replicas deployment workers = do
  guard (not (ltb_ℤ replicas (pos 1))) no_replicas
  guard (not (ltb_ℤ (pos 1) workers)) workers_refused
check_shape replicas leader_worker_set workers =
    guard (not (ltb_ℤ replicas (pos 1) || ltb_ℤ workers (pos 1))) workers_missing
check_shape replicas (other_mode m) workers = err (mode_unknown m)

module _ (q : Quantities) where
  -- One entry of a map, multiplied.
  unfoldable pub scale : ℕ → String → String → Result AggregateError String
  scale units name value = or_fail (q.parse value) (not_a_quantity value) >>= λ a.
      or_fail (q.mul a units) (beyond_precision name) >>= λ b. ok (q.print b)

  unfoldable pub scale_all :
      ℕ → List (String × String) → Result AggregateError (List (String × String))
  unfolding scale
  scale_all units [] = ok []
  scale_all units ((name, value) ∷ rest) = scale units name value >>= λ scaled.
      scale_all units rest >>= λ others. ok ((name, scaled) ∷ others)

  unfoldable pub demanded : ℕ → Spec → Result AggregateError Demand
  unfolding scale_all
  demanded units n = scale_all units n.requests >>= λ requests.
      scale_all units n.limits >>= λ limits.
      ok (record { resources = record n { requests = requests; limits = limits }; units = units })

  -- `Aggregate`.
  unfoldable pub aggregate : Spec → ℤ → RuntimeMode → ℤ → Result AggregateError Demand
  unfolding units_of normalize_resources demanded
  aggregate s replicas mode workers = units_of replicas mode workers >>= λ units.
      valid_resources (normalize_resources q s) >>= demanded units

  -- `ValidateCreate`, which passes the requests and limits on without a GPU request.
  unfoldable pub validate_create : Spec → ℤ → RuntimeMode → ℤ → Result AggregateError Unit
  unfolding check_shape normalize_resources
  validate_create s replicas mode workers = check_shape replicas mode workers >>= λ u.
      valid_resources (normalize_resources q (record s { gpu = none })) >>= λ n. ok tt
