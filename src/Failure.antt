-- ===== src/Failure.antt =====
-- Go's `error` values of the runner, the work loop and the reconciler. An error of an external
-- port is a text; `errors.Is` looks through `%w` wrapping and `errors.Join`.
use ani_inference_service.Prelude.{Option, ◌||◌, Bool, none, some, false, true, String}
use ani_inference_service.Gpu.{GpuError}
use ani_inference_service.Operation.{OperationStep, OperationPhase}

-- The ports of a runner that may be left out.
pub data Provider : Type 0 where
  operation_store admission_port quota_port model_port model_observation_store : Provider
  runtime_port publication_port gpu_resolver gpu_plan_store managed_gpu_release audit_sink :
      Provider

-- What an operation waits for.
pub data Awaited : Type 0 where
  model_materialization runtime_and_model publication_withdrawal : Awaited
  runtime_deletion publication_confirmation : Awaited

pub data Error : Type 0 where
  external : String → Error
  reservation_not_found : Error
  provider_missing : Provider → Error
  not_ready : Awaited → String → Error
  stale_generation lease_lost : Error
  reservation_missing reservation_mismatch : Error
  gpu_request_missing gpu_plan_missing endpoint_empty : Error
  gpu_rejected : GpuError → Error
  unsupported_step : OperationStep → Error
  unsupported_phase : OperationPhase → Error
  wrapped : String → Error → Error
  joined : Error → Error → Error

-- `errors.Is(err, quota.ErrReservationNotFound)`.
unfoldable pub is_reservation_not_found : Error → Bool
is_reservation_not_found reservation_not_found = true
is_reservation_not_found (wrapped s e) = is_reservation_not_found e
is_reservation_not_found (joined a b) = is_reservation_not_found a || is_reservation_not_found b
is_reservation_not_found _ = false

-- `errors.Join(cause, second)` where `second` may be nil.
unfoldable pub join : Error → Option Error → Error
join cause none = cause
join cause (some second) = joined cause second

-- `errors.Is(err, work.ErrStaleGeneration)`.
unfoldable pub is_stale : Error → Bool
is_stale stale_generation = true
is_stale (wrapped s e) = is_stale e
is_stale (joined a b) = is_stale a || is_stale b
is_stale _ = false
