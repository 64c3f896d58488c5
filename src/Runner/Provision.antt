-- ===== src/Runner/Provision.antt =====
-- The steps admission, resolve_gpu, apply_cr, materialize_model and apply_runtime of
-- `Runner.runStep` (internal/biz/inference/runner.go). The metrics that the source records beside
-- materialize_model change no state of the program and are left out.
use ani_inference_service.Prelude.{
  if◌then◌else◌, err, not, Result, ◌&&◌, some, Option, ok, none, String,
}
use ani_inference_service.Gpu.{
  GpuRequest, Snapshot, GpuError, invalid_snapshot, validate_topology, validate_snapshot,
}
use ani_inference_service.Operation.{
  reserve_quota, apply_cr, materialize_model, apply_runtime, observe_runtime,
}
use ani_inference_service.Failure.{
  Error, provider_missing, admission_port, model_port, model_observation_store, runtime_port,
  gpu_resolver, gpu_plan_store, gpu_request_missing, gpu_plan_missing, gpu_rejected, not_ready,
  model_materialization, wrapped,
}
use ani_inference_service.Runner.State.{OperationContext}
use ani_inference_service.Runner.World.{Call, World, Exec, return, fail, lift, require, ◌>>=◌, ◌>>◌}
use ani_inference_service.Runner.Ports.{StepResult, goes_on, call, ensure_model, resolve_gpu}

-- `fmt.Errorf("context: %w", err)` around an error of the GPU package.
abbrev pub as_gpu_error : {A : Type 0} → String → Result GpuError A → Result Error A
as_gpu_error context (ok a) = ok a
as_gpu_error context (err e) = err (wrapped context (gpu_rejected e))

-- The topology of the operation, checked against its GPU request.
abbrev pub topology_of : OperationContext → GpuRequest → Result Error Unit
topology_of op r =
    as_gpu_error "validate GPU request"
      (validate_topology r op.replicas op.runtime_mode op.worker_replicas)

-- `ValidateSnapshot` on a pointer that may be nil.
abbrev pub plan_of : String → Option Snapshot → GpuRequest → Result Error Snapshot
plan_of context none r = err (wrapped context (gpu_rejected invalid_snapshot))
plan_of context (some s) r = as_gpu_error context (validate_snapshot s r)

module _ (w : World) where
  -- case StepAdmission.
  unfoldable pub admission_step : OperationContext → Exec StepResult
  admission_step op = do
    require w.has_admission (provider_missing admission_port)
    call w (Call.admit op)
    return (goes_on reserve_quota "admission.accepted")

  unfoldable pub resolve_new : OperationContext → GpuRequest → Exec StepResult
  resolve_new op r = do
    require (not op.managed_gpu) gpu_plan_missing
    require w.has_gpu (provider_missing gpu_resolver)
    require w.store_keeps_gpu_snapshots (provider_missing gpu_plan_store)
    resolved ← resolve_gpu w op
    lift (topology_of op r)
    plan ← lift (plan_of "validate resolved GPU plan" resolved r)
    call w (Call.save_gpu_snapshot op plan)
    return (goes_on apply_cr "gpu.resolved")

  unfoldable pub resolve_requested :
      OperationContext → GpuRequest → Option Snapshot → Exec StepResult
  unfolding resolve_new
  resolve_requested op r none = resolve_new op r
  resolve_requested op r (some s) = do
    checked ← lift (plan_of "validate persisted GPU plan" (some s) r)
    return (goes_on apply_cr "gpu.reused")

  unfoldable pub resolve_by_request : OperationContext → Option GpuRequest → Exec StepResult
  unfolding resolve_requested
  resolve_by_request op none =
      if op.managed_gpu then fail gpu_request_missing else return (goes_on apply_cr "gpu.skipped")
  resolve_by_request op (some r) = do
    lift (topology_of op r)
    resolve_requested op r op.gpu_snapshot

  -- case StepResolveGPU.
  unfoldable pub resolve_gpu_step : OperationContext → Exec StepResult
  unfolding resolve_by_request
  resolve_gpu_step op = resolve_by_request op op.gpu_request

  -- case StepApplyCR.
  unfoldable pub apply_cr_step : OperationContext → Exec StepResult
  apply_cr_step op = do
    require w.has_runtime (provider_missing runtime_port)
    call w (Call.apply_cr op)
    return (goes_on materialize_model "cr.applied")

  -- case StepMaterializeModel.
  unfoldable pub materialize_model_step : OperationContext → Exec StepResult
  materialize_model_step op = do
    require w.has_model (provider_missing model_port)
    require w.store_keeps_models (provider_missing model_observation_store)
    call w (Call.mark_materializing op)
    observed ← ensure_model w op
    require (observed.known && observed.ready) (not_ready model_materialization observed.reason)
    call w (Call.save_model op observed)
    return (goes_on apply_runtime "model.materialized")

  -- case StepApplyRuntime.
  unfoldable pub apply_runtime_step : OperationContext → Exec StepResult
  apply_runtime_step op = do
    require w.has_runtime (provider_missing runtime_port)
    call w (Call.apply_runtime op)
    return (goes_on observe_runtime "runtime.apply_requested")
