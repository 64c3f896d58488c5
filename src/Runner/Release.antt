-- ===== src/Runner/Release.antt =====
-- The step release_quota of `Runner.runStep` (internal/biz/inference/runner.go), and the Pod scope
-- that a managed GPU release reads.
use ani_inference_service.Prelude.{
  not, List, [], ◌∷◌, ◌||◌, true, Bool, ◌&&◌, if◌then◌else◌, str_eq, false,
}
use text.Mathlib.Text.{starts_with}
use ani_inference_service.Operation.{OperationKind, delete}
use ani_inference_service.Failure.{provider_missing, managed_gpu_release}
use ani_inference_service.Runner.State.{Reservation, OperationContext, PodRef}
use ani_inference_service.Runner.World.{Call, World, Exec, return, require, ◌>>=◌, ◌>>◌}
use ani_inference_service.Runner.Ports.{StepResult, completes, call, load_release_pods}
use ani_inference_service.Runner.Quota.{fenced, release_reservation}

-- `managedGPUReleaseScopeOperation`: the create operation is the key of the Pod scope.
abbrev pub scope_operation : OperationContext → OperationContext
scope_operation op =
    if str_eq op.managed_gpu_create_operation_id ""
    then op
    else record op { id = op.managed_gpu_create_operation_id }

abbrev pub is_delete : OperationKind → Bool
is_delete delete = true
is_delete _ = false

abbrev pub no_pods : List PodRef → Bool
no_pods [] = true
no_pods (p ∷ ps) = false

module _ (w : World) where
  -- Loads the Pod scope where the operation carries none and the store keeps it.
  unfoldable pub with_release_pods : OperationContext → Exec OperationContext
  with_release_pods op =
      if not (no_pods op.managed_gpu_release_pods && w.store_keeps_release_pods)
      then return op
      else do
        pods ← load_release_pods w (scope_operation op)
        return (record op { managed_gpu_release_pods = pods })

  unfoldable pub release_managed : OperationContext → Exec StepResult
  unfolding with_release_pods
  release_managed op = do
    require w.has_managed_gpu_release (provider_missing managed_gpu_release)
    scoped ← with_release_pods op
    call w (Call.release_managed_gpu scoped)
    return (completes "quota.governance_released")

  -- A local placeholder that never reached the quota provider is cancelled without a call of it.
  unfoldable pub cancel_pending : OperationContext → Exec StepResult
  cancel_pending op = do
    call w (Call.save_quota (fenced op op.reservation "released" ""))
    return (completes "quota.pending_cancelled")

  abbrev pub is_placeholder : Reservation → Bool
  is_placeholder r = str_eq r.state "pending" && starts_with r.reservation_id "pending-"

  unfoldable pub release_owned : OperationContext → Exec StepResult
  unfolding cancel_pending release_reservation
  release_owned op =
      if str_eq op.reservation.reservation_id ""
      then return (completes "quota.none")
      else if is_delete op.kind && is_placeholder op.reservation
      then cancel_pending op
      else if not w.has_quota
      then return (completes "quota.skipped")
      else release_reservation w op op.reservation (completes "quota.released")

  -- case StepReleaseQuota.
  unfoldable pub release_quota_step : OperationContext → Exec StepResult
  unfolding release_managed release_owned
  release_quota_step op =
      if op.managed_gpu && is_delete op.kind
      then release_managed op
      else if op.managed || op.managed_gpu
      then return (completes "quota.governance_owned")
      else release_owned op
