-- ===== src/Runner/Teardown.antt =====
-- The steps delete_runtime, observe_absence and delete_cr of `Runner.runStep`
-- (internal/biz/inference/runner.go).
use ani_inference_service.Prelude.{if◌then◌else◌, not, ◌||◌, ◌&&◌, str_eq}
use ani_inference_service.Operation.{
  OperationKind, update, restart, stop, delete, OperationStep, observe_absence,
  release_previous_quota, reserve_quota, release_quota, delete_cr,
}
use ani_inference_service.Failure.{
  provider_missing, runtime_port, model_port, not_ready, runtime_deletion,
}
use ani_inference_service.Runner.State.{OperationContext, RuntimeObservation}
use ani_inference_service.Runner.World.{Call, gets, World, Exec, return, require, ◌>>=◌, ◌>>◌}
use ani_inference_service.Runner.Ports.{StepResult, goes_on, call}
use ani_inference_service.Runner.Ports
use ani_inference_service.Runner.Release.{scope_operation, no_pods, with_release_pods}

-- The step after the runtime's absence.
unfoldable pub after_absence : OperationKind → OperationStep
after_absence update = release_previous_quota
after_absence restart = release_previous_quota
after_absence stop = release_quota
after_absence delete = delete_cr
after_absence _ = reserve_quota

module _ (w : World) where
  -- The moment of absence is fixed once.
  unfoldable pub seal : OperationContext → RuntimeObservation → Exec OperationContext
  seal op seen =
      if not (seen.absent && str_eq op.managed_gpu_release_sealed_at "")
      then return op
      else do now ← gets w.now; return (record op { managed_gpu_release_sealed_at = now })

  -- The Pods and the moment of absence of a managed GPU runtime are kept.
  unfoldable pub seal_scope : OperationContext → RuntimeObservation → Exec OperationContext
  unfolding seal
  seal_scope op seen =
      if not (
        op.managed_gpu
        && (not (no_pods seen.release_pods) || seen.absent)
        && w.store_keeps_release_pods)
      then return op
      else do
        sealed ← seal op seen
        call w (Call.save_release_pods (scope_operation sealed) seen.release_pods)
        return sealed

  unfoldable pub load_scope : OperationContext → Exec OperationContext
  unfolding with_release_pods
  load_scope op = if op.managed_gpu then with_release_pods w op else return op

  -- case StepDeleteRuntime.
  unfoldable pub delete_runtime_step : OperationContext → Exec StepResult
  delete_runtime_step op = do
    require w.has_runtime (provider_missing runtime_port)
    call w (Call.delete_runtime op)
    return (goes_on observe_absence "runtime.delete_requested")

  -- case StepObserveAbsence.
  unfoldable pub observe_absence_step : OperationContext → Exec StepResult
  unfolding seal_scope load_scope after_absence
  observe_absence_step op = do
    require w.has_runtime (provider_missing runtime_port)
    seen ← Ports.observe_absence w op
    call w (Call.save_runtime op seen)
    sealed ← seal_scope op seen
    scoped ← load_scope sealed
    require seen.absent (not_ready runtime_deletion seen.reason)
    return (goes_on (after_absence op.kind) "runtime.absent")

  -- case StepDeleteCR.
  unfoldable pub delete_cr_step : OperationContext → Exec StepResult
  delete_cr_step op = do
    require w.has_runtime (provider_missing runtime_port)
    require w.has_model (provider_missing model_port)
    call w (Call.delete_cr op)
    call w (Call.cleanup_model op)
    return (goes_on release_quota "cr.deleted")
