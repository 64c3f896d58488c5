-- ===== src/Runner/Expose.antt =====
-- The steps observe_runtime, publish and withdraw_publication of `Runner.runStep`
-- (internal/biz/inference/runner.go).
use ani_inference_service.Prelude.{String, if◌then◌else◌, not, ◌&&◌, str_eq}
use ani_inference_service.Operation.{publish, delete_runtime}
use ani_inference_service.Failure.{
  provider_missing, runtime_port, publication_port, not_ready, runtime_and_model,
  publication_withdrawal, publication_confirmation, endpoint_empty,
}
use ani_inference_service.Runner.State.{Publication, OperationContext, RuntimeObservation}
use ani_inference_service.Runner.World.{Call, World, Exec, return, require, ◌>>=◌, ◌>>◌}
use ani_inference_service.Runner.Ports.{
  StepResult, goes_on, completes, call, observe_runtime, confirm_withdrawn, confirm_published,
  endpoint,
}
use ani_inference_service.Runner.Release.{scope_operation, no_pods}

-- The publication in a state, with the fence of the running operation.
abbrev pub stamped : OperationContext → Publication → String → Publication
stamped op p state = record p {
  state = state;
  lease_token = op.lease_token;
  fence_operation_id = op.id;
}

module _ (w : World) where
  -- The observed Pods of a managed GPU runtime are kept under the create operation.
  unfoldable pub save_observed_pods : OperationContext → RuntimeObservation → Exec Unit
  save_observed_pods op seen =
      if op.managed_gpu && not (no_pods seen.release_pods) && w.store_keeps_release_pods
      then call w (Call.save_release_pods (scope_operation op) seen.release_pods)
      else return tt

  -- case StepObserveRuntime.
  unfoldable pub observe_runtime_step : OperationContext → Exec StepResult
  unfolding save_observed_pods
  observe_runtime_step op = do
    require w.has_runtime (provider_missing runtime_port)
    seen ← observe_runtime w op
    call w (Call.save_runtime op seen)
    save_observed_pods op seen
    require (seen.ready && seen.model_ready_known && seen.model_ready)
        (not_ready runtime_and_model seen.reason)
    return (goes_on publish "runtime.ready")

  -- The address of a published route, where the provider can tell it.
  unfoldable pub with_endpoint : Publication → Exec Publication
  with_endpoint p = if not w.publication_resolves_endpoints then return p else do
    url ← endpoint w p
    require (not (str_eq url "")) endpoint_empty
    return (record p { url = url })

  -- case StepPublish.
  unfoldable pub publish_step : OperationContext → Exec StepResult
  unfolding with_endpoint
  publish_step op = do
    require w.has_publication (provider_missing publication_port)
    let p = stamped op op.publication "publishing"
    call w (Call.save_publication p)
    call w (Call.publish p)
    confirmed ← confirm_published w p
    require confirmed (not_ready publication_confirmation "")
    located ← with_endpoint p
    call w (Call.save_publication (stamped op located "published"))
    return (completes "publication.published")

  -- case StepWithdrawPublication.
  unfoldable pub withdraw_publication_step : OperationContext → Exec StepResult
  withdraw_publication_step op = do
    require w.has_publication (provider_missing publication_port)
    let p = stamped op op.publication "withdrawing"
    call w (Call.save_publication p)
    call w (Call.withdraw p)
    confirmed ← confirm_withdrawn w p
    require confirmed (not_ready publication_withdrawal "")
    call w (Call.save_publication (stamped op p "withdrawn"))
    return (goes_on delete_runtime "publication.withdrawn")
