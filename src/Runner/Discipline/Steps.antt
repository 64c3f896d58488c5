-- ===== src/Runner/Discipline/Steps.antt =====
-- The other steps of internal/biz/inference/runner.go keep the order of calls.
use ani_inference_service.Operation.{OperationStep}
use ani_inference_service.Runner.Ports.{goes_on}
use ani_inference_service.Failure.{not_ready, runtime_deletion, runtime_and_model}
use ani_inference_service.Runner.Discipline.{Orderly, orderly_rules, pair-Orderly}
use ani_inference_service.Runner.Inversion.{Keeps, bind-Keeps, require-Keeps}
use ani_inference_service.Gpu.{GpuRequest, Snapshot}
use ani_inference_service.Runner.Teardown.{
  delete_cr_step, delete_runtime_step, seal_scope, observe_absence_step, load_scope, after_absence,
}
use ani_inference_service.Runner.Expose.{
  withdraw_publication_step, publish_step, save_observed_pods, observe_runtime_step,
}
use ani_inference_service.Runner.Provision.{
  materialize_model_step, apply_cr_step, resolve_requested, apply_runtime_step, resolve_gpu_step,
  resolve_by_request, admission_step,
}
use ani_inference_service.Runner.State.{OperationContext, RuntimeObservation}
use ani_inference_service.Prelude.{arith, some, none, Option, inr, ◌&&◌, inl, refl}
use ani_inference_service.Runner.World.{World, ◌>>=◌, ◌>>◌, return, require}

module _ (w : World) (op : OperationContext) where
  pub withdraw_publication_step-Orderly : Keeps (Orderly w) (withdraw_publication_step w op)
  unfolding withdraw_publication_step ◌>>=◌
  withdraw_publication_step-Orderly = record { kept = λ h i. ground arith }

  pub publish_step-Orderly : Keeps (Orderly w) (publish_step w op)
  unfolding publish_step ◌>>=◌
  publish_step-Orderly = record { kept = λ h i. ground arith }

  pub delete_cr_step-Orderly : Keeps (Orderly w) (delete_cr_step w op)
  unfolding delete_cr_step ◌>>=◌
  delete_cr_step-Orderly = record { kept = λ h i. ground arith }

  pub materialize_model_step-Orderly : Keeps (Orderly w) (materialize_model_step w op)
  unfolding materialize_model_step ◌>>=◌
  materialize_model_step-Orderly = record { kept = λ h i. ground arith }

  pub admission_step-Orderly : Keeps (Orderly w) (admission_step w op)
  unfolding admission_step
  admission_step-Orderly = search orderly_rules

  pub apply_cr_step-Orderly : Keeps (Orderly w) (apply_cr_step w op)
  unfolding apply_cr_step
  apply_cr_step-Orderly = search orderly_rules

  pub apply_runtime_step-Orderly : Keeps (Orderly w) (apply_runtime_step w op)
  unfolding apply_runtime_step
  apply_runtime_step-Orderly = search orderly_rules

  pub delete_runtime_step-Orderly : Keeps (Orderly w) (delete_runtime_step w op)
  unfolding delete_runtime_step
  delete_runtime_step-Orderly = search orderly_rules

  resolve_requested-Orderly :
      (r : GpuRequest) (s : Option Snapshot) → Keeps (Orderly w) (resolve_requested w op r s)
  unfolding resolve_requested
  resolve_requested-Orderly r none = search orderly_rules depth 12
  resolve_requested-Orderly r (some s) = search orderly_rules

  resolve_by_request-Orderly :
      (r : Option GpuRequest) → Keeps (Orderly w) (resolve_by_request w op r)
  unfolding resolve_by_request
  resolve_by_request-Orderly none = search orderly_rules
  resolve_by_request-Orderly (some r) = search (orderly_rules, resolve_requested-Orderly)

  pub resolve_gpu_step-Orderly : Keeps (Orderly w) (resolve_gpu_step w op)
  unfolding resolve_gpu_step
  resolve_gpu_step-Orderly = resolve_by_request-Orderly op.gpu_request

  observed_tail-Orderly :
      (seen : RuntimeObservation)
      → Keeps (Orderly w) (
          save_observed_pods w op seen
          >> (require
                (seen.ready && seen.model_ready_known && seen.model_ready)
                (not_ready runtime_and_model seen.reason)
              >> return (goes_on OperationStep.publish "runtime.ready")))
  unfolding save_observed_pods
  observed_tail-Orderly seen = search orderly_rules depth 12

  pub observe_runtime_step-Orderly : Keeps (Orderly w) (observe_runtime_step w op)
  unfolding observe_runtime_step save_observed_pods
  observe_runtime_step-Orderly =
      bind-Keeps _ _ (require-Keeps _ _)
        λ _. pair-Orderly w _ _ _ _ _ (λ h. tt) (λ seen h e. inl (refl, e)) observed_tail-Orderly

  absent_tail-Orderly :
      (seen : RuntimeObservation)
      → Keeps (Orderly w) (
          seal_scope w op seen >>= λ sealed. load_scope w sealed >>= λ scoped.
          require seen.absent (not_ready runtime_deletion seen.reason)
          >> return (goes_on (after_absence op.kind) "runtime.absent"))
  unfolding seal_scope load_scope
  absent_tail-Orderly seen = search orderly_rules depth 12

  pub observe_absence_step-Orderly : Keeps (Orderly w) (observe_absence_step w op)
  unfolding observe_absence_step seal_scope load_scope
  observe_absence_step-Orderly =
      bind-Keeps _ _ (require-Keeps _ _)
        λ _. pair-Orderly w _ _ _ _ _ (λ h. tt) (λ seen h e. inr (refl, e)) absent_tail-Orderly
