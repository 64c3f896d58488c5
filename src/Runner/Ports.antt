-- ===== src/Runner/Ports.antt =====
-- The calls of the runner's ports (internal/biz/inference/runner.go), and what a step returns.
use ani_inference_service.Prelude.{List, err, Bool, Result, String, Option, none, some, ok}
use ani_inference_service.Gpu.{Snapshot}
use ani_inference_service.Operation.{OperationPhase, OperationStep, running, succeeded, complete}
use ani_inference_service.Failure.{Error}
use ani_inference_service.Runner.State.{
  Item, Reservation, Publication, PodRef, OperationContext, RuntimeObservation, ModelObservation,
}
use ani_inference_service.Runner.World.{Call, World, Exec, perform}

-- `stepResult`; its `errorMessage` is never set.
pub record StepResult : Type 0 where
  pub phase : OperationPhase
  pub step : OperationStep
  pub event : String

abbrev pub goes_on : OperationStep → String → StepResult
goes_on step event = record { phase = running; step = step; event = event }

abbrev pub completes : String → StepResult
completes event = record { phase = succeeded; step = complete; event = event }

abbrev pub error_of : {A : Type 0} → Result Error A → Option Error
error_of (ok a) = none
error_of (err e) = some e

module _ (w : World) where
  -- A call that returns only an error.
  abbrev pub call : Call → Exec Unit
  call c = perform c (λ h. w.acknowledge h c)

  abbrev pub current_operation : Item → Exec OperationContext
  current_operation i = perform (Call.current_operation i) (λ h. w.current_operation h i)

  abbrev pub load_release_pods : OperationContext → Exec (List PodRef)
  load_release_pods op = perform (Call.load_release_pods op) (λ h. w.load_release_pods h op)

  abbrev pub ensure_model : OperationContext → Exec ModelObservation
  ensure_model op = perform (Call.ensure_model op) (λ h. w.ensure_model h op)

  abbrev pub resolve_gpu : OperationContext → Exec (Option Snapshot)
  resolve_gpu op = perform (Call.resolve_gpu op) (λ h. w.resolve_gpu h op)

  abbrev pub quota_get : String → String → Exec Reservation
  quota_get tenant id = perform (Call.quota_get tenant id) (λ h. w.quota_get h tenant id)

  abbrev pub quota_reserve : Reservation → Exec Reservation
  quota_reserve r = perform (Call.quota_reserve r) (λ h. w.quota_reserve h r)

  abbrev pub confirm_withdrawn : Publication → Exec Bool
  confirm_withdrawn p = perform (Call.confirm_withdrawn p) (λ h. w.confirm_withdrawn h p)

  abbrev pub confirm_published : Publication → Exec Bool
  confirm_published p = perform (Call.confirm_published p) (λ h. w.confirm_published h p)

  abbrev pub endpoint : Publication → Exec String
  endpoint p = perform (Call.endpoint p) (λ h. w.endpoint h p)

  abbrev pub observe_runtime : OperationContext → Exec RuntimeObservation
  observe_runtime op = perform (Call.observe_runtime op) (λ h. w.observe_runtime h op)

  abbrev pub observe_absence : OperationContext → Exec RuntimeObservation
  observe_absence op = perform (Call.observe_absence op) (λ h. w.observe_absence h op)
