-- ===== src/Runner/State.antt =====
-- The records of internal/biz/inference/runner.go and of the packages whose values it passes on:
-- quota reservations, publications, work items, observations, step transitions, audit events.
use ani_inference_service.Prelude.{List, ℤ, Option, String, Bool, ℕ}
use ani_inference_service.Gpu.{GpuRequest, Snapshot, RuntimeMode}
use ani_inference_service.Resources.{Spec, Demand}
use ani_inference_service.Operation.{OperationKind, OperationPhase, OperationStep}
use ani_inference_service.Failure.{Error}

-- `work.Item`.
pub record Item : Type 0 where
  pub tenant_id : String
  pub service_id : String
  pub generation : ℕ
  pub dirty_version : ℕ
  pub lease_token : String

-- `work.Result`.
pub record WorkResult : Type 0 where
  pub generation : ℕ

-- `quota.Reservation`.
pub record Reservation : Type 0 where
  pub tenant_id : String
  pub service_id : String
  pub operation_id : String
  pub generation : String
  pub reservation_id : String
  pub lease_token : String
  pub fence_operation_id : String
  pub requested_resources : Spec
  pub demand : Demand
  pub state : String
  pub last_error_code : String

-- `publication.Publication`.
pub record Publication : Type 0 where
  pub tenant_id : String
  pub service_id : String
  pub operation_id : String
  pub generation : ℕ
  pub lease_token : String
  pub fence_operation_id : String
  pub url : String
  pub state : String

-- `gpu.PodRef`.
pub record PodRef : Type 0 where
  pub cluster_id : String
  pub namespace : String
  pub name : String
  pub uid : String
  pub container_name : String

-- `OperationContext`.
pub record OperationContext : Type 0 where
  pub tenant_id : String
  pub service_id : String
  pub id : String
  pub kind : OperationKind
  pub actor : String
  pub request_id : String
  pub lease_token : String
  pub phase : OperationPhase
  pub step : OperationStep
  pub attempt : ℕ
  pub target_generation : ℕ
  pub reservation : Reservation
  pub previous_reservation : Reservation
  pub publication : Publication
  pub gpu_request : Option GpuRequest
  pub gpu_snapshot : Option Snapshot
  pub managed : Bool
  pub managed_gpu : Bool
  pub managed_gpu_create_operation_id : String
  pub managed_gpu_release_pods : List PodRef
  pub managed_gpu_release_sealed_at : String
  pub replicas : ℤ
  pub worker_replicas : ℤ
  pub runtime_mode : RuntimeMode

-- `RuntimeObservation`: the fields that the runner reads. The others go to the store unread.
pub record RuntimeObservation : Type 0 where
  pub ready : Bool
  pub model_ready : Bool
  pub model_ready_known : Bool
  pub absent : Bool
  pub reason : String
  pub release_pods : List PodRef

-- `ModelObservation`.
pub record ModelObservation : Type 0 where
  pub ready : Bool
  pub known : Bool
  pub reason : String

-- `StepTransition`. A text that renders an error is the error, and the empty text is `none`.
pub record StepTransition : Type 0 where
  pub tenant_id : String
  pub operation_id : String
  pub kind : OperationKind
  pub lease_token : String
  pub target_generation : ℕ
  pub expected_phase : OperationPhase
  pub expected_step : OperationStep
  pub next_phase : OperationPhase
  pub next_step : OperationStep
  pub error_code : String
  pub error_message : Option Error

-- `operationState` before it is encoded as JSON.
pub record OperationState : Type 0 where
  pub phase : OperationPhase
  pub step : OperationStep
  pub message : Option Error

-- The payload of an audit event: `{step, event}` or `{step, error}`.
pub data Payload : Type 0 where
  stepped : OperationStep → String → Payload
  retried : OperationStep → Error → Payload

-- `audit.Event`, with the states and the payload before they are encoded as JSON.
pub record AuditEvent : Type 0 where
  pub tenant_id : String
  pub event_id : String
  pub service_id : String
  pub operation_id : String
  pub generation : ℕ
  pub event_type : String
  pub actor : String
  pub request_id : String
  pub before_state : OperationState
  pub after_state : OperationState
  pub payload : Payload
