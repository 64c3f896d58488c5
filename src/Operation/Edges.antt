-- ===== src/Operation/Edges.antt =====
-- The transition diagram of internal/biz/inference/operation.go, without its lists: which step
-- follows which for each kind of operation, and which changes of phase are allowed.
use ani_inference_service.Operation.{
  OperationKind, create, start, update, restart, stop, delete, OperationStep, admission,
  reserve_quota, resolve_gpu, apply_cr, materialize_model, apply_runtime, observe_runtime,
  withdraw_publication, delete_runtime, observe_absence, delete_cr, publish, release_quota,
  release_previous_quota, complete, OperationPhase, pending, running, succeeded, failed,
}

-- Kinds that end with a running, published generation.
pub data Deploys : OperationKind → Type 0 where
  deploys_create : Deploys create
  deploys_start : Deploys start
  deploys_update : Deploys update
  deploys_restart : Deploys restart

-- Kinds that replace a generation that may still run.
pub data Replaces : OperationKind → Type 0 where
  replaces_update : Replaces update
  replaces_restart : Replaces restart

-- Kinds that take a running generation down first.
pub data TearsDown : OperationKind → Type 0 where
  tears_replaced : {k : OperationKind} → Replaces k → TearsDown k
  tears_stop : TearsDown stop
  tears_delete : TearsDown delete

-- The step after a finished step. The last step of a kind has none.
pub data Next : OperationKind → OperationStep → OperationStep → Type 0 where
  admitted : Next create admission reserve_quota
  quota_reserved : {k : OperationKind} → Deploys k → Next k reserve_quota resolve_gpu
  gpu_resolved : {k : OperationKind} → Deploys k → Next k resolve_gpu apply_cr
  cr_applied : {k : OperationKind} → Deploys k → Next k apply_cr materialize_model
  model_ready : {k : OperationKind} → Deploys k → Next k materialize_model apply_runtime
  runtime_applied : {k : OperationKind} → Deploys k → Next k apply_runtime observe_runtime
  runtime_ready : {k : OperationKind} → Deploys k → Next k observe_runtime publish
  withdrawn : {k : OperationKind} → TearsDown k → Next k withdraw_publication delete_runtime
  deleted : {k : OperationKind} → TearsDown k → Next k delete_runtime observe_absence
  absent_replaced : {k : OperationKind} → Replaces k → Next k observe_absence release_previous_quota
  previous_released : {k : OperationKind} → Replaces k → Next k release_previous_quota reserve_quota
  absent_stopped : Next stop observe_absence release_quota
  absent_deleted : Next delete observe_absence delete_cr
  cr_deleted : Next delete delete_cr release_quota

-- The step whose success completes the operation.
pub data Last : OperationKind → OperationStep → Type 0 where
  last_publish : {k : OperationKind} → Deploys k → Last k publish
  last_stop : Last stop release_quota
  last_delete : Last delete release_quota

-- A step at which an operation of the kind can stand while it is active.
pub data Active (k : OperationKind) (s : OperationStep) : Type 0 where
  before : (t : OperationStep) → Next k s t → Active k s
  at_end : Last k s → Active k s

-- Every change of phase and step that may be persisted.
pub data Edge (k : OperationKind)
    : OperationPhase → OperationStep → OperationPhase → OperationStep → Type 0 where
  claim : {s : OperationStep} → Active k s → Edge k pending s running s
  advance : {s t : OperationStep} → Next k s t → Edge k running s running t
  around_gpu : Deploys k → Edge k running reserve_quota running apply_cr
  finish : {s : OperationStep} → Last k s → Edge k running s succeeded complete
  fail_pending : {s : OperationStep} → Active k s → Edge k pending s failed complete
  fail_running : {s : OperationStep} → Active k s → Edge k running s failed complete
