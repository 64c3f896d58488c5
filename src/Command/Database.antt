-- ===== src/Command/Database.antt =====
-- The tables that a command reads and writes, and its statements of
-- internal/data/postgres/inference.sql.go and managed_gpu.sql.go. A column that no statement here
-- reads is left out; the columns of a specification that are only copied stand as one content.
use ani_inference_service.Operation.{same_phase, failed, pending, running}
use ani_inference_service.Work.Table.{Service, update_where, Tables, find_service}
use ani_inference_service.Operation.Store.{OperationRow}
use ani_inference_service.Prelude.{
  ◌∷◌, ◌==◌, [], some, false, List, ◌&&◌, String, ◌||◌, ℕ, if◌then◌else◌, Bool, str_eq, none, not,
}

-- A row of inference_specs.
pub record SpecRow : Type 0 where
  pub tenant_id : String
  pub id : String
  pub service_id : String
  pub generation : ℕ
  pub resources : String
  pub content : String

-- A row of inference_idempotency_requests.
pub record IdempotencyRow : Type 0 where
  pub tenant_id : String
  pub method : String
  pub idempotency_key : String
  pub payload_hash : String
  pub operation_id : String

-- A row of inference_managed_gpu_resources.
pub record ManagedRow : Type 0 where
  pub tenant_id : String
  pub resource_id : String
  pub closing : Bool

-- A row of inference_quota_reservations.
pub record ReservationRow : Type 0 where
  pub tenant_id : String
  pub service_id : String
  pub operation_id : String
  pub generation : ℕ
  pub reservation_id : String
  pub requested_resources : String
  pub state : String

-- A row of inference_audit_events. The payload's JSON object is the pair of its kind and its desired
-- state.
pub record AuditRow : Type 0 where
  pub tenant_id : String
  pub event_id : String
  pub service_id : String
  pub operation_id : String
  pub generation : ℕ
  pub event_type : String
  pub actor : String
  pub request_id : String
  pub payload : String × String

pub record Database : Type 0 where
  pub tables : Tables
  pub operations : List OperationRow
  pub specs : List SpecRow
  pub idempotency : List IdempotencyRow
  pub managed : List ManagedRow
  pub reservations : List ReservationRow
  pub audits : List AuditRow

-- `GetIdempotency`.
abbrev pub is_request : String → String → String → IdempotencyRow → Bool
is_request tenant method key r =
    str_eq r.tenant_id tenant && str_eq r.method method && str_eq r.idempotency_key key

-- The unique key of audit events.
abbrev pub is_event : String → String → AuditRow → Bool
is_event tenant id r = str_eq r.tenant_id tenant && str_eq r.event_id id

-- `GetOperation`.
abbrev pub is_operation : String → String → OperationRow → Bool
is_operation tenant id o = str_eq o.tenant_id tenant && str_eq o.id id

-- `GetSpec`.
abbrev pub is_spec : String → String → ℕ → SpecRow → Bool
is_spec tenant service generation r =
    str_eq r.tenant_id tenant && str_eq r.service_id service && r.generation == generation

-- `GetManagedGPUState`.
abbrev pub is_managed : String → String → ManagedRow → Bool
is_managed tenant resource r = str_eq r.tenant_id tenant && str_eq r.resource_id resource

abbrev pub is_closing : String → String → ManagedRow → Bool
is_closing tenant resource r = is_managed tenant resource r && r.closing

-- `phase IN ('pending', 'running')`.
unfoldable pub is_active : OperationRow → Bool
unfolding same_phase
is_active o = same_phase o.phase pending || same_phase o.phase running

-- An active operation of a service.
unfoldable pub is_active_of : String → String → OperationRow → Bool
unfolding is_active
is_active_of tenant service o =
    str_eq o.tenant_id tenant && str_eq o.service_id service && is_active o

-- `CancelActiveOperation`: the operation of the service that is current, active, and whose service is
-- not deleted.
unfoldable pub is_cancellable : String → String → List Service → OperationRow → Bool
unfolding is_active_of
is_cancellable tenant service services o =
    is_active_of tenant service o && (elim (find_service o.tenant_id o.service_id services) [
      | none ↦ false
      | some s ↦ str_eq s.current_operation_id o.id && not s.deleted
    ])

unfoldable pub cancelled : ℕ → OperationRow → OperationRow
cancelled now o = record o {
  phase = failed;
  error_code = "cancelled_by_delete";
  error_message = "cancelled by delete request";
  retry_at = none;
  completed_at = some now;
  updated_at = now;
}

unfoldable pub cancel_active_operation : ℕ → String → String → Database → Database × ℕ
unfolding update_where is_cancellable cancelled
cancel_active_operation now tenant service d =
    let done =
      update_where (is_cancellable tenant service d.tables.services) (cancelled now) d.operations in
    (record d { operations = done.0 }, done.1)

-- `TransitionService`.
unfoldable pub may_transition : String → String → ℕ → Service → Bool
may_transition tenant id expected s =
    str_eq s.tenant_id tenant && str_eq s.id id && s.desired_generation == expected && not s.deleted

abbrev pub transitioned : String → ℕ → String → Service → Service
transitioned state generation operation s = record s {
  desired_state = state;
  desired_generation = generation;
  current_operation_id = operation;
}

unfoldable pub transition_service :
    String → ℕ → String → String → String → ℕ → Database → Database × ℕ
unfolding update_where may_transition
transition_service state generation operation tenant id expected d =
    let done =
      update_where (may_transition tenant id expected) (transitioned state generation operation)
        d.tables.services in
    (record d { tables = record d.tables { services = done.0 } }, done.1)

-- `CloneSpecGeneration`: the copies of the rows of one generation.
unfoldable pub cloned : String → ℕ → String → String → ℕ → List SpecRow → List SpecRow
cloned id target tenant service source [] = []
cloned id target tenant service source (r ∷ rs) =
    let rest = cloned id target tenant service source rs in
    if is_spec tenant service source r
    then record r { id = id; generation = target } ∷ rest
    else rest
