-- ===== src/Operation/Audited.antt =====
-- `stepWithAudit` of internal/data/postgres/operation_store.go: a step of an operation and its audit
-- event in one transaction, with the statements of inference.sql.go. The foreign keys of the event
-- hold, as its operation was just read and the operation's service was joined with.
use ani_inference_service.Command.Model.{is_delete}
use ani_inference_service.Command.Database.{is_operation}
use ani_inference_service.Operation.Store.{
  may_advance, OperationStepInput, StoreError, transition_error, OperationRow, cas_failed,
  may_reschedule, parsed, generation_not_positive, rescheduled, audit_service_mismatch, advanced,
  operation_missing, audit_identity_mismatch,
}
use ani_inference_service.Work.Table.{Tables, update_where, Service}
use ani_inference_service.Prelude.{
  any_row, List, ℕ, Bool, if◌then◌else◌, leb, str_eq, guard, ◌∷◌, String, [], Option, ◌>>=◌, ◌>>◌,
  true, ◌&&◌, Result, err, ◌==◌, not, ok, or_fail, ◌++◌, find_row,
}
use ani_inference_service.Operation.{succeeded, same_phase, validate_transition}

-- `audit.Event` of internal/biz/audit/audit.go, and a row of inference_audit_events.
pub record AuditedEvent : Type 0 where
  pub tenant_id : String
  pub event_id : String
  pub service_id : String
  pub operation_id : String
  pub generation : ℕ
  pub event_type : String
  pub actor : String
  pub request_id : String
  pub before_state : String
  pub after_state : String
  pub payload : String

pub record Journal : Type 0 where
  pub tables : Tables
  pub operations : List OperationRow
  pub events : List AuditedEvent

-- The unique key of audit events.
abbrev pub is_recorded : String → String → AuditedEvent → Bool
is_recorded tenant id e = str_eq e.tenant_id tenant && str_eq e.event_id id

-- `jsonOrEmpty` with an empty object.
unfoldable pub json_or_empty : String → String
json_or_empty v = if str_eq v "" then "{}" else v

-- `MarkServiceDeleted`.
unfoldable pub may_delete : String → String → String → ℕ → Service → Bool
may_delete tenant id operation generation s =
    str_eq s.tenant_id tenant
    && str_eq s.id id
    && str_eq s.current_operation_id operation
    && str_eq s.desired_state "deleted"
    && s.desired_generation == generation

abbrev pub mark_deleted : Service → Service
mark_deleted s = record s { deleted = true }

-- The event is about the operation that the input names, at its generation.
unfoldable pub is_identity_of : OperationStepInput → AuditedEvent → Bool
is_identity_of i e =
    str_eq e.tenant_id i.tenant_id
    && str_eq e.operation_id i.operation_id
    && e.generation == i.target_generation

unfoldable pub event_row : String → String → String → String → AuditedEvent → AuditedEvent
unfolding json_or_empty
event_row tenant service operation id e = record e {
  tenant_id = tenant;
  service_id = service;
  operation_id = operation;
  event_id = id;
  payload = json_or_empty e.payload;
}

-- `AppendAuditEvent`: an event that is there already stays as it is.
unfoldable pub append_row : AuditedEvent → List AuditedEvent → List AuditedEvent
unfolding any_row
append_row row events =
    if any_row (is_recorded row.tenant_id row.event_id) events then events else events ++ row ∷ []

module _ (parse_uuid : String → Option String) where
  -- A retry needs no transition.
  abbrev pub check_move : Bool → OperationStepInput → Result StoreError Unit
  check_move retries i =
      if retries
      then ok tt
      else transition_error parse_uuid
          (validate_transition i.kind i.expected_phase i.expected_step i.next_phase i.next_step)

  -- What is tested before the transaction begins.
  unfoldable pub check_audited :
      Bool → OperationStepInput → AuditedEvent → Result StoreError OperationStepInput
  unfolding is_identity_of
  check_audited retries i e = do
    tenant ← parsed parse_uuid "tenant_id" i.tenant_id
    operation ← parsed parse_uuid "operation_id" i.operation_id
    lease ← parsed parse_uuid "lease_token" i.lease_token
    guard (leb 1 i.target_generation) generation_not_positive
    guard (is_identity_of i e) audit_identity_mismatch
    check_move retries i
    ok (record i { tenant_id = tenant; operation_id = operation; lease_token = lease })

  -- The event is appended with its identifiers parsed.
  unfoldable pub append_event :
      AuditedEvent → List AuditedEvent → Result StoreError (List AuditedEvent)
  unfolding append_row event_row
  append_event e events = do
    tenant ← parsed parse_uuid "tenant_id" e.tenant_id
    service ← parsed parse_uuid "service_id" e.service_id
    operation ← parsed parse_uuid "operation_id" e.operation_id
    id ← parsed parse_uuid "event_id" e.event_id
    ok (append_row (event_row tenant service operation id e) events)

-- The statement of a step: `RetryOperationStepCAS` or `AdvanceOperationStepCAS`.
unfoldable pub may_step : Bool → ℕ → Tables → OperationStepInput → OperationRow → Bool
unfolding may_advance may_reschedule
may_step retries now t i o = if retries then may_reschedule now t i o else may_advance now t i o

abbrev pub stepped : Bool → ℕ → ℕ → OperationStepInput → OperationRow → OperationRow
stepped retries delay now i o = if retries then rescheduled delay now i o else advanced now i o

-- A delete that has succeeded deletes its service.
abbrev pub finishes_delete : Bool → OperationStepInput → Bool
finishes_delete retries i = not retries && is_delete i.kind && same_phase i.next_phase succeeded

unfoldable pub delete_service :
    Bool → OperationStepInput → OperationRow → Tables → Result StoreError Tables
unfolding update_where may_delete
delete_service retries i current t =
    let marked =
      update_where (may_delete i.tenant_id current.service_id i.operation_id i.target_generation)
        mark_deleted t.services in
    if finishes_delete retries i
    then (guard (marked.1 == 1) cas_failed >> ok (record t { services = marked.0 }))
    else ok t

module _ (parse_uuid : String → Option String) (retries : Bool) (delay now : ℕ)
    (e : AuditedEvent) where
  -- What follows the step in the transaction, for the operation as it is now.
  unfoldable pub record_step :
      OperationStepInput → Journal → OperationRow → Result StoreError Journal
  unfolding delete_service append_event
  record_step i d current = do
    guard (str_eq current.service_id e.service_id) audit_service_mismatch
    tables ← delete_service retries i current d.tables
    events ← append_event parse_uuid e d.events
    ok (record d { tables = tables; events = events })

  unfoldable pub step_and_record : Journal → OperationStepInput → Result StoreError Journal
  unfolding update_where may_step find_row record_step
  step_and_record d i =
      let done =
        update_where (may_step retries now d.tables i) (stepped retries delay now i) d.operations in
      guard (done.1 == 1) cas_failed >>= λ u.
      or_fail (find_row (is_operation i.tenant_id i.operation_id) done.0) operation_missing
      >>= record_step i (record d { operations = done.0 })

  -- A transaction that fails is rolled back.
  abbrev pub audited_result : Journal → Result StoreError Journal → Result StoreError Unit × Journal
  audited_result d (ok d') = (ok tt, d')
  audited_result d (err x) = (err x, d)

  -- `AdvanceOperationStepCASWithAudit`, or `RetryOperationStepCASWithAudit` where it retries.
  unfoldable pub step_with_audit : OperationStepInput → Journal → Result StoreError Unit × Journal
  unfolding check_audited step_and_record
  step_with_audit i d =
      audited_result d (check_audited parse_uuid retries i e >>= step_and_record d)
