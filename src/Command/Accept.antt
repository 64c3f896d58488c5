-- ===== src/Command/Accept.antt =====
-- `CommandUseCase.Command` (internal/data/postgres/command_usecase.go) as a transaction on the
-- database. The advisory lock only makes commands of one key wait for each other and changes no row.
-- Generations are far below 2^63, so adding one to a generation does not wrap.
use ani_inference_service.Work.Table.{find_service, Service, Tables}
use ani_inference_service.Operation.Store.{OperationRow}
use ani_inference_service.Work.Settle.{release_resource_work_lease, upsert_resource_work}
use ani_inference_service.Command.Model.{
  Environment, Draw, CommandInput, kind_text, CommandError, is_delete, method_of, first_step,
  valid_command_state, is_starting, at_expected, OperationResponse, not_found, no_rows,
  generation_conflict, desired_for, unique_violation, command_response, foreign_key_violation,
  invalid_uuid, operation_active, is_command, invalid_state, idempotency_conflict,
  command_response_from_row,
}
use ani_inference_service.Prelude.{
  ◌>>=◌, some, ℕ, ◌||◌, str_eq, leb, if◌then◌else◌, ◌∷◌, String, Bool, ltb_ℤ, [], pos, ◌+◌, or_fail,
  guard, ◌>>◌, ltb, err, ◌++◌, Result, ◌&&◌, length, ◌==◌, not, none, ok, ◌-◌, find_row, any_row,
}
use Prim.Native.String.{◌++◌ as ◌&◌}
use ani_inference_service.Operation.{pending}
use ani_inference_service.Command.Database.{
  Database, IdempotencyRow, AuditRow, transition_service, cancel_active_operation, ReservationRow,
  is_active, cloned, is_managed, is_spec, is_operation, is_request, is_active_of, is_event,
  is_closing,
}

module _ (env : Environment) (draw : Draw) (tenant service : String) (i : CommandInput) where
  -- A stored request of the same key is the same request, or a delete of the earlier contract.
  unfoldable pub is_same_request : IdempotencyRow → OperationRow → Bool
  is_same_request row op =
      str_eq row.payload_hash i.request_hash
      || (is_delete i.kind
          && is_delete op.kind
          && leb 2 op.target_generation
          && str_eq row.payload_hash
              (env.legacy_hash i.request_id i.service_id (op.target_generation - 1) i.actor))

  unfoldable pub replay :
      IdempotencyRow → Database → Result CommandError (OperationResponse × Database)
  unfolding find_row is_same_request
  replay row d = do
    op ← or_fail (find_row (is_operation tenant row.operation_id) d.operations) no_rows
    guard (is_same_request row op) idempotency_conflict
    ok (command_response_from_row op, d)

  -- The checks of the current service and of its managed resource.
  unfoldable pub admit : Database → Service → Result CommandError Service
  unfolding any_row valid_command_state
  admit d current = do
    guard
        (at_expected i.kind i.expected_generation current.desired_generation && not current.deleted)
        generation_conflict
    guard (not (any_row (is_managed tenant service) d.managed && is_delete i.kind))
        (invalid_state "managed DELETE requires a trusted Governance attachment")
    guard (not (any_row (is_closing tenant service) d.managed && is_starting i.kind))
        (invalid_state "managed resource has a closing intent")
    valid_command_state i.kind current.desired_state
    ok current

  -- The rows that are written once the operation is there. The keys of the reservation are made of
  -- the new operation's identifier, so they are new.
  abbrev pub reservation_row : ℕ → String → ReservationRow
  reservation_row target resources = record {
    tenant_id = tenant;
    service_id = service;
    operation_id = draw.operation_id;
    generation = target;
    reservation_id = "pending-" & draw.operation_id;
    requested_resources = resources;
    state = "pending";
  }

  abbrev pub idempotency_row : IdempotencyRow
  idempotency_row = record {
    tenant_id = tenant;
    method = method_of i.kind;
    idempotency_key = i.request_id;
    payload_hash = i.request_hash;
    operation_id = draw.operation_id;
  }

  abbrev pub audit_row : ℕ → AuditRow
  audit_row target = record {
    tenant_id = tenant;
    event_id = draw.event_id;
    service_id = service;
    operation_id = draw.operation_id;
    generation = target;
    event_type = "inference." & kind_text i.kind & ".accepted";
    actor = i.actor;
    request_id = i.request_id;
    -- A command sets the desired state whatever it was.
    payload = (kind_text i.kind, desired_for i.kind "");
  }

  abbrev pub operation_row : ℕ → OperationRow
  operation_row target = record {
    tenant_id = tenant;
    id = draw.operation_id;
    service_id = service;
    kind = i.kind;
    target_generation = target;
    phase = pending;
    step = first_step i.kind;
    attempt = 0;
    retry_at = none;
    completed_at = none;
    error_code = "";
    error_message = "";
    updated_at = draw.now;
  }

  -- ReleaseResourceWorkLease where an operation was cancelled, then UpsertResourceWork.
  unfoldable pub scheduled : ℕ → ℕ → Tables → Result CommandError Tables
  unfolding release_resource_work_lease upsert_resource_work
  scheduled target cancellations t =
      or_fail
        (upsert_resource_work tenant service target draw.now (
          if ltb 0 cancellations
          then (release_resource_work_lease draw.now tenant service t).0
          else t))
        foreign_key_violation

  -- The quota reservation, the idempotency key and the audit event.
  unfoldable pub recorded : ℕ → String → Database → Database
  unfolding any_row
  recorded target resources d = record d {
    reservations =
        if not (any_row (is_managed tenant service) d.managed) && is_starting i.kind
        then d.reservations ++ reservation_row target resources ∷ []
        else d.reservations;
    idempotency =
        if str_eq i.request_id ""
          || any_row (is_request tenant (method_of i.kind) i.request_id) d.idempotency
        then d.idempotency
        else d.idempotency ++ idempotency_row ∷ [];
    audits =
        if any_row (is_event tenant draw.event_id) d.audits
        then d.audits
        else d.audits ++ audit_row target ∷ [];
  }

  unfoldable pub finish :
      ℕ → String → ℕ → Database → Result CommandError (OperationResponse × Database)
  unfolding scheduled recorded
  finish target resources cancellations d = do
    tables ← scheduled target cancellations d.tables
    ok (
      command_response service draw.operation_id target i.kind (first_step i.kind),
      recorded target resources (record d { tables = tables }),
    )

  -- `InsertOperation`, under the primary key and one active operation for a service.
  unfoldable pub insert_operation : ℕ → Database → Result CommandError Database
  unfolding any_row is_active
  insert_operation target d = do
    guard
        (not (
          any_row (is_operation tenant draw.operation_id) d.operations
          || any_row (is_active_of tenant service) d.operations))
        operation_active
    ok (record d { operations = d.operations ++ operation_row target ∷ [] })

  unfoldable pub start_operation :
      Service → String → ℕ → Database → Result CommandError (OperationResponse × Database)
  unfolding transition_service insert_operation finish
  start_operation current resources cancellations d =
      let target = current.desired_generation + 1 in
      let moved =
        transition_service (desired_for i.kind current.desired_state) target draw.operation_id
          tenant service current.desired_generation d in
      guard (moved.1 == 1) generation_conflict >>= λ u.
      insert_operation target moved.0 >>= finish target resources cancellations

  -- `CloneSpecGeneration`, under the unique key of tenant, service and generation.
  unfoldable pub clone_spec : ℕ → ℕ → Database → Result CommandError Database
  unfolding any_row cloned
  clone_spec source target d = do
    guard (not (any_row (is_spec tenant service target) d.specs)) unique_violation
    guard (length (cloned draw.spec_id target tenant service source d.specs) == 1)
        (invalid_state "missing current specification")
    ok (record d { specs = d.specs ++ cloned draw.spec_id target tenant service source d.specs })

  -- The resources to reserve, read from the current specification where the command needs them.
  unfoldable pub requested_resources : ℕ → Database → Result CommandError String
  unfolding find_row
  requested_resources generation d =
      if is_starting i.kind
      then (or_fail (find_row (is_spec tenant service generation) d.specs) no_rows >>= λ spec.
          ok spec.resources)
      else ok ""

  -- A delete clones no specification.
  unfoldable pub next_spec : ℕ → Database → Result CommandError Database
  unfolding clone_spec
  next_spec generation d =
      if is_delete i.kind then ok d else clone_spec generation (generation + 1) d

  -- A delete cancels the active operation.
  unfoldable pub cancel : Database → Database × ℕ
  unfolding cancel_active_operation
  cancel d = if is_delete i.kind then cancel_active_operation draw.now tenant service d else (d, 0)

  unfoldable pub advance : Database → Service → Result CommandError (OperationResponse × Database)
  unfolding cancel requested_resources next_spec start_operation
  advance d current = requested_resources current.desired_generation (cancel d).0 >>= λ resources.
      next_spec current.desired_generation (cancel d).0
      >>= start_operation current resources (cancel d).1

  unfoldable pub accept : Database → Result CommandError (OperationResponse × Database)
  unfolding admit advance find_service
  accept d =
      or_fail (find_service tenant service d.tables.services) not_found >>= admit d >>= advance d

  -- A request of a stored key is answered by what is stored.
  unfoldable pub accept_once : Database → Result CommandError (OperationResponse × Database)
  unfolding replay accept find_row
  accept_once d =
      if str_eq i.request_id ""
      then accept d
      else (elim (find_row (is_request tenant (method_of i.kind) i.request_id) d.idempotency) [
        | none ↦ accept d
        | some row ↦ replay row d
      ])

module _ (env : Environment) (draw : Draw) (i : CommandInput) where
  unfoldable pub checked : Database → Result CommandError (OperationResponse × Database)
  unfolding accept_once
  checked d = do
    tenant ← or_fail (env.parse_uuid i.tenant_id) (invalid_uuid "tenant_id")
    service ← or_fail (env.parse_uuid i.service_id) (invalid_uuid "service_id")
    guard (is_delete i.kind || not (ltb_ℤ i.expected_generation (pos 1))) generation_conflict
    guard (is_command i.kind) (invalid_state (kind_text i.kind))
    accept_once env draw tenant service i d

  -- A transaction that fails is rolled back.
  abbrev pub settled :
      Database
      → Result CommandError (OperationResponse × Database)
      → Result CommandError OperationResponse × Database
  settled d (ok done) = (ok done.0, done.1)
  settled d (err e) = (err e, d)

  -- `Command`.
  unfoldable pub command : Database → Result CommandError OperationResponse × Database
  unfolding checked
  command d = settled d (if i.managed then env.accept_managed_delete i d else checked d)
