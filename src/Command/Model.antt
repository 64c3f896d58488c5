-- ===== src/Command/Model.antt =====
-- The inputs, errors and tests of `CommandUseCase.Command`
-- (internal/data/postgres/command_usecase.go and internal/biz/inference/command.go).
use ani_inference_service.Operation.Store.{OperationRow}
use ani_inference_service.Command.Database.{Database}
use ani_inference_service.Prelude.{
  String, Result, Bool, false, ◌==◌, str_eq, Option, guard, pos, negsuc, ok, true, ℤ, ℕ, ◌||◌, not,
}
use Prim.Native.String.{◌++◌ as ◌&◌}
use ani_inference_service.Operation.{
  create, start, update, restart, stop, delete, other_kind, withdraw_publication, reserve_quota,
  pending, OperationKind, OperationStep, OperationPhase,
}

-- The sentinels of internal/biz/inference/command.go, pgx.ErrNoRows, and the adapter's own errors.
pub data CommandError : Type 0 where
  invalid_uuid : String → CommandError
  not_found generation_conflict operation_active idempotency_conflict no_rows : CommandError
  unique_violation foreign_key_violation : CommandError
  invalid_state : String → CommandError
  managed_rejected : String → CommandError

-- `CommandInput`. The managed attachment is only tested here.
pub record CommandInput : Type 0 where
  pub tenant_id : String
  pub request_id : String
  pub actor : String
  pub service_id : String
  pub kind : OperationKind
  pub request_hash : String
  pub expected_generation : ℤ
  pub managed : Bool

-- `OperationResponse`, with the fields that are set here.
pub record OperationResponse : Type 0 where
  pub resource_id : String
  pub desired_state : String
  pub generation : ℕ
  pub operation_id : String
  pub service_id : String
  pub kind : OperationKind
  pub phase : OperationPhase
  pub step : OperationStep
  pub target_generation : ℕ
  pub error_code : String
  pub error_message : String

-- The new identifiers of a command, and its time.
pub record Draw : Type 0 where
  pub now : ℕ
  pub operation_id : String
  pub spec_id : String
  pub event_id : String

-- What the code takes from elsewhere: UUIDs in their canonical spelling, the digest that a delete
-- request had under an earlier contract, and the acceptance of a managed delete.
pub record Environment : Type 0 where
  pub parse_uuid : String → Option String
  pub legacy_hash : String → String → ℕ → String → String
  pub accept_managed_delete :
      CommandInput → Database → Result CommandError (OperationResponse × Database)

abbrev pub kind_text : OperationKind → String
kind_text create = "create"
kind_text start = "start"
kind_text update = "update"
kind_text restart = "restart"
kind_text stop = "stop"
kind_text delete = "delete"
kind_text (other_kind s) = s

abbrev pub is_delete : OperationKind → Bool
is_delete delete = true
is_delete _ = false

-- start or restart.
abbrev pub is_starting : OperationKind → Bool
is_starting start = true
is_starting restart = true
is_starting _ = false

abbrev pub is_command : OperationKind → Bool
is_command start = true
is_command stop = true
is_command restart = true
is_command delete = true
is_command _ = false

abbrev pub method_of : OperationKind → String
method_of kind = "InferenceService/" & kind_text kind

-- `validCommandState`.
unfoldable pub valid_command_state : OperationKind → String → Result CommandError Unit
valid_command_state start state =
    guard (str_eq state "stopped") (invalid_state "start requires stopped state")
valid_command_state stop state =
    guard (str_eq state "running") (invalid_state "stop requires running state")
valid_command_state restart state =
    guard (str_eq state "running" || str_eq state "stopped")
      (invalid_state "restart requires running or stopped state")
valid_command_state delete state =
    guard (not (str_eq state "deleted")) (invalid_state "service already deleted")
valid_command_state _ state = ok tt

abbrev pub desired_for : OperationKind → String → String
desired_for start state = "running"
desired_for restart state = "running"
desired_for stop state = "stopped"
desired_for delete state = "deleted"
desired_for _ state = state

abbrev pub first_step : OperationKind → OperationStep
first_step start = reserve_quota
first_step _ = withdraw_publication

-- `commandResponse`.
abbrev pub command_response :
    String → String → ℕ → OperationKind → OperationStep → OperationResponse
command_response service operation generation kind step = record {
  resource_id = service;
  desired_state = desired_for kind "";
  generation = generation;
  operation_id = operation;
  service_id = service;
  kind = kind;
  phase = pending;
  step = step;
  target_generation = generation;
  error_code = "";
  error_message = "";
}

-- `commandResponseFromRow`.
abbrev pub command_response_from_row : OperationRow → OperationResponse
command_response_from_row o = record {
  resource_id = o.service_id;
  desired_state = "";
  generation = o.target_generation;
  operation_id = o.id;
  service_id = o.service_id;
  kind = o.kind;
  phase = o.phase;
  step = o.step;
  target_generation = o.target_generation;
  error_code = o.error_code;
  error_message = o.error_message;
}

-- The generation that the command names, if it has to name one.
abbrev pub at_expected : OperationKind → ℤ → ℕ → Bool
at_expected delete expected generation = true
at_expected _ (pos n) generation = generation == n
at_expected _ (negsuc n) generation = false
