-- ===== src/Command/Promise.antt =====
-- What a lifecycle command of internal/data/postgres/command_usecase.go asks for, written down
-- without its code: the states that it goes between, the new operation and the answer.
use ani_inference_service.Command.Accept.{operation_row, idempotency_row}
use ani_inference_service.Command.Accepted.{moved_service}
use ani_inference_service.Operation.Store.{OperationRow}
use ani_inference_service.Command.Database.{Database, is_operation, is_request, IdempotencyRow}
use ani_inference_service.Work.Table.{Service, find_service}
use ani_inference_service.Operation.{
  OperationKind, OperationStep, delete, start, reserve_quota, withdraw_publication, stop, restart,
  pending,
}
use ani_inference_service.Command.Model.{
  Environment, valid_command_state, at_expected, is_command, Draw, CommandInput, desired_for,
  first_step, OperationResponse, command_response_from_row, method_of,
}
use ani_inference_service.Prelude.{
  negsuc, ℤ, ◌≡◌, eq_iff, guard-eq-ok, arith, true, String, pos, str_eq, ℕ, subst, ok, sym,
  find_row, Bool, refl, ◌||◌, false, ap, none, ◌+◌, some,
}
use ani_inference_service.Command.Outcome.{Accepted}
use ani_inference_service.Operation.{create, update, other_kind}

-- The desired state that a command needs, the one that it sets, and the step that it begins at.
pub data Goal : OperationKind → String → String → OperationStep → Type 0 where
  starts : Goal start "stopped" "running" reserve_quota
  stops : Goal stop "running" "stopped" withdraw_publication
  restarts : Goal restart "running" "running" withdraw_publication
  restarts_stopped : Goal restart "stopped" "running" withdraw_publication
  deletes :
      (state : String) → ¬ (state ≡ "deleted") → Goal delete state "deleted" withdraw_publication

-- A delete is for any generation, and another command for the one that it names.
pub data Aimed : OperationKind → ℤ → ℕ → Type 0 where
  anywhere : (expected : ℤ) (generation : ℕ) → Aimed delete expected generation
  exactly : (kind : OperationKind) (generation : ℕ) → Aimed kind (pos generation) generation

str_eq-eq : (s t : String) → str_eq s t ≡ true → s ≡ t
str_eq-eq s t h = ground (arith, eq_iff s t, h)

is_exact-Aimed :
    (kind : OperationKind) (expected : ℤ) (generation : ℕ)
    → at_expected start expected generation ≡ true
    → Aimed kind expected generation
is_exact-Aimed kind (pos n) generation h =
    subst (λ m. Aimed kind (pos m) generation) (ground (arith, h)) (exactly kind generation)
is_exact-Aimed kind (negsuc n) generation h = cc

at_expected-Aimed :
    (kind : OperationKind) (expected : ℤ) (generation : ℕ)
    → at_expected kind expected generation ≡ true
    → Aimed kind expected generation
at_expected-Aimed delete expected generation h = anywhere expected generation
at_expected-Aimed start expected generation h = is_exact-Aimed start expected generation h
at_expected-Aimed stop expected generation h = is_exact-Aimed stop expected generation h
at_expected-Aimed restart expected generation h = is_exact-Aimed restart expected generation h
at_expected-Aimed create expected generation h = is_exact-Aimed create expected generation h
at_expected-Aimed update expected generation h = is_exact-Aimed update expected generation h
at_expected-Aimed (other_kind s) expected generation h =
    is_exact-Aimed (other_kind s) expected generation h

valid_command_state-Goal :
    (kind : OperationKind) (state : String)
    → is_command kind ≡ true
    → valid_command_state kind state ≡ ok tt
    → Goal kind state (desired_for kind state) (first_step kind)
unfolding valid_command_state
valid_command_state-Goal start state h e =
    subst (λ s. Goal start s "running" reserve_quota)
      (sym (str_eq-eq state "stopped" (guard-eq-ok _ _ e))) starts
valid_command_state-Goal stop state h e =
    subst (λ s. Goal stop s "stopped" withdraw_publication)
      (sym (str_eq-eq state "running" (guard-eq-ok _ _ e))) stops
valid_command_state-Goal restart state h e =
    by_state (str_eq state "running") refl (guard-eq-ok _ _ e)
  where
    by_state :
        (b : Bool)
        → str_eq state "running" ≡ b
        → (b || str_eq state "stopped") ≡ true
        → Goal restart state "running" withdraw_publication
    by_state true runs any =
        subst (λ s. Goal restart s "running" withdraw_publication)
          (sym (str_eq-eq state "running" runs)) restarts
    by_state false runs any =
        subst (λ s. Goal restart s "running" withdraw_publication)
          (sym (str_eq-eq state "stopped" any)) restarts_stopped
valid_command_state-Goal delete state h e =
    deletes state (λ same. absurd (ground (arith, eq_iff state "deleted", same, guard-eq-ok _ _ e)))
valid_command_state-Goal create state h e = cc
valid_command_state-Goal update state h e = cc
valid_command_state-Goal (other_kind s) state h e = cc

-- The answer is about the operation.
pub record Tells (answer : OperationResponse) (operation : OperationRow) : Type 0 where
  pub same_operation : answer.operation_id ≡ operation.id
  pub same_service : answer.service_id ≡ operation.service_id
  pub same_kind : answer.kind ≡ operation.kind
  pub same_phase : answer.phase ≡ operation.phase
  pub same_step : answer.step ≡ operation.step
  pub same_generation : answer.target_generation ≡ operation.target_generation

pub command_response_from_row-Tells :
    (answer : OperationResponse) (operation : OperationRow)
    → answer ≡ command_response_from_row operation
    → Tells answer operation
command_response_from_row-Tells answer operation e = record {
  same_operation = ap (λ x. x.operation_id) e;
  same_service = ap (λ x. x.service_id) e;
  same_kind = ap (λ x. x.kind) e;
  same_phase = ap (λ x. x.phase) e;
  same_step = ap (λ x. x.step) e;
  same_generation = ap (λ x. x.target_generation) e;
}

module _ (env : Environment) (draw : Draw) (tenant service : String) (i : CommandInput) where
  -- The key of the request is stored with its hash and for the operation.
  pub record Remembers (operation : OperationRow) (d' : Database) : Type 0 where
    pub row : IdempotencyRow
    pub found_row :
        find_row (is_request tenant (method_of i.kind) i.request_id) d'.idempotency ≡ some row
    pub same_hash : row.payload_hash ≡ i.request_hash
    pub own_operation : row.operation_id ≡ operation.id

  -- The service is moved on by one generation for a new operation of the command's kind, which is
  -- pending at its first step, and which is the answer.
  pub record Promise (current : Service) (d : Database) (answer : OperationResponse) (d' : Database)
      : Type 0 where
    pub after : Service
    pub operation : OperationRow
    pub found_after : find_service tenant service d'.tables.services ≡ some after
    pub found_operation :
        find_row (is_operation tenant draw.operation_id) d'.operations ≡ some operation
    pub aimed : Aimed i.kind i.expected_generation current.desired_generation
    pub goal : Goal i.kind current.desired_state after.desired_state operation.step
    pub one_further : after.desired_generation ≡ current.desired_generation + 1
    pub owned : after.current_operation_id ≡ operation.id
    pub others_stay : after ≡ record current {
      desired_state = after.desired_state;
      desired_generation = after.desired_generation;
      current_operation_id = after.current_operation_id;
    }
    pub drawn : operation.id ≡ draw.operation_id
    pub own_tenant : operation.tenant_id ≡ tenant
    pub own_service : operation.service_id ≡ service
    pub own_kind : operation.kind ≡ i.kind
    pub own_generation : operation.target_generation ≡ after.desired_generation
    pub is_pending : operation.phase ≡ pending
    pub untried : (operation.attempt ≡ 0) × (operation.retry_at ≡ none)
    pub unfinished : operation.completed_at ≡ none
    pub without_error : (operation.error_code ≡ "") × (operation.error_message ≡ "")
    pub answers_operation : Tells answer operation
    pub remembered :
        str_eq i.request_id "" ≡ false
        → find_row (is_request tenant (method_of i.kind) i.request_id) d.idempotency ≡ none
        → Remembers operation d'

  pub Accepted-Promise :
      (d : Database) (answer : OperationResponse) (d' : Database)
      → is_command i.kind ≡ true
      → (a : Accepted env draw tenant service i d answer d') → Promise a.current d answer d'
  Accepted-Promise d answer d' known a = record {
    after = moved_service env draw tenant service i a.current;
    operation = operation_row env draw tenant service i (a.current.desired_generation + 1);
    found_after = a.started.moved;
    found_operation = a.started.begun;
    aimed = at_expected-Aimed i.kind i.expected_generation a.current.desired_generation a.expected;
    goal = valid_command_state-Goal i.kind a.current.desired_state known a.valid;
    one_further = refl;
    owned = refl;
    others_stay = refl;
    drawn = refl;
    own_tenant = refl;
    own_service = refl;
    own_kind = refl;
    own_generation = refl;
    is_pending = refl;
    untried = (refl, refl);
    unfinished = refl;
    without_error = (refl, refl);
    answers_operation = record {
      same_operation = ap (λ x. x.operation_id) a.started.answered;
      same_service = ap (λ x. x.service_id) a.started.answered;
      same_kind = ap (λ x. x.kind) a.started.answered;
      same_phase = ap (λ x. x.phase) a.started.answered;
      same_step = ap (λ x. x.step) a.started.answered;
      same_generation = ap (λ x. x.target_generation) a.started.answered;
    };
    remembered = λ named fresh. record {
      row = idempotency_row env draw tenant service i;
      found_row = a.started.remembered named fresh;
      same_hash = refl;
      own_operation = refl;
    };
  }
