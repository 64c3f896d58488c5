-- ===== src/Command/Repeats.antt =====
-- A command after another (internal/data/postgres/command_usecase.go).
use ani_inference_service.Command.Results.{refused, replayed, accepted}
use ani_inference_service.Command.Outcome.{Replayed, Accepted}
use ani_inference_service.Command.Model.{command_response_from_row}
use ani_inference_service.Operation.Store.{OperationRow}
use ani_inference_service.Command.Database.{Database, IdempotencyRow, is_request, is_operation}
use ani_inference_service.Command.Accept.{
  accept_once, checked, command, replay, settled, is_same_request, idempotency_row, operation_row,
}
use ani_inference_service.Command.Results.{Passes, Outcome, command-Outcome}
use ani_inference_service.Command.Model.{
  Environment, CommandInput, Draw, CommandError, OperationResponse, method_of,
  command_response_from_row,
}
use ani_inference_service.Prelude.{
  String, false, Result, ◌∙◌, ap, str_eq, if◌then◌else◌, some, true, ◌≡◌, ok, ok-injective, subst,
  refl, eq_refl, none, sym, ◌+◌, find_row,
}

module _ (env : Environment) (i : CommandInput) (tenant service : String)
    (passes : Passes env i tenant service) where
  -- Behind the checks, which do not read the database.
  checked-passes :
      (draw : Draw) (d : Database) → checked env draw i d ≡ accept_once env draw tenant service i d
  unfolding checked
  checked-passes draw d =
      rw (passes.tenant_parsed, passes.service_parsed, passes.aimed, passes.known)

  pub command-passes :
      (draw : Draw) (d : Database) (r : Result CommandError (OperationResponse × Database))
      → i.managed ≡ false
      → accept_once env draw tenant service i d ≡ r
      → command env draw i d ≡ settled env draw i d r
  unfolding command
  command-passes draw d r unattached e =
      ap
        (λ b.
          settled env draw i d (if b then env.accept_managed_delete i d else checked env draw i d))
        unattached
      ∙ ap (settled env draw i d) (checked-passes draw d ∙ e)

  -- A stored request is answered from what is stored.
  replays :
      (draw : Draw) (d : Database) (row : IdempotencyRow) (op : OperationRow)
      → str_eq i.request_id "" ≡ false
      → find_row (is_request tenant (method_of i.kind) i.request_id) d.idempotency ≡ some row
      → find_row (is_operation tenant row.operation_id) d.operations ≡ some op
      → is_same_request env draw tenant service i row op ≡ true
      → accept_once env draw tenant service i d ≡ ok (command_response_from_row op, d)
  unfolding accept_once replay
  replays draw d row op named stored known same = rw (named, stored, known, same)

  -- What answers a repeated request.
  pub record Repeats (draw : Draw) (answer : OperationResponse) (d : Database) : Type 0 where
    pub operation : OperationRow
    pub same_operation : operation.id ≡ answer.operation_id
    pub same_target : operation.target_generation ≡ answer.target_generation
    pub repeated : command env draw i d ≡ (ok (command_response_from_row operation), d)

  Replayed-Repeats :
      (draw draw' : Draw) (answer : OperationResponse) (d : Database)
      → i.managed ≡ false
      → str_eq i.request_id "" ≡ false
      → Replayed env draw tenant service i d answer
      → Repeats draw' answer d
  unfolding is_same_request
  Replayed-Repeats draw draw' answer d unattached named r = record {
    operation = r.operation;
    same_operation = ap (λ x. x.operation_id) (sym r.answered);
    same_target = ap (λ x. x.target_generation) (sym r.answered);
    repeated =
        command-passes draw' d _ unattached
          (replays draw' d r.row r.operation named r.stored r.known r.same);
  }

  Accepted-Repeats :
      (draw draw' : Draw) (answer : OperationResponse) (d d' : Database)
      → i.managed ≡ false
      → str_eq i.request_id "" ≡ false
      → find_row (is_request tenant (method_of i.kind) i.request_id) d.idempotency ≡ none
      → Accepted env draw tenant service i d answer d'
      → Repeats draw' answer d'
  unfolding is_same_request
  Accepted-Repeats draw draw' answer d d' unattached named fresh a =
      let row = idempotency_row env draw tenant service i in
      let op = operation_row env draw tenant service i (a.current.desired_generation + 1) in
      record {
        operation = op;
        same_operation = ap (λ x. x.operation_id) (sym a.started.answered);
        same_target = ap (λ x. x.target_generation) (sym a.started.answered);
        repeated = command-passes draw' d' _ unattached (
            replays draw' d' row op named (a.started.remembered named fresh) a.started.begun
              (rw (eq_refl i.request_hash)));
      }

module _ (env : Environment) (i : CommandInput) where
  -- The tenant and service of a command.
  pub data AnswersAgain (draw : Draw) (answer : OperationResponse) (d : Database) : Type 0 where
    by_stored :
        (tenant service : String) (passes : Passes env i tenant service)
        → Repeats env i tenant service passes draw answer d
        → AnswersAgain draw answer d

  answers_again :
      (draw draw' : Draw) (d : Database) (r : Result CommandError OperationResponse) (d' : Database)
      (answer : OperationResponse)
      → i.managed ≡ false
      → str_eq i.request_id "" ≡ false
      → Outcome env draw i d r d'
      → r ≡ ok answer
      → AnswersAgain draw' answer d'
  answers_again draw draw' d r d' answer unattached named (refused e) same = cc
  answers_again draw draw' d r d' answer unattached named
        (replayed tenant service passes n known tells) same =
      by_stored tenant service passes (
        subst (λ x. Repeats env i tenant service passes draw' x d) (ok-injective same)
          (Replayed-Repeats env i tenant service passes draw draw' _ d unattached named known))
  answers_again draw draw' d r d' answer unattached named
        (accepted tenant service passes first fresh a promise) same =
      by_stored tenant service passes (
        subst (λ x. Repeats env i tenant service passes draw' x d') (ok-injective same)
          (Accepted-Repeats env i tenant service passes draw draw' _ d d' unattached named
            (fresh named) a))

  -- A command without a managed attachment and with a request key that succeeded is answered again from what it left, whatever identifiers and
  -- time are drawn: with an operation of the same identifier and generation, and without a change.
  pub command-AnswersAgain :
      (draw draw' : Draw) (d : Database) (answer : OperationResponse) (d' : Database)
      → i.managed ≡ false
      → str_eq i.request_id "" ≡ false
      → command env draw i d ≡ (ok answer, d')
      → AnswersAgain draw' answer d'
  command-AnswersAgain draw draw' d answer d' unattached named done =
      answers_again draw draw' d (ok answer) d' answer unattached named
        (subst (λ x. Outcome env draw i d x.0 x.1) done (command-Outcome env draw i d unattached))
        refl
