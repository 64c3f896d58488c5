-- ===== src/Command/Outcome.antt =====
-- Every result of `Command` (internal/data/postgres/command_usecase.go).
use ani_inference_service.Command.Accept.{
  is_same_request, admit, advance, accept, cancel, replay, start_operation, next_spec,
  requested_resources,
}
use ani_inference_service.Operation.Store.{OperationRow}
use ani_inference_service.Command.Accepted.{Started, start_operation-Started}
use ani_inference_service.Work.Table.{Service, find_service}
use ani_inference_service.Command.Database.{
  Database, IdempotencyRow, is_request, is_operation, is_closing, is_managed,
}
use ani_inference_service.Command.Prepare.{Prepared, cancel-Prepared, next_spec-Prepared}
use ani_inference_service.Command.Model.{
  Environment, Draw, CommandInput, OperationResponse, at_expected, valid_command_state, method_of,
  command_response_from_row, not_found, CommandError, idempotency_conflict, is_starting, no_rows,
  invalid_state, is_delete, generation_conflict,
}
use ani_inference_service.Prelude.{
  ◌>>=◌, >>=-eq-ok, false, ap, ◌∙◌, ◌≡◌, String, ok, true, some, sym, not, or_fail,
  guard-then-eq-ok, &&-eq-true, ◌&&◌, ◌>>◌, guard, ok-injective, Result, or_fail-eq-ok, not-eq-true,
  find_row, any_row,
}

module _ (env : Environment) (draw : Draw) (tenant service : String) (i : CommandInput) where
  -- A live service in the state and at the generation that the command asks for, which the command
  -- moves on.
  pub record Accepted (d : Database) (answer : OperationResponse) (d' : Database) : Type 0 where
    pub current : Service
    pub found : find_service tenant service d.tables.services ≡ some current
    pub expected : at_expected i.kind i.expected_generation current.desired_generation ≡ true
    pub undeleted : current.deleted ≡ false
    pub valid : valid_command_state i.kind current.desired_state ≡ ok tt
    pub started : Started env draw tenant service i current d answer d'

  -- A stored request of the same key.
  pub record Replayed (d : Database) (answer : OperationResponse) : Type 0 where
    pub row : IdempotencyRow
    pub operation : OperationRow
    pub stored :
        find_row (is_request tenant (method_of i.kind) i.request_id) d.idempotency ≡ some row
    pub known : find_row (is_operation tenant row.operation_id) d.operations ≡ some operation
    pub same : is_same_request env draw tenant service i row operation ≡ true
    pub answered : answer ≡ command_response_from_row operation

  start_behind :
      (current : Service) (d d1 : Database) (answer : OperationResponse) (d' : Database)
      → Prepared env draw tenant service i d d1
      → Started env draw tenant service i current d1 answer d'
      → Started env draw tenant service i current d answer d'
  start_behind current d d1 answer d' (tables, keys) started = record {
    moved = started.moved;
    begun = started.begun;
    remembered = λ named fresh. started.remembered named (ap (find_row _) keys ∙ fresh);
    answered = started.answered;
  }

  advance-Started :
      (current : Service) (d : Database) (answer : OperationResponse) (d' : Database)
      → find_service tenant service d.tables.services ≡ some current
      → current.deleted ≡ false
      → advance env draw tenant service i d current ≡ ok (answer, d')
      → Started env draw tenant service i current d answer d'
  unfolding advance
  advance-Started current d answer d' found undeleted e =
      let step = cancel env draw tenant service i d in
      let begin : String → Database → Result CommandError (OperationResponse × Database) =
        λ resources. start_operation env draw tenant service i current resources step.1 in
      let spec = next_spec env draw tenant service i current.desired_generation step.0 in
      let (resources, read, e1) =
        >>=-eq-ok (λ resources. spec >>= begin resources)
          (requested_resources env draw tenant service i current.desired_generation step.0) e in
      let (d1, copied, e2) = >>=-eq-ok (begin resources) spec e1 in
      let (t1, k1) = cancel-Prepared env draw tenant service i d in
      let (t2, k2) =
        next_spec-Prepared env draw tenant service i current.desired_generation step.0 d1 copied in
      let found' = ap (λ t. find_service tenant service t.services) (t2 ∙ t1) ∙ found in
      start_behind current d d1 answer d' (t2 ∙ t1, k2 ∙ k1)
        (start_operation-Started env draw tenant service i current resources step.1 d1 answer d'
          found' undeleted e2)

  -- What the checks of a service that succeed have found.
  abbrev Admitted : Service → Type 0
  Admitted current =
      (at_expected i.kind i.expected_generation current.desired_generation ≡ true)
      × (current.deleted ≡ false)
      × (valid_command_state i.kind current.desired_state ≡ ok tt)

  admit-Admitted :
      (d : Database) (current admitted : Service)
      → admit env draw tenant service i d current ≡ ok admitted
      → Admitted current × (current ≡ admitted)
  unfolding admit
  admit-Admitted d current admitted e =
      let valid = valid_command_state i.kind current.desired_state in
      let last = valid >> ok current in
      let closing = not (any_row (is_closing tenant service) d.managed && is_starting i.kind) in
      let third = guard closing (invalid_state "managed resource has a closing intent") >> last in
      let unmanaged = not (any_row (is_managed tenant service) d.managed && is_delete i.kind) in
      let attached = invalid_state "managed DELETE requires a trusted Governance attachment" in
      let second = guard unmanaged attached >> third in
      let expected = at_expected i.kind i.expected_generation current.desired_generation in
      let (first, e1) =
        guard-then-eq-ok (expected && not current.deleted) generation_conflict second e in
      let (m, e2) = guard-then-eq-ok unmanaged attached third e1 in
      let (c, e3) = guard-then-eq-ok closing _ last e2 in
      let (u, checked, same) = >>=-eq-ok (λ u. ok current) valid e3 in
      let (at, live) = &&-eq-true expected (not current.deleted) first in
      ((at, not-eq-true _ live, checked), ok-injective same)

  pub accept-Accepted :
      (d : Database) (answer : OperationResponse) (d' : Database)
      → accept env draw tenant service i d ≡ ok (answer, d')
      → Accepted d answer d'
  unfolding accept
  accept-Accepted d answer d' e =
      let look = or_fail (find_service tenant service d.tables.services) not_found in
      let check = admit env draw tenant service i d in
      let (admitted, checked, e1) =
        >>=-eq-ok (advance env draw tenant service i d) (look >>= check) e in
      let (current, found, e2) = >>=-eq-ok check look checked in
      let ((expected, undeleted, valid), same) = admit-Admitted d current admitted e2 in
      let found' = or_fail-eq-ok _ not_found found in
      record {
        current = current;
        found = found';
        expected = expected;
        undeleted = undeleted;
        valid = valid;
        started =
            advance-Started current d answer d' found' undeleted
              (ap (advance env draw tenant service i d) same ∙ e1);
      }

  pub replay-Replayed :
      (row : IdempotencyRow) (d : Database) (answer : OperationResponse) (d' : Database)
      → find_row (is_request tenant (method_of i.kind) i.request_id) d.idempotency ≡ some row
      → replay env draw tenant service i row d ≡ ok (answer, d')
      → Replayed d answer × (d ≡ d')
  unfolding replay
  replay-Replayed row d answer d' stored e =
      let back : OperationRow → Result CommandError (OperationResponse × Database) =
        λ op. ok (command_response_from_row op, d) in
      let test = is_same_request env draw tenant service i row in
      let (op, known, e1) =
        >>=-eq-ok (λ op. guard (test op) idempotency_conflict >> back op)
          (or_fail (find_row (is_operation tenant row.operation_id) d.operations) no_rows) e in
      let (same, e2) = guard-then-eq-ok (test op) idempotency_conflict (back op) e1 in
      (
        record {
          row = row;
          operation = op;
          stored = stored;
          known = or_fail-eq-ok _ no_rows known;
          same = same;
          answered = sym (ap (λ x. x.0) (ok-injective e2));
        },
        ap (λ x. x.1) (ok-injective e2),
      )
