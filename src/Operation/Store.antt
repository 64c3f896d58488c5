-- ===== src/Operation/Store.antt =====
-- The durable operations: `AdvanceOperationStepCAS` and `RetryOperationStepCAS` of
-- internal/data/postgres/operation_state.go with their statements in inference.sql.go. Parsing UUIDs
-- is a parameter.
use ani_inference_service.Operation.{
  TransitionError, pending, OperationPhase, OperationKind, validate_transition, same_phase,
  OperationStep, same_step, running,
}
use ani_inference_service.Prelude.{
  [], leb, str_eq, ◌||◌, none, some, ◌∷◌, ◌==◌, err, not, ℕ, Result, false, Bool, ◌>>◌, ◌>>=◌, List,
  true, ◌&&◌, ok, ◌+◌, Option, or_fail, if◌then◌else◌, String, guard, suc,
}
use ani_inference_service.Work.Table.{
  WorkRow, Tables, update_where, is_live, is_token, has_key, find_service,
}
use ani_inference_service.Operation.{succeeded, failed, running, pending, other_kind}

-- A row of inference_operations, with the columns that the statements read or write.
pub record OperationRow : Type 0 where
  pub tenant_id : String
  pub id : String
  pub service_id : String
  pub kind : OperationKind
  pub target_generation : ℕ
  pub phase : OperationPhase
  pub step : OperationStep
  pub attempt : ℕ
  pub retry_at : Option ℕ
  pub completed_at : Option ℕ
  pub error_code : String
  pub error_message : String
  pub updated_at : ℕ

-- `OperationStepInput`.
pub record OperationStepInput : Type 0 where
  pub tenant_id : String
  pub operation_id : String
  pub kind : OperationKind
  pub lease_token : String
  pub target_generation : ℕ
  pub expected_phase : OperationPhase
  pub expected_step : OperationStep
  pub next_phase : OperationPhase
  pub next_step : OperationStep
  pub error_code : String
  pub error_message : String

pub data StoreError : Type 0 where
  not_a_uuid : String → StoreError
  generation_not_positive kind_missing cas_failed : StoreError
  audit_identity_mismatch audit_service_mismatch operation_missing : StoreError
  bad_transition : TransitionError → StoreError

-- A live lease with the token on the service's work.
unfoldable pub is_leased : ℕ → String → String → String → List WorkRow → Bool
is_leased now token tenant service [] = false
is_leased now token tenant service (r ∷ rs) =
    (has_key tenant service r && is_token token r.lease_token && is_live now r.lease_until)
    || is_leased now token tenant service rs

-- The operation is the current one of its service, for the desired generation and under the lease.
unfoldable pub is_fenced : ℕ → String → Tables → OperationRow → Bool
unfolding is_leased
is_fenced now token t o = elim (find_service o.tenant_id o.service_id t.services) [
  | none ↦ false
  | some s ↦
      str_eq s.current_operation_id o.id
      && s.desired_generation == o.target_generation
      && is_leased now token o.tenant_id o.service_id t.work
]

-- The row is the input's operation, where the input expects it.
unfoldable pub is_expected : OperationStepInput → OperationRow → Bool
is_expected i o =
    str_eq o.tenant_id i.tenant_id
    && str_eq o.id i.operation_id
    && o.target_generation == i.target_generation
    && same_phase o.phase i.expected_phase
    && same_step o.step i.expected_step

abbrev pub may_run : ℕ → Option ℕ → Bool
may_run now none = true
may_run now (some at) = leb at now

abbrev pub completion : OperationPhase → ℕ → Option ℕ
completion succeeded now = some now
completion failed now = some now
completion _ now = none

abbrev pub advanced : ℕ → OperationStepInput → OperationRow → OperationRow
advanced now i o = record o {
  phase = i.next_phase;
  step = i.next_step;
  error_code = i.error_code;
  error_message = i.error_message;
  retry_at = none;
  completed_at = completion i.next_phase now;
  updated_at = now;
}

abbrev pub rescheduled : ℕ → ℕ → OperationStepInput → OperationRow → OperationRow
rescheduled delay now i o = record o {
  phase = pending;
  attempt = suc o.attempt;
  retry_at = some (now + delay);
  error_code = i.error_code;
  error_message = i.error_message;
  updated_at = now;
}

unfoldable pub may_advance : ℕ → Tables → OperationStepInput → OperationRow → Bool
unfolding is_expected is_fenced
may_advance now t i o = is_expected i o && may_run now o.retry_at && is_fenced now i.lease_token t o

unfoldable pub may_reschedule : ℕ → Tables → OperationStepInput → OperationRow → Bool
unfolding is_expected is_fenced
may_reschedule now t i o = is_expected i o && is_fenced now i.lease_token t o

-- `if rows != 1 { return ErrOperationCAS }`.
abbrev pub cas_result : List OperationRow × ℕ → Result StoreError Unit × List OperationRow
cas_result (rows, n) = (if n == 1 then ok tt else err cas_failed, rows)

module _ (parse_uuid : String → Option String) where
  abbrev pub parsed : String → String → Result StoreError String
  parsed label text = or_fail (parse_uuid text) (not_a_uuid label)

  abbrev pub transition_error : Result TransitionError Unit → Result StoreError Unit
  transition_error (ok u) = ok tt
  transition_error (err e) = err (bad_transition e)

  -- What AdvanceOperationStepCAS tests before its statement, in its order.
  unfoldable pub check_advance : OperationStepInput → Result StoreError OperationStepInput
  check_advance i = do
    tenant ← parsed "tenant_id" i.tenant_id
    operation ← parsed "operation_id" i.operation_id
    guard (leb 1 i.target_generation) generation_not_positive
    lease ← parsed "lease_token" i.lease_token
    transition_error
        (validate_transition i.kind i.expected_phase i.expected_step i.next_phase i.next_step)
    ok (record i { tenant_id = tenant; operation_id = operation; lease_token = lease })

  unfoldable pub is_active_phase : OperationPhase → Bool
  is_active_phase p = same_phase p pending || same_phase p running

  unfoldable pub is_blank_kind : OperationKind → Bool
  is_blank_kind (other_kind s) = str_eq s ""
  is_blank_kind _ = false

  -- What RetryOperationStepCAS tests before its statement; its delay is not negative here.
  unfoldable pub check_retry : OperationStepInput → Result StoreError OperationStepInput
  unfolding is_active_phase is_blank_kind
  check_retry i = do
    tenant ← parsed "tenant_id" i.tenant_id
    operation ← parsed "operation_id" i.operation_id
    guard
        (not (is_blank_kind i.kind)
          && leb 1 i.target_generation
          && is_active_phase i.expected_phase)
        cas_failed
    lease ← parsed "lease_token" i.lease_token
    ok (record i { tenant_id = tenant; operation_id = operation; lease_token = lease })

  abbrev pub after_check :
      (OperationStepInput → List OperationRow → List OperationRow × ℕ)
      → Result StoreError OperationStepInput
      → List OperationRow
      → Result StoreError Unit × List OperationRow
  after_check statement (err e) rows = (err e, rows)
  after_check statement (ok i) rows = cas_result (statement i rows)

  unfoldable pub advance_operation_step :
      ℕ
      → Tables
      → OperationStepInput
      → List OperationRow
      → Result StoreError Unit × List OperationRow
  unfolding check_advance may_advance update_where
  advance_operation_step now t i rows =
      after_check (λ j. update_where (may_advance now t j) (advanced now j)) (check_advance i) rows

  unfoldable pub retry_operation_step :
      ℕ
      → ℕ
      → Tables
      → OperationStepInput
      → List OperationRow
      → Result StoreError Unit × List OperationRow
  unfolding check_retry may_reschedule update_where
  retry_operation_step delay now t i rows =
      after_check (λ j. update_where (may_reschedule now t j) (rescheduled delay now j))
        (check_retry i) rows
