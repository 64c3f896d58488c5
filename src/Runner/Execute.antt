-- ===== src/Runner/Execute.antt =====
-- `Runner.Execute` with `runStep`, `transition`, `retry` and `validate`
-- (internal/biz/inference/runner.go).
use ani_inference_service.Prelude.{
  if◌then◌else◌, String, none, ℕ, ◌==◌, some, str_eq, not, ok, err, ◌&&◌, Result, leb, Bool,
}
use Prim.Native.String.{◌++◌ as ◌&◌}
use ani_inference_service.Operation.{
  OperationPhase, pending, other_phase, OperationStep, admission, reserve_quota, resolve_gpu,
  apply_cr, materialize_model, apply_runtime, observe_runtime, withdraw_publication, delete_runtime,
  observe_absence, delete_cr, publish, release_quota, release_previous_quota, complete, other_step,
  running, succeeded, failed, running,
}
use ani_inference_service.Failure.{
  Error, unsupported_step, provider_missing, audit_sink, join, operation_store, unsupported_phase,
  stale_generation,
}
use ani_inference_service.Runner.State.{
  OperationContext, StepTransition, stepped, retried, AuditEvent, Item, WorkResult,
}
use ani_inference_service.Runner.World.{
  Call, World, Exec, return, fail, attempt, require, ◌>>=◌, ◌>>◌,
}
use ani_inference_service.Runner.Ports.{StepResult, call, error_of, current_operation}
use ani_inference_service.Runner.Quota.{reserve_quota_step, release_previous_quota_step}
use ani_inference_service.Runner.Release.{release_quota_step}
use ani_inference_service.Runner.Provision.{
  admission_step, resolve_gpu_step, apply_cr_step, materialize_model_step, apply_runtime_step,
}
use ani_inference_service.Runner.Expose.{
  observe_runtime_step, publish_step, withdraw_publication_step,
}
use ani_inference_service.Runner.Teardown.{
  delete_runtime_step, observe_absence_step, delete_cr_step,
}

-- `validate`, and the identity test of `Execute`.
abbrev pub is_complete_item : Item → Bool
is_complete_item item =
    not (str_eq item.tenant_id "")
    && not (str_eq item.service_id "")
    && leb 1 item.generation
    && not (str_eq item.lease_token "")

abbrev pub is_current : Item → OperationContext → Bool
is_current item op =
    str_eq op.tenant_id item.tenant_id
    && str_eq op.service_id item.service_id
    && op.target_generation == item.generation
    && not (str_eq op.id "")

abbrev pub done : Item → WorkResult
done item = record { generation = item.generation }

module _ (w : World) where
  -- The `switch` of `runStep`.
  unfoldable pub dispatch_step : OperationStep → OperationContext → Exec StepResult
  dispatch_step admission op = admission_step w op
  dispatch_step reserve_quota op = reserve_quota_step w op
  dispatch_step resolve_gpu op = resolve_gpu_step w op
  dispatch_step release_previous_quota op = release_previous_quota_step w op
  dispatch_step apply_cr op = apply_cr_step w op
  dispatch_step materialize_model op = materialize_model_step w op
  dispatch_step apply_runtime op = apply_runtime_step w op
  dispatch_step observe_runtime op = observe_runtime_step w op
  dispatch_step withdraw_publication op = withdraw_publication_step w op
  dispatch_step delete_runtime op = delete_runtime_step w op
  dispatch_step observe_absence op = observe_absence_step w op
  dispatch_step delete_cr op = delete_cr_step w op
  dispatch_step publish op = publish_step w op
  dispatch_step release_quota op = release_quota_step w op
  dispatch_step complete op = fail (unsupported_step complete)
  dispatch_step (other_step s) op = fail (unsupported_step (other_step s))

  unfoldable pub run_step : OperationContext → Exec StepResult
  unfolding dispatch_step
  run_step op = dispatch_step op.step op

  -- `operationEventID`.
  unfoldable pub event_id : OperationContext → OperationPhase → OperationStep → String
  event_id op phase step = w.event_uuid op.id phase step op.attempt

  unfoldable pub transition_of : OperationContext → OperationPhase → OperationStep → StepTransition
  transition_of op phase step = record {
    tenant_id = op.tenant_id;
    operation_id = op.id;
    kind = op.kind;
    lease_token = op.lease_token;
    target_generation = op.target_generation;
    expected_phase = op.phase;
    expected_step = op.step;
    next_phase = phase;
    next_step = step;
    error_code = "";
    error_message = none;
  }

  unfoldable pub transition_audit :
      OperationContext → OperationPhase → OperationStep → String → AuditEvent
  unfolding event_id
  transition_audit op phase step event = record {
    tenant_id = op.tenant_id;
    event_id = event_id op phase step;
    service_id = op.service_id;
    operation_id = op.id;
    generation = op.target_generation;
    event_type = "inference.operation." & event;
    actor = op.actor;
    request_id = op.request_id;
    before_state = record { phase = op.phase; step = op.step; message = none };
    after_state = record { phase = phase; step = step; message = none };
    payload = stepped step event;
  }

  -- `transition`: one atomic write, or the audit event and then the write.
  unfoldable pub transition : OperationContext → OperationPhase → OperationStep → String → Exec Unit
  unfolding transition_of transition_audit
  transition op phase step event =
      let change = transition_of op phase step in
      let audit = transition_audit op phase step event in
      if w.store_is_atomic then call w (Call.advance_step_with_audit change audit) else do
        require w.has_audit (provider_missing audit_sink)
        call w (Call.append_audit audit)
        call w (Call.advance_step change)

  unfoldable pub retry_of : OperationContext → Error → StepTransition
  retry_of op cause = record {
    tenant_id = op.tenant_id;
    operation_id = op.id;
    kind = op.kind;
    lease_token = op.lease_token;
    target_generation = op.target_generation;
    expected_phase = op.phase;
    expected_step = op.step;
    next_phase = other_phase "";
    next_step = other_step "";
    error_code = "provider_retry";
    error_message = some cause;
  }

  unfoldable pub retry_audit : OperationContext → Error → AuditEvent
  unfolding event_id
  retry_audit op cause = record {
    tenant_id = op.tenant_id;
    event_id = event_id op pending op.step;
    service_id = op.service_id;
    operation_id = op.id;
    generation = op.target_generation;
    event_type = "inference.operation.step.retry";
    actor = op.actor;
    request_id = op.request_id;
    before_state = record { phase = op.phase; step = op.step; message = none };
    after_state = record { phase = pending; step = op.step; message = some cause };
    payload = retried op.step cause;
  }

  -- `retryAfter`, in nanoseconds.
  abbrev pub retry_delay : ℕ
  retry_delay = if w.retry_after == 0 then 5000000000 else w.retry_after

  unfoldable pub record_retry : OperationContext → Error → Exec Unit
  unfolding retry_of retry_audit
  record_retry op cause =
      let change = retry_of op cause in
      let audit = retry_audit op cause in
      if w.store_is_atomic then call w (Call.retry_step_with_audit change retry_delay audit) else do
        require w.has_audit (provider_missing audit_sink)
        call w (Call.append_audit audit)
        call w (Call.retry_step change retry_delay)

  -- `retry`: it always returns an error, the cause joined with what the write itself returned.
  unfoldable pub retry : OperationContext → Error → Exec WorkResult
  unfolding record_retry join
  retry op cause = do answer ← attempt (record_retry op cause); fail (join cause (error_of answer))

  -- An error of a part of the step schedules a retry.
  unfoldable pub or_retry :
      {A : Type 0} → OperationContext → Result Error A → (A → Exec WorkResult) → Exec WorkResult
  unfolding retry
  or_retry op (ok a) next = next a
  or_retry op (err e) next = retry op e

  unfoldable pub perform_step : Item → OperationContext → Exec WorkResult
  unfolding or_retry transition
  perform_step item op = do
    answer ← attempt (run_step op)
    or_retry op answer λ next. do
      moved ← attempt (transition op next.phase next.step next.event)
      or_retry op moved λ _. return (done item)

  unfoldable pub claim_and_perform : Item → OperationContext → Exec WorkResult
  unfolding perform_step
  claim_and_perform item op = do
    claimed ← attempt (transition op running op.step "claimed")
    or_retry op claimed λ _. perform_step item (record op { phase = running })

  unfoldable pub execute_phase : OperationPhase → Item → OperationContext → Exec WorkResult
  unfolding claim_and_perform
  execute_phase succeeded item op = return (done item)
  execute_phase failed item op = return (done item)
  execute_phase pending item op = claim_and_perform item op
  execute_phase running item op = perform_step item op
  execute_phase (other_phase p) item op = fail (unsupported_phase (other_phase p))

  -- `Execute`.
  unfoldable pub execute : Item → Exec WorkResult
  unfolding execute_phase
  execute item = do
    require w.has_store (provider_missing operation_store)
    require (is_complete_item item) stale_generation
    op ← current_operation w item
    require (is_current item op) stale_generation
    execute_phase op.phase item (record op { lease_token = item.lease_token })
