-- ===== src/Runner/Discipline/Execute.antt =====
-- `Runner.Execute` of internal/biz/inference/runner.go keeps the order of calls.
use ani_inference_service.Runner.Ports.{call}
use ani_inference_service.Runner.Discipline.Quota.{
  reserve_quota_step-Orderly, release_previous_quota_step-Orderly, release_quota_step-Orderly,
}
use ani_inference_service.Runner.Discipline.Steps.{
  admission_step-Orderly, resolve_gpu_step-Orderly, apply_cr_step-Orderly,
  materialize_model_step-Orderly, apply_runtime_step-Orderly, observe_runtime_step-Orderly,
  withdraw_publication_step-Orderly, delete_runtime_step-Orderly, observe_absence_step-Orderly,
  delete_cr_step-Orderly, publish_step-Orderly,
}
use ani_inference_service.Runner.Discipline.{
  Orderly, orderly_rules, last-Orderly, AuditEvent, keeps_rules, Call, perform-Orderly, JustDone,
  Justified,
}
use ani_inference_service.Failure.{Error}
use ani_inference_service.Runner.Inversion.{
  Keeps, bind-Keeps, return-Keeps, attempt-Keeps, fail-Keeps,
}
use ani_inference_service.Runner.State.{Item, OperationContext, WorkResult, StepTransition}
use ani_inference_service.Runner.Execute.{
  dispatch_step, run_step, record_retry, execute_phase, retry, or_retry, transition, perform_step,
  execute,
}
use ani_inference_service.Prelude.{String, Result, err, ok, ℕ}
use ani_inference_service.Operation.{
  OperationStep, admission, reserve_quota, resolve_gpu, apply_cr, materialize_model, apply_runtime,
  observe_runtime, withdraw_publication, delete_runtime, observe_absence, delete_cr, publish,
  release_quota, release_previous_quota, complete, other_step, OperationPhase, pending, running,
  succeeded, failed, other_phase,
}
use ani_inference_service.Runner.World.{World, Exec, ◌>>◌, History}

module _ (w : World) where
  dispatch_step-Orderly :
      (s : OperationStep) (op : OperationContext) → Keeps (Orderly w) (dispatch_step w s op)
  unfolding dispatch_step
  dispatch_step-Orderly admission op = admission_step-Orderly w op
  dispatch_step-Orderly reserve_quota op = reserve_quota_step-Orderly w op
  dispatch_step-Orderly resolve_gpu op = resolve_gpu_step-Orderly w op
  dispatch_step-Orderly release_previous_quota op = release_previous_quota_step-Orderly w op
  dispatch_step-Orderly apply_cr op = apply_cr_step-Orderly w op
  dispatch_step-Orderly materialize_model op = materialize_model_step-Orderly w op
  dispatch_step-Orderly apply_runtime op = apply_runtime_step-Orderly w op
  dispatch_step-Orderly observe_runtime op = observe_runtime_step-Orderly w op
  dispatch_step-Orderly withdraw_publication op = withdraw_publication_step-Orderly w op
  dispatch_step-Orderly delete_runtime op = delete_runtime_step-Orderly w op
  dispatch_step-Orderly observe_absence op = observe_absence_step-Orderly w op
  dispatch_step-Orderly delete_cr op = delete_cr_step-Orderly w op
  dispatch_step-Orderly publish op = publish_step-Orderly w op
  dispatch_step-Orderly release_quota op = release_quota_step-Orderly w op
  dispatch_step-Orderly complete op = fail-Keeps _
  dispatch_step-Orderly (other_step s) op = fail-Keeps _

  run_step-Orderly : (op : OperationContext) → Keeps (Orderly w) (run_step w op)
  unfolding run_step
  run_step-Orderly op = dispatch_step-Orderly op.step op

  -- An audit event and then the change that it describes.
  audited-Orderly :
      (a : AuditEvent) (c : Call)
      → ((h : History) → JustDone (Call.append_audit a) h → Justified w c h)
      → Keeps (Orderly w) (call w (Call.append_audit a) >> call w c)
  audited-Orderly a c just =
      last-Orderly w (Call.append_audit a) (λ h. w.acknowledge h (Call.append_audit a)) c
        (λ h. w.acknowledge h c) (λ h. tt) just

  advance_audited-Orderly :
      (a : AuditEvent) (t : StepTransition)
      → Keeps (Orderly w) (call w (Call.append_audit a) >> call w (Call.advance_step t))
  advance_audited-Orderly a t = audited-Orderly a (Call.advance_step t) (λ h j. (a, j))

  retry_audited-Orderly :
      (a : AuditEvent) (t : StepTransition) (d : ℕ)
      → Keeps (Orderly w) (call w (Call.append_audit a) >> call w (Call.retry_step t d))
  retry_audited-Orderly a t d = audited-Orderly a (Call.retry_step t d) (λ h j. (a, j))

  transition-Orderly :
      (op : OperationContext) (phase : OperationPhase) (step : OperationStep) (event : String)
      → Keeps (Orderly w) (transition w op phase step event)
  unfolding transition
  transition-Orderly op phase step event =
      search (keeps_rules, perform-Orderly, advance_audited-Orderly)

  record_retry-Orderly :
      (op : OperationContext) (cause : Error) → Keeps (Orderly w) (record_retry w op cause)
  unfolding record_retry
  record_retry-Orderly op cause = search (keeps_rules, perform-Orderly, retry_audited-Orderly)

  retry-Orderly : (op : OperationContext) (cause : Error) → Keeps (Orderly w) (retry w op cause)
  unfolding retry
  retry-Orderly op cause =
      bind-Keeps _ _ (attempt-Keeps _ (record_retry-Orderly op cause)) λ r. fail-Keeps _

  or_retry-Orderly :
      {A : Type 0} (op : OperationContext) (r : Result Error A) (next : A → Exec WorkResult)
      → ((a : A) → Keeps (Orderly w) (next a))
      → Keeps (Orderly w) (or_retry w op r next)
  unfolding or_retry
  or_retry-Orderly op (ok a) next k = k a
  or_retry-Orderly op (err x) next k = retry-Orderly op x

  perform_step-Orderly :
      (item : Item) (op : OperationContext) → Keeps (Orderly w) (perform_step w item op)
  unfolding perform_step
  perform_step-Orderly item op = bind-Keeps _ _ (attempt-Keeps _ (run_step-Orderly op)) λ r.
      or_retry-Orderly op r _ λ next.
        bind-Keeps _ _ (attempt-Keeps _ (transition-Orderly op next.phase next.step next.event))
          λ m. or_retry-Orderly op m _ λ _. return-Keeps _

  execute_phase-Orderly :
      (p : OperationPhase) (item : Item) (op : OperationContext)
      → Keeps (Orderly w) (execute_phase w p item op)
  unfolding execute_phase
  execute_phase-Orderly succeeded item op = return-Keeps _
  execute_phase-Orderly failed item op = return-Keeps _
  execute_phase-Orderly running item op = perform_step-Orderly item op
  execute_phase-Orderly (other_phase x) item op = fail-Keeps _
  execute_phase-Orderly pending item op =
      bind-Keeps _ _ (attempt-Keeps _ (transition-Orderly op running op.step "claimed"))
        λ r. or_retry-Orderly op r _ λ _. perform_step-Orderly item _

  execute-Orderly : (item : Item) → Keeps (Orderly w) (execute w item)
  unfolding execute
  execute-Orderly item = search (orderly_rules, execute_phase-Orderly) depth 12

-- Whatever the ports answer, executing a work item keeps the calls in order: a publication is
-- published or withdrawn directly after its intent was saved, and confirmed directly after that
-- call returned; a model's files are removed only after its custom resource; the runtime facts that
-- are saved are those that the observation directly before returned, and the model that is saved is
-- the one that was just returned, known to be ready; and without an atomic store each change of the
-- operation directly follows an audit event.
pub execute_keeps_order :
    (w : World) (item : Item) (h : History) → Orderly w h → Orderly w (execute w item h).1
execute_keeps_order w item h i = (execute-Orderly w item).kept h i
