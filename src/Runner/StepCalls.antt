-- ===== src/Runner/StepCalls.antt =====
-- Which calls a step of internal/biz/inference/runner.go can make: any property of the history that
-- these calls keep is kept by the step.
use ani_inference_service.Runner.Ports.{StepResult}
use ani_inference_service.Gpu.{GpuRequest, Snapshot}
use ani_inference_service.Runner.Release.{release_quota_step}
use ani_inference_service.Runner.Provision.{
  admission_step, resolve_by_request, apply_runtime_step, apply_cr_step, resolve_requested,
  materialize_model_step, resolve_gpu_step,
}
use ani_inference_service.Runner.Teardown.{
  observe_absence_step, delete_cr_step, delete_runtime_step,
}
use ani_inference_service.Runner.Expose.{
  observe_runtime_step, publish_step, withdraw_publication_step,
}
use ani_inference_service.Runner.Quota.{
  release_previous_quota_step, recover_reservation, reserve_quota_step, look_up, settle_reservation,
  after_confirm, release_reservation, request_reservation, recovered_confirmed, confirm_reservation,
  save_release,
}
use ani_inference_service.Failure.{Error}
use ani_inference_service.Runner.Execute.{dispatch_step, run_step}
use ani_inference_service.Runner.State.{OperationContext, Reservation}
use ani_inference_service.Prelude.{
  some, none, ok, ◌∷◌, Option, Result, true, false, ◌≡◌, String, Bool, err,
}
use ani_inference_service.Operation.{
  OperationStep, admission, reserve_quota, resolve_gpu, apply_cr, materialize_model, apply_runtime,
  observe_runtime, withdraw_publication, delete_runtime, observe_absence, delete_cr, publish,
  release_quota, release_previous_quota, complete, other_step,
}
use ani_inference_service.Runner.Inversion
use ani_inference_service.Runner.World.{World, Call, perform, History, is_ok}
use ani_inference_service.Runner.Inversion.{Keeps, keeps_rules}

-- The calls of `runStep`. The others load an operation, move it, schedule a retry or audit these.
abbrev pub is_step_call : Call → Bool
is_step_call (Call.current_operation i) = false
is_step_call (Call.advance_step t) = false
is_step_call (Call.retry_step t d) = false
is_step_call (Call.advance_step_with_audit t a) = false
is_step_call (Call.retry_step_with_audit t d a) = false
is_step_call (Call.append_audit a) = false
is_step_call _ = true

-- `I` survives every call of a step.
pub record Allows (I : History → Type 0) : Type 0 where
  pub allow :
      (c : Call)
      → is_step_call c ≡ true
      → (h : History) (b : Bool) → I h
      → I (record { call = c; succeeded = b } ∷ h)

perform-Keeps :
    {I : History → Type 0} {A : Type 0} (a : Allows I) (c : Call) (f : History → Result Error A)
    → is_step_call c ≡ true
    → Keeps I (perform c f)
unfolding perform
perform-Keeps a c f s = record { kept = λ h i. a.allow c s h (is_ok (f h)) i }

ruleset call_rules = (keeps_rules, perform-Keeps)

module _ {I : History → Type 0} (a : Allows I) (w : World) (op : OperationContext) where
  after_confirm-Keeps :
      (r : Reservation) (state : String) (answer : Result Error Unit)
      → Keeps I (after_confirm w op r state answer)
  unfolding after_confirm
  after_confirm-Keeps r state (ok done) = search call_rules
  after_confirm-Keeps r state (err x) = search call_rules

  recovered_confirmed-Keeps :
      (r : Reservation) (recovered : Bool) → Keeps I (recovered_confirmed w op r recovered)
  unfolding recovered_confirmed
  recovered_confirmed-Keeps r true = search call_rules
  recovered_confirmed-Keeps r false = search call_rules

  look_up-Keeps :
      (r : Reservation) (remote : Result Error Reservation) → Keeps I (look_up w op r remote)
  unfolding look_up
  look_up-Keeps r (ok remote) = search call_rules
  look_up-Keeps r (err x) = search call_rules

  recover_reservation-Keeps : (r : Reservation) → Keeps I (recover_reservation w op r)
  unfolding recover_reservation
  recover_reservation-Keeps r = search (call_rules, look_up-Keeps)

  confirm_reservation-Keeps :
      (r : Reservation) (state : String) → Keeps I (confirm_reservation w op r state)
  unfolding confirm_reservation
  confirm_reservation-Keeps r state = search (call_rules, after_confirm-Keeps)

  request_reservation-Keeps : (r : Reservation) → Keeps I (request_reservation w op r)
  unfolding request_reservation
  request_reservation-Keeps r = search (call_rules, confirm_reservation-Keeps)

  settle_reservation-Keeps : (found : Reservation × Bool) → Keeps I (settle_reservation w op found)
  unfolding settle_reservation
  settle_reservation-Keeps (r, recovered) =
      search (
        call_rules, confirm_reservation-Keeps, request_reservation-Keeps, recovered_confirmed-Keeps,
      )

  pub reserve_quota_step-Keeps : Keeps I (reserve_quota_step w op)
  unfolding reserve_quota_step
  reserve_quota_step-Keeps =
      search (call_rules, recover_reservation-Keeps, settle_reservation-Keeps) depth 12

  save_release-Keeps :
      (r : Reservation) (next : StepResult) (answer : Result Error Unit)
      → Keeps I (save_release w op r next answer)
  unfolding save_release
  save_release-Keeps r next (ok done) = search call_rules
  save_release-Keeps r next (err x) = search call_rules

  release_reservation-Keeps :
      (r : Reservation) (next : StepResult) → Keeps I (release_reservation w op r next)
  unfolding release_reservation
  release_reservation-Keeps r next = search (call_rules, save_release-Keeps)

  pub release_previous_quota_step-Keeps : Keeps I (release_previous_quota_step w op)
  unfolding release_previous_quota_step
  release_previous_quota_step-Keeps = search (call_rules, release_reservation-Keeps) depth 12

  pub release_quota_step-Keeps : Keeps I (release_quota_step w op)
  unfolding release_quota_step
  release_quota_step-Keeps = search (call_rules, release_reservation-Keeps) depth 12

  pub withdraw_publication_step-Keeps : Keeps I (withdraw_publication_step w op)
  unfolding withdraw_publication_step
  withdraw_publication_step-Keeps = search call_rules depth 14

  pub publish_step-Keeps : Keeps I (publish_step w op)
  unfolding publish_step
  publish_step-Keeps = search call_rules depth 14

  pub delete_cr_step-Keeps : Keeps I (delete_cr_step w op)
  unfolding delete_cr_step
  delete_cr_step-Keeps = search call_rules depth 14

  pub materialize_model_step-Keeps : Keeps I (materialize_model_step w op)
  unfolding materialize_model_step
  materialize_model_step-Keeps = search call_rules depth 14

  pub admission_step-Keeps : Keeps I (admission_step w op)
  unfolding admission_step
  admission_step-Keeps = search call_rules

  pub apply_cr_step-Keeps : Keeps I (apply_cr_step w op)
  unfolding apply_cr_step
  apply_cr_step-Keeps = search call_rules

  pub apply_runtime_step-Keeps : Keeps I (apply_runtime_step w op)
  unfolding apply_runtime_step
  apply_runtime_step-Keeps = search call_rules

  pub delete_runtime_step-Keeps : Keeps I (delete_runtime_step w op)
  unfolding delete_runtime_step
  delete_runtime_step-Keeps = search call_rules

  resolve_requested-Keeps :
      (r : GpuRequest) (s : Option Snapshot) → Keeps I (resolve_requested w op r s)
  unfolding resolve_requested
  resolve_requested-Keeps r none = search call_rules depth 12
  resolve_requested-Keeps r (some s) = search call_rules

  resolve_by_request-Keeps : (r : Option GpuRequest) → Keeps I (resolve_by_request w op r)
  unfolding resolve_by_request
  resolve_by_request-Keeps none = search call_rules
  resolve_by_request-Keeps (some r) = search (call_rules, resolve_requested-Keeps)

  pub resolve_gpu_step-Keeps : Keeps I (resolve_gpu_step w op)
  unfolding resolve_gpu_step
  resolve_gpu_step-Keeps = resolve_by_request-Keeps op.gpu_request

  pub observe_runtime_step-Keeps : Keeps I (observe_runtime_step w op)
  unfolding observe_runtime_step
  observe_runtime_step-Keeps = search call_rules depth 14

  pub observe_absence_step-Keeps : Keeps I (observe_absence_step w op)
  unfolding observe_absence_step
  observe_absence_step-Keeps = search call_rules depth 14

module _ {I : History → Type 0} (a : Allows I) (w : World) where
  dispatch_step-Keeps : (s : OperationStep) (op : OperationContext) → Keeps I (dispatch_step w s op)
  unfolding dispatch_step
  dispatch_step-Keeps admission op = admission_step-Keeps a w op
  dispatch_step-Keeps reserve_quota op = reserve_quota_step-Keeps a w op
  dispatch_step-Keeps resolve_gpu op = resolve_gpu_step-Keeps a w op
  dispatch_step-Keeps release_previous_quota op = release_previous_quota_step-Keeps a w op
  dispatch_step-Keeps apply_cr op = apply_cr_step-Keeps a w op
  dispatch_step-Keeps materialize_model op = materialize_model_step-Keeps a w op
  dispatch_step-Keeps apply_runtime op = apply_runtime_step-Keeps a w op
  dispatch_step-Keeps observe_runtime op = observe_runtime_step-Keeps a w op
  dispatch_step-Keeps withdraw_publication op = withdraw_publication_step-Keeps a w op
  dispatch_step-Keeps delete_runtime op = delete_runtime_step-Keeps a w op
  dispatch_step-Keeps observe_absence op = observe_absence_step-Keeps a w op
  dispatch_step-Keeps delete_cr op = delete_cr_step-Keeps a w op
  dispatch_step-Keeps publish op = publish_step-Keeps a w op
  dispatch_step-Keeps release_quota op = release_quota_step-Keeps a w op
  dispatch_step-Keeps complete op = Inversion.fail-Keeps _
  dispatch_step-Keeps (other_step s) op = Inversion.fail-Keeps _

  -- A property that survives every call of a step survives the step.
  pub run_step-Keeps : (op : OperationContext) → Keeps I (run_step w op)
  unfolding run_step
  run_step-Keeps op = dispatch_step-Keeps op.step op
