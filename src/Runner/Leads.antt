-- ===== src/Runner/Leads.antt =====
-- Where each step of the runner leads when it succeeds (internal/biz/inference/runner.go).
use ani_inference_service.Prelude.{
  Option, true, some, false, ok, String, err, ◌≡◌, Result, none, arith, Bool,
}
use ani_inference_service.Operation.{
  OperationPhase, running, succeeded, OperationStep, reserve_quota, resolve_gpu, apply_cr,
  materialize_model, apply_runtime, observe_runtime, delete_runtime, observe_absence, publish,
  release_quota, complete,
}
use ani_inference_service.Gpu.{GpuRequest, Snapshot}
use ani_inference_service.Failure.{Error}
use ani_inference_service.Runner.State.{OperationContext, Reservation}
use ani_inference_service.Runner.World.{World}
use ani_inference_service.Runner.Ports.{StepResult}
use ani_inference_service.Runner.Inversion.{Ensures, ensures_rules}
use ani_inference_service.Runner.Quota.{
  settle_reservation, reserve_quota_step, release_previous_quota_step, confirm_reservation,
  after_confirm, recovered_confirmed, request_reservation, save_release,
}
use ani_inference_service.Runner.Release.{release_quota_step}
use ani_inference_service.Runner.Provision.{
  admission_step, resolve_gpu_step, apply_cr_step, materialize_model_step, apply_runtime_step,
  resolve_requested, resolve_by_request,
}
use ani_inference_service.Runner.Teardown.{
  delete_runtime_step, observe_absence_step, delete_cr_step, after_absence,
}
use ani_inference_service.Runner.Expose.{
  observe_runtime_step, publish_step, withdraw_publication_step,
}

abbrev pub Leads : OperationPhase → OperationStep → StepResult → Type 0
Leads phase step next = (next.phase ≡ phase) × (next.step ≡ step)

module _ (w : World) (op : OperationContext) where
  after_confirm-Leads :
      (r : Reservation) (state : String) (answer : Result Error Unit)
      → Ensures (Leads running resolve_gpu) (after_confirm w op r state answer)
  unfolding after_confirm
  after_confirm-Leads r state (ok done) = search (ensures_rules, arith)
  after_confirm-Leads r state (err x) = search (ensures_rules, arith)

  recovered_confirmed-Leads :
      (r : Reservation) (recovered : Bool)
      → Ensures (Leads running resolve_gpu) (recovered_confirmed w op r recovered)
  unfolding recovered_confirmed
  recovered_confirmed-Leads r true = search (ensures_rules, arith)
  recovered_confirmed-Leads r false = search (ensures_rules, arith)

  save_release-Ensures :
      {P : StepResult → Type 0} (r : Reservation) (next : StepResult) (answer : Result Error Unit)
      → P next
      → Ensures P (save_release w op r next answer)
  unfolding save_release
  save_release-Ensures r next (ok done) p = search ensures_rules
  save_release-Ensures r next (err x) p = search ensures_rules

  resolve_requested-Leads :
      (r : GpuRequest) (s : Option Snapshot)
      → Ensures (Leads running apply_cr) (resolve_requested w op r s)
  unfolding resolve_requested
  resolve_requested-Leads r none = search (ensures_rules, arith) depth 12
  resolve_requested-Leads r (some s) = search (ensures_rules, arith)

  resolve_by_request-Leads :
      (r : Option GpuRequest) → Ensures (Leads running apply_cr) (resolve_by_request w op r)
  unfolding resolve_by_request
  resolve_by_request-Leads none = search (ensures_rules, arith)
  resolve_by_request-Leads (some r) = search (ensures_rules, resolve_requested-Leads)

  confirm_reservation-Leads :
      (r : Reservation) (state : String)
      → Ensures (Leads running resolve_gpu) (confirm_reservation w op r state)
  unfolding confirm_reservation
  confirm_reservation-Leads r state = search (ensures_rules, after_confirm-Leads)

  settle_reservation-Leads :
      (found : Reservation × Bool)
      → Ensures (Leads running resolve_gpu) (settle_reservation w op found)
  unfolding settle_reservation request_reservation
  settle_reservation-Leads (r, recovered) =
      search (ensures_rules, confirm_reservation-Leads, recovered_confirmed-Leads)

  pub reserve_quota_step-Leads : Ensures (Leads running resolve_gpu) (reserve_quota_step w op)
  unfolding reserve_quota_step
  reserve_quota_step-Leads = search (ensures_rules, settle_reservation-Leads, arith) depth 12

  pub release_previous_quota_step-Leads :
      Ensures (Leads running reserve_quota) (release_previous_quota_step w op)
  unfolding release_previous_quota_step
  release_previous_quota_step-Leads = search (ensures_rules, save_release-Ensures, arith) depth 12

  pub release_quota_step-Leads : Ensures (Leads succeeded complete) (release_quota_step w op)
  unfolding release_quota_step
  release_quota_step-Leads = search (ensures_rules, save_release-Ensures, arith) depth 12

  pub observe_absence_step-Leads :
      Ensures (Leads running (after_absence op.kind)) (observe_absence_step w op)
  unfolding observe_absence_step
  observe_absence_step-Leads = search (ensures_rules, arith) depth 12

  pub publish_step-Leads : Ensures (Leads succeeded complete) (publish_step w op)
  unfolding publish_step
  publish_step-Leads = search (ensures_rules, arith) depth 12

  pub observe_runtime_step-Leads : Ensures (Leads running publish) (observe_runtime_step w op)
  unfolding observe_runtime_step
  observe_runtime_step-Leads = search (ensures_rules, arith) depth 12

  pub withdraw_publication_step-Leads :
      Ensures (Leads running delete_runtime) (withdraw_publication_step w op)
  unfolding withdraw_publication_step
  withdraw_publication_step-Leads = search (ensures_rules, arith) depth 12

  pub materialize_model_step-Leads :
      Ensures (Leads running apply_runtime) (materialize_model_step w op)
  unfolding materialize_model_step
  materialize_model_step-Leads = search (ensures_rules, arith) depth 12

  pub resolve_gpu_step-Leads : Ensures (Leads running apply_cr) (resolve_gpu_step w op)
  unfolding resolve_gpu_step
  resolve_gpu_step-Leads = resolve_by_request-Leads op.gpu_request

  pub admission_step-Leads : Ensures (Leads running reserve_quota) (admission_step w op)
  unfolding admission_step
  admission_step-Leads = search (ensures_rules, arith) depth 12

  pub apply_cr_step-Leads : Ensures (Leads running materialize_model) (apply_cr_step w op)
  unfolding apply_cr_step
  apply_cr_step-Leads = search (ensures_rules, arith) depth 12

  pub apply_runtime_step-Leads : Ensures (Leads running observe_runtime) (apply_runtime_step w op)
  unfolding apply_runtime_step
  apply_runtime_step-Leads = search (ensures_rules, arith) depth 12

  pub delete_runtime_step-Leads : Ensures (Leads running observe_absence) (delete_runtime_step w op)
  unfolding delete_runtime_step
  delete_runtime_step-Leads = search (ensures_rules, arith) depth 12

  pub delete_cr_step-Leads : Ensures (Leads running release_quota) (delete_cr_step w op)
  unfolding delete_cr_step
  delete_cr_step-Leads = search (ensures_rules, arith) depth 12
