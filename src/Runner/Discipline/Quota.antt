-- ===== src/Runner/Discipline/Quota.antt =====
-- The quota steps of internal/biz/inference/runner.go keep the order of calls.
use ani_inference_service.Failure.{Error}
use ani_inference_service.Runner.Ports.{StepResult}
use ani_inference_service.Runner.Discipline.{Orderly, orderly_rules}
use ani_inference_service.Runner.Inversion.{Keeps}
use ani_inference_service.Runner.Release.{release_quota_step}
use ani_inference_service.Runner.Quota.{
  confirm_reservation, recover_reservation, save_release, request_reservation, look_up,
  settle_reservation, reserve_quota_step, recovered_confirmed, after_confirm,
  release_previous_quota_step, release_reservation,
}
use ani_inference_service.Runner.State.{OperationContext, Reservation}
use ani_inference_service.Prelude.{false, err, true, Bool, String, ok, Result}
use ani_inference_service.Runner.World.{World}

module _ (w : World) (op : OperationContext) where
  after_confirm-Orderly :
      (r : Reservation) (state : String) (answer : Result Error Unit)
      → Keeps (Orderly w) (after_confirm w op r state answer)
  unfolding after_confirm
  after_confirm-Orderly r state (ok done) = search orderly_rules
  after_confirm-Orderly r state (err x) = search orderly_rules

  recovered_confirmed-Orderly :
      (r : Reservation) (recovered : Bool)
      → Keeps (Orderly w) (recovered_confirmed w op r recovered)
  unfolding recovered_confirmed
  recovered_confirmed-Orderly r true = search orderly_rules
  recovered_confirmed-Orderly r false = search orderly_rules

  look_up-Orderly :
      (r : Reservation) (remote : Result Error Reservation)
      → Keeps (Orderly w) (look_up w op r remote)
  unfolding look_up
  look_up-Orderly r (ok remote) = search orderly_rules
  look_up-Orderly r (err x) = search orderly_rules

  recover_reservation-Orderly : (r : Reservation) → Keeps (Orderly w) (recover_reservation w op r)
  unfolding recover_reservation
  recover_reservation-Orderly r = search (orderly_rules, look_up-Orderly)

  confirm_reservation-Orderly :
      (r : Reservation) (state : String) → Keeps (Orderly w) (confirm_reservation w op r state)
  unfolding confirm_reservation
  confirm_reservation-Orderly r state = search (orderly_rules, after_confirm-Orderly)

  request_reservation-Orderly : (r : Reservation) → Keeps (Orderly w) (request_reservation w op r)
  unfolding request_reservation
  request_reservation-Orderly r = search (orderly_rules, confirm_reservation-Orderly)

  settle_reservation-Orderly :
      (found : Reservation × Bool) → Keeps (Orderly w) (settle_reservation w op found)
  unfolding settle_reservation
  settle_reservation-Orderly (r, recovered) = search (
    orderly_rules, confirm_reservation-Orderly, request_reservation-Orderly,
    recovered_confirmed-Orderly,
  )

  pub reserve_quota_step-Orderly : Keeps (Orderly w) (reserve_quota_step w op)
  unfolding reserve_quota_step
  reserve_quota_step-Orderly =
      search (orderly_rules, recover_reservation-Orderly, settle_reservation-Orderly) depth 12

  save_release-Orderly :
      (r : Reservation) (next : StepResult) (answer : Result Error Unit)
      → Keeps (Orderly w) (save_release w op r next answer)
  unfolding save_release
  save_release-Orderly r next (ok done) = search orderly_rules
  save_release-Orderly r next (err x) = search orderly_rules

  release_reservation-Orderly :
      (r : Reservation) (next : StepResult) → Keeps (Orderly w) (release_reservation w op r next)
  unfolding release_reservation
  release_reservation-Orderly r next = search (orderly_rules, save_release-Orderly)

  pub release_previous_quota_step-Orderly : Keeps (Orderly w) (release_previous_quota_step w op)
  unfolding release_previous_quota_step
  release_previous_quota_step-Orderly = search (orderly_rules, release_reservation-Orderly) depth 12

  pub release_quota_step-Orderly : Keeps (Orderly w) (release_quota_step w op)
  unfolding release_quota_step
  release_quota_step-Orderly = search (orderly_rules, release_reservation-Orderly) depth 12
