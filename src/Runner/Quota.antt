-- ===== src/Runner/Quota.antt =====
-- The steps reserve_quota and release_previous_quota of `Runner.runStep`
-- (internal/biz/inference/runner.go).
use ani_inference_service.Prelude.{
  ◌&&◌, str_eq, format_int, if◌then◌else◌, Result, ◌||◌, Bool, ok, false, err, String, true, not,
}
use ani_inference_service.Operation.{OperationStep, resolve_gpu, reserve_quota}
use ani_inference_service.Failure.{
  Error, reservation_missing, reservation_mismatch, is_reservation_not_found, join,
}
use ani_inference_service.Runner.State.{Reservation, OperationContext}
use ani_inference_service.Runner.World.{
  Call, World, Exec, return, fail, attempt, require, ◌>>=◌, ◌>>◌,
}
use ani_inference_service.Runner.Ports.{
  StepResult, goes_on, error_of, call, quota_get, quota_reserve,
}

-- `validateReservation` as a test.
unfoldable pub matches_operation : OperationContext → Reservation → Bool
matches_operation op r =
    str_eq r.tenant_id op.tenant_id
    && str_eq r.service_id op.service_id
    && str_eq r.operation_id op.id
    && str_eq r.generation (format_int op.target_generation)
    && not (str_eq r.reservation_id "")

-- The reservation with the fence of the running operation.
abbrev pub fenced : OperationContext → Reservation → String → String → Reservation
fenced op r state code = record r {
  state = state;
  lease_token = op.lease_token;
  fence_operation_id = op.id;
  last_error_code = code;
}

abbrev pub next_after_quota : OperationStep
next_after_quota = resolve_gpu

module _ (w : World) where
  -- `Quota.Get` for a reservation that is not known to be reserved: the remote reservation and
  -- whether it replaces the local one.
  unfoldable pub look_up :
      OperationContext → Reservation → Result Error Reservation → Exec (Reservation × Bool)
  unfolding matches_operation is_reservation_not_found
  look_up op local (ok remote) =
      if str_eq remote.reservation_id ""
      then return (local, false)
      else if matches_operation op remote
      then return (remote, true)
      else fail reservation_mismatch
  look_up op local (err e) = if is_reservation_not_found e then return (local, false) else fail e

  unfoldable pub recover_reservation : OperationContext → Reservation → Exec (Reservation × Bool)
  unfolding look_up
  recover_reservation op r =
      if str_eq r.state "reserved"
      then return (r, false)
      else do remote ← attempt (quota_get w r.tenant_id r.reservation_id); look_up op r remote

  -- The last lines of the step: a confirmed reservation is saved under the fence.
  unfoldable pub save_confirmed : OperationContext → Reservation → Exec StepResult
  save_confirmed op r = do
    call w (Call.save_quota (fenced op r "confirmed" ""))
    return (goes_on next_after_quota "quota.confirmed")

  -- `Quota.Confirm` failed: the error is saved with the reservation, in the state given.
  unfoldable pub confirm_failed : OperationContext → Reservation → String → Error → Exec StepResult
  unfolding join
  confirm_failed op r state e = do
    saved ← attempt (call w (Call.save_quota (fenced op r state "quota_confirm_failed")))
    fail (join e (error_of saved))

  unfoldable pub after_confirm :
      OperationContext → Reservation → String → Result Error Unit → Exec StepResult
  unfolding save_confirmed confirm_failed
  after_confirm op r state (ok done) = save_confirmed op r
  after_confirm op r state (err e) = confirm_failed op r state e

  unfoldable pub confirm_reservation : OperationContext → Reservation → String → Exec StepResult
  unfolding after_confirm
  confirm_reservation op r state = do
    answer ← attempt (call w (Call.quota_confirm r))
    after_confirm op r state answer

  unfoldable pub request_reservation : OperationContext → Reservation → Exec StepResult
  unfolding confirm_reservation matches_operation
  request_reservation op r = do
    granted ← quota_reserve w r
    require (matches_operation op granted) reservation_mismatch
    confirm_reservation op granted "reserved"

  unfoldable pub recovered_confirmed : OperationContext → Reservation → Bool → Exec StepResult
  recovered_confirmed op r true = do
    call w (
        Call.save_quota (record r {
          lease_token = op.lease_token;
          fence_operation_id = op.id;
          last_error_code = "";
        }))
    return (goes_on next_after_quota "quota.recovered_confirmed")
  recovered_confirmed op r false = return (goes_on next_after_quota "quota.recovered_confirmed")

  unfoldable pub settle_reservation : OperationContext → Reservation × Bool → Exec StepResult
  unfolding recovered_confirmed confirm_reservation request_reservation
  settle_reservation op (r, recovered) =
      if str_eq r.state "confirmed"
      then recovered_confirmed op r recovered
      else if str_eq r.state "reserved"
      then confirm_reservation op r r.state
      else request_reservation op r

  -- case StepReserveQuota.
  unfoldable pub reserve_quota_step : OperationContext → Exec StepResult
  unfolding recover_reservation settle_reservation matches_operation
  reserve_quota_step op =
      if op.managed || op.managed_gpu
      then return (goes_on next_after_quota "quota.governance_owned")
      else if not w.has_quota
      then return (goes_on next_after_quota "quota.skipped")
      else do
        require (not (str_eq op.reservation.reservation_id "")) reservation_missing
        require (matches_operation op op.reservation) reservation_mismatch
        (if str_eq op.reservation.state "confirmed"
            then return (goes_on next_after_quota "quota.already_confirmed")
            else do found ← recover_reservation op op.reservation; settle_reservation op found)

  -- `Quota.Release` answered; the outcome is saved under the fence.
  unfoldable pub save_release :
      OperationContext → Reservation → StepResult → Result Error Unit → Exec StepResult
  unfolding join
  save_release op r next (ok done) = do
    call w (Call.save_quota (fenced op r "released" ""))
    return next
  save_release op r next (err e) = do
    saved ←
        attempt (call w (Call.save_quota (fenced op r "release_pending" "quota_release_failed")))
    fail (join e (error_of saved))

  unfoldable pub release_reservation : OperationContext → Reservation → StepResult → Exec StepResult
  unfolding save_release
  release_reservation op r next = do
    answer ← attempt (call w (Call.quota_release r))
    save_release op r next answer

  -- case StepReleasePreviousQuota.
  unfoldable pub release_previous_quota_step : OperationContext → Exec StepResult
  unfolding release_reservation
  release_previous_quota_step op =
      if op.managed || op.managed_gpu
      then return (goes_on reserve_quota "previous_quota.governance_owned")
      else if not w.has_quota
      then return (goes_on reserve_quota "previous_quota.skipped")
      else if str_eq op.previous_reservation.reservation_id ""
      then return (goes_on reserve_quota "previous_quota.none")
      else release_reservation op op.previous_reservation
          (goes_on reserve_quota "previous_quota.released")
