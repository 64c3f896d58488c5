-- ===== src/Examples/Lifecycle.antt =====
-- The theorems about the operation state machine and the runner at concrete operations.
use ani_inference_service.Runner.Expose.{publish_step}
use ani_inference_service.Operation.Edges.{Edge}
use ani_inference_service.Runner.World.{◌>>=◌}
use ani_inference_service.Operation.Completeness.{validate_transition_iff}
use ani_inference_service.Runner.Successor.{run_step-validate_transition}
use ani_inference_service.Operation.Edges.{Edge, at_end, last_publish, deploys_create}
use ani_inference_service.Runner.Discipline.Execute.{execute_keeps_order}
use ani_inference_service.Examples.Fixtures.{calm, operation, item}
use ani_inference_service.Runner.Evidence.{run_step-EvidenceOf, SavedPublication}
use ani_inference_service.Runner.Retry.{execute-retries, Retried, failed_at}
use ani_inference_service.Failure.{Error, not_ready, publication_confirmation}
use ani_inference_service.Runner.World.{World}
use ani_inference_service.Runner.Discipline.{Orderly}
use ani_inference_service.Operation.{
  validate_transition, update, create, running, observe_absence, OperationStep,
  release_previous_quota, succeeded, complete,
}
use ani_inference_service.Runner.State.{OperationContext}
use ani_inference_service.Runner.Execute.{execute, run_step}
use ani_inference_service.Runner.Moves.{moves, count_of, execute-moves}
use ani_inference_service.Prelude.{refl, ok, [], ◌+◌, ◌≡◌, ◌↔◌, false, true}

abbrev publishing : OperationContext
publishing = operation create running OperationStep.publish

-- The publish step of a claimed create operation.
run_step-validate_transition_example :
    validate_transition create running OperationStep.publish succeeded complete ≡ ok tt
unfolding run_step publish_step ◌>>=◌
run_step-validate_transition_example =
    run_step-validate_transition (calm publishing) publishing []
      (record { phase = succeeded; step = complete; event = "publication.published" })
      (at_end (last_publish deploys_create)) refl

execute_keeps_order_example : Orderly (calm publishing) (execute (calm publishing) item []).1
execute_keeps_order_example = execute_keeps_order (calm publishing) item [] tt

execute-moves_example :
    moves (execute (calm publishing) item []).1
    ≡ count_of (calm publishing) (execute (calm publishing) item []).0 + 0
execute-moves_example =
    execute-moves (calm publishing) item publishing []
      (record { store = refl; complete_item = refl; loads = refl; current = refl })

-- It succeeds, with one move.
publishes : (execute (calm publishing) item []).0 ≡ ok (record { generation = 1 })
unfolding execute ◌>>=◌ run_step publish_step
publishes = refl

validate_transition_iff_example :
    (validate_transition update running observe_absence running release_previous_quota ≡ ok tt)
    ↔ Edge update running observe_absence running release_previous_quota
validate_transition_iff_example =
    validate_transition_iff update running running observe_absence release_previous_quota

run_step-EvidenceOf_example :
    SavedPublication publishing "published" (run_step (calm publishing) publishing []).1
unfolding run_step publish_step ◌>>=◌
run_step-EvidenceOf_example =
    run_step-EvidenceOf (calm publishing) publishing []
      (record { phase = succeeded; step = complete; event = "publication.published" }) refl

-- An atomic store and a publication that is not confirmed.
abbrev unconfirmed : World
unconfirmed = record (calm publishing) {
  store_is_atomic = true;
  confirm_published = λ h p. ok false;
}

abbrev not_confirmed : Error
not_confirmed = not_ready publication_confirmation ""

execute-retries_example :
    Retried unconfirmed item publishing not_confirmed
      (failed_at unconfirmed item publishing [])
      (execute unconfirmed item []).0
      (execute unconfirmed item []).1
    × (moves (execute unconfirmed item []).1 ≡ 0)
unfolding run_step publish_step ◌>>=◌
execute-retries_example =
    execute-retries unconfirmed item publishing [] not_confirmed
      (record { store = refl; complete_item = refl; loads = refl; current = refl }) refl refl refl
