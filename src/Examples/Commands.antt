-- ===== src/Examples/Commands.antt =====
-- Commands on a database with one running service.
use ani_inference_service.Command.Repeats.{AnswersAgain, command-AnswersAgain}
use ani_inference_service.Command.Outcome.{accept-Accepted}
use ani_inference_service.Command.Fence.{command-fenced}
use ani_inference_service.Work.Table.{Service}
use ani_inference_service.Operation.Store.{OperationRow}
use ani_inference_service.Command.Results.{Outcome, command-Outcome}
use ani_inference_service.Command.Model.{
  Draw, Environment, CommandInput, OperationResponse, command_response, no_rows,
  generation_conflict,
}
use ani_inference_service.Command.Database.{Database}
use ani_inference_service.Command.Accept.{command, accept}
use ani_inference_service.Prelude.{pos, [], refl, some, err, ◌≡◌, none, ◌∷◌, false}
use ani_inference_service.Operation.{
  create, restart, stop, complete, succeeded, withdraw_publication,
}

abbrev running_service : Service
running_service = record {
  tenant_id = "t1";
  id = "s1";
  desired_state = "running";
  desired_generation = 1;
  deleted = false;
  current_operation_id = "o1";
}

abbrev first_operation : OperationRow
first_operation = record {
  tenant_id = "t1";
  id = "o1";
  service_id = "s1";
  kind = create;
  target_generation = 1;
  phase = succeeded;
  step = complete;
  attempt = 0;
  retry_at = none;
  completed_at = some 5;
  error_code = "";
  error_message = "";
  updated_at = 5;
}

abbrev database : Database
database = record {
  tables = record { services = running_service ∷ []; work = [] };
  operations = first_operation ∷ [];
  specs =
      record {
        tenant_id = "t1";
        id = "p1";
        service_id = "s1";
        generation = 1;
        resources = "{}";
        content = "vllm";
      }
      ∷ [];
  idempotency = [];
  managed = [];
  reservations = [];
  audits = [];
}

abbrev environment : Environment
environment = record {
  parse_uuid = λ s. some s;
  legacy_hash = λ request service generation actor. "legacy";
  accept_managed_delete = λ i d. err no_rows;
}

abbrev drawing : Draw
drawing = record { now = 9; operation_id = "o2"; spec_id = "p2"; event_id = "e2" }

abbrev redrawing : Draw
redrawing = record { now = 11; operation_id = "o3"; spec_id = "p3"; event_id = "e3" }

abbrev restart_request : CommandInput
restart_request = record {
  tenant_id = "t1";
  request_id = "r1";
  actor = "u1";
  service_id = "s1";
  kind = restart;
  request_hash = "h1";
  expected_generation = pos 1;
  managed = false;
}

abbrev stop_request : CommandInput
stop_request = record restart_request { request_id = "r2"; kind = stop; request_hash = "h2" }

abbrev restarted : Database
unfolding command
restarted = (command environment drawing restart_request database).1

abbrev restart_answer : OperationResponse
restart_answer = command_response "s1" "o2" 2 restart withdraw_publication

command-Outcome_example :
    Outcome environment drawing restart_request database
      (command environment drawing restart_request database).0
      (command environment drawing restart_request database).1
command-Outcome_example = command-Outcome environment drawing restart_request database refl

command-AnswersAgain_example :
    AnswersAgain environment restart_request redrawing restart_answer restarted
unfolding command restarted
command-AnswersAgain_example =
    command-AnswersAgain environment restart_request drawing redrawing database restart_answer
      restarted refl refl refl

command-fenced_example :
    command environment redrawing stop_request restarted ≡ (err generation_conflict, restarted)
unfolding accept restarted
command-fenced_example =
    command-fenced environment "t1" "s1" stop_request drawing redrawing restart_request database
      restart_answer restarted
      (accept-Accepted environment drawing "t1" "s1" restart_request database restart_answer
        restarted refl)
      refl refl refl
      (record { tenant_parsed = refl; service_parsed = refl; aimed = refl; known = refl }) refl refl
