-- ===== src/Examples/Operations.antt =====
-- The theorem about the durable operations at a create operation that is claimed and put back.
use ani_inference_service.Work.Settle.{new_row}
use ani_inference_service.Prelude.{
  false, refl, String, List, none, ok-injective, [], All, ◌≡◌, some, sym, ◌∷◌, Option, ap,
}
use ani_inference_service.Operation.{create, pending, running, admission, validate_transition}
use ani_inference_service.Operation.Edges.{before, Next}
use ani_inference_service.Operation.Store.{
  OperationRow, OperationStepInput, check_advance, advance_operation_step, retry_operation_step,
}
use ani_inference_service.Operation.Standing.{waits, Stands}
use ani_inference_service.Operation.Persisted.{
  OperationCall, advance_call, retry_call, run_calls, run_calls-Stands,
}
use ani_inference_service.Work.Table.{Tables, find_service}

abbrev pub any_uuid : String → Option String
any_uuid s = some s

abbrev pub created_operation : OperationRow
created_operation = record {
  tenant_id = "tenant";
  id = "operation";
  service_id = "a";
  kind = create;
  target_generation = 1;
  phase = pending;
  step = admission;
  attempt = 0;
  retry_at = none;
  completed_at = none;
  error_code = "";
  error_message = "";
  updated_at = 0;
}

abbrev pub claims : OperationStepInput
claims = record {
  tenant_id = "tenant";
  operation_id = "operation";
  kind = create;
  lease_token = "lease";
  target_generation = 1;
  expected_phase = pending;
  expected_step = admission;
  next_phase = running;
  next_step = admission;
  error_code = "";
  error_message = "";
}

abbrev pub leased_tables : Tables
leased_tables = record {
  services =
      record {
        tenant_id = "tenant";
        id = "a";
        desired_state = "running";
        desired_generation = 1;
        deleted = false;
        current_operation_id = "operation";
      }
      ∷ [];
  work =
      record (new_row "tenant" "a" 1 0) {
        lease_owner = some "worker";
        lease_token = some "lease";
        lease_until = some 30;
      }
      ∷ [];
}

abbrev calls : List OperationCall
calls =
    advance_call 1 leased_tables claims
    ∷ retry_call 5 2 leased_tables (record claims { expected_phase = running })
    ∷ []

-- It is claimed and put back at its step, as its second attempt.
claimed_and_put_back :
    run_calls any_uuid calls (created_operation ∷ [])
    ≡ record created_operation { attempt = 1; retry_at = some 7; updated_at = 2 } ∷ []
unfolding run_calls advance_operation_step retry_operation_step validate_transition find_service
claimed_and_put_back = refl

run_calls-Stands_example : All Stands (run_calls any_uuid calls (created_operation ∷ []))
unfolding check_advance validate_transition
run_calls-Stands_example =
    run_calls-Stands any_uuid calls (created_operation ∷ [])
      ((λ j checked. ((λ expected. ap (λ i. i.kind) (sym (ok-injective checked))), tt)), (tt, tt))
      (waits (before _ Next.admitted), tt)
