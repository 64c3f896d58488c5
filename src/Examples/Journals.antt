-- ===== src/Examples/Journals.antt =====
-- The theorem about steps with their audit events at a create operation that is claimed.
use ani_inference_service.Work.Table.{find_service}
use ani_inference_service.Operation.Replaced.{IsKeyed}
use ani_inference_service.Examples.Operations.{any_uuid, leased_tables, claims, created_operation}
use ani_inference_service.Operation.Audited.{Journal, step_with_audit, AuditedEvent}
use ani_inference_service.Prelude.{refl, [], ok, false, ◌∷◌}
use ani_inference_service.Operation.Recorded.{StepOutcome, step_with_audit-StepOutcome}
use ani_inference_service.Operation.{running, validate_transition}

abbrev claim_event : AuditedEvent
claim_event = record {
  tenant_id = "tenant";
  event_id = "event";
  service_id = "a";
  operation_id = "operation";
  generation = 1;
  event_type = "inference.operation.step.claimed";
  actor = "";
  request_id = "";
  before_state = "pending/admission";
  after_state = "running/admission";
  payload = "";
}

abbrev journal : Journal
journal = record { tables = leased_tables; operations = created_operation ∷ []; events = [] }

abbrev claimed_journal : Journal
claimed_journal = record journal {
  operations = record created_operation { phase = running; updated_at = 1 } ∷ [];
  events = record claim_event { payload = "{}" } ∷ [];
}

step_with_audit-StepOutcome_example :
    StepOutcome any_uuid false 0 1 claim_event claims journal (ok tt, claimed_journal)
unfolding step_with_audit IsKeyed validate_transition find_service
step_with_audit-StepOutcome_example =
    step_with_audit-StepOutcome any_uuid false 0 1 claim_event claims journal (refl, tt)
