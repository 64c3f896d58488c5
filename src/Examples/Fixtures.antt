-- ===== src/Examples/Fixtures.antt =====
-- A world in which every port is configured and answers, and operations of one service.
use ani_inference_service.Failure.{reservation_not_found}
use ani_inference_service.Operation.{OperationKind, OperationPhase, OperationStep}
use ani_inference_service.Runner.State.{
  Reservation, RuntimeObservation, OperationContext, Publication, Item,
}
use ani_inference_service.Prelude.{pos, none, true, err, [], false, ok}
use ani_inference_service.Gpu.{deployment}
use ani_inference_service.Resources.{Spec}
use ani_inference_service.Runner.World.{World}

abbrev no_resources : Spec
no_resources = record { requests = []; limits = []; gpu = none }

abbrev pub reservation : Reservation
reservation = record {
  tenant_id = "tenant";
  service_id = "service";
  operation_id = "operation";
  generation = "1";
  reservation_id = "reservation";
  lease_token = "";
  fence_operation_id = "";
  requested_resources = no_resources;
  demand = record { resources = no_resources; units = 1 };
  state = "pending";
  last_error_code = "";
}

abbrev pub publication : Publication
publication = record {
  tenant_id = "tenant";
  service_id = "service";
  operation_id = "operation";
  generation = 1;
  lease_token = "";
  fence_operation_id = "";
  url = "";
  state = "unknown";
}

-- An operation of a kind in a phase at a step.
abbrev pub operation : OperationKind → OperationPhase → OperationStep → OperationContext
operation kind phase step = record {
  tenant_id = "tenant";
  service_id = "service";
  id = "operation";
  kind = kind;
  actor = "alice";
  request_id = "request";
  lease_token = "";
  phase = phase;
  step = step;
  attempt = 0;
  target_generation = 1;
  reservation = reservation;
  previous_reservation = reservation;
  publication = publication;
  gpu_request = none;
  gpu_snapshot = none;
  managed = false;
  managed_gpu = false;
  managed_gpu_create_operation_id = "";
  managed_gpu_release_pods = [];
  managed_gpu_release_sealed_at = "";
  replicas = pos 1;
  worker_replicas = pos 0;
  runtime_mode = deployment;
}

abbrev observed : RuntimeObservation
observed = record {
  ready = true;
  model_ready = true;
  model_ready_known = true;
  absent = true;
  reason = "";
  release_pods = [];
}

-- Every port is there and succeeds; the current operation is `op`.
abbrev pub calm : OperationContext → World
calm op = record {
  has_store = true;
  has_admission = true;
  has_model = true;
  has_gpu = true;
  has_quota = true;
  has_publication = true;
  has_runtime = true;
  has_managed_gpu_release = true;
  has_audit = true;
  store_is_atomic = false;
  store_keeps_models = true;
  store_keeps_gpu_snapshots = true;
  store_keeps_release_pods = true;
  publication_resolves_endpoints = false;
  retry_after = 0;
  current_operation = λ h i. ok op;
  acknowledge = λ h c. ok tt;
  load_release_pods = λ h o. ok [];
  ensure_model = λ h o. ok (record { ready = true; known = true; reason = "" });
  resolve_gpu = λ h o. ok none;
  quota_get = λ h t r. err reservation_not_found;
  quota_reserve = λ h r. ok r;
  confirm_withdrawn = λ h p. ok true;
  confirm_published = λ h p. ok true;
  endpoint = λ h p. ok "http://gateway";
  observe_runtime = λ h o. ok observed;
  observe_absence = λ h o. ok observed;
  now = λ h. "2026-01-01T00:00:00Z";
  event_uuid = λ id p s a. id;
}

-- The work item of the operation's service.
abbrev pub item : Item
item = record {
  tenant_id = "tenant";
  service_id = "service";
  generation = 1;
  dirty_version = 1;
  lease_token = "lease";
}
