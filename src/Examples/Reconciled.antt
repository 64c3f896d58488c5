-- ===== src/Examples/Reconciled.antt =====
-- The theorem about the reconciler at a repository that keeps the last saved observation.
use ani_inference_service.Prelude.{some, ok, [], Option, true, pos, ℕ}
use ani_inference_service.Reconcile.{Ports, Observation}

abbrev seen : ℕ → Observation
seen generation = record {
  generation = generation;
  runtime_phase = "ready";
  ready_replicas = pos 1;
  ready_groups = pos 0;
  ready_workers = pos 0;
  model_ready = true;
  model_ready_known = true;
  publication_phase = "published";
  invocation_health = "";
  runtime_mode = "Deployment";
  lws_uid = "";
  reason = "";
  objects = [];
}

abbrev repository : Ports (Option Observation)
repository = record {
  current = λ tenant service s.
      (ok (record { tenant_id = tenant; service_id = service; generation = 1 }), s);
  save_observation = λ tenant service generation o s. (ok tt, some o);
  is_leased = true;
  current_for_work = λ i s. (
    ok (record { tenant_id = i.tenant_id; service_id = i.service_id; generation = i.generation }),
    s,
  );
  save_observation_for_work = λ i o s. (ok tt, some o);
  ensure = λ d s. (ok (seen d.generation), s);
}
