-- ===== src/Examples/Gpus.antt =====
-- The theorems about GPU requests at a deployment with two replicas.
use ani_inference_service.Gpu.Arranged.{new_release_proof-Permᴰ}
use ani_inference_service.Gpu.Proof.{Hashes, new_release_proof}
use mathlib.Core.List.{Permᴰ}
use Prim.Native.String.{◌++◌ as ◌&◌}
use ani_inference_service.Contract.Topology.{IsBounded, Ungrouped, normalize_topology-IsBounded}
use ani_inference_service.Contract.{normalize_topology, RuntimeSpec}
use ani_inference_service.Gpu.Patterns.{is_container_name}
use ani_inference_service.Prelude.{
  ◌↔◌, refl, ◌≡◌, ok, [], ◌∷◌, some, pos, String, is_blank, trim_space, err, true, Bool, List,
}
use ani_inference_service.Gpu.{
  GpuRequest, Snapshot, deployment, total_pods, validate_snapshot, validate_request,
  validate_execution, same_request, leader_worker_set,
}
use ani_inference_service.Gpu.Patterns.{is_uuid, is_container_name, is_digest}
use ani_inference_service.Prelude.{trim_space, is_blank}
use ani_inference_service.Gpu.Pods.{Pods, total_pods_iff}
use ani_inference_service.Gpu.Frozen.{validate_snapshot_idempotent}
use ani_inference_service.Gpu.Release.{
  ReleaseProofInput, validate_release_proof_input, duplicate_pod,
}
use ani_inference_service.Runner.State.{PodRef}

total_pods_iff_example :
    (total_pods (pos 2) deployment (pos 0) ≡ ok 2) ↔ Pods (pos 2) deployment (pos 0) 2
total_pods_iff_example = total_pods_iff (pos 2) (pos 0) deployment 2

abbrev some_id : String
some_id = "0f8fad5b-d9cb-469f-a165-70867728950e"

abbrev some_digest : String
some_digest = "0123456789abcdef0123456789abcdef0123456789abcdef0123456789abcdef"

abbrev gpus : GpuRequest
gpus = record {
  cluster_id = some_id;
  pool_id = some_id;
  profile_id = some_id;
  profile_version = 1;
  replicas = 2;
  devices_per_replica = 1;
  container_name = "kserve-container";
}

-- A snapshot with its own digest left empty.
abbrev resolved : String → Snapshot
resolved digest = record {
  request = some gpus;
  execution = some (record {
    scheduler_name = "volcano";
    queue_name = "default";
    runtime_class_name = "nvidia";
    node_selector = ("pool", "a") ∷ [];
    pod_annotations = [];
    resources = ("nvidia.com/gpu", "1") ∷ [];
    execution_digest = some_digest;
  });
  display = some (record {
    profile_id = some_id;
    profile_version = 1;
    profile_name = "one card";
    model_key = "a100";
    mode = pos 1;
  });
  execution_digest = digest;
}

validate_snapshot_idempotent_example :
    validate_snapshot (resolved some_digest) gpus ≡ ok (resolved some_digest)
unfolding validate_snapshot same_request validate_request is_uuid is_container_name
    validate_execution is_digest trim_space is_blank
validate_snapshot_idempotent_example =
    validate_snapshot_idempotent (resolved "") (resolved some_digest) gpus refl

abbrev pod : String → PodRef
pod uid = record {
  cluster_id = "cluster";
  namespace = "tenant";
  name = "service-0";
  uid = uid;
  container_name = "kserve-container";
}

abbrev proof : ReleaseProofInput
proof = record {
  tenant_id = "tenant";
  resource_id = "service";
  create_operation_id = "create";
  delete_operation_id = "delete";
  sealed_at = "2026-01-01T00:00:00Z";
  pods = pod "first" ∷ pod "second" ∷ [];
}

abbrev any_time : String → Bool
any_time s = true

-- It passes, and would not with one Pod twice.
passes : validate_release_proof_input any_time proof ≡ ok tt
unfolding validate_release_proof_input is_blank
passes = refl

refuses_twice :
    validate_release_proof_input any_time (record proof { pods = pod "first" ∷ pod "first" ∷ [] })
    ≡ err (duplicate_pod "first")
unfolding validate_release_proof_input is_blank
refuses_twice = refl

abbrev grouped_runtime : RuntimeSpec
grouped_runtime = record {
  mode = leader_worker_set;
  provider = " KServe ";
  worker_replicas = pos 2;
}

normalize_topology-IsBounded_example :
    IsBounded 0 (record {
      execution_replicas = 9;
      container_name = "main";
      devices_per_replica = 0;
      total_devices = 0;
    })
    × (total_pods (pos 3) leader_worker_set (pos 2) ≡ ok 9)
    × Ungrouped 0 leader_worker_set
unfolding normalize_topology
normalize_topology-IsBounded_example =
    normalize_topology-IsBounded grouped_runtime (pos 3) 0
      (record {
        execution_replicas = 9;
        container_name = "main";
        devices_per_replica = 0;
        total_devices = 0;
      })
      refl

-- Encodings that keep the order of the Pods.
abbrev uids : List PodRef → String
uids [] = ""
uids (p ∷ ps) = p.uid & " " & uids ps

abbrev plain : Hashes
plain = record { marshal = λ i. some (uids i.pods); sha256_hex = λ s. s; sha1_uuid = λ s. s }

new_release_proof-Permᴰ_example :
    new_release_proof plain any_time (record proof { pods = pod "second" ∷ pod "first" ∷ [] })
    ≡ new_release_proof plain any_time proof
new_release_proof-Permᴰ_example =
    new_release_proof-Permᴰ plain any_time proof (pod "second" ∷ pod "first" ∷ []) passes
      (Permᴰ.swap refl refl)

-- Its digest is over the Pods in the order of their UIDs.
digest_in_order :
    new_release_proof plain any_time (record proof { pods = pod "second" ∷ pod "first" ∷ [] })
    ≡ ok (record {
      evidence_id = "ani-inference/managed-gpu-release-proof/delete";
      evidence_digest = "sha256:first second ";
    })
unfolding new_release_proof is_blank
digest_in_order = refl
