-- ===== src/Contract/Topology.antt =====
-- What `NormalizeTopology` (api/inference/contract/v1/managed_contract.go) computes, against
-- `TotalPods` (internal/biz/gpu/gpu.go).
use native.Mathlib.Nat.{le-div_iff_mul-le}
use ani_inference_service.Gpu.{unset_mode, deployment, leader_worker_set, other_mode}
use ani_inference_service.Gpu.Pods.{
  single, groups, by_default, by_deployment, Single, Pods, Pods-total_pods,
}
use ani_inference_service.Gpu.{total_pods}
use ani_inference_service.Contract.{
  max_int64, ExecutionTopology, max_int32, containers, bounded_topology, too_many_devices,
  too_many_containers, too_many_gpu_containers, RuntimeMode, normalize_topology, RuntimeSpec,
  is_kserve, provider_not_kserve, replicas_not_positive,
}
use ani_inference_service.Prelude.{
  ◌≤◌, ℕ, ◌*◌, ◌≡◌, ◌<◌, ◌/◌, not, arith, ok-injective, ok, String, suc, ◌>>◌, pos, ◌&&◌, refl,
  guard, false, leb, ltb, zero, ℤ, leb→le, subst, guard-then-eq-ok, ltb_ℤ, ◌+◌, ap, >>=-eq-ok, ◌∙◌,
  ◌>>=◌, negsuc, sym, not-eq-true,
}

-- A topology within the bounds of the wire and of the accelerator.
pub record IsBounded (devices : ℕ) (t : ExecutionTopology) : Type 0 where
  pub containers_fit : t.execution_replicas ≤ max_int32
  pub devices_kept : t.devices_per_replica ≡ devices
  pub devices_counted : t.total_devices ≡ t.execution_replicas * devices
  pub devices_fit : t.total_devices ≤ max_int64
  pub gpu_containers : 0 < devices → t.execution_replicas ≤ 16

devices_within :
    (devices pods : ℕ)
    → (ltb 0 devices && ltb (max_int64 / devices) pods) ≡ false
    → pods * devices ≤ max_int64
devices_within zero pods h = omega arith
devices_within (suc n) pods h = (le-div_iff_mul-le {k = suc n} (omega arith)).0 (ground arith)

bounded_topology-IsBounded :
    (devices pods : ℕ) (name : String) (t : ExecutionTopology)
    → bounded_topology devices (pods, name) ≡ ok t
    → IsBounded devices t × (t.execution_replicas ≡ pods)
unfolding bounded_topology
bounded_topology-IsBounded devices pods name t e =
    let result : ExecutionTopology = record {
      execution_replicas = pods;
      container_name = name;
      devices_per_replica = devices;
      total_devices = pods * devices;
    } in
    let few = not (ltb 0 devices && ltb 16 pods) in
    let counted = not (ltb 0 devices && ltb (max_int64 / devices) pods) in
    let third = guard counted too_many_devices >> ok result in
    let (small, e1) =
      guard-then-eq-ok (leb pods max_int32) too_many_containers
        (guard few too_many_gpu_containers >> third) e in
    let (gpu, e2) = guard-then-eq-ok few too_many_gpu_containers third e1 in
    let (within, same) = guard-then-eq-ok counted too_many_devices (ok result) e2 in
    subst (λ x. IsBounded devices x × (x.execution_replicas ≡ pods)) (ok-injective same)
      (
        record {
          containers_fit = leb→le pods max_int32 small;
          devices_kept = refl;
          devices_counted = refl;
          devices_fit = devices_within devices pods (not-eq-true _ within);
          gpu_containers = λ h. ground arith;
        },
        refl,
      )

single-parts :
    (replicas workers devices pods : ℕ) (name : String)
    → containers replicas deployment (pos workers) devices ≡ ok (pods, name)
    → (workers ≤ 1) × (replicas ≡ pods)
unfolding containers
single-parts replicas workers devices pods name e = (ground arith, ground arith)

groups-parts :
    (replicas workers devices pods : ℕ) (name : String)
    → containers replicas leader_worker_set (pos workers) devices ≡ ok (pods, name)
    → (1 ≤ workers) × (devices ≡ 0) × (replicas * (workers + 1) ≡ pods)
unfolding containers
groups-parts replicas workers devices pods name e = (ground arith, ground arith, ground arith)

-- Groups have no accelerator devices.
abbrev pub Ungrouped : ℕ → RuntimeMode → Type 0
Ungrouped devices mode = mode ≡ leader_worker_set → devices ≡ 0

Single-Pods :
    (replicas workers devices pods : ℕ) (name : String) {mode : RuntimeMode}
    → Single mode
    → 1 ≤ replicas
    → containers replicas deployment (pos workers) devices ≡ ok (pods, name)
    → Pods (pos replicas) mode (pos workers) pods
Single-Pods replicas workers devices pods name m h e =
    let (w, same) = single-parts replicas workers devices pods name e in
    subst (Pods (pos replicas) _ (pos workers)) same (single m h w)

containers-Pods :
    (replicas devices pods : ℕ) (workers : ℤ) (name : String) (mode : RuntimeMode)
    → 1 ≤ replicas
    → pods ≤ max_int32
    → containers replicas mode workers devices ≡ ok (pods, name)
    → Pods (pos replicas) mode workers pods × Ungrouped devices mode
unfolding containers
containers-Pods replicas devices pods (pos w) name unset_mode h fit e =
    (Single-Pods replicas w devices pods name by_default h e, λ x. cc)
containers-Pods replicas devices pods (pos w) name deployment h fit e =
    (Single-Pods replicas w devices pods name by_deployment h e, λ x. cc)
containers-Pods replicas devices pods (pos w) name leader_worker_set h fit e =
    let (low, none_, same) = groups-parts replicas w devices pods name e in
    let fits : replicas * (w + 1) ≤ max_int32 = subst (λ n. n ≤ max_int32) (sym same) fit in
    (subst (Pods (pos replicas) leader_worker_set (pos w)) same (groups h low fits), λ x. none_)
containers-Pods replicas devices pods workers name (other_mode m) h fit e = cc
containers-Pods replicas devices pods (negsuc w) name unset_mode h fit e = absurd (ground arith)
containers-Pods replicas devices pods (negsuc w) name deployment h fit e = absurd (ground arith)
containers-Pods replicas devices pods (negsuc w) name leader_worker_set h fit e =
    absurd (ground arith)

-- A business topology that is normalised runs as many containers as `TotalPods` counts Pods, which an
-- int32 holds; with accelerator devices these are at most 16, in no groups, and the number of all
-- devices is their product with the devices of each, which an int64 holds.
pub normalize_topology-IsBounded :
    (runtime : RuntimeSpec) (replicas : ℤ) (devices : ℕ) (t : ExecutionTopology)
    → normalize_topology runtime replicas devices ≡ ok t
    → IsBounded devices t
      × (total_pods replicas runtime.mode runtime.worker_replicas ≡ ok t.execution_replicas)
      × Ungrouped devices runtime.mode
unfolding normalize_topology
normalize_topology-IsBounded runtime (pos n) devices t e =
    let found = containers n runtime.mode runtime.worker_replicas devices in
    let end = found >>= bounded_topology devices in
    let kserve = guard (is_kserve runtime.provider) provider_not_kserve >> end in
    let (positive, e1) =
      guard-then-eq-ok (not (ltb_ℤ (pos n) (pos 1))) replicas_not_positive kserve e in
    let (k, e2) = guard-then-eq-ok (is_kserve runtime.provider) provider_not_kserve end e1 in
    let ((pods, name), counted, e3) = >>=-eq-ok (bounded_topology devices) found e2 in
    let (bounded, same) = bounded_topology-IsBounded devices pods name t e3 in
    let fit = subst (λ x. x ≤ max_int32) same bounded.containers_fit in
    let (meant, ungrouped) =
      containers-Pods n devices pods runtime.worker_replicas name runtime.mode (ground arith) fit
        counted in
    (bounded, Pods-total_pods meant ∙ ap ok (sym same), ungrouped)
normalize_topology-IsBounded runtime (negsuc n) devices t e =
    let end =
      containers 0 runtime.mode runtime.worker_replicas devices >>= bounded_topology devices in
    let kserve = guard (is_kserve runtime.provider) provider_not_kserve >> end in
    let (positive, e1) =
      guard-then-eq-ok (not (ltb_ℤ (negsuc n) (pos 1))) replicas_not_positive kserve e in
    absurd (ground arith)
