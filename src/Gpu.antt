-- ===== src/Gpu.antt =====
-- internal/biz/gpu/gpu.go: GPU requests, the accelerator's frozen execution, and their validation.
pub mod Patterns
pub mod Pods
pub mod Frozen
pub mod Release
pub mod Proof
pub mod Arranged
use ani_inference_service.Prelude.{
  ◌∷◌, not, List, ℤ, or_fail, pos_part, guard, Option, is_blank, false, err, ◌&&◌, trim_space,
  if◌then◌else◌, ◌>>=◌, ◌-◌, ◌^◌, [], ltb_ℤ, pos, ok, String, ◌+◌, Bool, ◌>>◌, str_eq, negsuc, ◌*◌,
  ℕ, ◌||◌, true, Result, ◌==◌, leb,
}
use Patterns.{is_uuid, is_container_name, is_digest}

pub data RuntimeMode : Type 0 where
  unset_mode deployment leader_worker_set : RuntimeMode
  other_mode : String → RuntimeMode

pub record GpuRequest : Type 0 where
  pub cluster_id : String
  pub pool_id : String
  pub profile_id : String
  pub profile_version : ℕ
  pub replicas : ℕ
  pub devices_per_replica : ℕ
  pub container_name : String

pub record Execution : Type 0 where
  pub scheduler_name : String
  pub queue_name : String
  pub runtime_class_name : String
  pub node_selector : List (String × String)
  pub pod_annotations : List (String × String)
  pub resources : List (String × String)
  pub execution_digest : String

pub record Display : Type 0 where
  pub profile_id : String
  pub profile_version : ℕ
  pub profile_name : String
  pub model_key : String
  pub mode : ℤ

-- Nil pointers are `none`.
pub record Snapshot : Type 0 where
  pub request : Option GpuRequest
  pub execution : Option Execution
  pub display : Option Display
  pub execution_digest : String

pub data GpuError : Type 0 where
  invalid_request unsupported_shape replicas_not_positive : GpuError
  workers_not_allowed workers_required pod_count_overflow : GpuError
  pod_count_mismatch : ℕ → GpuError
  wrong_container : String → GpuError
  unsupported_mode : RuntimeMode → GpuError
  invalid_snapshot digest_required empty_execution_entry : GpuError
  invalid_display display_mismatch : GpuError

-- `ValidateRequest` behind its nil test.
unfoldable pub validate_request : GpuRequest → Result GpuError Unit
validate_request r = do
  guard
      (is_uuid r.cluster_id
        && is_uuid r.pool_id
        && is_uuid r.profile_id
        && not (r.profile_version == 0))
      invalid_request
  guard
      (leb 1 r.replicas
        && leb r.replicas 16
        && leb 1 r.devices_per_replica
        && is_container_name r.container_name)
      unsupported_shape

abbrev pub max_int32 : ℕ
max_int32 = 2 ^ 31 - 1

-- The worker test of the modes that take no workers.
no_workers : ℤ → Result GpuError Unit
no_workers workers =
    guard (not (ltb_ℤ (pos 1) workers || ltb_ℤ workers (pos 0))) workers_not_allowed

-- `replicas * (workers + 1)` in 64 bits, where int32 factors cannot overflow.
leader_worker_pods : ℕ → ℤ → Result GpuError ℕ
leader_worker_pods replicas workers = do
  guard (not (ltb_ℤ workers (pos 1))) workers_required
  let total = replicas * (pos_part workers + 1)
  guard (leb total max_int32) pod_count_overflow
  ok total

pods_by_mode : ℕ → RuntimeMode → ℤ → Result GpuError ℕ
unfolding no_workers leader_worker_pods
pods_by_mode replicas unset_mode workers = do no_workers workers; ok replicas
pods_by_mode replicas deployment workers = do no_workers workers; ok replicas
pods_by_mode replicas leader_worker_set workers = leader_worker_pods replicas workers
pods_by_mode replicas (other_mode m) workers = err (unsupported_mode (other_mode m))

-- `TotalPods`.
unfoldable pub total_pods : ℤ → RuntimeMode → ℤ → Result GpuError ℕ
unfolding pods_by_mode
total_pods replicas mode workers = do
  guard (not (ltb_ℤ replicas (pos 1))) replicas_not_positive
  pods_by_mode (pos_part replicas) mode workers

container_by_mode : RuntimeMode → ℤ → String → Result GpuError Unit
unfolding no_workers
container_by_mode unset_mode workers name = do
  no_workers workers
  guard (str_eq name "kserve-container") (wrong_container "kserve-container")
container_by_mode deployment workers name = do
  no_workers workers
  guard (str_eq name "kserve-container") (wrong_container "kserve-container")
container_by_mode leader_worker_set workers name = do
  guard (not (ltb_ℤ workers (pos 1))) workers_required
  guard (str_eq name "main") (wrong_container "main")
container_by_mode (other_mode m) workers name = err (unsupported_mode (other_mode m))

-- `ValidateTopology`.
unfoldable pub validate_topology : GpuRequest → ℤ → RuntimeMode → ℤ → Result GpuError Unit
unfolding container_by_mode
validate_topology r replicas mode workers = do
  validate_request r
  guard (not (ltb_ℤ replicas (pos 1))) replicas_not_positive
  expected ← total_pods replicas mode workers
  guard (r.replicas == expected) (pod_count_mismatch expected)
  container_by_mode mode workers r.container_name

-- Go's `==` on two `Request` values.
unfoldable pub same_request : GpuRequest → GpuRequest → Bool
same_request a b =
    str_eq a.cluster_id b.cluster_id
    && str_eq a.pool_id b.pool_id
    && str_eq a.profile_id b.profile_id
    && a.profile_version == b.profile_version
    && a.replicas == b.replicas
    && a.devices_per_replica == b.devices_per_replica
    && str_eq a.container_name b.container_name

-- No key and no value of the map is blank.
entries_filled : List (String × String) → Bool
entries_filled [] = true
entries_filled ((k, v) ∷ rest) = not (is_blank k) && not (is_blank v) && entries_filled rest

-- `ValidateExecution` behind its nil test.
unfoldable pub validate_execution : Execution → Result GpuError Unit
unfolding entries_filled
validate_execution e = do
  guard (is_digest (trim_space e.execution_digest)) digest_required
  guard
      (entries_filled e.node_selector
        && entries_filled e.pod_annotations
        && entries_filled e.resources)
      empty_execution_entry

mode_is_known : ℤ → Bool
mode_is_known (pos n) = n == 1 || n == 2
mode_is_known (negsuc n) = false

validate_display : Display → GpuRequest → Result GpuError Unit
unfolding mode_is_known
validate_display d request = do
  guard
      (is_uuid d.profile_id
        && str_eq d.profile_id request.profile_id
        && not (d.profile_version == 0)
        && not (is_blank d.profile_name)
        && not (is_blank d.model_key))
      invalid_display
  guard (d.profile_version == request.profile_version && mode_is_known d.mode) display_mismatch

-- The snapshot's own digest, filled in from the execution where it is empty.
filled_digest : Snapshot → Execution → String
filled_digest s e = if str_eq s.execution_digest "" then e.execution_digest else s.execution_digest

-- `ValidateSnapshot`: it returns the snapshot that its pointer refers to afterwards.
unfoldable pub validate_snapshot : Snapshot → GpuRequest → Result GpuError Snapshot
unfolding validate_display filled_digest
validate_snapshot s request = do
  own ← or_fail s.request invalid_snapshot
  guard (same_request own request) invalid_snapshot
  e ← or_fail s.execution invalid_snapshot
  d ← or_fail s.display invalid_snapshot
  validate_request request
  validate_execution e
  validate_display d request
  guard
      (not (str_eq (filled_digest s e) "")
        && not (str_eq e.execution_digest "")
        && str_eq (filled_digest s e) e.execution_digest)
      digest_required
  ok (record s { execution_digest = filled_digest s e })
