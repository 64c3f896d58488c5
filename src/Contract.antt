-- ===== src/Contract.antt =====
-- `NormalizeTopology` (api/inference/contract/v1/managed_contract.go): from a business topology to
-- execution containers. Of the protobuf enum's modes, UNSPECIFIED is `unset_mode`, and a number
-- without a name is `other_mode`.
pub mod Topology
use ani_inference_service.Access.Bytes.{bytes_eq}
use ani_inference_service.Gpu.{leader_worker_set, other_mode, RuntimeMode, max_int32}
use ani_inference_service.Prelude.{
  str_eq, ◌==◌, Result, ltb, err, Bool, ◌-◌, ℤ, ◌>>=◌, ◌/◌, ◌>>◌, trim_space, ◌^◌, leb, ok, ℕ, not,
  ◌+◌, ◌&&◌, String, guard, pos, ◌*◌, pos_part, ltb_ℤ, ◌||◌, map, if◌then◌else◌, [], codes,
}

pub data TopologyError : Type 0 where
  replicas_not_positive provider_not_kserve : TopologyError
  multiple_workers workers_not_positive no_gpu_groups unsupported_mode : TopologyError
  too_many_containers too_many_gpu_containers too_many_devices : TopologyError

-- `RuntimeSpec`, with the fields that are read here.
pub record RuntimeSpec : Type 0 where
  pub mode : RuntimeMode
  pub provider : String
  pub worker_replicas : ℤ

-- `ExecutionTopology`.
pub record ExecutionTopology : Type 0 where
  pub execution_replicas : ℕ
  pub container_name : String
  pub devices_per_replica : ℕ
  pub total_devices : ℕ

abbrev pub max_int64 : ℕ
max_int64 = 2 ^ 63 - 1

-- The number of containers and the name of the one that serves. Both factors of a group are int32, so
-- their product does not overflow int64.
unfoldable pub containers : ℕ → RuntimeMode → ℤ → ℕ → Result TopologyError (ℕ × String)
containers replicas leader_worker_set workers devices = do
  guard (not (ltb_ℤ workers (pos 1))) workers_not_positive
  guard (devices == 0) no_gpu_groups
  ok (replicas * (pos_part workers + 1), "main")
containers replicas (other_mode m) workers devices = err unsupported_mode
containers replicas _ workers devices = do
  guard (not (ltb_ℤ workers (pos 0) || ltb_ℤ (pos 1) workers)) multiple_workers
  ok (replicas, "kserve-container")

-- The last checks, on the number of containers. `max_int64 / devices` is reached only for devices.
unfoldable pub bounded_topology : ℕ → ℕ × String → Result TopologyError ExecutionTopology
bounded_topology devices (pods, name) = do
  guard (leb pods max_int32) too_many_containers
  guard (not (ltb 0 devices && ltb 16 pods)) too_many_gpu_containers
  guard (not (ltb 0 devices && ltb (max_int64 / devices) pods)) too_many_devices
  ok (record {
    execution_replicas = pods;
    container_name = name;
    devices_per_replica = devices;
    total_devices = pods * devices;
  })

-- The characters whose lower case is an ASCII letter. Other characters stay outside ASCII, which is
-- enough to compare with an ASCII word.
unfoldable pub lower_code : ℕ → ℕ
lower_code c =
    if leb 65 c && leb c 90
    then c + 32
    else if c == 0x130
    then 105
    else if c == 0x212a
    then 107
    else c

-- `provider == "" || provider == "kserve"` for the trimmed provider in lower case.
unfoldable pub is_kserve : String → Bool
unfolding trim_space lower_code
is_kserve provider =
    let p = map lower_code (codes (trim_space provider)) in
    bytes_eq p [] || bytes_eq p (codes "kserve")

-- `NormalizeTopology`. The devices are a uint32.
unfoldable pub normalize_topology : RuntimeSpec → ℤ → ℕ → Result TopologyError ExecutionTopology
unfolding is_kserve containers bounded_topology
normalize_topology runtime replicas devices = do
  guard (not (ltb_ℤ replicas (pos 1))) replicas_not_positive
  guard (is_kserve runtime.provider) provider_not_kserve
  found ← containers (pos_part replicas) runtime.mode runtime.worker_replicas devices
  bounded_topology devices found
