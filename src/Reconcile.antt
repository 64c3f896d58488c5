-- ===== src/Reconcile.antt =====
-- internal/biz/reconcile/reconcile.go: `Reconciler.Execute` and `Reconciler.Reconcile` over any
-- repository and runtime. `S` is the state of everything that they change.
pub mod Saved
use ani_inference_service.Failure.{Error, stale_generation, external}
use ani_inference_service.Runner.State.{Item, WorkResult}
use ani_inference_service.Prelude.{
  ℕ, Result, ℤ, Bool, err, false, ok, List, String, true, ◌==◌, not, leb, ◌&&◌, str_eq,
}

-- `Desired`.
pub record Desired : Type 0 where
  pub tenant_id : String
  pub service_id : String
  pub generation : ℕ

-- `RuntimeObject`.
pub record RuntimeObject : Type 0 where
  pub binding_generation : ℕ
  pub kind : String
  pub namespace : String
  pub name : String
  pub uid : String
  pub resource_version : String
  pub role : String
  pub expected_uid : String
  pub expected_resource_version : String
  pub missing : Bool
  pub terminating : Bool

-- `Observation`.
pub record Observation : Type 0 where
  pub generation : ℕ
  pub runtime_phase : String
  pub ready_replicas : ℤ
  pub ready_groups : ℤ
  pub ready_workers : ℤ
  pub model_ready : Bool
  pub model_ready_known : Bool
  pub publication_phase : String
  pub invocation_health : String
  pub runtime_mode : String
  pub lws_uid : String
  pub reason : String
  pub objects : List RuntimeObject

-- A computation on the state that returns a value or an error.
abbrev pub Action : Type 0 → Type 0 → Type 0
Action S A = S → Result Error A × S

module _ {S A : Type 0} where
  abbrev pub give : A → Action S A
  give a s = (ok a, s)

  abbrev pub reject : Error → Action S A
  reject e s = (err e, s)

  abbrev pub proceed : {B : Type 0} → Result Error A → (A → Action S B) → Action S B
  proceed (ok a) f s = f a s
  proceed (err e) f s = (err e, s)

  infixl 5 ◌>>=◌
  unfoldable pub ◌>>=◌ : {B : Type 0} → Action S A → (A → Action S B) → Action S B
  (m >>= f) s = let (r, after) = m s in proceed r f after

infixl 5 ◌>>◌
abbrev pub ◌>>◌ : {S B : Type 0} → Action S Unit → Action S B → Action S B
m >> k = m >>= λ _. k

abbrev pub check : {S : Type 0} → Bool → Error → Action S Unit
check true e s = (ok tt, s)
check false e s = (err e, s)

-- The repository, with the leased methods where it has them, and the runtime.
pub record Ports (S : Type 0) : Type 0 where
  pub current : String → String → Action S Desired
  pub save_observation : String → String → ℕ → Observation → Action S Unit
  pub is_leased : Bool
  pub current_for_work : Item → Action S Desired
  pub save_observation_for_work : Item → Observation → Action S Unit
  pub ensure : Desired → Action S Observation

-- The item's test in Execute.
abbrev pub is_complete : Item → Bool
is_complete item =
    not (str_eq item.tenant_id "")
    && not (str_eq item.service_id "")
    && leb 1 item.generation
    && not (str_eq item.lease_token "")

abbrev pub is_same : Item → Desired → Bool
is_same item d =
    str_eq d.tenant_id item.tenant_id
    && str_eq d.service_id item.service_id
    && d.generation == item.generation

module _ {S : Type 0} (ports : Ports S) where
  -- `Execute` with a repository and a runtime.
  unfoldable pub execute_item : Item → Action S WorkResult
  execute_item item = do
    check ports.is_leased (external "lease-scoped reconcile repository is required")
    check (is_complete item) stale_generation
    desired ← ports.current_for_work item
    check (is_same item desired) stale_generation
    observation ← ports.ensure desired
    check (observation.generation == item.generation) stale_generation
    ports.save_observation_for_work item observation
    give (record { generation = item.generation })

  -- `Reconcile`.
  unfoldable pub reconcile : String → String → Action S Unit
  reconcile tenant service = do
    desired ← ports.current tenant service
    observation ← ports.ensure desired
    check (observation.generation == desired.generation) stale_generation
    ports.save_observation tenant service desired.generation observation
