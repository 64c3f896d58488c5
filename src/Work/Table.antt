-- ===== src/Work/Table.antt =====
-- The tables behind durable work: inference_resource_work and the columns of inference_services
-- that its statements read (migrations/000001_inference_control_plane.sql). Times are microseconds.
use ani_inference_service.Prelude.{
  if◌then◌else◌, ℕ, leb, ◌||◌, false, ltb, Bool, ◌&&◌, String, suc, ◌∷◌, Option, [], none, List,
  some, str_eq,
}

-- A row of inference_services. `deleted` is `deleted_at IS NOT NULL`.
pub record Service : Type 0 where
  pub tenant_id : String
  pub id : String
  pub desired_state : String
  pub desired_generation : ℕ
  pub deleted : Bool
  pub current_operation_id : String

-- A row of inference_resource_work. NULL is `none`.
pub record WorkRow : Type 0 where
  pub tenant_id : String
  pub service_id : String
  pub dirty_version : ℕ
  pub acknowledged_version : ℕ
  pub next_run_at : Option ℕ
  pub attempt : ℕ
  pub lease_owner : Option String
  pub lease_until : Option ℕ
  pub lease_token : Option String
  pub last_error_code : String
  pub updated_at : ℕ

pub record Tables : Type 0 where
  pub services : List Service
  pub work : List WorkRow

-- `WHERE tenant_id = .. AND service_id = ..`, the primary key.
abbrev pub has_key : String → String → WorkRow → Bool
has_key tenant service r = str_eq r.tenant_id tenant && str_eq r.service_id service

-- The row of inference_services that a work row is joined with.
unfoldable pub find_service : String → String → List Service → Option Service
find_service tenant id [] = none
find_service tenant id (s ∷ ss) =
    if str_eq s.tenant_id tenant && str_eq s.id id then some s else find_service tenant id ss

-- `UPDATE .. SET .. WHERE ..`, with the number of rows it affects.
unfoldable pub update_where : {A : Type 0} → (A → Bool) → (A → A) → List A → List A × ℕ
update_where test change [] = ([], 0)
update_where test change (r ∷ rs) =
    let rest = update_where test change rs in
    if test r then (change r ∷ rest.0, suc rest.1) else (r ∷ rest.0, rest.1)

-- `lease_until > clock_timestamp()`.
abbrev pub is_live : ℕ → Option ℕ → Bool
is_live now none = false
is_live now (some until) = ltb now until

-- `lease_token = $`.
abbrev pub is_token : String → Option String → Bool
is_token token none = false
is_token token (some own) = str_eq own token

abbrev pub greatest : ℕ → ℕ → ℕ
greatest a b = if leb a b then b else a

abbrev pub has_row : String → String → List WorkRow → Bool
has_row tenant service [] = false
has_row tenant service (r ∷ rs) = has_key tenant service r || has_row tenant service rs

-- The row without a lease.
abbrev pub unleased : WorkRow → WorkRow
unleased r = record r { lease_owner = none; lease_until = none; lease_token = none }
