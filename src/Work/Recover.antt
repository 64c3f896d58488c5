-- ===== src/Work/Recover.antt =====
-- `ListTenants`, `ScanUndeletedServices`, `Recover` and `Repair` of WorkStore
-- (internal/data/postgres/work_store.go). The services of a tenant are listed in the order of the
-- table, which has no column updated_at here.
use ani_inference_service.Failure.{Error, external}
use ani_inference_service.Work.Table.{Service, Tables}
use ani_inference_service.Work.Store.{Moment, Session, ended, heard, store_notify, written}
use ani_inference_service.Work.Settle.{ensure_resource_work}
use ani_inference_service.Prelude.{
  String, some, str_eq, ℕ, List, none, ◌∷◌, [], Option, not, if◌then◌else◌, Result, err, ◌&&◌,
}
use ani_inference_service.Effect.{Effect, ◌>>=◌, ◌>>◌, return}
use ani_inference_service.Names.{sort, add_name}

-- `ListTenantScopes` before it is ordered.
unfoldable pub tenants_of : List Service → List String
unfolding add_name
tenants_of [] = []
tenants_of (s ∷ ss) = if s.deleted then tenants_of ss else add_name s.tenant_id (tenants_of ss)

-- `ListUndeletedServices`.
unfoldable pub undeleted : String → List Service → List Service
undeleted tenant [] = []
undeleted tenant (s ∷ ss) =
    let rest = undeleted tenant ss in
    if str_eq s.tenant_id tenant && not s.deleted then s ∷ rest else rest

-- `EnsureResourceWork` as Repair calls it.
unfoldable pub store_ensure :
    (String → Option String) → Moment → String → String → ℕ → Tables → Result Error Unit × Tables
unfolding ensure_resource_work
store_ensure parse_uuid m tenant_id service_id version t = elim (parse_uuid tenant_id) [
  | none ↦ (err (external "tenant_id"), t)
  | some tenant ↦ elim (parse_uuid service_id) [
    | none ↦ (err (external "service_id"), t)
    | some service ↦ written m.connection (ensure_resource_work tenant service version m.now t) t
  ]
]

module _ (parse_uuid : String → Option String) (moments : ℕ → Moment) where
  -- One call of the database.
  abbrev pub called :
      {A : Type 0} → (Moment → Tables → Result Error A × Tables) → Effect Session Error A
  called f s = ended s (f (moments s.turn) s.tables)

  unfoldable pub list_tenants : Effect Session Error (List String)
  unfolding tenants_of sort
  list_tenants = called (λ m. heard m.connection (λ t. (sort (tenants_of t.services), t)))

  unfoldable pub scan_undeleted : String → Effect Session Error (List Service)
  unfolding undeleted
  scan_undeleted tenant_id s = elim (parse_uuid tenant_id) [
    | none ↦ (err (external "tenant_id"), s)
    | some tenant ↦ called (λ m. heard m.connection (λ t. (undeleted tenant t.services, t))) s
  ]

  -- The statement for each service of a list, until one fails.
  module _ (statement : Moment → String → String → ℕ → Tables → Result Error Unit × Tables) where
    unfoldable pub for_services : List Service → Effect Session Error Unit
    for_services [] = return tt
    for_services (v ∷ vs) =
        called (λ m. statement m v.tenant_id v.id v.desired_generation) >> for_services vs

    unfoldable pub for_tenants : List String → Effect Session Error Unit
    unfolding scan_undeleted for_services
    for_tenants [] = return tt
    for_tenants (tenant ∷ tenants) = (scan_undeleted tenant >>= for_services) >> for_tenants tenants

    unfoldable pub for_all : Effect Session Error Unit
    unfolding list_tenants for_tenants
    for_all = list_tenants >>= for_tenants

  -- `Recover`.
  unfoldable pub recover : Effect Session Error Unit
  unfolding for_all
  recover = for_all (store_notify parse_uuid)

  -- `Repair`.
  unfoldable pub repair : Effect Session Error Unit
  unfolding for_all store_ensure
  repair = for_all (store_ensure parse_uuid)
