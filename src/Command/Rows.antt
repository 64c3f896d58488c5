-- ===== src/Command/Rows.antt =====
-- Looking rows up behind the statements of a command.
use ani_inference_service.Work.Table.{find_service, update_where, Service}
use ani_inference_service.Prelude.{◌∷◌, [], ◌≡◌, List, some, String, Bool, arith, true, eq_iff}

-- A change of the found service that keeps its key is what is found afterwards.
pub find_service-updated :
    (tenant id : String) (test : Service → Bool) (change : Service → Service) (ss : List Service)
    (s : Service)
    → ((x : Service) → (change x).tenant_id ≡ x.tenant_id)
    → ((x : Service) → (change x).id ≡ x.id)
    → find_service tenant id ss ≡ some s
    → test s ≡ true
    → find_service tenant id (update_where test change ss).0 ≡ some (change s)
unfolding find_service update_where
find_service-updated tenant id test change [] s kt ki found t = cc
find_service-updated tenant id test change (x ∷ ss) s kt ki found t = ground (
  arith,
  kt x,
  ki x,
  λ (e : find_service tenant id ss ≡ some s).
      find_service-updated tenant id test change ss s kt ki e t,
)

-- The service that is found has the key.
pub find_service-key :
    (tenant id : String) (ss : List Service) (s : Service)
    → find_service tenant id ss ≡ some s
    → (s.tenant_id ≡ tenant) × (s.id ≡ id)
unfolding find_service
find_service-key tenant id [] s found = cc
find_service-key tenant id (x ∷ ss) s found = ground (
  arith,
  eq_iff x.tenant_id tenant,
  eq_iff x.id id,
  λ (later : find_service tenant id ss ≡ some s). find_service-key tenant id ss s later,
)
