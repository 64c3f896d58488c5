-- ===== src/Work/Listed.antt =====
-- The services that recovery goes over are all that are not deleted.
use ani_inference_service.Names.Sorted.{contains-add, contains-head, contains-sort}
use ani_inference_service.Work.Table.{Service}
use ani_inference_service.Work.Recover.{tenants_of, undeleted}
use ani_inference_service.Prelude.{
  str_eq, arith, [], All-map, refl, All, List, false, true, Bool, ◌≡◌, ◌&&◌, not, ◌∷◌, String,
  if◌then◌else◌, eq_refl, subst, ◌∙◌, All-zip, eq_iff,
}
use ani_inference_service.Names.{contains, sort}

module _ (Q : Service → Type 0) where
  pub undeleted-All : (tenant : String) (vs : List Service) → All Q vs → All Q (undeleted tenant vs)
  unfolding undeleted
  undeleted-All tenant [] all = tt
  undeleted-All tenant (v ∷ vs) (q, all) =
      by_test (str_eq v.tenant_id tenant && not v.deleted) (undeleted-All tenant vs all)
    where
      by_test :
          (b : Bool)
          → All Q (undeleted tenant vs)
          → All Q (if b then v ∷ undeleted tenant vs else undeleted tenant vs)
      by_test true rest = (q, rest)
      by_test false rest = rest

  All-undeleted :
      (tenant : String) (vs : List Service)
      → All Q (undeleted tenant vs)
      → All (λ v. str_eq v.tenant_id tenant ≡ true → v.deleted ≡ false → Q v) vs
  unfolding undeleted
  All-undeleted tenant [] all = tt
  All-undeleted tenant (v ∷ vs) all =
      by_test (str_eq v.tenant_id tenant && not v.deleted) refl (All-undeleted tenant vs) all
    where
      Later : Service → Type 0
      Later u = str_eq u.tenant_id tenant ≡ true → u.deleted ≡ false → Q u

      by_test :
          (b : Bool)
          → (str_eq v.tenant_id tenant && not v.deleted) ≡ b
          → (All Q (undeleted tenant vs) → All Later vs)
          → All Q (if b then v ∷ undeleted tenant vs else undeleted tenant vs)
          → All Later (v ∷ vs)
      by_test true e later (q, rest) = ((λ same live. q), later rest)
      by_test false e later rest =
          ((λ same live. absurd (ground (arith, e, same, live))), later rest)

contains-tenants_of :
    (vs : List Service)
    → All (λ v. v.deleted ≡ false → contains v.tenant_id (tenants_of vs) ≡ true) vs
unfolding tenants_of contains
contains-tenants_of [] = tt
contains-tenants_of (v ∷ vs) = (
  λ live. ground (
    arith,
    live,
    contains-add v.tenant_id v.tenant_id (tenants_of vs),
    contains-head v.tenant_id (tenants_of vs),
  ),
  All-map vs
      (λ u listed live.
        ground (arith, listed live, contains-add u.tenant_id v.tenant_id (tenants_of vs)))
      (contains-tenants_of vs),
)

-- What holds of the tenants of all services holds of the listed ones.
pub tenants_of-contains :
    (P : String → Type 0) (vs : List Service)
    → All (λ v. P v.tenant_id) vs
    → (tenant : String) → contains tenant (tenants_of vs) ≡ true
    → P tenant
unfolding tenants_of contains
tenants_of-contains P [] all tenant there = cc there
tenants_of-contains P (v ∷ vs) (p, all) tenant there =
    by_test (str_eq v.tenant_id tenant) refl (tenants_of-contains P vs all tenant)
  where
    by_test :
        (b : Bool)
        → str_eq v.tenant_id tenant ≡ b
        → (contains tenant (tenants_of vs) ≡ true → P tenant)
        → P tenant
    by_test true e later = subst P (ground (arith, eq_iff v.tenant_id tenant, e)) p
    by_test false e later =
        later (ground (arith, there, e, contains-add tenant v.tenant_id (tenants_of vs)))

swap-All :
    (C : String → Type 0) (R : String → Service → Type 0) (vs : List Service)
    → ((tenant : String) → C tenant → All (R tenant) vs)
    → All (λ v. (tenant : String) → C tenant → R tenant v) vs
swap-All C R [] each = tt
swap-All C R (v ∷ vs) each = ((λ t c. (each t c).0), swap-All C R vs (λ t c. (each t c).1))

-- What holds of the undeleted services of every listed tenant holds of all undeleted services.
pub tenants_of-All :
    (Q : Service → Type 0) (vs : List Service)
    → ((tenant : String)
        → contains tenant (sort (tenants_of vs)) ≡ true
        → All Q (undeleted tenant vs))
    → All (λ v. v.deleted ≡ false → Q v) vs
tenants_of-All Q vs each =
    All-map vs
      (λ v both live.
        both.0 v.tenant_id (contains-sort v.tenant_id (tenants_of vs) ∙ both.1 live)
          (eq_refl v.tenant_id) live)
      (All-zip _ _ vs
        (swap-All (λ t. contains t (sort (tenants_of vs)) ≡ true)
          (λ t v. str_eq v.tenant_id t ≡ true → v.deleted ≡ false → Q v) vs
          (λ t c. All-undeleted Q t vs (each t c)))
        (contains-tenants_of vs))
