-- ===== src/Work/Recovered.antt =====
-- What Recover and Repair have done when they succeed.
use ani_inference_service.Work.Listed.{undeleted-All, tenants_of-contains, tenants_of-All}
use ani_inference_service.Names.Sorted.{contains-head, contains-sort}
use ani_inference_service.Work.Recover.{
  for_tenants, scan_undeleted, for_services, for_all, undeleted, list_tenants, tenants_of,
}
use ani_inference_service.Failure.{Error}
use ani_inference_service.Work.Table.{Tables, Service, has_row}
use ani_inference_service.Work.Store.{
  refused, unheard, answered, Session, Connection, heard, ended, Moment,
}
use ani_inference_service.Prelude.{
  refl, true, ◌≡◌, All, List, ok, ap, String, ◌∙◌, Option, Result, some, false, ok-injective, subst,
  ℕ, ◌∷◌, [], str_eq, All-map, eq_iff, Bool, arith, sym,
}
use ani_inference_service.Effect.{bind-eq-ok}
use ani_inference_service.Names.{contains, sort}

-- The identifiers are printed as they are parsed.
abbrev pub IsCanonical : (String → Option String) → List Service → Type 0
IsCanonical parse_uuid vs =
    All (λ v. (parse_uuid v.tenant_id ≡ some v.tenant_id) × (parse_uuid v.id ≡ some v.id)) vs

-- The service has a row of work.
abbrev pub HasWork : Tables → Service → Type 0
HasWork t v = has_row v.tenant_id v.id t.work ≡ true

-- No row of work is lost, and the services are not changed.
pub record Keeps (t t' : Tables) : Type 0 where
  pub same_services : t'.services ≡ t.services
  pub rows_stay : (v : Service) → HasWork t v → HasWork t' v

pub Keeps-refl : (t : Tables) → Keeps t t
Keeps-refl t = record { same_services = refl; rows_stay = λ v h. h }

pub Keeps-trans : {t u v : Tables} → Keeps t u → Keeps u v → Keeps t v
Keeps-trans a b = record {
  same_services = b.same_services ∙ a.same_services;
  rows_stay = λ v h. b.rows_stay v (a.rows_stay v h);
}

ended-eq :
    {A : Type 0} (s : Session) (answer : Result Error A × Tables) {a : A} {s' : Session}
    → ended s answer ≡ (ok a, s')
    → answer ≡ (ok a, s'.tables)
ended-eq s (r, t) h = cc (ap (λ x. x.0) h, ap (λ x. x.1.tables) h)

heard-eq :
    {A : Type 0} (c : Connection) (f : Tables → A × Tables) (t : Tables) {a : A} {t' : Tables}
    → heard c f t ≡ (ok a, t')
    → f t ≡ (a, t')
heard-eq answered f t h = cc (ok-injective (ap (λ x. x.0) h), ap (λ x. x.1) h)
heard-eq (refused e) f t h = cc
heard-eq (unheard e) f t h = cc

-- What a call of a statement for a service does where it succeeds; `P` is what it keeps.
pub record Lawful (parse_uuid : String → Option String) (moments : ℕ → Moment)
    (statement : Moment → String → String → ℕ → Tables → Result Error Unit × Tables)
    (P : Tables → Tables → Type 0) : Type 0 where
  pub unchanged : (t : Tables) → P t t
  pub chained : (t u v : Tables) → P t u → P u v → P t v
  pub keeps : (t u : Tables) → P t u → Keeps t u
  pub covers :
      (turn : ℕ) (v : Service) (t t' : Tables)
      → parse_uuid v.tenant_id ≡ some v.tenant_id
      → parse_uuid v.id ≡ some v.id
      → statement (moments turn) v.tenant_id v.id v.desired_generation t ≡ (ok tt, t')
      → P t t' × HasWork t' v

module _ (parse_uuid : String → Option String) (moments : ℕ → Moment)
    (statement : Moment → String → String → ℕ → Tables → Result Error Unit × Tables)
    (P : Tables → Tables → Type 0) (lawful : Lawful parse_uuid moments statement P) where
  for_services-All :
      (vs : List Service) (s s' : Session)
      → IsCanonical parse_uuid vs
      → for_services parse_uuid moments statement vs s ≡ (ok tt, s')
      → P s.tables s'.tables × All (HasWork s'.tables) vs
  unfolding for_services
  for_services-All [] s s' canonical h =
      (subst (λ x. P s.tables x.tables) (ap (λ x. x.1) h) (lawful.unchanged s.tables), tt)
  for_services-All (v ∷ vs) s s' ((tenant, id), canonical) h =
      let (u, between, first, rest) = bind-eq-ok h in
      let (kept, covered) =
        lawful.covers s.turn v s.tables between.tables tenant id (ended-eq s _ first) in
      let (more, all) = for_services-All vs between s' canonical rest in
      (
        lawful.chained s.tables between.tables s'.tables kept more,
        ((lawful.keeps between.tables s'.tables more).rows_stay v covered, all),
      )

  scan_undeleted-eq :
      (tenant : String) (s s' : Session) (vs : List Service)
      → parse_uuid tenant ≡ some tenant
      → scan_undeleted parse_uuid moments tenant s ≡ (ok vs, s')
      → (vs ≡ undeleted tenant s.tables.services) × (s'.tables ≡ s.tables)
  unfolding scan_undeleted
  scan_undeleted-eq tenant s s' vs known h =
      let listing : Tables → List Service × Tables = λ t. (undeleted tenant t.services, t) in
      let answer = heard (moments s.turn).connection listing s.tables in
      let h1 : ended s answer ≡ (ok vs, s') = ground (arith, known, h) in
      let pair = heard-eq (moments s.turn).connection listing s.tables (ended-eq s answer h1) in
      (sym (ap (λ x. x.0) pair), sym (ap (λ x. x.1) pair))

  -- The services of a tenant, between the listing and the end.
  one_tenant :
      (tenant : String) (s scanned between : Session) (vs : List Service)
      → parse_uuid tenant ≡ some tenant
      → IsCanonical parse_uuid s.tables.services
      → scan_undeleted parse_uuid moments tenant s ≡ (ok vs, scanned)
      → for_services parse_uuid moments statement vs scanned ≡ (ok tt, between)
      → P s.tables between.tables
        × All (HasWork between.tables) (undeleted tenant s.tables.services)
  one_tenant tenant s scanned between vs known canonical found calls =
      let (same, still) = scan_undeleted-eq tenant s scanned vs known found in
      let listed = undeleted-All _ tenant s.tables.services canonical in
      let (kept, all) =
        for_services-All vs scanned between (subst (IsCanonical parse_uuid) (sym same) listed)
          calls in
      (subst (λ t. P t between.tables) still kept, subst (All (HasWork between.tables)) same all)

  for_tenants-All :
      (tenants : List String) (s s' : Session)
      → ((tenant : String) → contains tenant tenants ≡ true → parse_uuid tenant ≡ some tenant)
      → IsCanonical parse_uuid s.tables.services
      → for_tenants parse_uuid moments statement tenants s ≡ (ok tt, s')
      → P s.tables s'.tables
        × ((tenant : String)
            → contains tenant tenants ≡ true
            → All (HasWork s'.tables) (undeleted tenant s.tables.services))
  unfolding for_tenants contains
  for_tenants-All [] s s' known canonical h = (
    subst (λ x. P s.tables x.tables) (ap (λ x. x.1) h) (lawful.unchanged s.tables),
    λ t there. cc there,
  )
  for_tenants-All (tenant ∷ tenants) s s' known canonical h =
      let (u, between, first, rest) = bind-eq-ok h in
      let (vs, scanned, found, calls) = bind-eq-ok first in
      let (kept, all) =
        one_tenant tenant s scanned between vs (known tenant (contains-head tenant tenants))
          canonical found calls in
      let same = (lawful.keeps s.tables between.tables kept).same_services in
      let (more, each) =
        for_tenants-All tenants between s' (λ t there. known t (ground (arith, there)))
          (subst (IsCanonical parse_uuid) (sym same) canonical) rest in
      let stay = (lawful.keeps between.tables s'.tables more).rows_stay in
      (
        lawful.chained s.tables between.tables s'.tables kept more,
        by_tenant (All-map (undeleted tenant s.tables.services) stay all)
            (λ t there. subst (λ vs. All (HasWork s'.tables) (undeleted t vs)) same (each t there)),
      )
    where
      Covered : String → Type 0
      Covered t = All (HasWork s'.tables) (undeleted t s.tables.services)

      by_tenant :
          Covered tenant
          → ((t : String) → contains t tenants ≡ true → Covered t)
          → (t : String) → contains t (tenant ∷ tenants) ≡ true
          → Covered t
      by_tenant own others t there = by_test (str_eq tenant t) refl
        where
          by_test : (b : Bool) → str_eq tenant t ≡ b → Covered t
          by_test true e = subst Covered (ground (arith, eq_iff tenant t, e)) own
          by_test false e = others t (ground (arith, there, e))

  pub for_all-All :
      (s s' : Session)
      → IsCanonical parse_uuid s.tables.services
      → for_all parse_uuid moments statement s ≡ (ok tt, s')
      → P s.tables s'.tables × All (λ v. v.deleted ≡ false → HasWork s'.tables v) s.tables.services
  unfolding for_all list_tenants
  for_all-All s s' canonical h =
      let (tenants, listed, first, rest) = bind-eq-ok h in
      let listing : Tables → List String × Tables = λ t. (sort (tenants_of t.services), t) in
      let pair = heard-eq (moments s.turn).connection listing s.tables (ended-eq s _ first) in
      let scopes : tenants ≡ sort (tenants_of s.tables.services) = sym (ap (λ x. x.0) pair) in
      let still : listed.tables ≡ s.tables = sym (ap (λ x. x.1) pair) in
      let same = ap (λ t. t.services) still in
      let (kept, each) =
        for_tenants-All tenants listed s' (known s.tables.services canonical tenants scopes)
          (subst (IsCanonical parse_uuid) (sym same) canonical) rest in
      (
        subst (λ t. P t s'.tables) still kept,
        tenants_of-All (HasWork s'.tables) s.tables.services (λ t there.
            subst (λ vs. All (HasWork s'.tables) (undeleted t vs)) same
              (each t (ap (contains t) scopes ∙ there))),
      )
    where
      known :
          (vs : List Service)
          → IsCanonical parse_uuid vs
          → (tenants : List String) → tenants ≡ sort (tenants_of vs)
          → (t : String) → contains t tenants ≡ true
          → parse_uuid t ≡ some t
      known vs all tenants scopes t there =
          tenants_of-contains (λ x. parse_uuid x ≡ some x) vs (All-map vs (λ v h. h.0) all) t
            (sym (contains-sort t (tenants_of vs)) ∙ sym (ap (contains t) scopes) ∙ there)
