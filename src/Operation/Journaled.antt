-- ===== src/Operation/Journaled.antt =====
-- What the parts of a step with its audit event have done where they succeed.
use ani_inference_service.Operation.Replaced.{Replaces, update_where-one, any_row-middle}
use ani_inference_service.Operation.Audited.{
  may_delete, AuditedEvent, check_audited, is_identity_of, mark_deleted, is_recorded,
  finishes_delete, check_move, append_event, delete_service, append_row, event_row,
}
use ani_inference_service.Work.Table.{Tables, Service, update_where}
use ani_inference_service.Operation.Store.{
  OperationStepInput, OperationRow, StoreError, generation_not_positive, audit_identity_mismatch,
  parsed, cas_failed,
}
use ani_inference_service.Prelude.{
  Bool, any_row, ℕ, String, Option, false, arith, ok, ◌≡◌, true, some, Result, ◌>>◌, guard,
  guard-then-eq-ok, ◌>>=◌, leb, >>=-eq-ok, [], List, or_fail-eq-ok, subst, ok-injective, refl,
  eq_iff, sym, ap, if◌then◌else◌, ◌==◌,
}

-- The identifiers of the input, parsed.
pub record HasIdentifiers (parse_uuid : String → Option String) (i j : OperationStepInput)
    : Type 0 where
  pub parsed_tenant : parse_uuid i.tenant_id ≡ some j.tenant_id
  pub parsed_operation : parse_uuid i.operation_id ≡ some j.operation_id
  pub parsed_lease : parse_uuid i.lease_token ≡ some j.lease_token
  pub others_stay : j ≡ record i {
    tenant_id = j.tenant_id;
    operation_id = j.operation_id;
    lease_token = j.lease_token;
  }

-- The service that the delete leaves deleted, or none that it changes.
abbrev pub ServicesAfter : Bool → OperationStepInput → String → Tables → Tables → Type 0
ServicesAfter false j service t t' = t' ≡ t
ServicesAfter true j service t t' =
    (s : Service) × (may_delete j.tenant_id service j.operation_id j.target_generation s ≡ true)
    × Replaces s (mark_deleted s) t.services t'.services
    × (t'.work ≡ t.work)

module _ (parse_uuid : String → Option String) (retries : Bool) (e : AuditedEvent) where
  pub check_audited-HasIdentifiers :
      (i j : OperationStepInput)
      → check_audited parse_uuid retries i e ≡ ok j
      → HasIdentifiers parse_uuid i j × (is_identity_of i e ≡ true)
  unfolding check_audited
  check_audited-HasIdentifiers i j h =
      let identified : String → String → String → OperationStepInput = λ tenant operation lease.
        record i { tenant_id = tenant; operation_id = operation; lease_token = lease } in
      let tests : String → String → String → Result StoreError OperationStepInput =
        λ tenant operation lease.
          guard (leb 1 i.target_generation) generation_not_positive
          >> (guard (is_identity_of i e) audit_identity_mismatch
              >> (check_move parse_uuid retries i >> ok (identified tenant operation lease))) in
      let leased : String → String → Result StoreError OperationStepInput = λ tenant operation.
        parsed parse_uuid "lease_token" i.lease_token >>= tests tenant operation in
      let located : String → Result StoreError OperationStepInput =
        λ tenant. parsed parse_uuid "operation_id" i.operation_id >>= leased tenant in
      let (tenant, t, h1) = >>=-eq-ok located (parsed parse_uuid "tenant_id" i.tenant_id) h in
      let (operation, o, h2) =
        >>=-eq-ok (leased tenant) (parsed parse_uuid "operation_id" i.operation_id) h1 in
      let (lease, l, h3) =
        >>=-eq-ok (tests tenant operation) (parsed parse_uuid "lease_token" i.lease_token) h2 in
      let (positive, h4) = guard-then-eq-ok (leb 1 i.target_generation) _ _ h3 in
      let (same, h5) = guard-then-eq-ok (is_identity_of i e) _ _ h4 in
      let (u, moved, h6) =
        >>=-eq-ok (λ u. ok (identified tenant operation lease)) (check_move parse_uuid retries i)
          h5 in
      (
        subst (HasIdentifiers parse_uuid i) (ok-injective h6) (record {
          parsed_tenant = or_fail-eq-ok _ _ t;
          parsed_operation = or_fail-eq-ok _ _ o;
          parsed_lease = or_fail-eq-ok _ _ l;
          others_stay = refl;
        }),
        same,
      )

  append_row-recorded :
      (row : AuditedEvent) (events : List AuditedEvent)
      → any_row (is_recorded row.tenant_id row.event_id) (append_row row events) ≡ true
  unfolding append_row any_row
  append_row-recorded row events = ground (
    arith,
    any_row-middle (is_recorded row.tenant_id row.event_id) events row [],
    eq_iff row.tenant_id row.tenant_id,
    eq_iff row.event_id row.event_id,
  )

  pub append_event-recorded :
      (events events' : List AuditedEvent)
      → append_event parse_uuid e events ≡ ok events'
      → (tenant id : String) × (parse_uuid e.tenant_id ≡ some tenant)
        × (parse_uuid e.event_id ≡ some id)
        × (any_row (is_recorded tenant id) events' ≡ true)
  unfolding append_event event_row
  append_event-recorded events events' h =
      let appended : String → String → String → String → Result StoreError (List AuditedEvent) =
        λ tenant service operation id.
          ok (append_row (event_row tenant service operation id e) events) in
      let numbered : String → String → String → Result StoreError (List AuditedEvent) =
        λ tenant service operation.
          parsed parse_uuid "event_id" e.event_id >>= appended tenant service operation in
      let located : String → String → Result StoreError (List AuditedEvent) = λ tenant service.
        parsed parse_uuid "operation_id" e.operation_id >>= numbered tenant service in
      let owned : String → Result StoreError (List AuditedEvent) =
        λ tenant. parsed parse_uuid "service_id" e.service_id >>= located tenant in
      let (tenant, t, h1) = >>=-eq-ok owned (parsed parse_uuid "tenant_id" e.tenant_id) h in
      let (service, s, h2) =
        >>=-eq-ok (located tenant) (parsed parse_uuid "service_id" e.service_id) h1 in
      let (operation, o, h3) =
        >>=-eq-ok (numbered tenant service) (parsed parse_uuid "operation_id" e.operation_id) h2 in
      let (id, n, h4) =
        >>=-eq-ok (appended tenant service operation) (parsed parse_uuid "event_id" e.event_id)
          h3 in
      (
        tenant,
        id,
        or_fail-eq-ok _ _ t,
        or_fail-eq-ok _ _ n,
        subst (λ es. any_row (is_recorded tenant id) es ≡ true) (ok-injective h4)
            (append_row-recorded (event_row tenant service operation id e) events),
      )

  abbrev marked_services : OperationStepInput → OperationRow → List Service → List Service × ℕ
  marked_services i o =
      update_where (may_delete i.tenant_id o.service_id i.operation_id i.target_generation)
        mark_deleted

  pub delete_service-ServicesAfter :
      (i : OperationStepInput) (o : OperationRow) (t t' : Tables)
      → delete_service retries i o t ≡ ok t'
      → ServicesAfter (finishes_delete retries i) i o.service_id t t'
  unfolding delete_service
  delete_service-ServicesAfter i o t t' h = by_end (finishes_delete retries i) h
    where
      marked : List Service × ℕ
      marked = marked_services i o t.services

      changed : Result StoreError Tables
      changed = guard (marked.1 == 1) cas_failed >> ok (record t { services = marked.0 })

      by_end :
          (b : Bool) → (if b then changed else ok t) ≡ ok t' → ServicesAfter b i o.service_id t t'
      by_end false same = sym (ok-injective same)
      by_end true same =
          let (one, e) = guard-then-eq-ok (marked.1 == 1) _ _ same in
          let (s, may, replaced) =
            update_where-one _ mark_deleted t.services (ground (arith, one)) in
          (
            s,
            may,
            subst (λ u. Replaces s (mark_deleted s) t.services u.services) (ok-injective e)
                replaced,
            ap (λ u. u.work) (sym (ok-injective e)),
          )
