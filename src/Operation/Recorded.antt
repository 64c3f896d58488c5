-- ===== src/Operation/Recorded.antt =====
-- What a step with its audit event has done when it succeeds.
use ani_inference_service.Operation.Deleted.{ServicesAfter-LeavesServices, LeavesServices}
use ani_inference_service.Operation.Stepped.{str_eq-eq, fenced-Stands, stepped-Steps, Stands, Steps}
use ani_inference_service.Work.Table.{update_where, Tables}
use ani_inference_service.Command.Database.{is_operation}
use ani_inference_service.Operation.Journaled.{
  HasIdentifiers, check_audited-HasIdentifiers, ServicesAfter, append_event-recorded,
  delete_service-ServicesAfter,
}
use ani_inference_service.Operation.Store.{
  is_expected, OperationStepInput, may_advance, OperationRow, StoreError, is_fenced, may_reschedule,
  operation_missing,
}
use ani_inference_service.Operation.Replaced.{
  Replaces, IsKeyed, update_where-one, find_row-Replaces,
}
use ani_inference_service.Operation.Audited.{
  AuditedEvent, Journal, step_and_record, record_step, is_identity_of, step_with_audit, may_step,
  stepped, audited_result, delete_service, is_recorded, check_audited, append_event,
  finishes_delete,
}
use ani_inference_service.Prelude.{
  eq_iff, str_eq, ◌∙◌, subst, ◌≡◌, ok-injective, Bool, true, String, arith, ap, or_fail,
  or_fail-eq-ok, guard-then-eq-ok, >>=-eq-ok, some, Result, refl, ◌==◌, List, Option, ◌>>=◌, sym, ℕ,
  err, any_row, find_row, ok, &&-eq-true,
}

module _ (parse_uuid : String → Option String) (retries : Bool) (delay now : ℕ)
    (e : AuditedEvent) where
  -- The step and its event are both there.
  pub record Recorded (i : OperationStepInput) (d d' : Journal) : Type 0 where
    pub input : OperationStepInput
    pub operation : OperationRow
    pub identifiers : HasIdentifiers parse_uuid i input
    pub expected : is_expected input operation ≡ true
    pub fenced : is_fenced now input.lease_token d.tables operation ≡ true
    pub stands : Stands now input d.tables operation
    pub steps : Steps retries delay now input operation (stepped retries delay now input operation)
    pub replaced :
        Replaces operation (stepped retries delay now input operation) d.operations d'.operations
    pub same_service : e.service_id ≡ operation.service_id
    pub same_identity : is_identity_of i e ≡ true
    pub event_id : String
    pub parsed_event : parse_uuid e.event_id ≡ some event_id
    pub recorded : any_row (is_recorded input.tenant_id event_id) d'.events ≡ true
    pub services_after : LeavesServices retries input operation.service_id d.tables d'.tables
    pub same_names :
        (e.tenant_id ≡ i.tenant_id)
        × (e.operation_id ≡ i.operation_id)
        × (e.generation ≡ i.target_generation)

  -- What a step with its event answers and leaves.
  pub data StepOutcome (i : OperationStepInput) (d : Journal)
      : Result StoreError Unit × Journal → Type 0 where
    refused : (x : StoreError) → StepOutcome i d (err x, d)
    done : (d' : Journal) → Recorded i d d' → StepOutcome i d (ok tt, d')

  may_step-both :
      (t : Tables) (j : OperationStepInput) (o : OperationRow)
      → may_step retries now t j o ≡ true
      → (is_expected j o ≡ true) × (is_fenced now j.lease_token t o ≡ true)
  unfolding may_step may_advance may_reschedule
  may_step-both t j o h = ground (arith, h)

  is_expected-operation :
      (j : OperationStepInput) (o : OperationRow)
      → is_expected j o ≡ true
      → is_operation j.tenant_id j.operation_id o ≡ true
  unfolding is_expected
  is_expected-operation j o h = ground (arith, h)

  is_operation-stepped :
      (tenant id : String) (j : OperationStepInput) (o : OperationRow)
      → is_operation tenant id o ≡ true
      → is_operation tenant id (stepped retries delay now j o) ≡ true
  is_operation-stepped tenant id j o h = ground (arith, h)

  same_tenant :
      (i j : OperationStepInput) (tenant : String)
      → HasIdentifiers parse_uuid i j
      → is_identity_of i e ≡ true
      → parse_uuid e.tenant_id ≡ some tenant
      → tenant ≡ j.tenant_id
  unfolding is_identity_of
  same_tenant i j tenant ids same t =
      let equal : e.tenant_id ≡ i.tenant_id =
        ground (arith, eq_iff e.tenant_id i.tenant_id, same) in
      cc (t, ap parse_uuid equal, ids.parsed_tenant)

  is_identity_of-names :
      (i : OperationStepInput)
      → is_identity_of i e ≡ true
      → (e.tenant_id ≡ i.tenant_id)
        × (e.operation_id ≡ i.operation_id)
        × (e.generation ≡ i.target_generation)
  unfolding is_identity_of
  is_identity_of-names i same =
      let (named, generation) = &&-eq-true _ (e.generation == i.target_generation) same in
      let (tenant, operation) = &&-eq-true _ (str_eq e.operation_id i.operation_id) named in
      (
        str_eq-eq e.tenant_id i.tenant_id tenant,
        str_eq-eq e.operation_id i.operation_id operation,
        ground (arith, generation),
      )

  service_id-stepped :
      (j : OperationStepInput) (o : OperationRow)
      → (stepped retries delay now j o).service_id ≡ o.service_id
  service_id-stepped j o = ground arith

  record_step-parts :
      (j : OperationStepInput) (d d' : Journal) (o : OperationRow)
      → record_step parse_uuid retries delay now e j d o ≡ ok d'
      → (o.service_id ≡ e.service_id)
        × (d'.operations ≡ d.operations)
        × (delete_service retries j o d.tables ≡ ok d'.tables)
        × (append_event parse_uuid e d.events ≡ ok d'.events)
  unfolding record_step
  record_step-parts j d d' o h =
      let ended : Tables → List AuditedEvent → Result StoreError Journal =
        λ tables events. ok (record d { tables = tables; events = events }) in
      let appended : Tables → Result StoreError Journal =
        λ tables. append_event parse_uuid e d.events >>= ended tables in
      let (same, h1) = guard-then-eq-ok (str_eq o.service_id e.service_id) _ _ h in
      let (tables, t, h2) = >>=-eq-ok appended (delete_service retries j o d.tables) h1 in
      let (events, v, h3) = >>=-eq-ok (ended tables) (append_event parse_uuid e d.events) h2 in
      let left = ok-injective h3 in
      (
        ground (arith, eq_iff o.service_id e.service_id, same),
        ap (λ x. x.operations) (sym left),
        cc (t, ap (λ x. x.tables) left),
        cc (v, ap (λ x. x.events) left),
      )

  step_and_record-Recorded :
      (i j : OperationStepInput) (d d' : Journal)
      → IsKeyed d.operations
      → HasIdentifiers parse_uuid i j
      → is_identity_of i e ≡ true
      → step_and_record parse_uuid retries delay now e d j ≡ ok d'
      → Recorded i d d'
  unfolding step_and_record
  step_and_record-Recorded i j d d' keyed ids same h =
      let done =
        update_where (may_step retries now d.tables j) (stepped retries delay now j) d.operations in
      let next : Journal = record d { operations = done.0 } in
      let (one, h1) = guard-then-eq-ok (done.1 == 1) _ _ h in
      let (current, found, h2) =
        >>=-eq-ok (record_step parse_uuid retries delay now e j next)
          (or_fail (find_row (is_operation j.tenant_id j.operation_id) done.0) operation_missing)
          h1 in
      let (row, may, replaced) =
        update_where-one (may_step retries now d.tables j) (stepped retries delay now j)
          d.operations (ground (arith, one)) in
      let (service, operations, deleted, appended) = record_step-parts j next d' current h2 in
      let (tenant, id, t, n, recorded) =
        append_event-recorded parse_uuid retries e d.events d'.events appended in
      let both = may_step-both d.tables j row may in
      let key = is_expected-operation j row both.0 in
      let is_current : current ≡ stepped retries delay now j row = cc (
        or_fail-eq-ok _ _ found,
        find_row-Replaces j.tenant_id j.operation_id replaced keyed key
            (is_operation-stepped j.tenant_id j.operation_id j row key),
      ) in
      let own = ap (λ o. o.service_id) is_current ∙ service_id-stepped j row in
      record {
        input = j;
        operation = row;
        identifiers = ids;
        expected = both.0;
        fenced = both.1;
        stands = fenced-Stands now j d.tables row both.0 both.1;
        steps = stepped-Steps retries delay now j row;
        replaced = subst (Replaces row _ d.operations) (sym operations) replaced;
        same_service = sym service ∙ own;
        same_identity = same;
        event_id = id;
        parsed_event = n;
        recorded =
            subst (λ x. any_row (is_recorded x id) d'.events ≡ true)
              (same_tenant i j tenant ids same t) recorded;
        same_names = is_identity_of-names i same;
        services_after = ServicesAfter-LeavesServices retries j row.service_id d.tables d'.tables (
            subst (λ x. ServicesAfter (finishes_delete retries j) j x d.tables d'.tables) own
              (delete_service-ServicesAfter parse_uuid retries e j current d.tables d'.tables
                deleted));
      }

  -- Whatever is asked, where no two operations have the same key: a step with its event is refused,
  -- and nothing has changed, or it has been done as a whole. Exactly one operation stood at the
  -- expected phase and step, current for its service and under the live lease of the input, and has
  -- moved: an advance leaves it at the next phase and step, a retry pending at its step for a later
  -- time. The event names it, its generation and its service, and an event of its identifier is in
  -- the journal; an advance of a delete that succeeds has left the service, which was to be deleted,
  -- deleted, and no other step changes the services and their work.
  pub step_with_audit-StepOutcome :
      (i : OperationStepInput) (d : Journal)
      → IsKeyed d.operations
      → StepOutcome i d (step_with_audit parse_uuid retries delay now e i d)
  unfolding step_with_audit
  step_with_audit-StepOutcome i d keyed = by_check (check_audited parse_uuid retries i e) refl
    where
      by_step :
          (r : Result StoreError Journal)
          → ((d' : Journal) → r ≡ ok d' → Recorded i d d')
          → StepOutcome i d (audited_result parse_uuid retries delay now e d r)
      by_step (err x) all = refused x
      by_step (ok d') all = done d' (all d' refl)

      by_check :
          (r : Result StoreError OperationStepInput)
          → check_audited parse_uuid retries i e ≡ r
          → StepOutcome i d (
              audited_result parse_uuid retries delay now e d
                (r >>= step_and_record parse_uuid retries delay now e d))
      by_check (err x) checked = refused x
      by_check (ok j) checked =
          let (ids, same) = check_audited-HasIdentifiers parse_uuid retries e i j checked in
          by_step (step_and_record parse_uuid retries delay now e d j)
            (λ d' h. step_and_record-Recorded i j d d' keyed ids same h)
