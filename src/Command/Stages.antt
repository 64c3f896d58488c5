-- ===== src/Command/Stages.antt =====
-- What each part of the acceptance (internal/data/postgres/command_usecase.go) changes.
use ani_inference_service.Command.Database.{Database, is_request, is_operation, is_active_of}
use ani_inference_service.Command.Accept.{
  scheduled, finish, recorded, idempotency_row, insert_operation, operation_row,
}
use ani_inference_service.Work.Table.{Tables}
use ani_inference_service.Command.Model.{
  Environment, Draw, CommandInput, OperationResponse, method_of, command_response, first_step,
  operation_active,
}
use ani_inference_service.Work.Settle.{
  release_resource_work_lease, upsert_resource_work, insert_row,
}
use ani_inference_service.Prelude.{
  ℕ, ◌++◌, Bool, some, ok, or_fail-eq-ok, String, true, [], str_eq, none, refl, ◌∷◌, ◌≡◌,
  if◌then◌else◌, arith, false, ◌∙◌, ltb, ok-injective, >>=-eq-ok, sym, ap, guard-eq-ok, guard, ◌||◌,
  not, ||-eq-false, find_row-none, any_row-none, find_row, any_row, not-eq-true,
}

insert_row-services :
    (tenant service : String) (version now : ℕ) (t t' : Tables)
    → insert_row tenant service version now t ≡ some t'
    → t'.services ≡ t.services
unfolding insert_row
insert_row-services tenant service version now t t' e = ground arith

upsert_resource_work-services :
    (tenant service : String) (version now : ℕ) (t t' : Tables)
    → upsert_resource_work tenant service version now t ≡ some t'
    → t'.services ≡ t.services
unfolding upsert_resource_work
upsert_resource_work-services tenant service version now t t' e =
    ground (arith, insert_row-services tenant service version now t t')

release_resource_work_lease-services :
    (now : ℕ) (tenant service : String) (t : Tables)
    → (release_resource_work_lease now tenant service t).0.services ≡ t.services
unfolding release_resource_work_lease
release_resource_work_lease-services now tenant service t = refl

module _ (env : Environment) (draw : Draw) (tenant service : String) (i : CommandInput) where
  scheduled-services :
      (target cancellations : ℕ) (t t' : Tables)
      → scheduled env draw tenant service i target cancellations t ≡ ok t'
      → t'.services ≡ t.services
  unfolding scheduled
  scheduled-services target cancellations t t' e =
      scheduled_from (ltb 0 cancellations) (or_fail-eq-ok _ _ e)
    where
      scheduled_from :
          (b : Bool)
          → upsert_resource_work tenant service target draw.now
              (if b then (release_resource_work_lease draw.now tenant service t).0 else t)
            ≡ some t'
          → t'.services ≡ t.services
      scheduled_from true h =
          upsert_resource_work-services tenant service target draw.now _ t' h
          ∙ release_resource_work_lease-services draw.now tenant service t
      scheduled_from false h = upsert_resource_work-services tenant service target draw.now t t' h

  -- What the end of the acceptance leaves.
  pub record Finished (target : ℕ) (d : Database) (answer : OperationResponse) (d' : Database)
      : Type 0 where
    pub same_services : d'.tables.services ≡ d.tables.services
    pub same_operations : d'.operations ≡ d.operations
    pub remembered :
        str_eq i.request_id "" ≡ false
        → find_row (is_request tenant (method_of i.kind) i.request_id) d.idempotency ≡ none
        → d'.idempotency ≡ d.idempotency ++ idempotency_row env draw tenant service i ∷ []
    pub answered :
        answer ≡ command_response service draw.operation_id target i.kind (first_step i.kind)

  recorded-idempotency :
      (target : ℕ) (resources : String) (d : Database)
      → str_eq i.request_id "" ≡ false
      → find_row (is_request tenant (method_of i.kind) i.request_id) d.idempotency ≡ none
      → (recorded env draw tenant service i target resources d).idempotency
        ≡ d.idempotency ++ idempotency_row env draw tenant service i ∷ []
  unfolding recorded
  recorded-idempotency target resources d named fresh =
      rw (named, any_row-none _ d.idempotency fresh)

  recorded-same :
      (target : ℕ) (resources : String) (d : Database)
      → ((recorded env draw tenant service i target resources d).tables ≡ d.tables)
        × ((recorded env draw tenant service i target resources d).operations ≡ d.operations)
  unfolding recorded
  recorded-same target resources d = (refl, refl)

  pub finish-Finished :
      (target : ℕ) (resources : String) (cancellations : ℕ) (d : Database)
      (answer : OperationResponse) (d' : Database)
      → finish env draw tenant service i target resources cancellations d ≡ ok (answer, d')
      → Finished target d answer d'
  unfolding finish
  finish-Finished target resources cancellations d answer d' e =
      let response = command_response service draw.operation_id target i.kind (first_step i.kind) in
      let write : Tables → Database =
        λ t. recorded env draw tenant service i target resources (record d { tables = t }) in
      let (t, planned, same) =
        >>=-eq-ok (λ t. ok (response, write t))
          (scheduled env draw tenant service i target cancellations d.tables) e in
      let kept = recorded-same target resources (record d { tables = t }) in
      let written : write t ≡ d' = ap (λ x. x.1) (ok-injective same) in
      record {
        same_services =
            ap (λ x. x.tables.services) (sym written)
            ∙ ap (λ x. x.services) kept.0
            ∙ scheduled-services target cancellations d.tables t planned;
        same_operations = ap (λ x. x.operations) (sym written) ∙ kept.1;
        remembered = λ named fresh.
            ap (λ x. x.idempotency) (sym written)
            ∙ recorded-idempotency target resources (record d { tables = t }) named fresh;
        answered = sym (ap (λ x. x.0) (ok-injective same));
      }

  -- What the beginning of an operation leaves.
  pub record Begun (target : ℕ) (d : Database) (d' : Database) : Type 0 where
    pub new_operation : find_row (is_operation tenant draw.operation_id) d.operations ≡ none
    pub inactive : any_row (is_active_of tenant service) d.operations ≡ false
    pub appended :
        d'.operations ≡ d.operations ++ operation_row env draw tenant service i target ∷ []
    pub same_tables : d'.tables ≡ d.tables
    pub same_idempotency : d'.idempotency ≡ d.idempotency

  pub insert_operation-Begun :
      (target : ℕ) (d d' : Database)
      → insert_operation env draw tenant service i target d ≡ ok d'
      → Begun target d d'
  unfolding insert_operation
  insert_operation-Begun target d d' e =
      let taken = any_row (is_operation tenant draw.operation_id) d.operations in
      let active = any_row (is_active_of tenant service) d.operations in
      let next : Database = record d {
        operations = d.operations ++ operation_row env draw tenant service i target ∷ [];
      } in
      let (u, tested, same) =
        >>=-eq-ok (λ u. ok next) (guard (not (taken || active)) operation_active) e in
      let (untaken, idle) =
        ||-eq-false taken active (not-eq-true _ (guard-eq-ok _ operation_active tested)) in
      let written : next ≡ d' = ok-injective same in
      record {
        new_operation = find_row-none _ d.operations untaken;
        inactive = idle;
        appended = ap (λ x. x.operations) (sym written);
        same_tables = ap (λ x. x.tables) (sym written);
        same_idempotency = ap (λ x. x.idempotency) (sym written);
      }
