-- ===== src/Command/Accepted.antt =====
-- What an accepted command leaves in the database (internal/data/postgres/command_usecase.go).
use ani_inference_service.Command.Stages.{insert_operation-Begun, finish-Finished}
use ani_inference_service.Command.Rows.{find_service-updated, find_service-key}
use ani_inference_service.Work.Table.{Service, find_service}
use ani_inference_service.Command.Database.{
  Database, transitioned, is_operation, transition_service, is_request, may_transition,
}
use ani_inference_service.Command.Accept.{
  operation_row, idempotency_row, start_operation, finish, insert_operation,
}
use ani_inference_service.Command.Model.{
  Environment, Draw, CommandInput, OperationResponse, desired_for, method_of, command_response,
  first_step, generation_conflict,
}
use ani_inference_service.Prelude.{
  ◌≡◌, false, true, ◌+◌, ok, none, refl, some, ℕ, str_eq, String, eq_refl, >>=-eq-ok, ◌==◌, List,
  ==_iff, eq_iff, guard, ◌>>=◌, ◌∙◌, ap, find_row, find_row-last,
}

module _ (env : Environment) (draw : Draw) (tenant service : String) (i : CommandInput) where
  may_transition-found :
      (ss : List Service) (current : Service)
      → find_service tenant service ss ≡ some current
      → current.deleted ≡ false
      → may_transition tenant service current.desired_generation current ≡ true
  unfolding may_transition
  may_transition-found ss current found undeleted =
      let (t, k) = find_service-key tenant service ss current found in
      rw (
        (eq_iff current.tenant_id tenant).1 t,
        (eq_iff current.id service).1 k,
        (==_iff current.desired_generation current.desired_generation).1 refl,
        undeleted,
      )

  moves :
      (d : Database) (current : Service)
      → find_service tenant service d.tables.services ≡ some current
      → current.deleted ≡ false
      → find_service tenant service
          (transition_service
            (desired_for i.kind current.desired_state)
            (current.desired_generation + 1)
            draw.operation_id
            tenant
            service
            current.desired_generation
            d).0.tables.services
        ≡ some (
            transitioned
              (desired_for i.kind current.desired_state)
              (current.desired_generation + 1)
              draw.operation_id
              current)
  unfolding transition_service
  moves d current found undeleted =
      find_service-updated tenant service _ _ d.tables.services current (λ x. refl) (λ x. refl)
        found (may_transition-found d.tables.services current found undeleted)

  -- The service as the command leaves it.
  abbrev pub moved_service : Service → Service
  moved_service current =
      transitioned (desired_for i.kind current.desired_state) (current.desired_generation + 1)
        draw.operation_id current

  -- What follows the preparation.
  pub record Started (current : Service) (d : Database) (answer : OperationResponse) (d' : Database)
      : Type 0 where
    pub moved : find_service tenant service d'.tables.services ≡ some (moved_service current)
    pub begun :
        find_row (is_operation tenant draw.operation_id) d'.operations
        ≡ some (operation_row env draw tenant service i (current.desired_generation + 1))
    pub remembered :
        str_eq i.request_id "" ≡ false
        → find_row (is_request tenant (method_of i.kind) i.request_id) d.idempotency ≡ none
        → find_row (is_request tenant (method_of i.kind) i.request_id) d'.idempotency
          ≡ some (idempotency_row env draw tenant service i)
    pub answered :
        answer
        ≡ command_response service draw.operation_id
            (current.desired_generation + 1)
            i.kind
            (first_step i.kind)

  own_operation :
      (target : ℕ)
      → is_operation tenant draw.operation_id (operation_row env draw tenant service i target)
        ≡ true
  own_operation target = rw (eq_refl tenant, eq_refl draw.operation_id)

  own_request :
      is_request tenant (method_of i.kind) i.request_id (idempotency_row env draw tenant service i)
      ≡ true
  own_request = rw (eq_refl tenant, eq_refl (method_of i.kind), eq_refl i.request_id)

  same_idempotency_moved :
      (current : Service) (d : Database)
      → (transition_service
          (desired_for i.kind current.desired_state)
          (current.desired_generation + 1)
          draw.operation_id
          tenant
          service
          current.desired_generation
          d).0.idempotency
        ≡ d.idempotency
  unfolding transition_service
  same_idempotency_moved current d = refl

  pub start_operation-Started :
      (current : Service) (resources : String) (cancellations : ℕ) (d : Database)
      (answer : OperationResponse) (d' : Database)
      → find_service tenant service d.tables.services ≡ some current
      → current.deleted ≡ false
      → start_operation env draw tenant service i current resources cancellations d
        ≡ ok (answer, d')
      → Started current d answer d'
  unfolding start_operation
  start_operation-Started current resources cancellations d answer d' found undeleted e =
      let target = current.desired_generation + 1 in
      let change =
        transition_service (desired_for i.kind current.desired_state) target draw.operation_id
          tenant service current.desired_generation d in
      let close = finish env draw tenant service i target resources cancellations in
      let insert = insert_operation env draw tenant service i target change.0 in
      let (u, one, e1) =
        >>=-eq-ok (λ u. insert >>= close) (guard (change.1 == 1) generation_conflict) e in
      let (d1, inserted, e2) = >>=-eq-ok close insert e1 in
      let begun = insert_operation-Begun env draw tenant service i target change.0 d1 inserted in
      let done =
        finish-Finished env draw tenant service i target resources cancellations d1 answer d' e2 in
      let same = same_idempotency_moved current d in
      record {
        moved =
            ap (find_service tenant service)
              (done.same_services ∙ ap (λ x. x.services) begun.same_tables)
            ∙ moves d current found undeleted;
        begun =
            ap (find_row (is_operation tenant draw.operation_id))
              (done.same_operations ∙ begun.appended)
            ∙ find_row-last _ change.0.operations _ begun.new_operation (own_operation target);
        remembered = λ named fresh.
            let fresh' =
              ap (find_row (is_request tenant (method_of i.kind) i.request_id))
                (begun.same_idempotency ∙ same)
              ∙ fresh in
            ap (find_row (is_request tenant (method_of i.kind) i.request_id))
              (done.remembered named fresh')
            ∙ find_row-last _ d1.idempotency _ fresh' own_request;
        answered = done.answered;
      }
