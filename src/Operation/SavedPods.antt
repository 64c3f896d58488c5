-- ===== src/Operation/SavedPods.antt =====
-- What `SaveManagedGPUReleasePods` (internal/data/postgres/operation_store.go) leaves for
-- `LoadManagedGPUReleasePods`.
use ani_inference_service.Operation.MergedPods.{own_Has, Has, Extends, merge_release_pods-Merged}
use ani_inference_service.Runner.State.{PodRef}
use ani_inference_service.Operation.ReleaseScope.{
  encode_scope, upsert_scope, next_scope, ScopeRow, ScopePayload, sealed_object, stored_payload,
  merge_release_pods, is_scope, invalid_seal, decode_scope, save_release_pods, save_scope,
  invalid_uuid, validate_release_pods, load_release_pods, load_rows,
}
use ani_inference_service.Prelude.{
  eq_refl, [], find_row, Option, ◌≡◌, ◌||◌, if◌then◌else◌, str_eq, unwrap_some, List, is_blank, sym,
  ok, Bool, All, ok-injective, some, ◌>>=◌, >>=-eq-ok, guard-then-eq-ok, subst, arith, String, none,
  ◌∷◌, or_fail-eq-ok, ap, or_fail, ◌∙◌, true,
}

upserted :
    (row : ScopeRow) (rows : List ScopeRow)
    → stored_payload
        (find_row (is_scope row.tenant_id row.service_id row.operation_id) (upsert_scope row rows))
      ≡ some row.pods
unfolding upsert_scope find_row
upserted row [] = rw (eq_refl row.tenant_id, eq_refl row.service_id, eq_refl row.operation_id)
upserted row (r ∷ rs) = ground (arith, upserted row rs)

module _ (parse_uuid : String → Option String) (is_time : String → Bool) where
  -- The scope of the operation after saving.
  pub record Saved (tenant_id service_id operation_id : String) (pods : List PodRef)
      (rows rows' : List ScopeRow) : Type 0 where
    pub tenant : String
    pub service : String
    pub operation : String
    pub tenant_parsed : parse_uuid tenant_id ≡ some tenant
    pub service_parsed : parse_uuid service_id ≡ some service
    pub operation_parsed : parse_uuid operation_id ≡ some operation
    pub seal : String
    pub scope : List PodRef
    pub stored :
        stored_payload (find_row (is_scope tenant service operation) rows')
        ≡ some (sealed_object seal (some scope))
    pub covers : All (λ p. Has p scope) pods
    pub extends :
        (before : ScopePayload)
        → stored_payload (find_row (is_scope tenant service operation) rows) ≡ some before
        → (old : String × List PodRef) × (decode_scope is_time before ≡ ok old)
          × Extends old.1 scope

  encode_scope-eq-ok :
      (seal : String) (pods : List PodRef) (payload : ScopePayload)
      → encode_scope is_time seal pods ≡ ok payload
      → payload ≡ sealed_object seal (some pods)
  unfolding encode_scope
  encode_scope-eq-ok seal pods payload e = sym (
      ok-injective
        (guard-then-eq-ok (is_blank seal || is_time seal) invalid_seal
          (ok (sealed_object seal (some pods))) e).1)

  -- The payload that is stored next.
  record Next (pods : List PodRef) (before : Option ScopePayload) (payload : ScopePayload)
      : Type 0 where
    seal : String
    scope : List PodRef
    shape : payload ≡ sealed_object seal (some scope)
    covers : All (λ p. Has p scope) pods
    extends :
        (old_payload : ScopePayload)
        → before ≡ some old_payload
        → (old : String × List PodRef) × (decode_scope is_time old_payload ≡ ok old)
          × Extends old.1 scope

  next_scope-Next :
      (seal : String) (pods : List PodRef) (before : Option ScopePayload) (payload : ScopePayload)
      → next_scope is_time seal pods before ≡ ok payload
      → Next pods before payload
  unfolding next_scope
  next_scope-Next seal pods none payload e = record {
    seal = seal;
    scope = pods;
    shape = encode_scope-eq-ok seal pods payload e;
    covers = own_Has pods;
    extends = λ old_payload h. cc;
  }
  next_scope-Next seal pods (some stored) payload e =
      let sealed : String → String = λ old. if str_eq seal "" then old else seal in
      let (old, decoded, e1) =
        >>=-eq-ok (λ old. merge_release_pods old.1 pods >>= encode_scope is_time (sealed old.0))
          (decode_scope is_time stored) e in
      let (scope, merged, e2) =
        >>=-eq-ok (encode_scope is_time (sealed old.0)) (merge_release_pods old.1 pods) e1 in
      let kept = merge_release_pods-Merged old.1 pods scope merged in
      record {
        seal = sealed old.0;
        scope = scope;
        shape = encode_scope-eq-ok (sealed old.0) scope payload e2;
        covers = kept.covers;
        extends = λ old_payload h.
            subst
              (λ x.
                (o : String × List PodRef) × (decode_scope is_time x ≡ ok o) × Extends o.1 scope)
              (unwrap_some h) (old, decoded, kept.extends);
      }

  -- Saving the Pods of an operation that succeeds leaves a scope under the operation's key that goes on
  -- from the Pods that the scope had before, in their order, and has every Pod that is given, unchanged.
  pub save_release_pods-Saved :
      (tenant_id service_id operation_id seal : String) (pods : List PodRef)
      (rows rows' : List ScopeRow)
      → save_release_pods parse_uuid is_time tenant_id service_id operation_id seal pods rows
        ≡ ok rows'
      → Saved tenant_id service_id operation_id pods rows rows'
  unfolding save_release_pods save_scope
  save_release_pods-Saved tenant_id service_id operation_id seal pods rows rows' e =
      let save = save_scope parse_uuid is_time seal pods rows in
      let parse_tenant = or_fail (parse_uuid tenant_id) (invalid_uuid "tenant_id") in
      let parse_service = or_fail (parse_uuid service_id) (invalid_uuid "service_id") in
      let parse_operation = or_fail (parse_uuid operation_id) (invalid_uuid "operation_id") in
      let (u, valid, e0) =
        >>=-eq-ok (λ u. parse_tenant >>= λ t. parse_service >>= λ s. parse_operation >>= save t s)
          (validate_release_pods pods) e in
      let (tenant, t, e1) =
        >>=-eq-ok (λ t. parse_service >>= λ s. parse_operation >>= save t s) parse_tenant e0 in
      let (service, s, e2) = >>=-eq-ok (λ s. parse_operation >>= save tenant s) parse_service e1 in
      let (operation, o, e3) = >>=-eq-ok (save tenant service) parse_operation e2 in
      let before = stored_payload (find_row (is_scope tenant service operation) rows) in
      let write : ScopePayload → List ScopeRow = λ p.
        upsert_scope
          (record { tenant_id = tenant; service_id = service; operation_id = operation; pods = p })
          rows in
      let (payload, chosen, same) =
        >>=-eq-ok (λ p. ok (write p)) (next_scope is_time seal pods before) e3 in
      let next = next_scope-Next seal pods before payload chosen in
      record {
        tenant = tenant;
        service = service;
        operation = operation;
        tenant_parsed = or_fail-eq-ok _ _ t;
        service_parsed = or_fail-eq-ok _ _ s;
        operation_parsed = or_fail-eq-ok _ _ o;
        seal = next.seal;
        scope = next.scope;
        stored =
            ap (λ x. stored_payload (find_row (is_scope tenant service operation) x))
              (sym (ok-injective same))
            ∙ upserted
                (record {
                  tenant_id = tenant;
                  service_id = service;
                  operation_id = operation;
                  pods = payload;
                })
                rows
            ∙ ap some next.shape;
        covers = next.covers;
        extends = next.extends;
      }

  -- Loading what was saved for an operation returns the scope, if its seal is empty or a time and its
  -- Pods are complete and have different UIDs.
  pub load_release_pods-Saved :
      (tenant_id service_id operation_id : String) (pods : List PodRef) (rows rows' : List ScopeRow)
      (saved : Saved tenant_id service_id operation_id pods rows rows')
      → (str_eq saved.seal "" || is_time saved.seal) ≡ true
      → validate_release_pods saved.scope ≡ ok tt
      → load_release_pods parse_uuid is_time tenant_id service_id operation_id rows'
        ≡ ok saved.scope
  unfolding load_release_pods load_rows decode_scope
  load_release_pods-Saved tenant_id service_id operation_id pods rows rows' saved timely valid =
      rw (
        saved.tenant_parsed, saved.service_parsed, saved.operation_parsed, saved.stored, timely,
        valid,
      )
