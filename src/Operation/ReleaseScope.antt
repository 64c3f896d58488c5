-- ===== src/Operation/ReleaseScope.antt =====
-- The Pods that a managed GPU release has to prove, as `SaveManagedGPUReleasePods` and
-- `LoadManagedGPUReleasePods` of internal/data/postgres/operation_store.go keep them. The map of UIDs
-- is the list of its entries, the newest first. Parsing UUIDs and times are parameters.
use ani_inference_service.Runner.State.{PodRef}
use ani_inference_service.Gpu.Release.{check_pods, ReleaseError}
use ani_inference_service.Prelude.{
  ◌>>=◌, ◌>>◌, str_eq, ◌||◌, is_blank, Bool, guard, some, Option, [], List, ok, ◌∷◌, String,
  if◌then◌else◌, Result, none, find_row, ◌++◌, err, ◌&&◌, or_fail,
}

-- What the JSON column holds: an object with a seal, where the list may be missing, the array of the
-- earlier contract, null, or anything else.
pub data ScopePayload : Type 0 where
  sealed_object : String → Option (List PodRef) → ScopePayload
  pod_array : List PodRef → ScopePayload
  null_value other_value : ScopePayload

-- A row of inference_managed_gpu_release_scopes.
pub record ScopeRow : Type 0 where
  pub tenant_id : String
  pub service_id : String
  pub operation_id : String
  pub pods : ScopePayload

pub data ScopeError : Type 0 where
  invalid_pods : ReleaseError → ScopeError
  invalid_uuid : String → ScopeError
  identity_changed : String → ScopeError
  invalid_seal invalid_payload no_rows : ScopeError

-- Go's `==` on two `PodRef`s.
unfoldable pub same_pod : PodRef → PodRef → Bool
same_pod a b =
    str_eq a.cluster_id b.cluster_id
    && str_eq a.namespace b.namespace
    && str_eq a.name b.name
    && str_eq a.uid b.uid
    && str_eq a.container_name b.container_name

abbrev pub has_uid : String → PodRef → Bool
has_uid uid p = str_eq p.uid uid

-- `byUID` of the existing Pods: a later entry replaces an earlier one.
abbrev pub by_uid : List PodRef → List PodRef → List PodRef
by_uid known [] = known
by_uid known (p ∷ ps) = by_uid (p ∷ known) ps

-- The loop of `mergeManagedGPUReleasePods`, with `byUID` and `merged`.
unfoldable pub merge_from :
    List PodRef → List PodRef → List PodRef → Result ScopeError (List PodRef)
unfolding find_row same_pod
merge_from known merged [] = ok merged
merge_from known merged (p ∷ ps) =
    let added = merge_from (p ∷ known) (merged ++ p ∷ []) ps in
    let kept = merge_from known merged ps in
    elim (find_row (has_uid p.uid) known) [
      | none ↦ added
      | some old ↦ if same_pod old p then kept else err (identity_changed p.uid)
    ]

-- `mergeManagedGPUReleasePods`.
unfoldable pub merge_release_pods : List PodRef → List PodRef → Result ScopeError (List PodRef)
unfolding merge_from
merge_release_pods existing incoming = merge_from (by_uid [] existing) existing incoming

-- `validateManagedGPUReleasePods`, the same loop as in the release proof.
unfoldable pub validate_release_pods : List PodRef → Result ScopeError Unit
unfolding check_pods
validate_release_pods pods = elim (check_pods [] pods) [
  | ok done ↦ ok tt
  | err e ↦ err (invalid_pods e)
]

-- `GetManagedGPUReleaseScope`.
abbrev pub is_scope : String → String → String → ScopeRow → Bool
is_scope tenant service operation r =
    str_eq r.tenant_id tenant && str_eq r.service_id service && str_eq r.operation_id operation

-- `UpsertManagedGPUReleaseScope`.
unfoldable pub upsert_scope : ScopeRow → List ScopeRow → List ScopeRow
upsert_scope row [] = row ∷ []
upsert_scope row (r ∷ rs) =
    let rest = upsert_scope row rs in
    if is_scope row.tenant_id row.service_id row.operation_id r
    then record r { pods = row.pods } ∷ rs
    else r ∷ rest

abbrev pub stored_payload : Option ScopeRow → Option ScopePayload
stored_payload none = none
stored_payload (some r) = some r.pods

module _ (is_time : String → Bool) where
  -- `encodeManagedGPUReleaseScope`.
  unfoldable pub encode_scope : String → List PodRef → Result ScopeError ScopePayload
  unfolding is_blank
  encode_scope seal pods = do
    guard (is_blank seal || is_time seal) invalid_seal
    ok (sealed_object seal (some pods))

  -- `decodeManagedGPUReleaseScope`.
  unfoldable pub decode_scope : ScopePayload → Result ScopeError (String × List PodRef)
  decode_scope (sealed_object seal (some pods)) = do
    guard (str_eq seal "" || is_time seal) invalid_seal
    ok (seal, pods)
  decode_scope (sealed_object seal none) = err invalid_payload
  decode_scope (pod_array pods) = ok ("", pods)
  decode_scope null_value = ok ("", [])
  decode_scope other_value = err invalid_payload

  -- What is to be stored, given the stored payload.
  unfoldable pub next_scope :
      String → List PodRef → Option ScopePayload → Result ScopeError ScopePayload
  unfolding encode_scope decode_scope merge_release_pods
  next_scope seal pods none = encode_scope seal pods
  next_scope seal pods (some stored) = do
    old ← decode_scope stored
    merged ← merge_release_pods old.1 pods
    encode_scope (if str_eq seal "" then old.0 else seal) merged

module _ (parse_uuid : String → Option String) (is_time : String → Bool) where
  unfoldable pub save_scope :
      String
      → List PodRef
      → List ScopeRow
      → String
      → String
      → String
      → Result ScopeError (List ScopeRow)
  unfolding next_scope upsert_scope find_row
  save_scope seal pods rows tenant service operation = do
    payload ←
        next_scope is_time seal pods
          (stored_payload (find_row (is_scope tenant service operation) rows))
    ok (
        upsert_scope
          (record {
            tenant_id = tenant;
            service_id = service;
            operation_id = operation;
            pods = payload;
          })
          rows)

  -- `SaveManagedGPUReleasePods`, for the tenant, service, operation and seal of the operation's context.
  unfoldable pub save_release_pods :
      String
      → String
      → String
      → String
      → List PodRef
      → List ScopeRow
      → Result ScopeError (List ScopeRow)
  unfolding validate_release_pods save_scope
  save_release_pods tenant_id service_id operation_id seal pods rows = do
    validate_release_pods pods
    tenant ← or_fail (parse_uuid tenant_id) (invalid_uuid "tenant_id")
    service ← or_fail (parse_uuid service_id) (invalid_uuid "service_id")
    operation ← or_fail (parse_uuid operation_id) (invalid_uuid "operation_id")
    save_scope seal pods rows tenant service operation

  unfoldable pub load_rows :
      List ScopeRow → String → String → String → Result ScopeError (List PodRef)
  unfolding validate_release_pods decode_scope find_row
  load_rows rows tenant service operation = do
    payload ← or_fail (stored_payload (find_row (is_scope tenant service operation) rows)) no_rows
    decoded ← decode_scope is_time payload
    validate_release_pods decoded.1
    ok decoded.1

  -- `LoadManagedGPUReleasePods`.
  unfoldable pub load_release_pods :
      String → String → String → List ScopeRow → Result ScopeError (List PodRef)
  unfolding load_rows
  load_release_pods tenant_id service_id operation_id rows = do
    tenant ← or_fail (parse_uuid tenant_id) (invalid_uuid "tenant_id")
    service ← or_fail (parse_uuid service_id) (invalid_uuid "service_id")
    operation ← or_fail (parse_uuid operation_id) (invalid_uuid "operation_id")
    load_rows rows tenant service operation
