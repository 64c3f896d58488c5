-- ===== src/Work/Settle.antt =====
-- The statements that end a lease or ask for work: `CommitResourceWork`, `RetryResourceWork`,
-- `ReleaseResourceWorkLease` and `GetLeasedDesired` (internal/data/postgres/work.sql.go),
-- `UpsertResourceWork` and `EnsureResourceWork` (internal/data/postgres/inference.sql.go).
use ani_inference_service.Runner.State.{Item}
use ani_inference_service.Work.Table.{
  Tables, Service, update_where, WorkRow, unleased, find_service, greatest, has_key, has_row,
  is_token, is_live,
}
use ani_inference_service.Prelude.{
  ◌∷◌, List, ℕ, if◌then◌else◌, ◌&&◌, suc, none, false, [], leb, some, ◌==◌, String, ltb, ◌+◌, not,
  Option, Bool, ◌++◌,
}

-- `s.desired_generation = $` for the joined service.
unfoldable pub at_generation : List Service → ℕ → WorkRow → Bool
at_generation services generation r = elim (find_service r.tenant_id r.service_id services) [
  | none ↦ false
  | some s ↦ s.desired_generation == generation
]

unfoldable pub is_deleted : List Service → WorkRow → Bool
is_deleted services r = elim (find_service r.tenant_id r.service_id services) [
  | none ↦ false
  | some s ↦ s.deleted
]

-- The row is the item's and still under the item's lease.
unfoldable pub holds_lease : ℕ → Item → WorkRow → Bool
holds_lease now item r =
    has_key item.tenant_id item.service_id r
    && is_token item.lease_token r.lease_token
    && is_live now r.lease_until

unfoldable pub may_commit : List Service → ℕ → Item → WorkRow → Bool
unfolding holds_lease at_generation
may_commit services now item r =
    holds_lease now item r
    && at_generation services item.generation r
    && leb item.dirty_version r.dirty_version

unfoldable pub committed : List Service → ℕ → ℕ → Item → WorkRow → WorkRow
unfolding is_deleted
committed services observe now item r = record (unleased r) {
  acknowledged_version = greatest r.acknowledged_version item.dirty_version;
  next_run_at =
      if is_deleted services r
      then none
      else if ltb item.dirty_version r.dirty_version
      then some now
      else some (now + observe);
  attempt = 0;
  last_error_code = "";
  updated_at = now;
}

unfoldable pub commit_resource_work : ℕ → ℕ → Item → Tables → Tables × ℕ
unfolding may_commit committed update_where
commit_resource_work observe now item t =
    let done =
      update_where (may_commit t.services now item) (committed t.services observe now item)
        t.work in
    (record t { work = done.0 }, done.1)

unfoldable pub may_retry : List Service → ℕ → Item → WorkRow → Bool
unfolding holds_lease at_generation is_deleted
may_retry services now item r =
    holds_lease now item r
    && at_generation services item.generation r
    && not (is_deleted services r)

abbrev pub postponed : ℕ → ℕ → String → WorkRow → WorkRow
postponed delay now code r = record (unleased r) {
  next_run_at = some (now + delay);
  last_error_code = code;
  updated_at = now;
}

unfoldable pub retry_resource_work : ℕ → ℕ → String → Item → Tables → Tables × ℕ
unfolding may_retry update_where
retry_resource_work delay now code item t =
    let done = update_where (may_retry t.services now item) (postponed delay now code) t.work in
    (record t { work = done.0 }, done.1)

abbrev pub released : ℕ → WorkRow → WorkRow
released now r = record (unleased r) { next_run_at = some now; updated_at = now }

unfoldable pub release_resource_work_lease : ℕ → String → String → Tables → Tables × ℕ
unfolding update_where
release_resource_work_lease now tenant service t =
    let done = update_where (has_key tenant service) (released now) t.work in
    (record t { work = done.0 }, done.1)

abbrev pub new_row : String → String → ℕ → ℕ → WorkRow
new_row tenant service version now = record {
  tenant_id = tenant;
  service_id = service;
  dirty_version = version;
  acknowledged_version = 0;
  next_run_at = some now;
  attempt = 0;
  lease_owner = none;
  lease_until = none;
  lease_token = none;
  last_error_code = "";
  updated_at = now;
}

abbrev pub notified : ℕ → ℕ → WorkRow → WorkRow
notified version now r = record r {
  dirty_version = greatest (suc r.dirty_version) version;
  next_run_at = some now;
  updated_at = now;
}

-- A new row needs its service; without it the statement fails and changes nothing.
unfoldable pub insert_row : String → String → ℕ → ℕ → Tables → Option Tables
insert_row tenant service version now t = elim (find_service tenant service t.services) [
  | none ↦ none
  | some s ↦ some (record t { work = t.work ++ (new_row tenant service version now ∷ []) })
]

unfoldable pub upsert_resource_work : String → String → ℕ → ℕ → Tables → Option Tables
unfolding insert_row update_where
upsert_resource_work tenant service version now t =
    if has_row tenant service t.work
    then some (record t {
      work = (update_where (has_key tenant service) (notified version now) t.work).0;
    })
    else insert_row tenant service version now t

unfoldable pub ensure_resource_work : String → String → ℕ → ℕ → Tables → Option Tables
unfolding insert_row
ensure_resource_work tenant service version now t =
    if has_row tenant service t.work then some t else insert_row tenant service version now t

-- `GetLeasedDesired`: the generation of the item's service, if the item's lease holds.
unfoldable pub get_leased_desired : List Service → ℕ → Item → List WorkRow → Option ℕ
unfolding holds_lease
get_leased_desired services now item [] = none
get_leased_desired services now item (r ∷ rs) =
    if holds_lease now item r
    then elim (find_service r.tenant_id r.service_id services) [
      | none ↦ none
      | some s ↦ some s.desired_generation
    ]
    else get_leased_desired services now item rs
