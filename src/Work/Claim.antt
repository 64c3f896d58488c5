-- ===== src/Work/Claim.antt =====
-- `ClaimResourceWork` (internal/data/postgres/work.sql.go). `now` is clock_timestamp(), and `locked`
-- tells the rows that another transaction holds, which SKIP LOCKED passes over.
use ani_inference_service.Runner.State.{Item}
use ani_inference_service.Work.Table.{
  update_where, WorkRow, Service, is_live, find_service, Tables, has_key,
}
use ani_inference_service.Prelude.{
  ◌==◌, leb, [], String, codes, suc, not, ◌∷◌, some, str_eq, ℕ, true, ◌||◌, Bool, Option, none,
  List, if◌then◌else◌, ◌&&◌, ◌+◌, ltb, false,
}

-- The service of a row, where it is not deleted.
unfoldable pub living : List Service → WorkRow → Option Service
living services r = elim (find_service r.tenant_id r.service_id services) [
  | none ↦ none
  | some s ↦ if s.deleted then none else some s
]

-- The time has come, or there is no time and a version is not acknowledged.
abbrev pub is_due : ℕ → WorkRow → Bool
is_due now r = elim r.next_run_at [
  | none ↦ ltb r.acknowledged_version r.dirty_version
  | some at ↦ leb at now
]

-- The WHERE clause of the candidate, with the service it is joined with.
unfoldable pub claimable : List Service → String → ℕ → WorkRow → Option Service
unfolding living
claimable services tenant now r =
    if str_eq r.tenant_id tenant && not (is_live now r.lease_until) && is_due now r
    then living services r
    else none

-- A uuid's order is that of its text, character by character.
text_before : List ℕ → List ℕ → Bool
text_before [] [] = false
text_before [] (d ∷ ds) = true
text_before (c ∷ cs) [] = false
text_before (c ∷ cs) (d ∷ ds) = ltb c d || (c == d && text_before cs ds)

time_before : Option ℕ → Option ℕ → Bool
time_before none none = false
time_before none (some b) = true
time_before (some a) none = false
time_before (some a) (some b) = ltb a b

-- `ORDER BY next_run_at NULLS FIRST, updated_at, service_id`.
pub is_before : WorkRow → WorkRow → Bool
unfolding text_before time_before
is_before a b =
    if time_before a.next_run_at b.next_run_at
    then true
    else if time_before b.next_run_at a.next_run_at
    then false
    else if ltb a.updated_at b.updated_at
    then true
    else if ltb b.updated_at a.updated_at
    then false
    else text_before (codes a.service_id) (codes b.service_id)

unfoldable pub earlier : WorkRow × Service → Option (WorkRow × Service) → WorkRow × Service
unfolding is_before
earlier p none = p
earlier p (some q) = if is_before q.0 p.0 then q else p

-- The first row in that order of those that `pick` joins with a service.
unfoldable pub candidate : (WorkRow → Option Service) → List WorkRow → Option (WorkRow × Service)
unfolding earlier
candidate pick [] = none
candidate pick (r ∷ rs) =
    let rest = candidate pick rs in
    elim (pick r) [ none ↦ rest | some s ↦ some (earlier (r, s) rest) ]

abbrev pub leased_row : String → String → ℕ → ℕ → WorkRow → WorkRow
leased_row owner token lease now r = record r {
  lease_owner = some owner;
  lease_token = some token;
  lease_until = some (now + lease);
  attempt = suc r.attempt;
  updated_at = now;
}

abbrev pub item_of : String → WorkRow × Service → Item
item_of token p = record {
  tenant_id = p.0.tenant_id;
  service_id = p.0.service_id;
  generation = p.1.desired_generation;
  dirty_version = p.0.dirty_version;
  lease_token = token;
}

abbrev pub unlocked : (WorkRow → Bool) → (WorkRow → Option Service) → WorkRow → Option Service
unlocked locked pick r = if locked r then none else pick r

-- The UPDATE of the candidate's row, and the row that it returns.
unfoldable pub take_lease :
    String → String → ℕ → ℕ → Tables → Option (WorkRow × Service) → Option Item × Tables
unfolding update_where
take_lease owner token lease now t none = (none, t)
take_lease owner token lease now t (some p) = (
  some (item_of token p),
  record t {
    work =
        (update_where (has_key p.0.tenant_id p.0.service_id) (leased_row owner token lease now)
          t.work).0;
  },
)

unfoldable pub claim_resource_work :
    String → String → ℕ → String → ℕ → (WorkRow → Bool) → Tables → Option Item × Tables
unfolding candidate claimable take_lease
claim_resource_work owner token lease tenant now locked t =
    take_lease owner token lease now t
      (candidate (unlocked locked (claimable t.services tenant now)) t.work)
