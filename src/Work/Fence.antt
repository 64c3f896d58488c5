-- ===== src/Work/Fence.antt =====
-- The lease token as a fence for CommitResourceWork and RetryResourceWork
-- (internal/data/postgres/work.sql.go).
use ani_inference_service.Work.Rows.{update_where-none, update_where-map}
use ani_inference_service.Work.Invariants.{run-All, KeepsRows}
use ani_inference_service.Runner.State.{Item}
use ani_inference_service.Prelude.{
  ℕ, false, Option, inr, Bool, List, All, some, ◌∷◌, none, inl, [], refl, Bool-cases, true, String,
  ◌≡◌, str_eq, All-map, unwrap_some, ◌&&◌, ◌∙◌, ap, sym, leb, not, false_true,
}
use ani_inference_service.Work.History.{
  run, run_all, Statement, claim, commit, retry, release, upsert, ensure, set_services,
}
use ani_inference_service.Work.Settle.{holds_lease, may_commit, may_retry}
use ani_inference_service.Work.Claim.{
  unlocked, claimable, take_lease, candidate, claim_resource_work, leased_row,
}
use ani_inference_service.Work.Table.{is_token, has_key, WorkRow, Tables, Service}
use ani_inference_service.Work.Settle.{
  commit_resource_work, retry_resource_work, committed, postponed,
}
use ani_inference_service.Work.Settle.{at_generation, is_deleted}
use ani_inference_service.Work.Keys.{rows-Found}

-- A token is not given out again.
abbrev pub Fresh : String → Statement → Type 0
Fresh token (claim owner other lease tenant now locked) = str_eq other token ≡ false
Fresh token _ = Unit

-- No row of the item's service is under the item's lease.
abbrev pub Lost : Item → WorkRow → Type 0
Lost item r =
    has_key item.tenant_id item.service_id r ≡ true
    → is_token item.lease_token r.lease_token ≡ false

run-Lost :
    (item : Item) (s : Statement) (t : Tables)
    → Fresh item.lease_token s
    → KeepsRows (Lost item) s t
unfolding committed
run-Lost item (claim owner token lease tenant now locked) t fresh =
    λ p r holds joined same lost own. fresh
run-Lost item (commit observe now other) t fresh = λ r may lost own. refl
run-Lost item (retry delay now code other) t fresh = λ r may lost own. refl
run-Lost item (release now tenant service) t fresh = λ r same lost own. refl
run-Lost item (upsert tenant service version now) t fresh =
    (λ r same lost. lost, λ missing own. refl)
run-Lost item (ensure tenant service version now) t fresh = λ missing own. refl
run-Lost item (set_services services) t fresh = tt

abbrev pub AllFresh : String → List Statement → Type 0
AllFresh token ss = All (Fresh token) ss

run_all-Lost :
    (item : Item) (ss : List Statement) (t : Tables)
    → AllFresh item.lease_token ss
    → All (Lost item) t.work
    → All (Lost item) (run_all ss t).work
unfolding run_all
run_all-Lost item [] t fresh all = all
run_all-Lost item (s ∷ ss) t (f, fresh) all =
    run_all-Lost item ss (run s t) fresh (run-All (Lost item) s t (run-Lost item s t f) all)

pub has_key-cong : {a b c d : String} (r : WorkRow) → a ≡ c → b ≡ d → has_key a b r ≡ has_key c d r
has_key-cong r e f = rw (e, f) refl

-- Another claim of the service takes the lease over.
take_lease-Lost :
    (owner token : String) (lease now : ℕ) (t : Tables) (o : Option (WorkRow × Service))
    (item next : Item)
    → (take_lease owner token lease now t o).0 ≡ some next
    → next.tenant_id ≡ item.tenant_id
    → next.service_id ≡ item.service_id
    → str_eq token item.lease_token ≡ false
    → All (Lost item) (take_lease owner token lease now t o).1.work
unfolding take_lease
take_lease-Lost owner token lease now t none item next e tenant service other = cc
take_lease-Lost owner token lease now t (some p) item next e tenant service other =
    let claimed = unwrap_some e in
    update_where-map (has_key p.0.tenant_id p.0.service_id) (leased_row owner token lease now)
      t.work (λ r same found own. other)
      (λ r others found own.
        let same =
          has_key-cong r (ap (λ i. i.tenant_id) claimed ∙ tenant)
            (ap (λ i. i.service_id) claimed ∙ service) in
        false_true (sym others ∙ same ∙ own))
      (rows-Found t.work)

-- The lease does not hold on a row that lost it.
Lost-holds_lease :
    (item : Item) (now : ℕ) (r : WorkRow) → Lost item r → holds_lease now item r ≡ false
unfolding holds_lease
Lost-holds_lease item now r lost = elim (Bool-cases (has_key item.tenant_id item.service_id r)) [
  | inl own ↦ rw (own, lost own) refl
  | inr others ↦ rw others refl
]

may-not :
    (item : Item) (now : ℕ) (r : WorkRow) (a b : Bool)
    → Lost item r
    → (holds_lease now item r && a && b) ≡ false
may-not item now r a b lost = rw (Lost-holds_lease item now r lost) refl

-- Without the lease a commit and a retry change no row.
Lost-commit :
    (observe now : ℕ) (item : Item) (t : Tables)
    → All (Lost item) t.work
    → commit_resource_work observe now item t ≡ (t, 0)
unfolding commit_resource_work may_commit
Lost-commit observe now item t lost =
    rw
      (update_where-none (may_commit t.services now item) (committed t.services observe now item)
        t.work
        (All-map t.work
          (λ r h.
            may-not item now r (at_generation t.services item.generation r)
              (leb item.dirty_version r.dirty_version) h)
          lost))
      refl

Lost-retry :
    (delay now : ℕ) (code : String) (item : Item) (t : Tables)
    → All (Lost item) t.work
    → retry_resource_work delay now code item t ≡ (t, 0)
unfolding retry_resource_work may_retry
Lost-retry delay now code item t lost =
    rw
      (update_where-none (may_retry t.services now item) (postponed delay now code) t.work (
        All-map t.work
          (λ r h.
            may-not item now r (at_generation t.services item.generation r)
              (not (is_deleted t.services r)) h)
          lost))
      refl

-- Once another claim of the item's service has taken the lease over, then whatever happens later,
-- if no claim uses the item's token again: a commit and a retry of the item change nothing and
-- affect no row.
pub claim_fences :
    (owner token : String) (lease : ℕ) (tenant : String) (at : ℕ) (locked : WorkRow → Bool)
    (t : Tables) (item next : Item) (ss : List Statement)
    → (claim_resource_work owner token lease tenant at locked t).0 ≡ some next
    → next.tenant_id ≡ item.tenant_id
    → next.service_id ≡ item.service_id
    → AllFresh item.lease_token (claim owner token lease tenant at locked ∷ ss)
    → (observe delay now : ℕ) (code : String)
    → let u = run_all (claim owner token lease tenant at locked ∷ ss) t in
      (commit_resource_work observe now item u ≡ (u, 0))
      × (retry_resource_work delay now code item u ≡ (u, 0))
unfolding run_all claim_resource_work
claim_fences owner token lease tenant at locked t item next ss e same_tenant same_service
      (other, fresh) observe delay now code =
    let o = candidate (unlocked locked (claimable t.services tenant at)) t.work in
    let lost =
      run_all-Lost item ss (take_lease owner token lease at t o).1 fresh
        (take_lease-Lost owner token lease at t o item next e same_tenant same_service other) in
    (Lost-commit observe now item _ lost, Lost-retry delay now code item _ lost)
