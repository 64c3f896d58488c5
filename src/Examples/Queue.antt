-- ===== src/Examples/Queue.antt =====
-- The theorems about durable work at a tenant with two services.
use ani_inference_service.Prelude.{
  some, String, [], arith, Bool, false, ◌≡◌, refl, All, true, List, ◌∷◌,
}
use ani_inference_service.Work.History.{run, run_all, Statement, claim, commit, upsert}
use ani_inference_service.Work.Claim.{claim_resource_work, claimable, living}
use ani_inference_service.Work.Settle.{
  new_row, commit_resource_work, retry_resource_work, may_commit, committed, upsert_resource_work,
}
use ani_inference_service.Work.Table.{Tables, Service, WorkRow}
use ani_inference_service.Work.Liveness.{run_all-Recurs, Recurs}
use ani_inference_service.Work.Fence.{claim_fences}
use ani_inference_service.Work.Exclusive.{claim_excludes}
use ani_inference_service.Work.Notified.{upsert_wakes}
use ani_inference_service.Runner.State.{Item}
use ani_inference_service.Work.Table.{find_service}
use ani_inference_service.Work.Exclusive.{SameService}

abbrev service : String → Service
service id = record {
  tenant_id = "tenant";
  id = id;
  desired_state = "running";
  desired_generation = 1;
  deleted = false;
  current_operation_id = "operation";
}

-- Both services are notified at time 0.
abbrev pub notified_both : Tables
notified_both = record {
  services = service "a" ∷ service "b" ∷ [];
  work = new_row "tenant" "a" 1 0 ∷ new_row "tenant" "b" 1 0 ∷ [];
}

abbrev pub free : WorkRow → Bool
free r = false

abbrev leased_item : String → String → Item
leased_item id token = record {
  tenant_id = "tenant";
  service_id = id;
  generation = 1;
  dirty_version = 1;
  lease_token = token;
}

abbrev first_claim : Statement
first_claim = claim "worker" "first" 30 "tenant" 0 free

abbrev a_day : List Statement
a_day =
    upsert "tenant" "a" 1 0
    ∷ first_claim
    ∷ upsert "tenant" "a" 1 5
    ∷ commit 100 6 (leased_item "a" "first")
    ∷ []

abbrev after_a_day : Tables
after_a_day = run_all a_day (record { services = service "a" ∷ []; work = [] })

run_all-Recurs_example : All (Recurs after_a_day.services) after_a_day.work
run_all-Recurs_example = run_all-Recurs (service "a" ∷ []) a_day (tt, (tt, (tt, (tt, tt))))

-- The lease of the first worker has ended, and another one claims the service.
abbrev taken_over : Tables
taken_over =
    run_all (claim "other" "second" 30 "tenant" 40 free ∷ []) (run first_claim notified_both)

claim_fences_example :
    (commit_resource_work 100 50 (leased_item "a" "first") taken_over ≡ (taken_over, 0))
    × (retry_resource_work 5 50 "retry" (leased_item "a" "first") taken_over ≡ (taken_over, 0))
unfolding run claim_resource_work find_service
claim_fences_example =
    claim_fences "other" "second" 30 "tenant" 40 free (run first_claim notified_both)
      (leased_item "a" "first") (leased_item "a" "second") [] refl refl refl (refl, tt) 100 5 50
      "retry"

-- The second worker gets the other service.
claim_excludes_example : ¬ SameService (leased_item "b" "second") (leased_item "a" "first")
unfolding run_all run claim_resource_work upsert_resource_work find_service
claim_excludes_example =
    claim_excludes "worker" "first" 30 "tenant" 0 free notified_both (leased_item "a" "first")
      (upsert "tenant" "a" 1 5 ∷ []) refl (tt, tt) "other" "second" 30 "tenant" 10 free
      (leased_item "b" "second") (omega arith) refl

abbrev woken : Tables
woken = run_all (upsert "tenant" "a" 1 5 ∷ []) (run first_claim notified_both)

upsert_wakes_example :
    All
      (λ r.
        may_commit woken.services 6 (leased_item "a" "first") r ≡ true
        → (s : Service) → living woken.services r ≡ some s
        → claimable woken.services r.tenant_id 6
            (committed woken.services 100 6 (leased_item "a" "first") r)
          ≡ some s)
      woken.work
unfolding run claim_resource_work find_service
upsert_wakes_example =
    upsert_wakes (leased_item "a" "first") 1 5 (run first_claim notified_both) [] refl
      ((λ own. omega arith), ((λ own. omega arith), tt)) 100 6
