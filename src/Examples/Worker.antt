-- ===== src/Examples/Worker.antt =====
-- The worker's run and the loop's pass over the store of a tenant with two services.
use ani_inference_service.Work.Settle.{commit_resource_work}
use ani_inference_service.Work.Claim.{claim_resource_work}
use ani_inference_service.Failure.{Error}
use ani_inference_service.Prelude.{
  some, ok, none, Result, ◌≡◌, [], Option, ◌⊎◌, String, ◌↔◌, ◌*◌, refl, ℕ, ◌∷◌,
}
use ani_inference_service.Work.Worker.{Store, Scheduler, run_once, run_pass}
use ani_inference_service.Work.Store.{
  postgres, Session, Moment, answered, WorkStoreOptions, store_claim, store_commit,
}
use ani_inference_service.Work.Completion.{run_once-Acknowledged, Acknowledged}
use ani_inference_service.Work.Pass.{run_pass-visits, run_each, close_scan, AllReturnNil}
use ani_inference_service.Runner.State.{Item, WorkResult}
use ani_inference_service.Work.Table.{find_service}
use ani_inference_service.Examples.Queue.{notified_both, free}

abbrev options : WorkStoreOptions
options = record { owner = "worker"; lease = 30; observe = 100; retry = 5 }

abbrev pub moments : ℕ → Moment
moments n = record { now = 10 * n; new_token = "first"; locked = free; connection = answered }

abbrev pub parse_any : String → Option String
parse_any s = some s

abbrev no_text : Error → String
no_text e = ""

abbrev database : Store Session
database = postgres parse_any no_text options moments

abbrev succeed : Item → Session → Result Error WorkResult × Session
succeed item s = (ok (record { generation = item.generation }), s)

abbrev start : Session
start = record { tables = notified_both; turn = 0 }

abbrev claimed : Item
claimed = record {
  tenant_id = "tenant";
  service_id = "a";
  generation = 1;
  dirty_version = 1;
  lease_token = "first";
}

run_once-Acknowledged_example :
    ((database.claim "tenant" start).0 ≡ ok none)
    ⊎ ((item : Item) × ((database.claim "tenant" start).0 ≡ ok (some item))
        × Acknowledged parse_any no_text options moments item
            (succeed item (database.claim "tenant" start).1).1
            (run_once database succeed "tenant" start).1.tables)
unfolding run_once store_claim store_commit claim_resource_work commit_resource_work find_service
run_once-Acknowledged_example =
    run_once-Acknowledged parse_any no_text options moments succeed "tenant" start refl

abbrev scheduler : Scheduler Session
scheduler = record {
  list_tenants = λ s. (ok ("tenant" ∷ "" ∷ []), s);
  close = none;
  cancelled = λ s. none;
}

run_pass-visits_example :
    ((run_pass database succeed scheduler start).1
      ≡ run_each database succeed scheduler ("tenant" ∷ []) start)
    × (((run_pass database succeed scheduler start).0 ≡ none) ↔ (
        ((close_scan database succeed scheduler none start).0 ≡ ok tt)
        × AllReturnNil database succeed scheduler ("tenant" ∷ []) start))
run_pass-visits_example =
    run_pass-visits database succeed scheduler start ("tenant" ∷ "" ∷ []) (λ s. refl) refl
