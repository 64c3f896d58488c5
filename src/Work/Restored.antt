-- ===== src/Work/Restored.antt =====
-- After a repair, no service is forgotten.
use ani_inference_service.Work.Table.{Service, WorkRow}
use ani_inference_service.Prelude.{
  ◌++◌, Option, List, All-map, ok, sym, All, subst, ℕ, ◌≡◌, false, String, arith, All-append,
}
use ani_inference_service.Work.Store.{Session, Moment}
use ani_inference_service.Work.Repaired.{repair-HasWork}
use ani_inference_service.Work.Appended.{IsAdded}
use ani_inference_service.Work.Table.{Tables}
use ani_inference_service.Work.Recovered.{HasWork, IsCanonical}
use ani_inference_service.Work.Recover.{repair}
use ani_inference_service.Work.Scheduled.{Scheduled}
use ani_inference_service.Work.Liveness.{Recurs, Scheduled-Recurs}

IsAdded-Scheduled :
    (moments : ℕ → Moment) (t : Tables) (services : List Service) (r : WorkRow)
    → IsAdded moments t r
    → Scheduled services r
IsAdded-Scheduled moments t services r added = (
  omega (arith, added.unacknowledged),
  λ none_left. absurd (ground (arith, added.is_due, none_left)),
)

-- With nobody else at the tables, whose identifiers print as they are parsed, and where a row is
-- without a time only if its service is deleted: after a repair that succeeds, every service that is
-- not deleted has a row of work, and every row whose service is not deleted can be claimed from some
-- time on, unless something happens to it first.
pub repair-Recurs :
    (parse_uuid : String → Option String) (moments : ℕ → Moment) (s s' : Session)
    → IsCanonical parse_uuid s.tables.services
    → All (Scheduled s.tables.services) s.tables.work
    → repair parse_uuid moments s ≡ (ok tt, s')
    → All (λ v. v.deleted ≡ false → HasWork s'.tables v) s.tables.services
      × All (Recurs s'.tables.services) s'.tables.work
repair-Recurs parse_uuid moments s s' canonical scheduled h =
    let (appends, covered) = repair-HasWork parse_uuid moments s s' canonical h in
    let services = s.tables.services in
    let all : All (Scheduled services) (s.tables.work ++ appends.more) =
      All-append (Scheduled services) s.tables.work appends.more scheduled
        (All-map appends.more (IsAdded-Scheduled moments s.tables services) appends.all_added) in
    let same : All (Scheduled s'.tables.services) s'.tables.work =
      subst (λ vs. All (Scheduled vs) s'.tables.work) (sym appends.services_stay)
        (subst (All (Scheduled services)) (sym appends.rows_after) all) in
    (covered, All-map s'.tables.work (Scheduled-Recurs s'.tables.services) same)
