-- ===== src/Work/Liveness.antt =====
-- When a row of inference_resource_work can be claimed again (internal/data/postgres/work.sql.go).
use ani_inference_service.Work.Invariants.{run-All}
use ani_inference_service.Work.Settle.{is_deleted}
use ani_inference_service.Work.Scheduled.{Scheduled, AllKeepDeleted, is_deleted-run, run-Scheduled}
use ani_inference_service.Work.History.{run_all, Statement, run}
use ani_inference_service.Work.Claim.{claimable, living, is_due}
use ani_inference_service.Work.Table.{Service, is_live, WorkRow, Tables}
use ani_inference_service.Prelude.{
  ◌+◌, [], ◌≡◌, ◌∷◌, refl, leb, ℕ, not, none, All, arith, Option, List, ◌≤◌, eq_refl, true, some,
  All-map, if◌then◌else◌, false, ◌∙◌, Bool,
}
use ani_inference_service.Work.Scheduled.{is_deleted-run}
use ani_inference_service.Work.Table.{find_service}

run_all-Scheduled :
    (ss : List Statement) (t : Tables)
    → AllKeepDeleted t ss
    → All (Scheduled t.services) t.work
    → All (Scheduled (run_all ss t).services) (run_all ss t).work
unfolding run_all
run_all-Scheduled [] t keep all = all
run_all-Scheduled (s ∷ ss) t (keep, keeps) all = run_all-Scheduled ss (run s t) keeps (
    All-map (run s t).work
      (λ r scheduled. (scheduled.0, λ e. is_deleted-run s t keep r (scheduled.1 e)))
      (run-All (Scheduled t.services) s t (run-Scheduled s t) all))

-- From some time on the row can be claimed, unless something happens to it first.
abbrev pub Recurs : List Service → WorkRow → Type 0
Recurs services r =
    (s : Service)
    → living services r ≡ some s
    → (from : ℕ) × ((now : ℕ) → from ≤ now → claimable services r.tenant_id now r ≡ some s)

bound : Option ℕ → ℕ
bound none = 0
bound (some at) = at

expired : (lease : Option ℕ) (now : ℕ) → bound lease ≤ now → not (is_live now lease) ≡ true
unfolding bound
expired none now h = refl
expired (some at) now h = ground arith

pub due : (at : ℕ) (now : ℕ) → at ≤ now → leb at now ≡ true
due at now h = ground arith

pub is_due-at :
    (now : ℕ) (r : WorkRow) (at : ℕ)
    → r.next_run_at ≡ some at
    → leb at now ≡ true
    → is_due now r ≡ true
is_due-at now r at e h = rw e h

pub claimable-open :
    (services : List Service) (now : ℕ) (r : WorkRow)
    → not (is_live now r.lease_until) ≡ true
    → is_due now r ≡ true
    → claimable services r.tenant_id now r ≡ living services r
unfolding claimable
claimable-open services now r free timely = rw (eq_refl r.tenant_id, free, timely)

not_dropped :
    {A : Type 0} (b : Bool) (o : Option A) {a : A} → (if b then none else o) ≡ some a → b ≡ false
not_dropped true o e = cc
not_dropped false o e = refl

joined-deleted :
    (o : Option Service) {s : Service}
    → elim o [ none ↦ none | some s ↦ if s.deleted then none else some s ] ≡ some s
    → elim o [ none ↦ false | some s ↦ s.deleted ] ≡ false
joined-deleted none e = cc
joined-deleted (some q) e = not_dropped q.deleted (some q) e

pub living-is_deleted :
    (services : List Service) (r : WorkRow) {s : Service}
    → living services r ≡ some s
    → is_deleted services r ≡ false
unfolding living is_deleted
living-is_deleted services r alive =
    joined-deleted (find_service r.tenant_id r.service_id services) alive

pub Scheduled-Recurs :
    (services : List Service) (r : WorkRow) → Scheduled services r → Recurs services r
Scheduled-Recurs services r (acked, timed) s alive = go r.next_run_at refl
  where
    go :
        (o : Option ℕ)
        → r.next_run_at ≡ o
        → (from : ℕ) × ((now : ℕ) → from ≤ now → claimable services r.tenant_id now r ≡ some s)
    go none e = let gone = timed e in let kept = living-is_deleted services r alive in cc
    go (some at) e = (
      at + bound r.lease_until,
      λ now h.
          claimable-open services now r (expired r.lease_until now (omega arith))
            (is_due-at now r at e (due at now (omega arith)))
          ∙ alive,
    )

-- Whatever statements any workers, notifications and commands run in whichever order, if no
-- deletion is taken back: every row whose service is not deleted can be claimed again from some
-- time on, unless something happens to it first.
pub run_all-Recurs :
    (services : List Service) (ss : List Statement)
    → AllKeepDeleted (record { services = services; work = [] }) ss
    → let t = run_all ss (record { services = services; work = [] }) in
      All (Recurs t.services) t.work
run_all-Recurs services ss keeps =
    let t = run_all ss (record { services = services; work = [] }) in
    All-map t.work (λ r h. Scheduled-Recurs t.services r h)
      (run_all-Scheduled ss (record { services = services; work = [] }) keeps tt)
