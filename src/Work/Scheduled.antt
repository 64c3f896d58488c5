-- ===== src/Work/Scheduled.antt =====
-- The times and versions of rows of inference_resource_work under the statements of
-- internal/data/postgres/work.sql.go and inference.sql.go.
use ani_inference_service.Work.Claim.{claim_resource_work, take_lease}
use ani_inference_service.Runner.State.{Item}
use ani_inference_service.Work.Settle.{
  may_commit, committed, is_deleted, insert_row, commit_resource_work, retry_resource_work, new_row,
  release_resource_work_lease, upsert_resource_work, ensure_resource_work,
}
use ani_inference_service.Work.History.{Statement, set_services, run, or_unchanged}
use ani_inference_service.Work.Table.{Service, Tables, WorkRow, greatest, find_service}
use ani_inference_service.Prelude.{
  true, ℕ, none, ◌≡◌, List, [], ◌≤◌, ◌∷◌, some, Bool, suc, arith, leb→le, if◌then◌else◌, ltb, refl,
  false, ◌+◌, leb, and3-eq-true, ◌++◌, Option, sym, subst, String,
}
use ani_inference_service.Work.History.{
  run, Statement, claim, commit, retry, release, upsert, ensure, set_services,
}
use ani_inference_service.Work.Settle.{
  is_deleted, may_commit, committed, holds_lease, at_generation, notified,
}
use ani_inference_service.Work.Invariants.{KeepsRows}
use ani_inference_service.Work.Settle.{ensure_resource_work}
use ani_inference_service.Work.Table.{has_row}

-- A deletion is never taken back.
abbrev pub KeepsDeleted : List Service → Statement → Type 0
KeepsDeleted old (set_services new) =
    (r : WorkRow) → is_deleted old r ≡ true → is_deleted new r ≡ true
KeepsDeleted old _ = Unit

abbrev pub AllKeepDeleted : Tables → List Statement → Type 0
AllKeepDeleted t [] = Unit
AllKeepDeleted t (s ∷ ss) = KeepsDeleted t.services s × AllKeepDeleted (run s t) ss

-- Only versions that were notified are acknowledged, and without a time the service is deleted.
abbrev pub Scheduled : List Service → WorkRow → Type 0
Scheduled services r =
    (r.acknowledged_version ≤ r.dirty_version)
    × (r.next_run_at ≡ none → is_deleted services r ≡ true)

greatest-≤ : (a b c : ℕ) → a ≤ c → b ≤ c → greatest a b ≤ c
greatest-≤ a b c h k = ground arith

-- Only a deleted service ends without a next time.
next_time-deleted :
    (gone later : Bool) (now later_on : ℕ)
    → (if gone then none else if later then some now else some later_on) ≡ none
    → gone ≡ true
next_time-deleted true later now later_on e = refl
next_time-deleted false true now later_on e = cc
next_time-deleted false false now later_on e = cc

module _ (services : List Service) where
  committed-Scheduled :
      (observe now : ℕ) (item : Item) (r : WorkRow)
      → may_commit services now item r ≡ true
      → Scheduled services r
      → Scheduled services (committed services observe now item r)
  unfolding may_commit committed
  committed-Scheduled observe now item r may (acked, timed) =
      let (held, fresh, bounded) =
        and3-eq-true (holds_lease now item r) (at_generation services item.generation r)
          (leb item.dirty_version r.dirty_version) may in
      (
        greatest-≤ r.acknowledged_version item.dirty_version r.dirty_version acked
            (leb→le item.dirty_version r.dirty_version bounded),
        λ e.
            next_time-deleted (is_deleted services r) (ltb item.dirty_version r.dirty_version) now
              (now + observe) e,
      )

  untimed : (now : ℕ) {A : Type 0} → some now ≡ none → A
  untimed now e = cc

  notified-Scheduled :
      (version now : ℕ) (r : WorkRow)
      → Scheduled services r
      → Scheduled services (notified version now r)
  notified-Scheduled version now r (acked, timed) =
      (grow r.acknowledged_version r.dirty_version version acked, λ e. untimed now e)
    where
      grow : (a d v : ℕ) → a ≤ d → a ≤ greatest (suc d) v
      grow a d v h = ground arith

pub run-Scheduled : (s : Statement) (t : Tables) → KeepsRows (Scheduled t.services) s t
unfolding is_deleted
run-Scheduled (claim owner token lease tenant now locked) t = λ p r holds joined same pr. pr
run-Scheduled (commit observe now item) t =
    λ r may pr. committed-Scheduled t.services observe now item r may pr
run-Scheduled (retry delay now code item) t =
    λ r may pr. (pr.0, λ e. untimed t.services (now + delay) e)
run-Scheduled (release now tenant service) t = λ r same pr. (pr.0, λ e. untimed t.services now e)
run-Scheduled (upsert tenant service version now) t = (
  λ r same pr. notified-Scheduled t.services version now r pr,
  λ missing. (omega arith, λ e. untimed t.services now e),
)
run-Scheduled (ensure tenant service version now) t =
    λ missing. (omega arith, λ e. untimed t.services now e)
run-Scheduled (set_services services) t = tt

insert_row-services :
    (tenant service : String) (version now : ℕ) (t : Tables)
    → (or_unchanged t (insert_row tenant service version now t)).services ≡ t.services
unfolding insert_row
insert_row-services tenant service version now t =
    elim (find_service tenant service t.services)
      as (λ o.
        (or_unchanged t (elim o [
          | none ↦ none
          | some s ↦ some (record t { work = t.work ++ (new_row tenant service version now ∷ []) })
        ])).services
        ≡ t.services) [ none ↦ refl | some s ↦ refl ]

take_lease-services :
    (owner token : String) (lease now : ℕ) (t : Tables) (o : Option (WorkRow × Service))
    → (take_lease owner token lease now t o).1.services ≡ t.services
unfolding take_lease
take_lease-services owner token lease now t none = refl
take_lease-services owner token lease now t (some p) = refl

if_row-services :
    (test : Bool) (t : Tables) (u v : Option Tables)
    → (or_unchanged t u).services ≡ t.services
    → (or_unchanged t v).services ≡ t.services
    → (or_unchanged t (if test then u else v)).services ≡ t.services
if_row-services true t u v p q = p
if_row-services false t u v p q = q

-- A deleted service stays deleted.
pub is_deleted-run :
    (s : Statement) (t : Tables)
    → KeepsDeleted t.services s
    → (r : WorkRow) → is_deleted t.services r ≡ true
    → is_deleted (run s t).services r ≡ true
unfolding run claim_resource_work commit_resource_work retry_resource_work
    release_resource_work_lease upsert_resource_work ensure_resource_work
is_deleted-run (claim owner token lease tenant now locked) t keep r gone =
    subst (λ ss. is_deleted ss r ≡ true) (sym (take_lease-services owner token lease now t _)) gone
is_deleted-run (commit observe now item) t keep r gone = gone
is_deleted-run (retry delay now code item) t keep r gone = gone
is_deleted-run (release now tenant service) t keep r gone = gone
is_deleted-run (upsert tenant service version now) t keep r gone =
    subst (λ ss. is_deleted ss r ≡ true)
      (sym (
        if_row-services (has_row tenant service t.work) t _
          (insert_row tenant service version now t) refl
          (insert_row-services tenant service version now t)))
      gone
is_deleted-run (ensure tenant service version now) t keep r gone =
    subst (λ ss. is_deleted ss r ≡ true)
      (sym (
        if_row-services (has_row tenant service t.work) t (some t)
          (insert_row tenant service version now t) refl
          (insert_row-services tenant service version now t)))
      gone
is_deleted-run (set_services services) t keep r gone = keep r gone
