-- ===== src/Work/Held.antt =====
-- Rows under a live lease (internal/data/postgres/work.sql.go).
use ani_inference_service.Work.Invariants.{KeepsRows}
use ani_inference_service.Runner.State.{Item}
use ani_inference_service.Prelude.{
  not, ◌≡◌, ◌∙◌, arith, ◌<◌, sym, List, and3-eq-true, ◌≢◌, some, String, true, leb, ltb, ℕ,
  if◌then◌else◌, eq_iff, false_true, str_eq, false, none, refl, Bool, ap, Option, All, [], ◌∷◌,
}
use ani_inference_service.Work.History.{
  run, Statement, claim, commit, retry, release, upsert, ensure, set_services,
}
use ani_inference_service.Work.Settle.{
  committed, may_commit, may_retry, holds_lease, at_generation, is_deleted,
}
use ani_inference_service.Work.Claim.{claimable}
use ani_inference_service.Work.Fence.{has_key-cong}
use ani_inference_service.Work.Keys.{has_key-eq, has_key-own}
use ani_inference_service.Work.Table.{Tables, Service, WorkRow, has_key, has_row}
use ani_inference_service.Work.Settle.{new_row}
use ani_inference_service.Work.Claim.{living, is_due}
use ani_inference_service.Work.Table.{is_live, is_token}
use ani_inference_service.Work.History.{run_all}
use ani_inference_service.Work.Keys.{run-has_row}
use ani_inference_service.Work.Invariants.{run-All}

-- The row of the item's service is under the item's lease, which ends at `until`.
abbrev pub Held : Item → ℕ → WorkRow → Type 0
Held item until r =
    has_key item.tenant_id item.service_id r ≡ true
    → (r.lease_token ≡ some item.lease_token) × (r.lease_until ≡ some until)

-- A claim comes before the lease ends; commits and retries are of other leases; and the service's
-- lease is not released by a command.
abbrev pub Respects : Item → ℕ → Statement → Type 0
Respects item until (claim owner token lease tenant now locked) = now < until
Respects item until (commit observe now other) = other.lease_token ≢ item.lease_token
Respects item until (retry delay now code other) = other.lease_token ≢ item.lease_token
Respects item until (release now tenant service) =
    (tenant ≡ item.tenant_id) × (service ≡ item.service_id) → ⊥
Respects item until _ = Unit

live_before : (now until : ℕ) → now < until → ltb now until ≡ true
live_before now until h = ground arith

if_some-true :
    {A : Type 0} (test : Bool) (o : Option A) {a : A}
    → (if test then o else none) ≡ some a
    → test ≡ true
if_some-true true o e = refl
if_some-true false o e = cc

-- A live lease is not claimable.
pub held-claimable :
    (services : List Service) (tenant : String) (now until : ℕ) (r : WorkRow) {s : Service}
    → r.lease_until ≡ some until
    → now < until
    → claimable services tenant now r ≡ some s
    → ⊥
unfolding claimable
held-claimable services tenant now until r held early e =
    let (own, free, timely) =
      and3-eq-true (str_eq r.tenant_id tenant) (not (is_live now r.lease_until)) (is_due now r)
        (if_some-true _ (living services r) e) in
    false_true
      (sym (ap (λ o. not (is_live now o)) held ∙ ap not (live_before now until early)) ∙ free)

-- A lease holds for one token only.
held-token :
    (now : ℕ) (other : Item) (token : String) (r : WorkRow)
    → r.lease_token ≡ some token
    → other.lease_token ≢ token
    → holds_lease now other r ≡ true
    → ⊥
unfolding holds_lease
held-token now other token r own differs holds =
    let (key, same, live) =
      and3-eq-true (has_key other.tenant_id other.service_id r)
        (is_token other.lease_token r.lease_token) (is_live now r.lease_until) holds in
    differs
      (sym ((eq_iff token other.lease_token).0 (sym (ap (is_token other.lease_token) own) ∙ same)))

-- A service that has a row gets no new one.
pub second-row :
    (item : Item) (tenant service : String) (work : List WorkRow) (r : WorkRow) {A : Type 0}
    → has_row item.tenant_id item.service_id work ≡ true
    → has_row tenant service work ≡ false
    → has_key item.tenant_id item.service_id r ≡ true
    → r.tenant_id ≡ tenant
    → r.service_id ≡ service
    → A
second-row item tenant service work r there missing own at id =
    let (it, is) = has_key-eq item.tenant_id item.service_id r own in
    false_true (
      sym missing
      ∙ ap (λ x. has_row x service work) (sym at ∙ it)
      ∙ ap (λ x. has_row item.tenant_id x work) (sym id ∙ is)
      ∙ there)

module _ (item : Item) (until : ℕ) where
  run-Held :
      (s : Statement) (t : Tables)
      → Respects item until s
      → has_row item.tenant_id item.service_id t.work ≡ true
      → KeepsRows (Held item until) s t
  unfolding committed may_commit may_retry
  run-Held (claim owner token lease tenant now locked) t early there =
      λ p r holds joined same held own.
        let (pt, ps) = has_key-eq p.0.tenant_id p.0.service_id r same in
        let (it, is) = has_key-eq item.tenant_id item.service_id r own in
        absurd (
          held-claimable t.services tenant now until p.0
            (holds (has_key-cong p.0 (sym it ∙ pt) (sym is ∙ ps) ∙ has_key-own p.0)).1 early joined)
  run-Held (commit observe now other) t differs there = λ r may held own. absurd (
      held-token now other item.lease_token r (held own).0 differs
        (and3-eq-true (holds_lease now other r) (at_generation t.services other.generation r)
          (leb other.dirty_version r.dirty_version) may).0)
  run-Held (retry delay now code other) t differs there = λ r may held own. absurd (
      held-token now other item.lease_token r (held own).0 differs
        (and3-eq-true (holds_lease now other r) (at_generation t.services other.generation r)
          (not (is_deleted t.services r)) may).0)
  run-Held (release now tenant service) t other there = λ r same held own.
      let (pt, ps) = has_key-eq tenant service r same in
      let (it, is) = has_key-eq item.tenant_id item.service_id r own in
      absurd (other (sym pt ∙ it, sym ps ∙ is))
  run-Held (upsert tenant service version now) t u there = (
    λ r same held. held,
    λ missing own.
        second-row item tenant service t.work (new_row tenant service version now) there missing own
          refl refl,
  )
  run-Held (ensure tenant service version now) t u there = λ missing own.
      second-row item tenant service t.work (new_row tenant service version now) there missing own
        refl refl
  run-Held (set_services services) t u there = tt

  pub run_all-Held :
      (ss : List Statement) (t : Tables)
      → All (Respects item until) ss
      → has_row item.tenant_id item.service_id t.work ≡ true
      → All (Held item until) t.work
      → All (Held item until) (run_all ss t).work
  unfolding run_all
  run_all-Held [] t respects there all = all
  run_all-Held (s ∷ ss) t (r, respects) there all =
      run_all-Held ss (run s t) respects (run-has_row item.tenant_id item.service_id s t there)
        (run-All (Held item until) s t (run-Held s t r there) all)
