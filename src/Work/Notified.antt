-- ===== src/Work/Notified.antt =====
-- Notifications that arrive while a worker runs, and its commit
-- (internal/data/postgres/work.sql.go and inference.sql.go).
use ani_inference_service.Work.Rows.{update_where-map}
use ani_inference_service.Work.Claim.{living, claimable}
use ani_inference_service.Work.Invariants.{run-All, KeepsRows}
use ani_inference_service.Runner.State.{Item}
use ani_inference_service.Prelude.{
  [], arith, ◌≤◌, ◌≡◌, All, ℕ, List, true, ◌∷◌, suc, refl, some, All-map, false_true, leb, ltb, ◌∙◌,
  sym, false, and3-eq-true,
}
use ani_inference_service.Work.History.{
  run, run_all, Statement, claim, commit, retry, release, upsert, ensure, set_services,
}
use ani_inference_service.Work.Settle.{committed, new_row, may_commit}
use ani_inference_service.Work.Keys.{run-has_row}
use ani_inference_service.Work.Held.{second-row}
use ani_inference_service.Work.Table.{has_key, has_row, greatest, Tables, WorkRow, Service}
use ani_inference_service.Work.Liveness.{claimable-open, is_due-at, due, living-is_deleted}
use ani_inference_service.Work.Settle.{
  notified, upsert_resource_work, is_deleted, holds_lease, at_generation,
}
use ani_inference_service.Work.Table.{Tables, is_token, is_live}

-- The versions of the item's service start from `least`.
abbrev pub Reaches : Item → ℕ → WorkRow → Type 0
Reaches item least r = has_key item.tenant_id item.service_id r ≡ true → least ≤ r.dirty_version

greater : (a d v : ℕ) → a ≤ d → suc a ≤ greatest (suc d) v
greater a d v h = ground arith

module _ (item : Item) (least : ℕ) where
  run-Reaches :
      (s : Statement) (t : Tables)
      → has_row item.tenant_id item.service_id t.work ≡ true
      → KeepsRows (Reaches item least) s t
  unfolding committed
  run-Reaches (claim owner token lease tenant now locked) t there =
      λ p r holds joined same kept. kept
  run-Reaches (commit observe now other) t there = λ r may kept. kept
  run-Reaches (retry delay now code other) t there = λ r may kept. kept
  run-Reaches (release now tenant service) t there = λ r same kept. kept
  run-Reaches (upsert tenant service version now) t there = (
    λ r same kept own. ≤-trans-suc (greater least r.dirty_version version (kept own)),
    λ missing own.
        second-row item tenant service t.work (new_row tenant service version now) there missing own
          refl refl,
  )
    where
      ≤-trans-suc : {a b : ℕ} → suc a ≤ b → a ≤ b
      ≤-trans-suc h = omega arith
  run-Reaches (ensure tenant service version now) t there = λ missing own.
      second-row item tenant service t.work (new_row tenant service version now) there missing own
        refl refl
  run-Reaches (set_services services) t there = tt

  run_all-Reaches :
      (ss : List Statement) (t : Tables)
      → has_row item.tenant_id item.service_id t.work ≡ true
      → All (Reaches item least) t.work
      → All (Reaches item least) (run_all ss t).work
  unfolding run_all
  run_all-Reaches [] t there all = all
  run_all-Reaches (s ∷ ss) t there all =
      run_all-Reaches ss (run s t) (run-has_row item.tenant_id item.service_id s t there)
        (run-All (Reaches item least) s t (run-Reaches s t there) all)

-- A notification raises the version of the service's row.
upsert-Reaches :
    (item : Item) (least version now : ℕ) (t : Tables)
    → has_row item.tenant_id item.service_id t.work ≡ true
    → All (Reaches item least) t.work
    → All
        (Reaches item (suc least))
        (run (upsert item.tenant_id item.service_id version now) t).work
unfolding run upsert_resource_work
upsert-Reaches item least version now t there all = rw there (
    update_where-map (has_key item.tenant_id item.service_id) (notified version now) t.work
      (λ r own kept same. greater least r.dirty_version version (kept own))
      (λ r others kept own. false_true (sym others ∙ own)) all)

not_seen : (a b : ℕ) → suc a ≤ b → ltb a b ≡ true
not_seen a b h = ground arith

committed-next :
    (services : List Service) (observe now : ℕ) (item : Item) (r : WorkRow)
    → is_deleted services r ≡ false
    → ltb item.dirty_version r.dirty_version ≡ true
    → (committed services observe now item r).next_run_at ≡ some now
unfolding committed
committed-next services observe now item r alive late = rw (alive, late) refl

-- The commit leaves a row with a version that it has not seen due at once.
committed-claimable :
    (services : List Service) (observe now : ℕ) (item : Item) (r : WorkRow) {s : Service}
    → suc item.dirty_version ≤ r.dirty_version
    → living services r ≡ some s
    → claimable services r.tenant_id now (committed services observe now item r) ≡ some s
unfolding committed living
committed-claimable services observe now item r late alive =
    claimable-open services now (committed services observe now item r) refl (
      is_due-at now (committed services observe now item r) now
        (committed-next services observe now item r (living-is_deleted services r alive)
          (not_seen item.dirty_version r.dirty_version late))
        (due now now (omega arith)))
    ∙ alive

-- A worker holds an item whose version the service's row has reached. If the service is notified
-- and then anything happens, and the worker's commit is accepted: its row is due at the moment of
-- the commit, unless the service is deleted.
pub upsert_wakes :
    (item : Item) (version at : ℕ) (t : Tables) (ss : List Statement)
    → has_row item.tenant_id item.service_id t.work ≡ true
    → All (Reaches item item.dirty_version) t.work
    → (observe now : ℕ)
    → let u = run_all (upsert item.tenant_id item.service_id version at ∷ ss) t in
      All
        (λ r.
          may_commit u.services now item r ≡ true
          → (s : Service) → living u.services r ≡ some s
          → claimable u.services r.tenant_id now (committed u.services observe now item r) ≡ some s)
        u.work
unfolding run_all may_commit
upsert_wakes item version at t ss there all observe now =
    let s = upsert item.tenant_id item.service_id version at in
    let u = run_all (s ∷ ss) t in
    All-map u.work
      (λ r kept may service alive.
        committed-claimable u.services observe now item r
          (kept
            (and3-eq-true (has_key item.tenant_id item.service_id r)
              (is_token item.lease_token r.lease_token) (is_live now r.lease_until)
              (and3-eq-true (holds_lease now item r) (at_generation u.services item.generation r)
                (leb item.dirty_version r.dirty_version) may).0).0)
          alive)
      (run_all-Reaches item (suc item.dirty_version) ss (run s t)
        (run-has_row item.tenant_id item.service_id s t there)
        (upsert-Reaches item item.dirty_version version at t there all))
