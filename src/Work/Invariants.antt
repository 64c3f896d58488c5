-- ===== src/Work/Invariants.antt =====
-- A property of all rows of the work table is kept by a statement that keeps it row by row.
use ani_inference_service.Work.Rows.{update_where-All, append-All, candidate-All}
use ani_inference_service.Work.History.{Statement, run, ensure, upsert, claim, or_unchanged}
use ani_inference_service.Work.Claim.{
  claim_resource_work, claimable, unlocked, leased_row, candidate, take_lease,
}
use ani_inference_service.Work.Settle.{
  insert_row, ensure_resource_work, upsert_resource_work, commit_resource_work, new_row,
  retry_resource_work, release_resource_work_lease, may_commit, notified, committed, may_retry,
  postponed, released,
}
use ani_inference_service.Work.Table.{WorkRow, Tables, Service, find_service, has_row, has_key}
use ani_inference_service.Prelude.{
  some, ◌≡◌, Bool, ◌∷◌, false, ℕ, none, String, [], ◌++◌, All, Bool-cases, inl, true, inr, Option,
  refl, if◌then◌else◌,
}
use ani_inference_service.Work.History.{claim, commit, retry, release, upsert, ensure, set_services}
use ani_inference_service.Work.Claim.{claimable}
use ani_inference_service.Work.Table.{find_service, has_row}
use ani_inference_service.Work.Settle.{released}

-- What a statement must do to single rows to keep `P`.
abbrev pub KeepsRows : (WorkRow → Type 0) → Statement → Tables → Type 0
KeepsRows P (claim owner token lease tenant now locked) t =
    (p : WorkRow × Service) (r : WorkRow)
    → P p.0
    → claimable t.services tenant now p.0 ≡ some p.1
    → has_key p.0.tenant_id p.0.service_id r ≡ true
    → P r
    → P (leased_row owner token lease now r)
KeepsRows P (commit observe now item) t =
    (r : WorkRow)
    → may_commit t.services now item r ≡ true
    → P r
    → P (committed t.services observe now item r)
KeepsRows P (retry delay now code item) t =
    (r : WorkRow) → may_retry t.services now item r ≡ true → P r → P (postponed delay now code r)
KeepsRows P (release now tenant service) t =
    (r : WorkRow) → has_key tenant service r ≡ true → P r → P (released now r)
KeepsRows P (upsert tenant service version now) t =
    ((r : WorkRow) → has_key tenant service r ≡ true → P r → P (notified version now r))
    × (has_row tenant service t.work ≡ false → P (new_row tenant service version now))
KeepsRows P (ensure tenant service version now) t =
    has_row tenant service t.work ≡ false → P (new_row tenant service version now)
KeepsRows P (set_services services) t = Unit

pub if-eq-some :
    {A : Type 0} (test : Bool) (o : Option A) {a : A}
    → (if test then none else o) ≡ some a
    → o ≡ some a
if-eq-some true o e = cc
if-eq-some false o e = e

module _ (P : WorkRow → Type 0) where
  take_lease-All :
      (owner token : String) (lease now : ℕ) (t : Tables) (o : Option (WorkRow × Service))
      → ((p : WorkRow × Service) (r : WorkRow)
          → o ≡ some p
          → has_key p.0.tenant_id p.0.service_id r ≡ true
          → P r
          → P (leased_row owner token lease now r))
      → All P t.work
      → All P (take_lease owner token lease now t o).1.work
  unfolding take_lease
  take_lease-All owner token lease now t none keep all = all
  take_lease-All owner token lease now t (some p) keep all =
      update_where-All P (has_key p.0.tenant_id p.0.service_id) (leased_row owner token lease now)
        t.work (λ r same pr. keep p r refl same pr) all

  claim-All :
      (owner token : String) (lease : ℕ) (tenant : String) (now : ℕ) (locked : WorkRow → Bool)
      (t : Tables)
      → KeepsRows P (claim owner token lease tenant now locked) t
      → All P t.work
      → All P (claim_resource_work owner token lease tenant now locked t).1.work
  unfolding claim_resource_work
  claim-All owner token lease tenant now locked t keep all =
      let pick = claimable t.services tenant now in
      take_lease-All owner token lease now t (candidate (unlocked locked pick) t.work)
        (λ p r found same pr.
          let (holds, joined) = candidate-All P (unlocked locked pick) t.work p all found in
          keep p r holds (if-eq-some (locked p.0) (pick p.0) joined) same pr)
        all

  insert_row-All :
      (tenant service : String) (version now : ℕ) (t : Tables)
      → P (new_row tenant service version now)
      → All P t.work
      → All P (or_unchanged t (insert_row tenant service version now t)).work
  unfolding insert_row
  insert_row-All tenant service version now t new all =
      elim (find_service tenant service t.services)
        as (λ o.
          All P
            (or_unchanged t (elim o [
              | none ↦ none
              | some s ↦
                  some (record t { work = t.work ++ (new_row tenant service version now ∷ []) })
            ])).work) [
              | none ↦ all
              | some s ↦ append-All P t.work (new_row tenant service version now) all new
            ]

  upsert-All :
      (tenant service : String) (version now : ℕ) (t : Tables)
      → KeepsRows P (upsert tenant service version now) t
      → All P t.work
      → All P (or_unchanged t (upsert_resource_work tenant service version now t)).work
  unfolding upsert_resource_work
  upsert-All tenant service version now t (old, new) all =
      elim (Bool-cases (has_row tenant service t.work)) [
        | inl there ↦
            rw there
              (update_where-All P (has_key tenant service) (notified version now) t.work old all)
        | inr missing ↦ rw missing (insert_row-All tenant service version now t (new missing) all)
      ]

  ensure-All :
      (tenant service : String) (version now : ℕ) (t : Tables)
      → KeepsRows P (ensure tenant service version now) t
      → All P t.work
      → All P (or_unchanged t (ensure_resource_work tenant service version now t)).work
  unfolding ensure_resource_work
  ensure-All tenant service version now t new all =
      elim (Bool-cases (has_row tenant service t.work)) [
        | inl there ↦ rw there all
        | inr missing ↦ rw missing (insert_row-All tenant service version now t (new missing) all)
      ]

  pub run-All : (s : Statement) (t : Tables) → KeepsRows P s t → All P t.work → All P (run s t).work
  unfolding run commit_resource_work retry_resource_work release_resource_work_lease
  run-All (claim owner token lease tenant now locked) t keep all =
      claim-All owner token lease tenant now locked t keep all
  run-All (commit observe now item) t keep all =
      update_where-All P (may_commit t.services now item) (committed t.services observe now item)
        t.work keep all
  run-All (retry delay now code item) t keep all =
      update_where-All P (may_retry t.services now item) (postponed delay now code) t.work keep all
  run-All (release now tenant service) t keep all =
      update_where-All P (has_key tenant service) (released now) t.work keep all
  run-All (upsert tenant service version now) t keep all =
      upsert-All tenant service version now t keep all
  run-All (ensure tenant service version now) t keep all =
      ensure-All tenant service version now t keep all
  run-All (set_services services) t keep all = all
