-- ===== src/Work/Keys.antt =====
-- The primary key of the work table: rows with one key, and rows that are never removed.
use ani_inference_service.Prelude.{
  refl, eq_iff, Bool-cases, ◌++◌, List, &&-eq-true, [], All, ◌∷◌, eq_refl, All-map, inr, ◌≡◌, inl,
  str_eq, Bool, String, true, none, ◌∙◌, if◌then◌else◌, some, ◌||◌, false_true, false, ℕ, Option,
}
use ani_inference_service.Work.Table.{has_row, has_key, WorkRow, update_where, find_service}
use ani_inference_service.Work.History.{
  run, Statement, claim, commit, retry, release, upsert, ensure, set_services, or_unchanged,
}
use ani_inference_service.Work.Settle.{
  committed, may_commit, may_retry, postponed, notified, released, new_row, insert_row,
  commit_resource_work, retry_resource_work, release_resource_work_lease, upsert_resource_work,
  ensure_resource_work,
}
use ani_inference_service.Work.Claim.{take_lease, claim_resource_work, leased_row}
use ani_inference_service.Work.Table.{Tables, Service}

pub has_key-eq :
    (tenant service : String) (r : WorkRow)
    → has_key tenant service r ≡ true
    → (r.tenant_id ≡ tenant) × (r.service_id ≡ service)
has_key-eq tenant service r h =
    let (a, b) = &&-eq-true (str_eq r.tenant_id tenant) (str_eq r.service_id service) h in
    ((eq_iff r.tenant_id tenant).0 a, (eq_iff r.service_id service).0 b)

pub has_key-own : (r : WorkRow) → has_key r.tenant_id r.service_id r ≡ true
has_key-own r = rw (eq_refl r.tenant_id, eq_refl r.service_id) refl

or-left : {a : Bool} (b : Bool) → a ≡ true → (a || b) ≡ true
or-left b e = rw e refl

or-right : (a : Bool) {b : Bool} → b ≡ true → (a || b) ≡ true
or-right true e = refl
or-right false e = e

or-map : (a b c : Bool) → (b ≡ true → c ≡ true) → (a || b) ≡ true → (a || c) ≡ true
or-map true b c f e = refl
or-map false b c f e = f e

module _ (tenant service : String) where
  -- An update that keeps the keys keeps every row in place.
  update_where-has_row :
      (test : WorkRow → Bool) (change : WorkRow → WorkRow) (rows : List WorkRow)
      → ((r : WorkRow) → has_key tenant service (change r) ≡ has_key tenant service r)
      → has_row tenant service (update_where test change rows).0 ≡ has_row tenant service rows
  unfolding update_where
  update_where-has_row test change [] keys = refl
  update_where-has_row test change (r ∷ rs) keys =
      let rest = update_where-has_row test change rs keys in
      elim (Bool-cases (test r)) [
        | inl passes ↦ rw (passes, keys r, rest) refl
        | inr fails ↦ rw (fails, rest) refl
      ]

  append-has_row :
      (rows : List WorkRow) (r : WorkRow)
      → has_row tenant service rows ≡ true
      → has_row tenant service (rows ++ (r ∷ [])) ≡ true
  append-has_row [] r h = false_true h
  append-has_row (q ∷ qs) r h =
      or-map (has_key tenant service q) (has_row tenant service qs) _ (append-has_row qs r) h

  insert_row-has_row :
      (own id : String) (version now : ℕ) (t : Tables)
      → has_row tenant service t.work ≡ true
      → has_row tenant service (or_unchanged t (insert_row own id version now t)).work ≡ true
  unfolding insert_row
  insert_row-has_row own id version now t h =
      elim (find_service own id t.services)
        as (λ o.
          has_row tenant service
            (or_unchanged t (elim o [
              | none ↦ none
              | some s ↦ some (record t { work = t.work ++ (new_row own id version now ∷ []) })
            ])).work
          ≡ true) [ none ↦ h | some s ↦ append-has_row t.work (new_row own id version now) h ]

  take_lease-has_row :
      (owner token : String) (lease now : ℕ) (t : Tables) (o : Option (WorkRow × Service))
      → has_row tenant service t.work ≡ true
      → has_row tenant service (take_lease owner token lease now t o).1.work ≡ true
  unfolding take_lease
  take_lease-has_row owner token lease now t none h = h
  take_lease-has_row owner token lease now t (some p) h =
      update_where-has_row (has_key p.0.tenant_id p.0.service_id) (leased_row owner token lease now)
        t.work (λ r. refl)
      ∙ h

  if-has_row :
      (test : Bool) (t : Tables) (u v : Option Tables)
      → has_row tenant service (or_unchanged t u).work ≡ true
      → has_row tenant service (or_unchanged t v).work ≡ true
      → has_row tenant service (or_unchanged t (if test then u else v)).work ≡ true
  if-has_row true t u v p q = p
  if-has_row false t u v p q = q

  -- No statement removes a row.
  pub run-has_row :
      (s : Statement) (t : Tables)
      → has_row tenant service t.work ≡ true
      → has_row tenant service (run s t).work ≡ true
  unfolding run claim_resource_work commit_resource_work retry_resource_work
      release_resource_work_lease upsert_resource_work ensure_resource_work committed
  run-has_row (claim owner token lease own now locked) t h =
      take_lease-has_row owner token lease now t _ h
  run-has_row (commit observe now item) t h =
      update_where-has_row (may_commit t.services now item) (committed t.services observe now item)
        t.work (λ r. refl)
      ∙ h
  run-has_row (retry delay now code item) t h =
      update_where-has_row (may_retry t.services now item) (postponed delay now code) t.work
        (λ r. refl)
      ∙ h
  run-has_row (release now own id) t h =
      update_where-has_row (has_key own id) (released now) t.work (λ r. refl) ∙ h
  run-has_row (upsert own id version now) t h =
      if-has_row (has_row own id t.work) t _ (insert_row own id version now t)
        (update_where-has_row (has_key own id) (notified version now) t.work (λ r. refl) ∙ h)
        (insert_row-has_row own id version now t h)
  run-has_row (ensure own id version now) t h =
      if-has_row (has_row own id t.work) t (some t) (insert_row own id version now t) h
        (insert_row-has_row own id version now t h)
  run-has_row (set_services services) t h = h

-- Every row of a table is found by its key.

abbrev pub Found : List WorkRow → WorkRow → Type 0
Found rows r = has_row r.tenant_id r.service_id rows ≡ true

pub rows-Found : (rows : List WorkRow) → All (Found rows) rows
rows-Found [] = tt
rows-Found (r ∷ rs) = (
  or-left (has_row r.tenant_id r.service_id rs) (has_key-own r),
  All-map rs (λ q found. or-right (has_key q.tenant_id q.service_id r) found) (rows-Found rs),
)
