-- ===== src/Work/Completion.antt =====
-- What it means that `Worker.RunOnce` (internal/biz/work/worker.go) returns nil, over any store and
-- over the store of internal/data/postgres/work_store.go.
use ani_inference_service.Work.Settle.{commit_resource_work}
use ani_inference_service.Work.Store.{
  store_commit, WorkStoreOptions, Moment, settle, parse_item, Connection, one_row, heard,
}
use ani_inference_service.Work.Table.{Tables}
use ani_inference_service.Failure.{Error, stale_generation}
use ani_inference_service.Runner.State.{Item, WorkResult}
use ani_inference_service.Work.Worker.{Store, after_execute, run_once, cause_or, after_claim}
use ani_inference_service.Prelude.{
  inl, ◌==◌, String, ok, inr, err, ◌≡◌, some, Result, ◌⊎◌, ap, ==_iff, false, none, Option,
  if◌then◌else◌, true, refl, Bool, ℕ, ◌∙◌,
}
use ani_inference_service.Work.Store.{heard, one_row, swap, refused, unheard, answered}
use ani_inference_service.Failure.{lease_lost}
use ani_inference_service.Work.Store.{postgres, Session, store_commit}
use ani_inference_service.Work.Worker.{Store}

cause_or-err : (e : Error) (r : Result Error Unit) {A : Type 0} → cause_or e r ≡ ok tt → A
cause_or-err e (ok u) h = cc
cause_or-err e (err x) h = cc

guarded-ok :
    {S : Type 0} (test : Bool) (m : Result Error Unit × S) (s : S)
    → (if test then m else (err stale_generation, s)).0 ≡ ok tt
    → (test ≡ true) × (m ≡ (ok tt, (if test then m else (err stale_generation, s)).1))
guarded-ok true m s h = (refl, ap (λ r. (r, m.1)) h)
guarded-ok false m s h = cc

module _ {S : Type 0} (store : Store S) (execute : Item → S → Result Error WorkResult × S) where
  -- The claimed item was executed for its generation, and that was committed last.
  abbrev pub Completed : String → S → Item → S → Type 0
  Completed tenant s item end =
      ((store.claim tenant s).0 ≡ ok (some item))
      × ((result : WorkResult) × ((execute item (store.claim tenant s).1).0 ≡ ok result)
          × (result.generation ≡ item.generation)
          × (store.commit item result (execute item (store.claim tenant s).1).1 ≡ (ok tt, end)))

  after_execute-ok :
      (item : Item) (r : Result Error WorkResult) (s : S)
      → (after_execute store execute item r s).0 ≡ ok tt
      → (result : WorkResult) × (r ≡ ok result)
        × (result.generation ≡ item.generation)
        × (store.commit item result s ≡ (ok tt, (after_execute store execute item r s).1))
  unfolding after_execute
  after_execute-ok item (err cause) s h = cause_or-err cause (store.retry item cause s).0 h
  after_execute-ok item (ok result) s h =
      let (same, done) =
        guarded-ok (result.generation == item.generation) (store.commit item result s) s h in
      (result, refl, (==_iff result.generation item.generation).0 same, done)

  -- Where a run returns nil, there was no work, or the claimed item was executed for its generation
  -- and the last thing that happened is that the store accepted the commit of that result.
  pub run_once-ok :
      (tenant : String) (s : S)
      → (run_once store execute tenant s).0 ≡ ok tt
      → ((store.claim tenant s).0 ≡ ok none)
        ⊎ ((item : Item) × Completed tenant s item (run_once store execute tenant s).1)
  unfolding run_once
  run_once-ok tenant s h = go (store.claim tenant s).0 refl h
    where
      go :
          (c : Result Error (Option Item))
          → (store.claim tenant s).0 ≡ c
          → (after_claim store execute c (store.claim tenant s).1).0 ≡ ok tt
          → ((store.claim tenant s).0 ≡ ok none)
            ⊎ ((item : Item) × Completed tenant s item
                  (after_claim store execute c (store.claim tenant s).1).1)
      go (err e) at h = cc
      go (ok none) at h = inl at
      go (ok (some item)) at h = inr (
        item,
        (
          at,
          after_execute-ok item (execute item (store.claim tenant s).1).0
              (execute item (store.claim tenant s).1).1 h,
        ),
      )

accepted :
    (test : Bool)
    → ◌≡◌ {A = Result Error Unit} (if test then ok tt else err lease_lost) (ok tt)
    → test ≡ true
accepted true h = refl
accepted false h = cc

affected-one :
    (n : ℕ) → ◌≡◌ {A = Result Error Unit} (if n == 1 then ok tt else err lease_lost) (ok tt) → n ≡ 1
affected-one n h = (==_iff n 1).0 (accepted (n == 1) h)

settled-ok :
    (statement : Item → Tables → Tables × ℕ) (m : Moment) (r : Result Error Item) (t : Tables)
    → (settle statement m r t).0 ≡ ok tt
    → (parsed : Item) × (r ≡ ok parsed) × (statement parsed t ≡ ((settle statement m r t).1, 1))
settled-ok statement m (err e) t h = cc
settled-ok statement m (ok item) t h = by_connection m.connection h
  where
    by_connection :
        (c : Connection)
        → (one_row (heard c (λ u. swap (statement item u)) t)).0 ≡ ok tt
        → (parsed : Item) × (◌≡◌ {A = Result Error Item} (ok item) (ok parsed))
          × (statement parsed t ≡ ((one_row (heard c (λ u. swap (statement item u)) t)).1, 1))
    by_connection answered h =
        (item, refl, ap (λ n. ((statement item t).0, n)) (affected-one (statement item t).1 h))
    by_connection (refused e) h = cc
    by_connection (unheard e) h = cc

module _ (parse_uuid : String → Option String) (brief : Error → String) where
  store_commit-ok :
      (o : WorkStoreOptions) (m : Moment) (item : Item) (result : WorkResult) (t : Tables)
      → (store_commit parse_uuid o m item result t).0 ≡ ok tt
      → (parsed : Item) × (parse_item parse_uuid item ≡ ok parsed)
        × (commit_resource_work o.observe m.now parsed t
            ≡ ((store_commit parse_uuid o m item result t).1, 1))
  unfolding store_commit
  store_commit-ok o m item result t h =
      let statement = commit_resource_work o.observe m.now in
      let (same, done) =
        guarded-ok (result.generation == item.generation)
          (settle statement m (parse_item parse_uuid item) t) t h in
      let (parsed, e, f) =
        settled-ok statement m (parse_item parse_uuid item) t (ap (λ p. p.0) done) in
      (parsed, e, f ∙ ap (λ p. (p.1, 1)) done)

  -- The tables in which the item's commit affected exactly one row.
  abbrev pub Acknowledged : WorkStoreOptions → (ℕ → Moment) → Item → Session → Tables → Type 0
  Acknowledged o moments item before end =
      (parsed : Item) × (parse_item parse_uuid item ≡ ok parsed)
      × (commit_resource_work o.observe (moments before.turn).now parsed before.tables ≡ (end, 1))

  -- Over the database, where the execution may run any statements of others meanwhile: if a run
  -- returns nil, there was no work, or the tables are those of a commit that affected exactly one
  -- row, under the claimed item's lease and at its generation.
  pub run_once-Acknowledged :
      (o : WorkStoreOptions) (moments : ℕ → Moment)
      (execute : Item → Session → Result Error WorkResult × Session) (tenant : String) (s : Session)
      → let store = postgres parse_uuid brief o moments in
        (run_once store execute tenant s).0 ≡ ok tt
        → ((store.claim tenant s).0 ≡ ok none)
          ⊎ ((item : Item) × ((store.claim tenant s).0 ≡ ok (some item))
              × Acknowledged o moments item
                  (execute item (store.claim tenant s).1).1
                  (run_once store execute tenant s).1.tables)
  run_once-Acknowledged o moments execute tenant s h =
      let store = postgres parse_uuid brief o moments in
      elim (run_once-ok store execute tenant s h) [
        | inl none_due ↦ inl none_due
        | inr (item, (claimed, (result, executed, same, done))) ↦
            (let before = (execute item (store.claim tenant s).1).1 in
              let (parsed, e, f) =
                store_commit-ok o (moments before.turn) item result before.tables
                  (ap (λ p. p.0) done) in
              inr (item, claimed, (parsed, e, f ∙ ap (λ p. (p.1.tables, 1)) done)))
      ]
