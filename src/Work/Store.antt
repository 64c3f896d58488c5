-- ===== src/Work/Store.antt =====
-- `WorkStore` (internal/data/postgres/work_store.go): Claim, Commit, Retry and Notify. Parsing and
-- making UUIDs and the texts of errors are parameters.
use ani_inference_service.Work.Worker.{Store}
use ani_inference_service.Work.Claim.{claim_resource_work}
use ani_inference_service.Work.Settle.{retry_resource_work, commit_resource_work}
use ani_inference_service.Runner.State.{Item, WorkResult}
use ani_inference_service.Failure.{Error, lease_lost, is_stale, external, stale_generation}
use ani_inference_service.Work.Table.{WorkRow, Tables}
use ani_inference_service.Prelude.{
  ◌>>=◌, err, if◌then◌else◌, some, ◌==◌, Option, Result, String, str_eq, ok, none, ℕ, Bool, or_fail,
  suc,
}
use ani_inference_service.Work.History.{or_unchanged}
use ani_inference_service.Work.Settle.{upsert_resource_work}

pub record WorkStoreOptions : Type 0 where
  pub owner : String
  pub lease : ℕ
  pub observe : ℕ
  pub retry : ℕ

abbrev or_default : ℕ → ℕ → ℕ
or_default default n = if n == 0 then default else n

-- `NewWorkStore`, in microseconds, 0 where the option is not positive.
unfoldable pub new_work_store : WorkStoreOptions → WorkStoreOptions
new_work_store o = record {
  owner = if str_eq o.owner "" then "inference-worker" else o.owner;
  lease = or_default 30000000 o.lease;
  observe = or_default 30000000 o.observe;
  retry = or_default 5000000 o.retry;
}

-- What a worker hears of a statement: an error may come before it runs or after.
pub data Connection : Type 0 where
  answered : Connection
  refused unheard : String → Connection

-- The circumstances of one call of the store.
pub record Moment : Type 0 where
  pub now : ℕ
  pub new_token : String
  pub locked : WorkRow → Bool
  pub connection : Connection

abbrev pub heard :
    {A : Type 0} → Connection → (Tables → A × Tables) → Tables → Result Error A × Tables
heard answered statement t = let (a, after) = statement t in (ok a, after)
heard (refused e) statement t = (err (external e), t)
heard (unheard e) statement t = (err (external e), (statement t).1)

-- `if rows != 1 { return work.ErrLeaseLost }`.
abbrev pub one_row : Result Error ℕ × Tables → Result Error Unit × Tables
one_row (err e, t) = (err e, t)
one_row (ok rows, t) = (if rows == 1 then ok tt else err lease_lost, t)

abbrev pub swap : {A B : Type 0} → A × B → B × A
swap p = (p.1, p.0)

abbrev pub settle :
    (Item → Tables → Tables × ℕ) → Moment → Result Error Item → Tables → Result Error Unit × Tables
settle statement m (err e) t = (err e, t)
settle statement m (ok item) t = one_row (heard m.connection (λ u. swap (statement item u)) t)

module _ (parse_uuid : String → Option String) where
  -- The three `workUUID` calls of Commit and Retry, in their order.
  unfoldable pub parse_item : Item → Result Error Item
  parse_item item = do
    tenant ← or_fail (parse_uuid item.tenant_id) (external "tenant_id")
    service ← or_fail (parse_uuid item.service_id) (external "service_id")
    token ← or_fail (parse_uuid item.lease_token) (external "lease_token")
    ok (record item { tenant_id = tenant; service_id = service; lease_token = token })

  unfoldable pub store_claim :
      WorkStoreOptions → Moment → String → Tables → Result Error (Option Item) × Tables
  store_claim o m tenant_id t = elim (parse_uuid tenant_id) [
    | none ↦ (err (external "tenant_id"), t)
    | some tenant ↦
        heard m.connection (claim_resource_work o.owner m.new_token o.lease tenant m.now m.locked) t
  ]

  unfoldable pub store_commit :
      WorkStoreOptions → Moment → Item → WorkResult → Tables → Result Error Unit × Tables
  unfolding parse_item
  store_commit o m item result t =
      if result.generation == item.generation
      then settle (commit_resource_work o.observe m.now) m (parse_item item) t
      else (err stale_generation, t)

  -- `workErrorCode`; `brief` is the first 120 bytes of the text in lower case.
  unfoldable pub error_code : (Error → String) → Error → String
  error_code brief cause = if is_stale cause then "stale_generation" else brief cause

  unfoldable pub store_retry :
      (Error → String)
      → WorkStoreOptions
      → Moment
      → Item
      → Error
      → Tables
      → Result Error Unit × Tables
  unfolding parse_item error_code
  store_retry brief o m item cause t =
      settle (retry_resource_work o.retry m.now (error_code brief cause)) m (parse_item item) t

-- A statement that returns only an error; it fails where it has no result.
abbrev pub written : Connection → Option Tables → Tables → Result Error Unit × Tables
written answered none t = (err (external "foreign key"), t)
written answered (some u) t = (ok tt, u)
written (refused e) o t = (err (external e), t)
written (unheard e) o t = (err (external e), or_unchanged t o)

-- `Notify`.
unfoldable pub store_notify :
    (String → Option String) → Moment → String → String → ℕ → Tables → Result Error Unit × Tables
store_notify parse_uuid m tenant_id service_id version t = elim (parse_uuid tenant_id) [
  | none ↦ (err (external "tenant_id"), t)
  | some tenant ↦ elim (parse_uuid service_id) [
    | none ↦ (err (external "service_id"), t)
    | some service ↦ written m.connection (upsert_resource_work tenant service version m.now t) t
  ]
]

-- The tables, and how many calls a worker has made of its store.
pub record Session : Type 0 where
  pub tables : Tables
  pub turn : ℕ

abbrev pub ended : {A : Type 0} → Session → Result Error A × Tables → Result Error A × Session
ended s (r, t) = (r, record { tables = t; turn = suc s.turn })

-- The store of one worker whose calls happen at the given moments.
abbrev pub postgres :
    (String → Option String) → (Error → String) → WorkStoreOptions → (ℕ → Moment) → Store Session
postgres parse_uuid brief o moments = record {
  claim = λ tenant s. ended s (store_claim parse_uuid o (moments s.turn) tenant s.tables);
  commit =
      λ item result s. ended s (store_commit parse_uuid o (moments s.turn) item result s.tables);
  retry =
      λ item cause s. ended s (store_retry parse_uuid brief o (moments s.turn) item cause s.tables);
}
