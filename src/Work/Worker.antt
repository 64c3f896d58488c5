-- ===== src/Work/Worker.antt =====
-- `Worker.RunOnce` (internal/biz/work/worker.go) and `Loop.RunOnce` (internal/biz/work/loop.go) over
-- any store. `S` is the state of the store and of everything that the execution changes.
use Prim.Native.String.{◌++◌ as ◌&◌}
use ani_inference_service.Runner.State.{Item, WorkResult}
use ani_inference_service.Failure.{Error, join, wrapped, stale_generation}
use ani_inference_service.Prelude.{
  some, err, str_eq, [], Result, ◌==◌, List, ◌∷◌, none, ok, Option, if◌then◌else◌, String,
}

-- `work.Store`.
pub record Store (S : Type 0) : Type 0 where
  pub claim : String → S → Result Error (Option Item) × S
  pub commit : Item → WorkResult → S → Result Error Unit × S
  pub retry : Item → Error → S → Result Error Unit × S

-- The execution's error, or the error of writing it down.
abbrev pub cause_or : Error → Result Error Unit → Result Error Unit
cause_or cause (ok u) = err cause
cause_or cause (err e) = err e

module _ {S : Type 0} (store : Store S) (execute : Item → S → Result Error WorkResult × S) where
  unfoldable pub after_execute : Item → Result Error WorkResult → S → Result Error Unit × S
  after_execute item (err cause) s =
      let (written, after) = store.retry item cause s in (cause_or cause written, after)
  after_execute item (ok result) s =
      if result.generation == item.generation
      then store.commit item result s
      else (err stale_generation, s)

  unfoldable pub after_claim : Result Error (Option Item) → S → Result Error Unit × S
  unfolding after_execute
  after_claim (err e) s = (err e, s)
  after_claim (ok none) s = (ok tt, s)
  after_claim (ok (some item)) s =
      let (result, after) = execute item s in after_execute item result after

  unfoldable pub run_once : String → S → Result Error Unit × S
  unfolding after_claim
  run_once tenant s = let (claimed, after) = store.claim tenant s in after_claim claimed after

-- The collaborators of the loop beside the worker. `cancelled` is ctx.Err().
pub record Scheduler (S : Type 0) : Type 0 where
  pub list_tenants : S → Result Error (List String) × S
  pub close : Option (S → Result Error Unit × S)
  pub cancelled : S → Option Error

-- `errors.Join` of what is joined so far, where nil is `none`, and one more error.
abbrev pub join_error : Option Error → Option Error → Option Error
join_error none more = more
join_error (some e) more = some (join e more)

-- `fmt.Errorf(".. %w", err)` where there is an error; the text is not quoted as %q does.
abbrev pub wrap_error : String → Result Error Unit → Option Error
wrap_error text (ok u) = none
wrap_error text (err e) = some (wrapped text e)

module _ {S : Type 0} (store : Store S) (execute : Item → S → Result Error WorkResult × S)
    (scheduler : Scheduler S) where
  -- A tenant without a name is passed over.
  unfoldable pub visit : String → S → Result Error Unit × S
  visit tenant s = if str_eq tenant "" then (ok tt, s) else run_once store execute tenant s

  abbrev pub with_visit : String → Option Error → Result Error Unit → Option Error
  with_visit tenant joined result =
      join_error joined (wrap_error ("durable work tenant " & tenant) result)

  -- The pass over the tenants, with the errors joined so far.
  unfoldable pub run_tenants : List String → Option Error → S → Option Error × S
  unfolding visit
  run_tenants [] joined s = (join_error joined (scheduler.cancelled s), s)
  run_tenants (tenant ∷ tenants) joined s = elim (scheduler.cancelled s) [
    | some e ↦ (join_error joined (some e), s)
    | none ↦
        (let (result, after) = visit tenant s in
          run_tenants tenants (with_visit tenant joined result) after)
  ]

  abbrev pub run_close : Option (S → Result Error Unit × S) → S → Option Error × S
  run_close none s = (none, s)
  run_close (some close) s = let (r, after) = close s in (wrap_error "managed close" r, after)

  abbrev pub run_listed : Option Error → Result Error (List String) → S → Option Error × S
  run_listed joined (err e) s =
      (join_error joined (some (wrapped "durable work list tenants" e)), s)
  run_listed joined (ok tenants) s = run_tenants tenants joined s

  -- `Loop.RunOnce` behind `validate`.
  unfoldable pub run_pass : S → Option Error × S
  unfolding run_tenants
  run_pass s = elim (scheduler.cancelled s) [
    | some e ↦ (some e, s)
    | none ↦
        (let (joined, closed) = run_close scheduler.close s in
          let (listed, after) = scheduler.list_tenants closed in run_listed joined listed after)
  ]
