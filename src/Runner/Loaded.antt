-- ===== src/Runner/Loaded.antt =====
-- The beginning of `Runner.Execute` (internal/biz/inference/runner.go): what an execution does once
-- it has loaded the current operation of a work item.
use ani_inference_service.Runner.State.{Item, OperationContext}
use ani_inference_service.Runner.Execute.{execute, execute_phase, is_complete_item, is_current}
use ani_inference_service.Prelude.{true, ◌≡◌, ◌∷◌, ok}
use ani_inference_service.Runner.World.{Call, World, History, ◌>>=◌}

-- The runner has a store, the work item is complete, and the store returns its current operation.
pub record Loaded (w : World) (item : Item) (op : OperationContext) (h : History) : Type 0 where
  pub store : w.has_store ≡ true
  pub complete_item : is_complete_item item ≡ true
  pub loads : w.current_operation h item ≡ ok op
  pub current : is_current item op ≡ true

-- The operation under the lease of the work item.
abbrev pub leased : Item → OperationContext → OperationContext
leased item op = record op { lease_token = item.lease_token }

-- The history once the operation is loaded.
abbrev pub loading : Item → History → History
loading item h = record { call = Call.current_operation item; succeeded = true } ∷ h

pub execute-Loaded :
    (w : World) (item : Item) (op : OperationContext) (h : History)
    → Loaded w item op h
    → execute w item h ≡ execute_phase w op.phase item (leased item op) (loading item h)
unfolding execute ◌>>=◌
execute-Loaded w item op h l = rw (l.store, l.complete_item, l.loads, l.current)
