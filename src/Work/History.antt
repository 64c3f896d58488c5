-- ===== src/Work/History.antt =====
-- Sequences of statements on the work tables, in the order in which the database runs them,
-- whichever workers and commands they come from.
use ani_inference_service.Runner.State.{Item}
use ani_inference_service.Work.Claim.{claim_resource_work}
use ani_inference_service.Work.Table.{Tables, WorkRow, Service}
use ani_inference_service.Prelude.{[], ◌∷◌, none, Option, Bool, ℕ, List, String, some}
use ani_inference_service.Work.Settle.{
  commit_resource_work, retry_resource_work, release_resource_work_lease, upsert_resource_work,
  ensure_resource_work,
}

pub data Statement : Type 0 where
  -- The owner, the token, the lease, the tenant, the time, and the rows locked by others.
  claim : String → String → ℕ → String → ℕ → (WorkRow → Bool) → Statement
  commit : ℕ → ℕ → Item → Statement
  retry : ℕ → ℕ → String → Item → Statement
  release : ℕ → String → String → Statement
  upsert ensure : String → String → ℕ → ℕ → Statement
  -- Any change of inference_services by the commands.
  set_services : List Service → Statement

-- What a statement that may fail leaves.
abbrev pub or_unchanged : Tables → Option Tables → Tables
or_unchanged t none = t
or_unchanged t (some u) = u

unfoldable pub run : Statement → Tables → Tables
run (claim owner token lease tenant now locked) t =
    (claim_resource_work owner token lease tenant now locked t).1
run (commit observe now item) t = (commit_resource_work observe now item t).0
run (retry delay now code item) t = (retry_resource_work delay now code item t).0
run (release now tenant service) t = (release_resource_work_lease now tenant service t).0
run (upsert tenant service version now) t =
    or_unchanged t (upsert_resource_work tenant service version now t)
run (ensure tenant service version now) t =
    or_unchanged t (ensure_resource_work tenant service version now t)
run (set_services services) t = record t { services = services }

unfoldable pub run_all : List Statement → Tables → Tables
unfolding run
run_all [] t = t
run_all (s ∷ ss) t = run_all ss (run s t)
