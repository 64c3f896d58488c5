-- ===== src/Runner/Moves.antt =====
-- How often an execution of internal/biz/inference/runner.go changes the durable step of an
-- operation: counted over the history of calls, whatever the ports answer.
use ani_inference_service.Runner.Loaded.{Loaded, execute-Loaded, leased, loading}
use ani_inference_service.Runner.Ports.{StepResult}
use ani_inference_service.Operation.{
  pending, running, succeeded, failed, other_phase, OperationPhase, OperationStep,
}
use ani_inference_service.Runner.State.{OperationContext, WorkResult, Item}
use ani_inference_service.Runner.Execute.{
  retry, or_retry, transition, run_step, perform_step, done, claim_and_perform, execute_phase,
  execute,
}
use ani_inference_service.Runner.StepCalls.{Allows, is_step_call, run_step-Keeps}
use ani_inference_service.Prelude.{
  ◌∷◌, true, Bool, Result, ◌+◌, ◌≡◌, [], arith, ℕ, ok, err, String, refl, ap, ◌*◌, ◌≤◌, subst,
}
use ani_inference_service.Failure.{Error}
use ani_inference_service.Runner.World.{Call, Exec, History, ◌>>=◌, World, return}

-- 1 for a call that advanced the durable step and returned without an error.
abbrev pub moved : Call → Bool → ℕ
moved (Call.advance_step t) true = 1
moved (Call.advance_step_with_audit t a) true = 1
moved _ _ = 0

abbrev pub moves : History → ℕ
moves [] = 0
moves (e ∷ h) = moved e.call e.succeeded + moves h

abbrev pub Still : ℕ → History → Type 0
Still n h = moves h ≡ n

Still-Allows : (n : ℕ) → Allows (Still n)
Still-Allows n = record { allow = λ c s h b i. step_call-Still c s h b i }
  where
    step_call-Still :
        (c : Call)
        → is_step_call c ≡ true
        → (h : History) (b : Bool) → moves h ≡ n
        → moved c b + moves h ≡ n
    step_call-Still c s h b i = ground arith

module _ (w : World) where
  run_step-moves : (op : OperationContext) (h : History) → moves (run_step w op h).1 ≡ moves h
  run_step-moves op h = (run_step-Keeps (Still-Allows (moves h)) w op).kept h refl

  -- A transition moves the step once if it succeeds, and not at all if it fails.
  abbrev pub count_of : {A : Type 0} → Result Error A → ℕ
  count_of (ok a) = 1
  count_of (err x) = 0

  count_of-le : {A : Type 0} (r : Result Error A) → count_of r ≤ 1
  count_of-le (ok a) = omega arith
  count_of-le (err x) = omega arith

  transition-moves :
      (op : OperationContext) (phase : OperationPhase) (step : OperationStep) (event : String)
      (h : History)
      → let (r, h') = transition w op phase step event h in moves h' ≡ count_of r + moves h
  unfolding transition ◌>>=◌
  transition-moves op phase step event h = ground arith

  retry-moves :
      (op : OperationContext) (x : Error) (h : History)
      → (moves (retry w op x h).1 ≡ moves h) × (count_of (retry w op x h).0 ≡ 0)
  unfolding retry ◌>>=◌
  retry-moves op x h = ground arith

  or_retry-moves :
      {A : Type 0} (op : OperationContext) (r : Result Error A) (next : A → Exec WorkResult)
      (h : History) (k : ℕ)
      → ((a : A) → r ≡ ok a → moves (next a h).1 ≡ count_of (next a h).0 + k)
      → ((x : Error) → r ≡ err x → moves h ≡ k)
      → moves (or_retry w op r next h).1 ≡ count_of (or_retry w op r next h).0 + k
  unfolding or_retry
  or_retry-moves op (ok a) next h k good bad = good a refl
  or_retry-moves op (err x) next h k good bad = omega (arith, retry-moves op x h, bad x refl)

  move_after-moves :
      (item : Item) (op : OperationContext) (next : StepResult) (h : History)
      → let (r, h') = transition w op next.phase next.step next.event h in
        let q = or_retry w op r (λ _. return (done item)) h' in moves q.1 ≡ count_of q.0 + moves h
  unfolding ◌>>=◌
  move_after-moves item op next h =
      let (r, h') = transition w op next.phase next.step next.event h in
      let m = transition-moves op next.phase next.step next.event h in
      or_retry-moves op r (λ _. return (done item)) h' (moves h)
        (λ a e. omega (arith, m, ap count_of e)) (λ x e. omega (arith, m, ap count_of e))

  -- A claimed operation moves once if the execution succeeds, and not at all if it fails.
  perform_step-moves :
      (item : Item) (op : OperationContext) (h : History)
      → let q = perform_step w item op h in moves q.1 ≡ count_of q.0 + moves h
  unfolding perform_step ◌>>=◌
  perform_step-moves item op h =
      or_retry-moves op (run_step w op h).0 _ (run_step w op h).1 (moves h)
        (λ next e.
          omega (arith, move_after-moves item op next (run_step w op h).1, run_step-moves op h))
        (λ x e. run_step-moves op h)

  perform_or_retry-moves :
      (item : Item) (op op' : OperationContext) (r : Result Error Unit) (h : History) (n : ℕ)
      → moves h ≡ count_of r + n
      → let q = or_retry w op r (λ _. perform_step w item op') h in
        (2 * count_of q.0 + n ≤ moves q.1) × (moves q.1 ≤ count_of q.0 + 1 + n)
  unfolding or_retry
  perform_or_retry-moves item op op' (ok a) h n e =
      omega (arith, perform_step-moves item op' h, count_of-le (perform_step w item op' h).0)
  perform_or_retry-moves item op op' (err x) h n e = omega (arith, retry-moves op x h)

  claim_and_perform-moves :
      (item : Item) (op : OperationContext) (h : History)
      → let q = claim_and_perform w item op h in
        (2 * count_of q.0 + moves h ≤ moves q.1) × (moves q.1 ≤ count_of q.0 + 1 + moves h)
  unfolding claim_and_perform ◌>>=◌
  claim_and_perform-moves item op h =
      let m = transition-moves op running op.step "claimed" h in
      let (r, h') = transition w op running op.step "claimed" h in
      perform_or_retry-moves item op _ r h' (moves h) m

  -- How often an execution moves an operation that it finds in a phase: the counts are those of the
  -- history after it and before it.
  abbrev pub MovesFrom : OperationPhase → Result Error WorkResult → ℕ → ℕ → Type 0
  MovesFrom running r after before = after ≡ count_of r + before
  MovesFrom pending r after before =
      (2 * count_of r + before ≤ after) × (after ≤ count_of r + 1 + before)
  MovesFrom succeeded r after before = (count_of r ≡ 1) × (after ≡ before)
  MovesFrom failed r after before = (count_of r ≡ 1) × (after ≡ before)
  MovesFrom (other_phase p) r after before = (count_of r ≡ 0) × (after ≡ before)

  execute_phase-moves :
      (p : OperationPhase) (item : Item) (op : OperationContext) (h : History)
      → let q = execute_phase w p item op h in MovesFrom p q.0 (moves q.1) (moves h)
  unfolding execute_phase ◌>>=◌
  execute_phase-moves running item op h = perform_step-moves item op h
  execute_phase-moves pending item op h = claim_and_perform-moves item op h
  execute_phase-moves succeeded item op h = (refl, refl)
  execute_phase-moves failed item op h = (refl, refl)
  execute_phase-moves (other_phase p) item op h = (refl, refl)

  loading-moves : (item : Item) (h : History) → moves (loading item h) ≡ moves h
  loading-moves item h = omega arith

  -- Whatever the ports answer, an execution that finds the current operation of its work item moves
  -- the durable step once if the operation was claimed already and the execution succeeds, and not
  -- at all if it fails; a pending operation is moved by its claim and by its step if the execution
  -- succeeds, and at most by its claim if it fails; a finished operation is reported as done and
  -- never moved; and one in any other phase is refused and not moved.
  pub execute-moves :
      (item : Item) (op : OperationContext) (h : History)
      → Loaded w item op h
      → let q = execute w item h in MovesFrom op.phase q.0 (moves q.1) (moves h)
  execute-moves item op h l = rw (execute-Loaded w item op h l) (
      subst
        (λ n.
          MovesFrom op.phase (execute_phase w op.phase item (leased item op) (loading item h)).0
            (moves (execute_phase w op.phase item (leased item op) (loading item h)).1) n)
        (loading-moves item h)
        (execute_phase-moves op.phase item (leased item op) (loading item h)))
