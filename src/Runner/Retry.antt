-- ===== src/Runner/Retry.antt =====
-- What a failed step of internal/biz/inference/runner.go leads to: the operation's step is kept and
-- a retry of it is written down with the error.
use ani_inference_service.Runner.Moves.{moves, execute-moves, count_of, MovesFrom}
use ani_inference_service.Runner.Loaded.{Loaded, leased, loading, execute-Loaded}
use ani_inference_service.Failure.{Error, join, joined}
use ani_inference_service.Runner.State.{
  Item, OperationContext, WorkResult, StepTransition, AuditEvent,
}
use ani_inference_service.Runner.Execute.{
  execute, run_step, retry, retry_of, retry_audit, retry_delay, execute_phase, perform_step,
  or_retry, record_retry,
}
use ani_inference_service.Runner.Ports.{error_of}
use ani_inference_service.Prelude.{
  err, ◌≡◌, true, ◌∷◌, ◌∙◌, Result, sym, refl, inl, none, ok, ◌⊎◌, ap, some, subst, ℕ, inr, arith,
  ◌≤◌, false, ◌+◌,
}
use ani_inference_service.Operation.{running, other_phase, other_step, pending}
use ani_inference_service.Runner.World.{Call, World, History, ◌>>=◌, is_ok}

-- The history behind a step that failed with `x`, and the write that follows.
abbrev pub failed_at : World → Item → OperationContext → History → History
failed_at w item op h = (run_step w (leased item op) (loading item h)).1

abbrev pub retry_write : World → OperationContext → Error → Call
retry_write w op x =
    Call.retry_step_with_audit (retry_of w op x) (retry_delay w) (retry_audit w op x)

abbrev pub after_retry : World → OperationContext → Error → History → History
after_retry w op x h =
    record { call = retry_write w op x; succeeded = is_ok (w.acknowledge h (retry_write w op x)) }
    ∷ h

abbrev pub retried_with :
    World → OperationContext → Error → History → Result Error WorkResult × History
retried_with w op x h =
    (err (join x (error_of (w.acknowledge h (retry_write w op x)))), after_retry w op x h)

execute_phase-running :
    (w : World) (item : Item) (op : OperationContext) (h : History)
    → op.phase ≡ running
    → execute_phase w op.phase item op h ≡ perform_step w item op h
unfolding execute_phase
execute_phase-running w item op h p = rw p

perform_step-retries :
    (w : World) (item : Item) (op : OperationContext) (h : History) (x : Error)
    → w.store_is_atomic ≡ true
    → (run_step w op h).0 ≡ err x
    → perform_step w item op h ≡ retried_with w op x (run_step w op h).1
unfolding perform_step ◌>>=◌ or_retry retry record_retry
perform_step-retries w item op h x a e = rw (e, a)

execute-retried_with :
    (w : World) (item : Item) (op : OperationContext) (h : History) (x : Error)
    → Loaded w item op h
    → op.phase ≡ running
    → w.store_is_atomic ≡ true
    → (run_step w (leased item op) (loading item h)).0 ≡ err x
    → execute w item h ≡ retried_with w (leased item op) x (failed_at w item op h)
execute-retried_with w item op h x l p a e =
    execute-Loaded w item op h l
    ∙ execute_phase-running w item (leased item op) (loading item h) p
    ∙ perform_step-retries w item (leased item op) (loading item h) x a e

-- The write of a retry: the transition names the operation, the lease of the work item, the phase and
-- step where the operation stands and no other, and the error; the event tells the same.
pub record IsRetryOf (w : World) (item : Item) (op : OperationContext) (x : Error)
    (change : StepTransition) (delay : ℕ) (audit : AuditEvent) : Type 0 where
  pub same_operation : (change.tenant_id ≡ op.tenant_id) × (change.operation_id ≡ op.id)
  pub same_kind : change.kind ≡ op.kind
  pub same_generation : change.target_generation ≡ op.target_generation
  pub under_lease : change.lease_token ≡ item.lease_token
  pub claimed_phase : change.expected_phase ≡ running
  pub same_step : change.expected_step ≡ op.step
  pub nowhere : (change.next_phase ≡ other_phase "") × (change.next_step ≡ other_step "")
  pub own_error : change.error_message ≡ some x
  pub is_coded : ¬ (change.error_code ≡ "")
  pub waits : 1 ≤ delay
  pub as_configured : 1 ≤ w.retry_after → delay ≡ w.retry_after
  pub told_operation : (audit.tenant_id ≡ op.tenant_id) × (audit.operation_id ≡ op.id)
  pub told_service : audit.service_id ≡ op.service_id
  pub told_generation : audit.generation ≡ op.target_generation
  pub told_before : audit.before_state ≡ record { phase = running; step = op.step; message = none }
  pub told_after : audit.after_state ≡ record { phase = pending; step = op.step; message = some x }

-- What an execution answers with and leaves, behind the history `failed`.
pub record Retried (w : World) (item : Item) (op : OperationContext) (x : Error) (failed : History)
    (r : Result Error WorkResult) (after : History) : Type 0 where
  pub change : StepTransition
  pub delay : ℕ
  pub audit : AuditEvent
  pub is_retry : IsRetryOf w item op x change delay audit
  pub answered :
      ((w.acknowledge failed (Call.retry_step_with_audit change delay audit) ≡ ok tt)
        × (r ≡ err x)
        × (after
            ≡ record { call = Call.retry_step_with_audit change delay audit; succeeded = true }
              ∷ failed))
      ⊎ ((y : Error) × (w.acknowledge failed (Call.retry_step_with_audit change delay audit)
            ≡ err y)
          × (r ≡ err (joined x y))
          × (after
              ≡ record { call = Call.retry_step_with_audit change delay audit; succeeded = false }
                ∷ failed))

module _ (w : World) (item : Item) (op : OperationContext) (x : Error) where
  retry_of-IsRetryOf :
      op.phase ≡ running
      → IsRetryOf w item op x
          (retry_of w (leased item op) x)
          (retry_delay w)
          (retry_audit w (leased item op) x)
  unfolding retry_of retry_audit
  retry_of-IsRetryOf p = record {
    same_operation = (refl, refl);
    same_kind = refl;
    same_generation = refl;
    under_lease = refl;
    claimed_phase = p;
    same_step = refl;
    nowhere = (refl, refl);
    own_error = refl;
    is_coded = λ e. cc;
    waits = ground arith;
    as_configured = λ h. ground (arith, h);
    told_operation = (refl, refl);
    told_service = refl;
    told_generation = refl;
    told_before = ap (λ q. record { phase = q; step = op.step; message = none }) p;
    told_after = refl;
  }

  by_answer :
      (failed : History) (answer : Result Error Unit)
      → let write = retry_write w (leased item op) x in
        w.acknowledge failed write ≡ answer
        → ((w.acknowledge failed write ≡ ok tt)
            × ◌≡◌ {A = Result Error WorkResult} (err (join x (error_of answer))) (err x)
            × ◌≡◌ {A = History}
                (record { call = write; succeeded = is_ok answer } ∷ failed)
                (record { call = write; succeeded = true } ∷ failed))
          ⊎ ((y : Error) × (w.acknowledge failed write ≡ err y)
              × ◌≡◌ {A = Result Error WorkResult}
                  (err (join x (error_of answer)))
                  (err (joined x y))
              × ◌≡◌ {A = History}
                  (record { call = write; succeeded = is_ok answer } ∷ failed)
                  (record { call = write; succeeded = false } ∷ failed))
  unfolding join
  by_answer failed (ok u) e = inl (e, refl, refl)
  by_answer failed (err y) e = inr (y, e, refl, refl)

-- Where the store is atomic: a claimed operation whose step fails is not moved. The very next call
-- writes a retry of the operation at the same phase and step under the same lease, with the step's
-- error, after a delay that is not zero and is the configured one if there is one, and with an event
-- that tells this; and the execution returns the step's error, joined with the error of the write if
-- that fails too.
pub execute-retries :
    (w : World) (item : Item) (op : OperationContext) (h : History) (x : Error)
    → Loaded w item op h
    → op.phase ≡ running
    → w.store_is_atomic ≡ true
    → (run_step w (leased item op) (loading item h)).0 ≡ err x
    → Retried w item op x (failed_at w item op h) (execute w item h).0 (execute w item h).1
      × (moves (execute w item h).1 ≡ moves h)
execute-retries w item op h x l p a e =
    let done = execute-retried_with w item op h x l p a e in
    let q = execute w item h in
    let moved : moves q.1 ≡ count_of w q.0 + moves h =
      subst (λ phase. MovesFrom w phase q.0 (moves q.1) (moves h)) p
        (execute-moves w item op h l) in
    let uncounted : count_of w q.0 ≡ 0 = ap (λ r. count_of w r.0) done in
    (
      subst (λ q. Retried w item op x (failed_at w item op h) q.0 q.1) (sym done)
          (record {
            change = retry_of w (leased item op) x;
            delay = retry_delay w;
            audit = retry_audit w (leased item op) x;
            is_retry = retry_of-IsRetryOf w item op x p;
            answered = by_answer w item op x (failed_at w item op h) _ refl;
          }),
      omega (arith, moved, uncounted),
    )
