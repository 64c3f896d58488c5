-- ===== src/Work/Ended.antt =====
-- `Loop.Run` ends when its context does.
use ani_inference_service.Runner.State.{Item, WorkResult}
use ani_inference_service.Failure.{Error}
use ani_inference_service.Prelude.{
  some, ◌<◌, Result, ℕ, ◌≡◌, Option, none, true, ◌≤◌, false, suc, ◌+◌, Bool, refl, ◌∙◌, arith, ap,
  zero,
}
use ani_inference_service.Work.Loop.{
  Timing, run_loop, reported, recovery, maybe_recover, recovered_with,
}
use ani_inference_service.Work.Worker.{Scheduler, Store, run_pass, wrap_error}

-- A context with a deadline, a ticker that lets time pass, and a clock that never goes back.
pub record IsTimed {S : Type 0} (scheduler : Scheduler S) (timing : Timing S)
    (pass : S → Option Error × S) (deadline : ℕ) : Type 0 where
  pub alive_before : (s : S) → scheduler.cancelled s ≡ none → timing.now s < deadline
  pub ticks_later : (s s' : S) → timing.wait s ≡ (true, s') → timing.now s < timing.now s'
  pub done_cancelled :
      (s s' : S) → timing.wait s ≡ (false, s') → (e : Error) × (scheduler.cancelled s' ≡ some e)
  pub pass_forward : (s : S) → timing.now s ≤ timing.now (pass s).1
  pub report_forward : (e : Error) (s : S) → timing.now s ≤ timing.now (timing.report e s)
  pub recover_forward :
      (f : S → Result Error Unit × S) (s : S)
      → timing.recover ≡ some f
      → timing.now s ≤ timing.now (f s).1
  pub repair_forward :
      (f : S → Result Error Unit × S) (s : S)
      → timing.repair ≡ some f
      → timing.now s ≤ timing.now (f s).1

module _ {S : Type 0} (store : Store S) (execute : Item → S → Result Error WorkResult × S)
    (scheduler : Scheduler S) (timing : Timing S) (deadline : ℕ)
    (timed : IsTimed scheduler timing (run_pass store execute scheduler) deadline) where
  abbrev Ends : Option (Option Error × S) → Type 0
  Ends ending =
      (e : Error) × (s' : S) × (ending ≡ some (some e, s')) × (scheduler.cancelled s' ≡ some e)

  reported_forward : (o : Option Error) (s : S) → timing.now s ≤ timing.now (reported timing o s)
  reported_forward none s = omega arith
  reported_forward (some e) s = timed.report_forward e s

  recovered_forward :
      (o : Option (S → Result Error Unit × S)) (s : S)
      → ((f : S → Result Error Unit × S) → o ≡ some f → timing.now s ≤ timing.now (f s).1)
      → timing.now s ≤ timing.now (recovered_with timing o s)
  recovered_forward none s forward = omega arith
  recovered_forward (some f) s forward =
      let first = forward f refl in
      let second = reported_forward (wrap_error "durable work recovery" (f s).0) (f s).1 in
      omega (arith, first, second)

  recovery_forward :
      (last : Option ℕ) (f : S → Result Error Unit × S) (s : S)
      → recovery timing last ≡ some f
      → timing.now s ≤ timing.now (f s).1
  unfolding recovery
  recovery_forward none f s h = timed.recover_forward f s h
  recovery_forward (some at) f s h = by_repair timing.repair refl h
    where
      by_repair :
          (o : Option (S → Result Error Unit × S))
          → timing.repair ≡ o
          → (elim o [ none ↦ timing.recover | some g ↦ some g ]) ≡ some f
          → timing.now s ≤ timing.now (f s).1
      by_repair none e k = timed.recover_forward f s k
      by_repair (some g) e k = timed.repair_forward f s (e ∙ k)

  maybe_recover_forward :
      (last : Option ℕ) (s : S) → timing.now s ≤ timing.now (maybe_recover timing last s).1
  unfolding maybe_recover
  maybe_recover_forward last s =
      ground (arith, recovered_forward (recovery timing last) s (λ f. recovery_forward last f s))

  -- One round ends the loop, or lets time pass before the next one.
  round-Ends :
      (fuel : ℕ) (last : Option ℕ) (s : S)
      → ((last' : Option ℕ) (passed waited : S)
          → timing.now s ≤ timing.now passed
          → timing.now passed < deadline
          → timing.now passed < timing.now waited
          → Ends (run_loop store execute scheduler timing fuel last' waited))
      → Ends (run_loop store execute scheduler timing (suc fuel) last s)
  unfolding run_loop
  round-Ends fuel last s later = by_context (scheduler.cancelled passed) refl
    where
      ready : S
      ready = (maybe_recover timing last s).1

      passed : S
      passed = (run_pass store execute scheduler ready).1

      reporting : S
      reporting = reported timing (run_pass store execute scheduler ready).0 passed

      last' : Option ℕ
      last' = (maybe_recover timing last s).0

      before : timing.now s ≤ timing.now passed
      before = omega (arith, maybe_recover_forward last s, timed.pass_forward ready)

      by_ticker :
          (p : Bool × S)
          → timing.wait reporting ≡ p
          → scheduler.cancelled passed ≡ none
          → Ends (elim p.0 [
            | false ↦ some (scheduler.cancelled p.1, p.1)
            | true ↦ run_loop store execute scheduler timing fuel last' p.1
          ])
      by_ticker (false, waited) w alive =
          let (e, over) = timed.done_cancelled reporting waited w in
          (e, waited, ap (λ c. some (c, waited)) over, over)
      by_ticker (true, waited) w alive =
          later last' passed waited before (timed.alive_before passed alive) (
            omega (
              arith,
              reported_forward (run_pass store execute scheduler ready).0 passed,
              timed.ticks_later reporting waited w,
            ))

      by_context :
          (o : Option Error)
          → scheduler.cancelled passed ≡ o
          → Ends (elim o [
            | some e ↦ some (some e, passed)
            | none ↦ (elim (timing.wait reporting).0 [
              | false ↦
                  some (scheduler.cancelled (timing.wait reporting).1, (timing.wait reporting).1)
              | true ↦ run_loop store execute scheduler timing fuel last' (timing.wait reporting).1
            ])
          ])
      by_context (some e) over = (e, passed, refl, over)
      by_context none alive = by_ticker (timing.wait reporting) refl alive

  -- With a deadline for the context, a ticker that lets time pass and a clock that never goes back,
  -- and on as many rounds of fuel as there are units of time left, and one more: the loop ends,
  -- whatever the store, the executions and the recoveries answer, and it returns the error of its
  -- context.
  pub run_loop-Ends :
      (fuel : ℕ) (last : Option ℕ) (s : S)
      → deadline ≤ timing.now s + fuel
      → Ends (run_loop store execute scheduler timing (suc fuel) last s)
  run_loop-Ends zero last s enough =
      round-Ends zero last s (λ last' passed waited a b c. absurd (omega (arith, enough, a, b)))
  run_loop-Ends (suc fuel) last s enough =
      round-Ends (suc fuel) last s
        (λ last' passed waited a b c. run_loop-Ends fuel last' waited (omega (arith, enough, a, c)))
