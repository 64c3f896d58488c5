-- ===== src/Work/Loop.antt =====
-- `Loop.Run` behind `validate` (internal/biz/work/loop.go), over any store, with one unit of fuel for
-- each round of its loop. The clock, the ticker and the context are part of the state.
use ani_inference_service.Runner.State.{Item, WorkResult}
use ani_inference_service.Prelude.{
  leb, Result, ◌&&◌, Bool, if◌then◌else◌, ◌==◌, false, Option, ◌-◌, true, ◌||◌, suc, none, ℕ, some,
  zero,
}
use ani_inference_service.Work.Worker.{Scheduler, Store, run_pass, wrap_error}
use ani_inference_service.Failure.{Error}

-- What the loop has beside the scheduler of its passes. `wait` is the select: whether the ticker came
-- first, and not the end of the context. A nil OnError reports nothing.
pub record Timing (S : Type 0) : Type 0 where
  pub now : S → ℕ
  pub wait : S → Bool × S
  pub report : Error → S → S
  pub recover : Option (S → Result Error Unit × S)
  pub repair : Option (S → Result Error Unit × S)
  pub recovery_interval : ℕ

module _ {S : Type 0} (timing : Timing S) where
  abbrev pub interval_or_minute : ℕ → ℕ
  interval_or_minute n = if n == 0 then 60000000 else n

  -- Whether a recovery is due, by the time of the last one, which is zero at first.
  unfoldable pub is_recovery_due : Option ℕ → S → Bool
  is_recovery_due none s = true
  is_recovery_due (some last) s =
      leb (interval_or_minute timing.recovery_interval) (timing.now s - last)

  -- The first recovery is Recover, a later one Repair where there is one.
  unfoldable pub recovery : Option ℕ → Option (S → Result Error Unit × S)
  recovery none = timing.recover
  recovery (some last) = elim timing.repair [ none ↦ timing.recover | some f ↦ some f ]

  abbrev pub reported : Option Error → S → S
  reported none s = s
  reported (some e) s = timing.report e s

  abbrev pub recovered_with : Option (S → Result Error Unit × S) → S → S
  recovered_with none s = s
  recovered_with (some f) s =
      let (r, after) = f s in reported (wrap_error "durable work recovery" r) after

  abbrev pub is_set : Option (S → Result Error Unit × S) → Bool
  is_set none = false
  is_set (some f) = true

  -- The recovery of a round: the time of the last one, and the state.
  unfoldable pub maybe_recover : Option ℕ → S → Option ℕ × S
  unfolding is_recovery_due recovery
  maybe_recover last s =
      if (is_set timing.recover || is_set timing.repair) && is_recovery_due last s
      then (some (timing.now s), recovered_with (recovery last) s)
      else (last, s)

module _ {S : Type 0} (store : Store S) (execute : Item → S → Result Error WorkResult × S)
    (scheduler : Scheduler S) (timing : Timing S) where
  -- The rounds; `none` where the fuel ends before the loop does.
  unfoldable pub run_loop : ℕ → Option ℕ → S → Option (Option Error × S)
  unfolding maybe_recover run_pass
  run_loop zero last s = none
  run_loop (suc fuel) last s =
      let (last', ready) = maybe_recover timing last s in
      let (joined, passed) = run_pass store execute scheduler ready in
      elim (scheduler.cancelled passed) [
        | some e ↦ some (some e, passed)
        | none ↦
            (let (ticked, waited) = timing.wait (reported timing joined passed) in
              elim ticked [
                | false ↦ some (scheduler.cancelled waited, waited)
                | true ↦ run_loop fuel last' waited
              ])
      ]
