-- ===== src/Examples/Recovery.antt =====
-- The theorems about recovery and about the end of the loop, where a row of work is missing and where
-- the context ends after three rounds.
use ani_inference_service.Work.Restored.{repair-Recurs}
use ani_inference_service.Work.Liveness.{Recurs}
use ani_inference_service.Work.Table.{find_service}
use ani_inference_service.Effect.{continue}
use ani_inference_service.Runner.State.{Item, WorkResult}
use ani_inference_service.Work.Settle.{new_row, upsert_resource_work}
use ani_inference_service.Prelude.{
  refl, [], ◌∷◌, ok, Option, All, arith, ℕ, ◌≡◌, suc, err, none, if◌then◌else◌, true, some, ltb,
  false, Result, ap, ◌≤◌, subst,
}
use mathlib.Core.Option.{some-injective}
use ani_inference_service.Work.Recover.{recover, repair}
use ani_inference_service.Examples.Queue.{notified_both}
use ani_inference_service.Examples.Worker.{moments, parse_any}
use ani_inference_service.Work.Store.{Session, store_notify}
use ani_inference_service.Work.Recovered.{Keeps, HasWork}
use ani_inference_service.Work.Appended.{Appends}
use ani_inference_service.Work.Repaired.{recover-HasWork, repair-HasWork}
use ani_inference_service.Work.Worker.{Scheduler, Store, run_pass}
use ani_inference_service.Work.Loop.{Timing, run_loop}
use ani_inference_service.Work.Ended.{IsTimed, run_loop-Ends}
use ani_inference_service.Failure.{Error, external}

-- The second service has lost its row.
abbrev damaged : Session
damaged = record {
  tables = record notified_both { work = new_row "tenant" "a" 1 0 ∷ [] };
  turn = 0;
}

abbrev repaired : Session
repaired = record {
  tables = record notified_both {
    work = new_row "tenant" "a" 1 0 ∷ new_row "tenant" "b" 1 30 ∷ [];
  };
  turn = 4;
}

repairs : repair parse_any moments damaged ≡ (ok tt, repaired)
unfolding repair continue find_service
repairs = refl

repair-HasWork_example :
    Appends moments damaged.tables repaired.tables
    × All (λ v. v.deleted ≡ false → HasWork repaired.tables v) damaged.tables.services
repair-HasWork_example =
    repair-HasWork parse_any moments damaged repaired ((refl, refl), ((refl, refl), tt)) repairs

abbrev recovered : Session
recovered = record {
  tables = record notified_both {
    work =
        record (new_row "tenant" "a" 1 0) {
          dirty_version = 2;
          next_run_at = some 20;
          updated_at = 20;
        }
        ∷ new_row "tenant" "b" 1 30
        ∷ [];
  };
  turn = 4;
}

recovers : recover parse_any moments damaged ≡ (ok tt, recovered)
unfolding recover continue store_notify upsert_resource_work find_service
recovers = refl

recover-HasWork_example :
    Keeps damaged.tables recovered.tables
    × All (λ v. v.deleted ≡ false → HasWork recovered.tables v) damaged.tables.services
recover-HasWork_example =
    recover-HasWork parse_any moments damaged recovered ((refl, refl), ((refl, refl), tt)) recovers

-- A store without work whose state is the clock.
abbrev idle : Store ℕ
idle = record {
  claim = λ tenant n. (ok none, n);
  commit = λ item result n. (ok tt, n);
  retry = λ item cause n. (ok tt, n);
}

abbrev unused : Item → ℕ → Result Error WorkResult × ℕ
unused item n = (err (external "unused"), n)

abbrev until_three : ℕ → Option Error
until_three n = if ltb n 3 then none else some (external "cancelled")

abbrev three_rounds : Scheduler ℕ
three_rounds = record { list_tenants = λ n. (ok [], n); close = none; cancelled = until_three }

abbrev ticking : Timing ℕ
ticking = record {
  now = λ n. n;
  wait = λ n. (true, suc n);
  report = λ e n. n;
  recover = some (λ n. (err (external "down"), n));
  repair = none;
  recovery_interval = 0;
}

abbrev passed : ℕ → Option Error → Option Error × ℕ
passed n (some e) = (some e, n)
passed n none = (until_three n, n)

pass-same : (n : ℕ) → (run_pass idle unused three_rounds n).1 ≡ n
unfolding run_pass
pass-same n = by_context (until_three n)
  where
    by_context : (o : Option Error) → (passed n o).1 ≡ n
    by_context none = refl
    by_context (some e) = refl

three_rounds-IsTimed : IsTimed three_rounds ticking (run_pass idle unused three_rounds) 3
three_rounds-IsTimed = record {
  alive_before = λ n alive. ground (arith, alive);
  ticks_later = λ n m h. let e : suc n ≡ m = ap (λ p. p.1) h in omega (arith, e);
  done_cancelled = λ n m h. absurd (ground (arith, ap (λ p. p.0) h));
  pass_forward = λ n. rw (pass-same n) (omega arith);
  report_forward = λ e n. omega arith;
  recover_forward = λ f n h. subst (λ g. n ≤ (g n).1) (some-injective _ _ h) (omega arith);
  repair_forward = λ f n h. absurd (ground (arith, h));
}

run_loop-Ends_example :
    (e : Error) × (s : ℕ) × (run_loop idle unused three_rounds ticking 4 none 0 ≡ some (some e, s))
    × (until_three s ≡ some e)
run_loop-Ends_example =
    run_loop-Ends idle unused three_rounds ticking 3 three_rounds-IsTimed 3 none 0 (omega arith)

repair-Recurs_example :
    All (λ v. v.deleted ≡ false → HasWork repaired.tables v) damaged.tables.services
    × All (Recurs repaired.tables.services) repaired.tables.work
repair-Recurs_example =
    repair-Recurs parse_any moments damaged repaired ((refl, refl), ((refl, refl), tt))
      ((omega arith, λ e. absurd (ground (arith, e))), tt) repairs
