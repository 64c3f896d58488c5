-- ===== src/Operation/Standing.antt =====
-- Where the durable operations of internal/data/postgres/operation_state.go can stand, whichever
-- calls move them.
use ani_inference_service.Work.Table.{Tables}
use ani_inference_service.Prelude.{
  ◌≡◌, ◌==◌, &&-eq-true, false_true, str_eq, arith, subst, ◌||◌, ok, and3-eq-true, ◌&&◌, eq_iff,
  sym, ℕ, true,
}
use ani_inference_service.Operation.{
  pending, running, succeeded, failed, complete, OperationKind, OperationStep, OperationPhase,
}
use ani_inference_service.Operation.Edges.{
  Edge, Active, Next, Last, before, at_end, Deploys, Replaces, TearsDown, deploys_update,
  deploys_restart, deploys_create,
}
use ani_inference_service.Operation.Store.{
  OperationRow, OperationStepInput, may_advance, may_reschedule, advanced, rescheduled, is_expected,
}
use ani_inference_service.Operation.Store.{may_run, is_fenced}
use ani_inference_service.Operation.{same_phase, same_step, other_phase, validate_transition}
use ani_inference_service.Operation.Soundness.{same_step-eq, validate_transition-Edge}

-- An active operation is at a step of its kind's path before the last, and a finished one is
-- complete.
pub data Standing (k : OperationKind) : OperationPhase → OperationStep → Type 0 where
  waits : {s : OperationStep} → Active k s → Standing k pending s
  runs : {s : OperationStep} → Active k s → Standing k running s
  has_succeeded : Standing k succeeded complete
  has_failed : Standing k failed complete

Replaces-Deploys : {k : OperationKind} → Replaces k → Deploys k
Replaces-Deploys Replaces.replaces_update = deploys_update
Replaces-Deploys Replaces.replaces_restart = deploys_restart

Next-Active : {k : OperationKind} {s t : OperationStep} → Next k s t → Active k t
Next-Active Next.admitted = before _ (Next.quota_reserved deploys_create)
Next-Active (Next.quota_reserved d) = before _ (Next.gpu_resolved d)
Next-Active (Next.gpu_resolved d) = before _ (Next.cr_applied d)
Next-Active (Next.cr_applied d) = before _ (Next.model_ready d)
Next-Active (Next.model_ready d) = before _ (Next.runtime_applied d)
Next-Active (Next.runtime_applied d) = before _ (Next.runtime_ready d)
Next-Active (Next.runtime_ready d) = at_end (Last.last_publish d)
Next-Active (Next.withdrawn t) = before _ (Next.deleted t)
Next-Active (Next.deleted (TearsDown.tears_replaced r)) = before _ (Next.absent_replaced r)
Next-Active (Next.deleted TearsDown.tears_stop) = before _ Next.absent_stopped
Next-Active (Next.deleted TearsDown.tears_delete) = before _ Next.absent_deleted
Next-Active (Next.absent_replaced r) = before _ (Next.previous_released r)
Next-Active (Next.previous_released r) = before _ (Next.quota_reserved (Replaces-Deploys r))
Next-Active Next.absent_stopped = at_end Last.last_stop
Next-Active Next.absent_deleted = before _ Next.cr_deleted
Next-Active Next.cr_deleted = at_end Last.last_delete

Edge-Standing :
    {k : OperationKind} {p q : OperationPhase} {s t : OperationStep}
    → Edge k p s q t
    → Standing k q t
Edge-Standing (Edge.claim a) = runs a
Edge-Standing (Edge.advance n) = runs (Next-Active n)
Edge-Standing (Edge.around_gpu d) = runs (before _ (Next.cr_applied d))
Edge-Standing (Edge.finish l) = has_succeeded
Edge-Standing (Edge.fail_pending a) = has_failed
Edge-Standing (Edge.fail_running a) = has_failed

pub same_phase-eq : (a b : OperationPhase) → same_phase a b ≡ true → a ≡ b
unfolding same_phase
same_phase-eq (other_phase s) (other_phase t) h = ground (arith, eq_iff s t)
same_phase-eq (other_phase s) b h = ground arith
same_phase-eq pending b h = ground arith
same_phase-eq _ b h = ground arith

is_expected-eq :
    (i : OperationStepInput) (o : OperationRow)
    → is_expected i o ≡ true
    → (o.phase ≡ i.expected_phase) × (o.step ≡ i.expected_step)
unfolding is_expected
is_expected-eq i o h =
    let (ids, phase, step) =
      and3-eq-true
        (str_eq o.tenant_id i.tenant_id
          && str_eq o.id i.operation_id
          && o.target_generation == i.target_generation)
        (same_phase o.phase i.expected_phase) (same_step o.step i.expected_step) h in
    (same_phase-eq o.phase i.expected_phase phase, same_step-eq o.step i.expected_step step)

-- The kind that the caller names is the row's.
abbrev pub Agrees : OperationStepInput → OperationRow → Type 0
Agrees i o = is_expected i o ≡ true → i.kind ≡ o.kind

abbrev pub Stands : OperationRow → Type 0
Stands o = Standing o.kind o.phase o.step

pub advanced-Stands :
    (now : ℕ) (t : Tables) (i : OperationStepInput) (o : OperationRow)
    → validate_transition i.kind i.expected_phase i.expected_step i.next_phase i.next_step ≡ ok tt
    → Agrees i o
    → may_advance now t i o ≡ true
    → Stands (advanced now i o)
unfolding may_advance
advanced-Stands now t i o valid agrees may =
    let (expected, ready, fenced) =
      and3-eq-true (is_expected i o) (may_run now o.retry_at) (is_fenced now i.lease_token t o)
        may in
    subst (λ k. Standing k i.next_phase i.next_step) (agrees expected)
      (Edge-Standing (
        validate_transition-Edge i.kind i.expected_phase i.next_phase i.expected_step i.next_step
          valid))

-- Only an active operation can be put back.
Standing-pending :
    {k : OperationKind} (p : OperationPhase) (s : OperationStep)
    → (same_phase p pending || same_phase p running) ≡ true
    → Standing k p s
    → Standing k pending s
unfolding same_phase
Standing-pending pending s h (waits a) = waits a
Standing-pending running s h (runs a) = waits a
Standing-pending succeeded s h st = false_true h
Standing-pending failed s h st = false_true h
Standing-pending (other_phase x) s h st = false_true h

pub rescheduled-Stands :
    (delay now : ℕ) (t : Tables) (i : OperationStepInput) (o : OperationRow)
    → (same_phase i.expected_phase pending || same_phase i.expected_phase running) ≡ true
    → may_reschedule now t i o ≡ true
    → Stands o
    → Stands (rescheduled delay now i o)
unfolding may_reschedule
rescheduled-Stands delay now t i o active may stands =
    let (expected, fenced) = &&-eq-true (is_expected i o) (is_fenced now i.lease_token t o) may in
    let same = is_expected-eq i o expected in
    Standing-pending o.phase o.step
      (subst (λ p. (same_phase p pending || same_phase p running) ≡ true) (sym same.0) active)
      stands
