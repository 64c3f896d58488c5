-- ===== src/Runner/Successor.antt =====
-- A step of the runner that succeeds asks for a transition of the operation's diagram
-- (internal/biz/inference/runner.go against internal/biz/inference/operation.go).
use ani_inference_service.Runner.Leads.{
  Leads, reserve_quota_step-Leads, release_previous_quota_step-Leads, release_quota_step-Leads,
  observe_absence_step-Leads, publish_step-Leads, observe_runtime_step-Leads,
  withdraw_publication_step-Leads, materialize_model_step-Leads, resolve_gpu_step-Leads,
  admission_step-Leads, apply_cr_step-Leads, apply_runtime_step-Leads, delete_runtime_step-Leads,
  delete_cr_step-Leads,
}
use ani_inference_service.Prelude.{ok, String, ◌≡◌, subst, sym, refl}
use ani_inference_service.Operation.{
  OperationKind, OperationPhase, running, OperationStep, admission, reserve_quota, resolve_gpu,
  apply_cr, materialize_model, apply_runtime, observe_runtime, withdraw_publication, delete_runtime,
  observe_absence, delete_cr, publish, release_quota, release_previous_quota, complete, other_step,
  validate_transition,
}
use ani_inference_service.Operation.Completeness.{Edge-validate_transition}
use ani_inference_service.Operation.Edges.{
  replaces_update, replaces_restart, admitted, quota_reserved, gpu_resolved, cr_applied,
  model_ready, runtime_applied, runtime_ready, withdrawn, deleted, absent_replaced,
  previous_released, absent_stopped, absent_deleted, cr_deleted, Active, before, at_end, Edge,
  advance, finish,
}
use ani_inference_service.Runner.State.{OperationContext}
use ani_inference_service.Runner.World.{World, Exec}
use ani_inference_service.Runner.Ports.{StepResult}
use ani_inference_service.Runner.Inversion.{Ensures}
use ani_inference_service.Runner.Teardown.{after_absence}
use ani_inference_service.Runner.Execute.{run_step, dispatch_step}
use ani_inference_service.Runner.World.{History}

-- A step that leads where the diagram leads asks for one of its edges.
Leads-Edge :
    {k : OperationKind} {s t : OperationStep} {p : OperationPhase} {m : Exec StepResult}
    → Ensures (Leads p t) m
    → Edge k running s p t
    → Ensures (λ next. Edge k running s next.phase next.step) m
Leads-Edge {k} {s} {t} {p} l e = record {
  result = λ h next r.
      let (a, b) = l.result h next r in
      subst (λ x. Edge k running s x next.step) (sym a)
        (subst (λ x. Edge k running s p x) (sym b) e);
}

absence-Edge :
    (k : OperationKind)
    → Active k observe_absence
    → Edge k running observe_absence running (after_absence k)
unfolding after_absence
absence-Edge k (before t (absent_replaced replaces_update)) =
    advance (absent_replaced replaces_update)
absence-Edge k (before t (absent_replaced replaces_restart)) =
    advance (absent_replaced replaces_restart)
absence-Edge k (before t absent_stopped) = advance absent_stopped
absence-Edge k (before t absent_deleted) = advance absent_deleted
absence-Edge k (at_end l) = elim l [ ]

not_complete : {k : OperationKind} → ¬ Active k complete
not_complete (before t n) = elim n [ ]
not_complete (at_end l) = elim l [ ]

not_other : {k : OperationKind} {x : String} → ¬ Active k (other_step x)
not_other (before t n) = elim n [ ]
not_other (at_end l) = elim l [ ]

module _ (w : World) (op : OperationContext) where
  dispatch_step-Edge :
      (k : OperationKind) (s : OperationStep)
      → k ≡ op.kind
      → Active k s
      → Ensures (λ next. Edge k running s next.phase next.step) (dispatch_step w s op)
  unfolding dispatch_step
  dispatch_step-Edge k admission same (before t admitted) =
      Leads-Edge (admission_step-Leads w op) (advance admitted)
  dispatch_step-Edge k admission same (at_end l) = elim l [ ]
  dispatch_step-Edge k reserve_quota same (before t (quota_reserved d)) =
      Leads-Edge (reserve_quota_step-Leads w op) (advance (quota_reserved d))
  dispatch_step-Edge k reserve_quota same (at_end l) = elim l [ ]
  dispatch_step-Edge k resolve_gpu same (before t (gpu_resolved d)) =
      Leads-Edge (resolve_gpu_step-Leads w op) (advance (gpu_resolved d))
  dispatch_step-Edge k resolve_gpu same (at_end l) = elim l [ ]
  dispatch_step-Edge k apply_cr same (before t (cr_applied d)) =
      Leads-Edge (apply_cr_step-Leads w op) (advance (cr_applied d))
  dispatch_step-Edge k apply_cr same (at_end l) = elim l [ ]
  dispatch_step-Edge k materialize_model same (before t (model_ready d)) =
      Leads-Edge (materialize_model_step-Leads w op) (advance (model_ready d))
  dispatch_step-Edge k materialize_model same (at_end l) = elim l [ ]
  dispatch_step-Edge k apply_runtime same (before t (runtime_applied d)) =
      Leads-Edge (apply_runtime_step-Leads w op) (advance (runtime_applied d))
  dispatch_step-Edge k apply_runtime same (at_end l) = elim l [ ]
  dispatch_step-Edge k observe_runtime same (before t (runtime_ready d)) =
      Leads-Edge (observe_runtime_step-Leads w op) (advance (runtime_ready d))
  dispatch_step-Edge k observe_runtime same (at_end l) = elim l [ ]
  dispatch_step-Edge k withdraw_publication same (before t (withdrawn d)) =
      Leads-Edge (withdraw_publication_step-Leads w op) (advance (withdrawn d))
  dispatch_step-Edge k withdraw_publication same (at_end l) = elim l [ ]
  dispatch_step-Edge k delete_runtime same (before t (deleted d)) =
      Leads-Edge (delete_runtime_step-Leads w op) (advance (deleted d))
  dispatch_step-Edge k delete_runtime same (at_end l) = elim l [ ]
  dispatch_step-Edge k release_previous_quota same (before t (previous_released d)) =
      Leads-Edge (release_previous_quota_step-Leads w op) (advance (previous_released d))
  dispatch_step-Edge k release_previous_quota same (at_end l) = elim l [ ]
  dispatch_step-Edge k delete_cr same (before t cr_deleted) =
      Leads-Edge (delete_cr_step-Leads w op) (advance cr_deleted)
  dispatch_step-Edge k delete_cr same (at_end l) = elim l [ ]
  dispatch_step-Edge k observe_absence same a = Leads-Edge (observe_absence_step-Leads w op) (
      subst (λ x. Edge k running observe_absence running (after_absence x)) same (absence-Edge k a))
  dispatch_step-Edge k publish same (before t n) = elim n [ ]
  dispatch_step-Edge k publish same (at_end l) = Leads-Edge (publish_step-Leads w op) (finish l)
  dispatch_step-Edge k release_quota same (before t n) = elim n [ ]
  dispatch_step-Edge k release_quota same (at_end l) =
      Leads-Edge (release_quota_step-Leads w op) (finish l)
  dispatch_step-Edge k complete same a = absurd (not_complete a)
  dispatch_step-Edge k (other_step x) same a = absurd (not_other a)

-- Whatever the ports answer: where an operation stands at an active step of its kind, a step that
-- succeeds asks for a transition that the validator of the operation state machine accepts.
pub run_step-validate_transition :
    (w : World) (op : OperationContext) (h : History) (next : StepResult)
    → Active op.kind op.step
    → (run_step w op h).0 ≡ ok next
    → validate_transition op.kind running op.step next.phase next.step ≡ ok tt
unfolding run_step
run_step-validate_transition w op h next a e =
    Edge-validate_transition op.kind running next.phase op.step next.step
      ((dispatch_step-Edge w op op.kind op.step refl a).result h next e)
