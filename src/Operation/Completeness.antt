-- ===== src/Operation/Completeness.antt =====
-- Every edge of the diagram is accepted by the validator.
use ani_inference_service.Operation.Soundness.{validate_transition-Edge}
use ani_inference_service.Prelude.{refl, ok, ◌≡◌, ◌↔◌}
use ani_inference_service.Operation.{
  OperationKind, OperationStep, OperationPhase, pending, running, succeeded, failed, complete,
  reserve_quota, apply_cr, validate_transition,
}
use ani_inference_service.Operation.Edges.{
  Deploys, deploys_create, replaces_update, tears_replaced, Next, admitted, quota_reserved,
  gpu_resolved, cr_applied, model_ready, runtime_applied, runtime_ready, withdrawn, deleted,
  absent_replaced, previous_released, absent_stopped, absent_deleted, cr_deleted, Last,
  last_publish, last_stop, last_delete, Active, before, at_end, Edge, claim, advance, around_gpu,
  finish, fail_pending, fail_running,
}

-- An active step can be claimed, and can fail before and after the claim.
abbrev Leaves : OperationKind → OperationStep → Type 0
Leaves k s =
    (validate_transition k pending s running s ≡ ok tt)
    × (validate_transition k pending s failed complete ≡ ok tt)
    × (validate_transition k running s failed complete ≡ ok tt)

abbrev Moves : OperationKind → OperationStep → OperationStep → Type 0
Moves k s t = (validate_transition k running s running t ≡ ok tt) × Leaves k s

Next-Moves : {k : OperationKind} {s t : OperationStep} → Next k s t → Moves k s t
unfolding validate_transition
Next-Moves admitted = (refl, (refl, refl, refl))
Next-Moves (quota_reserved deploys_create) = (refl, (refl, refl, refl))
Next-Moves (quota_reserved _) = (refl, (refl, refl, refl))
Next-Moves (gpu_resolved deploys_create) = (refl, (refl, refl, refl))
Next-Moves (gpu_resolved _) = (refl, (refl, refl, refl))
Next-Moves (cr_applied deploys_create) = (refl, (refl, refl, refl))
Next-Moves (cr_applied _) = (refl, (refl, refl, refl))
Next-Moves (model_ready deploys_create) = (refl, (refl, refl, refl))
Next-Moves (model_ready _) = (refl, (refl, refl, refl))
Next-Moves (runtime_applied deploys_create) = (refl, (refl, refl, refl))
Next-Moves (runtime_applied _) = (refl, (refl, refl, refl))
Next-Moves (runtime_ready deploys_create) = (refl, (refl, refl, refl))
Next-Moves (runtime_ready _) = (refl, (refl, refl, refl))
Next-Moves (withdrawn (tears_replaced replaces_update)) = (refl, (refl, refl, refl))
Next-Moves (withdrawn (tears_replaced _)) = (refl, (refl, refl, refl))
Next-Moves (withdrawn _) = (refl, (refl, refl, refl))
Next-Moves (deleted (tears_replaced replaces_update)) = (refl, (refl, refl, refl))
Next-Moves (deleted (tears_replaced _)) = (refl, (refl, refl, refl))
Next-Moves (deleted _) = (refl, (refl, refl, refl))
Next-Moves (absent_replaced replaces_update) = (refl, (refl, refl, refl))
Next-Moves (absent_replaced _) = (refl, (refl, refl, refl))
Next-Moves (previous_released replaces_update) = (refl, (refl, refl, refl))
Next-Moves (previous_released _) = (refl, (refl, refl, refl))
Next-Moves absent_stopped = (refl, (refl, refl, refl))
Next-Moves absent_deleted = (refl, (refl, refl, refl))
Next-Moves cr_deleted = (refl, (refl, refl, refl))

Last-Leaves :
    {k : OperationKind} {s : OperationStep}
    → Last k s
    → (validate_transition k running s succeeded complete ≡ ok tt) × Leaves k s
unfolding validate_transition
Last-Leaves (last_publish deploys_create) = (refl, (refl, refl, refl))
Last-Leaves (last_publish _) = (refl, (refl, refl, refl))
Last-Leaves last_stop = (refl, (refl, refl, refl))
Last-Leaves last_delete = (refl, (refl, refl, refl))

Active-Leaves : {k : OperationKind} {s : OperationStep} → Active k s → Leaves k s
Active-Leaves (before t n) = (Next-Moves n).1
Active-Leaves (at_end l) = (Last-Leaves l).1

around_gpu-accepted :
    {k : OperationKind}
    → Deploys k
    → validate_transition k running reserve_quota running apply_cr ≡ ok tt
unfolding validate_transition
around_gpu-accepted deploys_create = refl
around_gpu-accepted _ = refl

-- Every edge of the diagram is accepted by the validator: no legal progress is refused.
pub Edge-validate_transition :
    (k : OperationKind) (p q : OperationPhase) (s t : OperationStep)
    → Edge k p s q t
    → validate_transition k p s q t ≡ ok tt
Edge-validate_transition k p q s t (claim a) = (Active-Leaves a).0
Edge-validate_transition k p q s t (advance n) = (Next-Moves n).0
Edge-validate_transition k p q s t (around_gpu d) = around_gpu-accepted d
Edge-validate_transition k p q s t (finish l) = (Last-Leaves l).0
Edge-validate_transition k p q s t (fail_pending a) = (Active-Leaves a).1
Edge-validate_transition k p q s t (fail_running a) = (Active-Leaves a).2

-- The validator accepts exactly the edges of the diagram: an operation is claimed at its step, a
-- claimed operation moves to the next step of its kind (a deploying one may pass over resolve_gpu),
-- it succeeds from the last step only, and it can fail at any active step.
pub validate_transition_iff :
    (k : OperationKind) (p q : OperationPhase) (s t : OperationStep)
    → (validate_transition k p s q t ≡ ok tt) ↔ Edge k p s q t
validate_transition_iff k p q s t =
    (validate_transition-Edge k p q s t, Edge-validate_transition k p q s t)
