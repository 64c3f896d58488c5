-- ===== src/Operation/Deleted.antt =====
-- What a step of internal/data/postgres/operation_store.go does to the services, written down without
-- the statements.
use ani_inference_service.Prelude.{
  false, String, str_eq, not-eq-true, Bool, arith, sym, not, false_true, ◌==◌, ◌&&◌, ◌∙◌, true, ◌≡◌,
  ◌↔◌, &&-eq-true, refl,
}
use ani_inference_service.Operation.Stepped.{str_eq-eq}
use ani_inference_service.Operation.Standing.{same_phase-eq}
use ani_inference_service.Operation.{
  delete, create, update, start, stop, restart, other_kind, OperationKind, same_phase, succeeded,
}
use ani_inference_service.Operation.Replaced.{Replaces}
use ani_inference_service.Operation.Journaled.{ServicesAfter}
use ani_inference_service.Operation.Audited.{finishes_delete, mark_deleted, may_delete}
use ani_inference_service.Operation.Store.{OperationStepInput}
use ani_inference_service.Work.Table.{Service, Tables}
use ani_inference_service.Command.Model.{is_delete}

-- A step that lets a delete succeed.
abbrev pub IsDeletion : Bool → OperationStepInput → Type 0
IsDeletion retries i = (retries ≡ false) × (i.kind ≡ delete) × (i.next_phase ≡ succeeded)

-- The service that the operation is for, as it was, and only marked as deleted.
pub record Deletes (i : OperationStepInput) (service : String) (t t' : Tables) : Type 0 where
  pub before : Service
  pub after : Service
  pub own_service : (before.tenant_id ≡ i.tenant_id) × (before.id ≡ service)
  pub own_operation : before.current_operation_id ≡ i.operation_id
  pub own_generation : before.desired_generation ≡ i.target_generation
  pub is_wanted : before.desired_state ≡ "deleted"
  pub is_deleted_now : after.deleted ≡ true
  pub others_stay : after ≡ record before { deleted = after.deleted }
  pub replaced : Replaces before after t.services t'.services
  pub same_work : t'.work ≡ t.work

is_delete-eq : (kind : OperationKind) → is_delete kind ≡ true → kind ≡ delete
is_delete-eq delete h = refl
is_delete-eq create h = cc
is_delete-eq update h = cc
is_delete-eq start h = cc
is_delete-eq stop h = cc
is_delete-eq restart h = cc
is_delete-eq (other_kind s) h = cc

pub finishes_delete-IsDeletion :
    (retries : Bool) (i : OperationStepInput)
    → (finishes_delete retries i ≡ true) ↔ IsDeletion retries i
unfolding same_phase
finishes_delete-IsDeletion retries i = (
  λ h.
      let (kind', phase) = &&-eq-true (not retries && is_delete i.kind) _ h in
      let (once, kind) = &&-eq-true (not retries) _ kind' in
      (
        not-eq-true retries once,
        is_delete-eq i.kind kind,
        same_phase-eq i.next_phase succeeded phase,
      ),
  λ h. rw (h.0, h.1, h.2),
)

ServicesAfter-Deletes :
    (i : OperationStepInput) (service : String) (t t' : Tables)
    → ServicesAfter true i service t t'
    → Deletes i service t t'
unfolding may_delete
ServicesAfter-Deletes i service t t' (s, may, replaced, same) =
    let (e4, generation) = &&-eq-true _ (s.desired_generation == i.target_generation) may in
    let (e3, wanted) = &&-eq-true _ (str_eq s.desired_state "deleted") e4 in
    let (e2, operation) = &&-eq-true _ (str_eq s.current_operation_id i.operation_id) e3 in
    let (tenant, id) = &&-eq-true _ (str_eq s.id service) e2 in
    record {
      before = s;
      after = mark_deleted s;
      own_service = (str_eq-eq s.tenant_id i.tenant_id tenant, str_eq-eq s.id service id);
      own_operation = str_eq-eq s.current_operation_id i.operation_id operation;
      own_generation = ground (arith, generation);
      is_wanted = str_eq-eq s.desired_state "deleted" wanted;
      is_deleted_now = refl;
      others_stay = refl;
      replaced = replaced;
      same_work = same;
    }

-- What a step has done to the services, by what it is.
pub record LeavesServices (retries : Bool) (i : OperationStepInput) (service : String)
    (t t' : Tables) : Type 0 where
  pub deletes : IsDeletion retries i → Deletes i service t t'
  pub stays : ¬ IsDeletion retries i → t' ≡ t

pub ServicesAfter-LeavesServices :
    (retries : Bool) (i : OperationStepInput) (service : String) (t t' : Tables)
    → ServicesAfter (finishes_delete retries i) i service t t'
    → LeavesServices retries i service t t'
ServicesAfter-LeavesServices retries i service t t' after =
    by_end (finishes_delete retries i) refl after
  where
    by_end :
        (b : Bool)
        → finishes_delete retries i ≡ b
        → ServicesAfter b i service t t'
        → LeavesServices retries i service t t'
    by_end true e changed = record {
      deletes = λ h. ServicesAfter-Deletes i service t t' changed;
      stays = λ n. absurd (n ((finishes_delete-IsDeletion retries i).0 e));
    }
    by_end false e same = record {
      deletes = λ h. false_true (sym e ∙ (finishes_delete-IsDeletion retries i).1 h);
      stays = λ n. same;
    }
