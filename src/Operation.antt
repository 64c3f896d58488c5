-- ===== src/Operation.antt =====
-- internal/biz/inference/operation.go and model.go: operation kinds, phases and persisted steps,
-- the paths, and `ValidateOperationStepTransition`. The source's string types are data types with
-- a constructor for each constant and one for any other string.
pub mod Edges
pub mod Soundness
pub mod Completeness
pub mod Store
pub mod Standing
pub mod Persisted
pub mod ReleaseScope
pub mod MergedPods
pub mod SavedPods
pub mod Audited
pub mod Replaced
pub mod Stepped
pub mod Deleted
pub mod Journaled
pub mod Recorded
use ani_inference_service.Prelude.{
  ℕ, zero, suc, ◌+◌, ◌-◌, ◌≡◌, String, Bool, true, false, not, ◌&&◌, ◌||◌, Option, none, some, List,
  [], ◌∷◌, length, get_elem?, ltb, ◌==◌, str_eq, if◌then◌else◌, err, ok, Result, guard, or_fail,
  ◌>>◌, refl, ◌>>=◌,
}

pub data OperationStep : Type 0 where
  admission reserve_quota resolve_gpu apply_cr materialize_model apply_runtime : OperationStep
  observe_runtime withdraw_publication delete_runtime observe_absence delete_cr : OperationStep
  publish release_quota release_previous_quota complete : OperationStep
  other_step : String → OperationStep

pub data OperationPhase : Type 0 where
  pending running succeeded failed : OperationPhase
  other_phase : String → OperationPhase

pub data OperationKind : Type 0 where
  create start update restart stop delete : OperationKind
  other_kind : String → OperationKind

abbrev step_tag : OperationStep → ℕ
step_tag admission = 0
step_tag reserve_quota = 1
step_tag resolve_gpu = 2
step_tag apply_cr = 3
step_tag materialize_model = 4
step_tag apply_runtime = 5
step_tag observe_runtime = 6
step_tag withdraw_publication = 7
step_tag delete_runtime = 8
step_tag observe_absence = 9
step_tag delete_cr = 10
step_tag publish = 11
step_tag release_quota = 12
step_tag release_previous_quota = 13
step_tag complete = 14
step_tag (other_step s) = 15

abbrev step_text : OperationStep → String
step_text (other_step s) = s
step_text admission = ""
step_text _ = ""

-- Go's `==` on the strings behind two steps.
unfoldable pub same_step : OperationStep → OperationStep → Bool
same_step a b = step_tag a == step_tag b && str_eq (step_text a) (step_text b)

unfoldable pub same_phase : OperationPhase → OperationPhase → Bool
same_phase pending pending = true
same_phase running running = true
same_phase succeeded succeeded = true
same_phase failed failed = true
same_phase (other_phase s) (other_phase t) = str_eq s t
same_phase _ _ = false

-- The last eight steps of every path that brings a runtime up.
abbrev bring_up : List OperationStep
bring_up =
    reserve_quota ∷ resolve_gpu ∷ apply_cr ∷ materialize_model ∷ apply_runtime ∷ observe_runtime
    ∷ publish ∷ complete ∷ []

abbrev replace : List OperationStep
replace =
    withdraw_publication ∷ delete_runtime ∷ observe_absence ∷ release_previous_quota ∷ bring_up

-- `operationPaths`; a kind that is not in the map has no path.
unfoldable pub operation_path : OperationKind → Option (List OperationStep)
operation_path create = some (admission ∷ bring_up)
operation_path start = some bring_up
operation_path update = some replace
operation_path restart = some replace
operation_path stop =
    some (withdraw_publication ∷ delete_runtime ∷ observe_absence ∷ release_quota ∷ complete ∷ [])
operation_path delete = some (
    withdraw_publication ∷ delete_runtime ∷ observe_absence ∷ delete_cr ∷ release_quota ∷ complete
    ∷ [])
operation_path (other_kind s) = none

-- `operationStepIndex`, counting from `i`; `none` is -1.
unfoldable pub step_index_from : ℕ → List OperationStep → OperationStep → Option ℕ
step_index_from i [] s = none
step_index_from i (c ∷ cs) s = if same_step c s then some i else step_index_from (suc i) cs s

pub data TransitionError : Type 0 where
  unknown_kind : OperationKind → TransitionError
  phase_not_active : OperationPhase → TransitionError
  step_not_active : OperationStep → TransitionError
  failed_needs_complete cannot_succeed use_retry : TransitionError
  unsupported_phase : OperationPhase → TransitionError
  must_claim_first must_advance_in_order : TransitionError

-- The index of a step that is on the path and is not its last.
active_index : List OperationStep → OperationStep → Result TransitionError ℕ
active_index path s = do
  i ← or_fail (step_index_from 0 path s) (step_not_active s)
  guard (ltb (suc i) (length path)) (step_not_active s)
  ok i

is_step_at : List OperationStep → ℕ → OperationStep → Bool
is_step_at path i s = elim (get_elem? path i) [ none ↦ false | some t ↦ same_step t s ]

-- A claimed operation moves one edge on, or takes the compatibility edge around `resolve_gpu`.
validate_advance :
    List OperationStep → ℕ → OperationStep → ℕ → OperationStep → Result TransitionError Unit
unfolding is_step_at
validate_advance path from from_step to to_step =
    if same_step from_step reserve_quota
      && same_step to_step apply_cr
      && is_step_at path (suc from) resolve_gpu
    then ok tt
    else guard (to == suc from) must_advance_in_order

-- The target is `running`: a claim keeps the step.
validate_running :
    List OperationStep
    → ℕ
    → OperationPhase
    → OperationStep
    → OperationStep
    → Result TransitionError Unit
unfolding active_index validate_advance same_phase
validate_running path from from_phase from_step to_step = do
  to ← active_index path to_step
  (if same_phase from_phase pending
      then guard (from == to) must_claim_first
      else validate_advance path from from_step to to_step)

-- The target phase, in the order of the source's tests.
validate_target :
    List OperationStep
    → ℕ
    → OperationPhase
    → OperationStep
    → OperationPhase
    → OperationStep
    → Result TransitionError Unit
unfolding validate_running
validate_target path from from_phase from_step failed to_step =
    guard (same_step to_step complete) failed_needs_complete
validate_target path from from_phase from_step succeeded to_step =
    guard
      (same_phase from_phase running
        && same_step to_step complete
        && (suc (suc from) == length path))
      cannot_succeed
validate_target path from from_phase from_step pending to_step = err use_retry
validate_target path from from_phase from_step running to_step =
    validate_running path from from_phase from_step to_step
validate_target path from from_phase from_step (other_phase s) to_step =
    err (unsupported_phase (other_phase s))

-- `ValidateOperationStepTransition`.
unfoldable pub validate_transition :
    OperationKind
    → OperationPhase
    → OperationStep
    → OperationPhase
    → OperationStep
    → Result TransitionError Unit
unfolding active_index validate_target same_phase operation_path step_index_from same_step
validate_transition kind from_phase from_step to_phase to_step = do
  path ← or_fail (operation_path kind) (unknown_kind kind)
  guard (same_phase from_phase pending || same_phase from_phase running)
      (phase_not_active from_phase)
  from ← active_index path from_step
  validate_target path from from_phase from_step to_phase to_step
