-- ===== src/Runner/World.antt =====
-- The ports of internal/biz/inference/runner.go, their calls and answers, and the effect monad.
-- A port's answer may depend on every call made before it, which is all that the runner can
-- observe of a database, a cluster or another service.
use ani_inference_service.Prelude.{
  false, true, ℕ, err, List, ◌∷◌, Result, Bool, Option, if◌then◌else◌, String, ok,
}
use ani_inference_service.Gpu.{Snapshot}
use ani_inference_service.Operation.{OperationPhase, OperationStep}
use ani_inference_service.Failure.{Error}
use ani_inference_service.Runner.State.{
  Item, Reservation, Publication, PodRef, OperationContext, RuntimeObservation, ModelObservation,
  StepTransition, AuditEvent,
}

-- A call of a method of one of the ports.
pub data Call : Type 0 where
  current_operation : Item → Call
  advance_step : StepTransition → Call
  retry_step : StepTransition → ℕ → Call
  advance_step_with_audit : StepTransition → AuditEvent → Call
  retry_step_with_audit : StepTransition → ℕ → AuditEvent → Call
  append_audit : AuditEvent → Call
  save_quota : Reservation → Call
  save_publication : Publication → Call
  save_runtime : OperationContext → RuntimeObservation → Call
  save_release_pods : OperationContext → List PodRef → Call
  load_release_pods : OperationContext → Call
  mark_materializing : OperationContext → Call
  save_model : OperationContext → ModelObservation → Call
  save_gpu_snapshot : OperationContext → Snapshot → Call
  admit ensure_model cleanup_model resolve_gpu : OperationContext → Call
  quota_get : String → String → Call
  quota_reserve quota_confirm quota_release : Reservation → Call
  withdraw confirm_withdrawn publish confirm_published endpoint : Publication → Call
  apply_cr apply_runtime observe_runtime : OperationContext → Call
  delete_runtime observe_absence delete_cr release_managed_gpu : OperationContext → Call

-- A call with whether it returned without an error.
pub record Event : Type 0 where
  pub call : Call
  pub succeeded : Bool

-- The newest call first.
abbrev pub History : Type 0
History = List Event

-- The answers of the ports. An optional port is there or not for the life of the runner.
pub record World : Type 0 where
  pub has_store : Bool
  pub has_admission : Bool
  pub has_model : Bool
  pub has_gpu : Bool
  pub has_quota : Bool
  pub has_publication : Bool
  pub has_runtime : Bool
  pub has_managed_gpu_release : Bool
  pub has_audit : Bool
  pub store_is_atomic : Bool
  pub store_keeps_models : Bool
  pub store_keeps_gpu_snapshots : Bool
  pub store_keeps_release_pods : Bool
  pub publication_resolves_endpoints : Bool
  -- The runner's `RetryAfter` in nanoseconds, 0 where it is not positive.
  pub retry_after : ℕ
  pub current_operation : History → Item → Result Error OperationContext
  -- The calls that return only an error.
  pub acknowledge : History → Call → Result Error Unit
  pub load_release_pods : History → OperationContext → Result Error (List PodRef)
  pub ensure_model : History → OperationContext → Result Error ModelObservation
  pub resolve_gpu : History → OperationContext → Result Error (Option Snapshot)
  pub quota_get : History → String → String → Result Error Reservation
  pub quota_reserve : History → Reservation → Result Error Reservation
  pub confirm_withdrawn : History → Publication → Result Error Bool
  pub confirm_published : History → Publication → Result Error Bool
  pub endpoint : History → Publication → Result Error String
  pub observe_runtime : History → OperationContext → Result Error RuntimeObservation
  pub observe_absence : History → OperationContext → Result Error RuntimeObservation
  -- `time.Now().UTC().Format(time.RFC3339Nano)`.
  pub now : History → String
  -- `uuid.NewSHA1` of the operation's id, phase, step and attempt.
  pub event_uuid : String → OperationPhase → OperationStep → ℕ → String

-- A computation that calls ports and returns a value or an error.
abbrev pub Exec : Type 0 → Type 0
Exec A = History → Result Error A × History

abbrev pub is_ok : {A : Type 0} → Result Error A → Bool
is_ok (ok a) = true
is_ok (err e) = false

module _ {A : Type 0} where
  unfoldable pub return : A → Exec A
  return a h = (ok a, h)

  unfoldable pub fail : Error → Exec A
  fail e h = (err e, h)

  -- `if err != nil { return err }` behind a call that needs no port.
  unfoldable pub lift : Result Error A → Exec A
  lift r h = (r, h)

  -- Calls a port and writes the call down.
  unfoldable pub perform : Call → (History → Result Error A) → Exec A
  perform c answer h = let r = answer h in (r, record { call = c; succeeded = is_ok r } ∷ h)

  -- Reads the clock.
  unfoldable pub gets : (History → A) → Exec A
  gets f h = (ok (f h), h)

  -- The error as a value, for code that looks at it.
  unfoldable pub attempt : Exec A → Exec (Result Error A)
  attempt m h = let (r, h') = m h in (ok r, h')

-- `if !test { return err }`.
unfoldable pub require : Bool → Error → Exec Unit
require test e h = if test then (ok tt, h) else (err e, h)

module _ {A B : Type 0} where
  unfoldable pub continue : Result Error A → (A → Exec B) → Exec B
  continue (ok a) f h = f a h
  continue (err e) f h = (err e, h)

  infixl 5 ◌>>=◌
  -- Opening this opens every way to build a computation.
  unfoldable pub ◌>>=◌ : Exec A → (A → Exec B) → Exec B
  unfolding return fail lift perform gets attempt require continue
  ◌>>=◌ m f h = let (r, h') = m h in continue r f h'

infixl 5 ◌>>◌
abbrev pub ◌>>◌ : {B : Type 0} → Exec Unit → Exec B → Exec B
m >> k = m >>= λ _. k
