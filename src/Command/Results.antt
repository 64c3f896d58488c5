-- ===== src/Command/Results.antt =====
-- `Command` (internal/data/postgres/command_usecase.go) as a whole: what it answers and leaves.
use ani_inference_service.Command.Promise.{
  Promise, Accepted-Promise, command_response_from_row-Tells, Tells,
}
use ani_inference_service.Command.Outcome.{Replayed, Accepted, accept-Accepted, replay-Replayed}
use ani_inference_service.Command.Database.{Database, IdempotencyRow, is_request}
use ani_inference_service.Command.Accept.{checked, command, accept_once, settled, accept, replay}
use ani_inference_service.Operation.{
  start, stop, restart, delete, create, update, other_kind, OperationKind, operation_path,
  OperationStep,
}
use ani_inference_service.Command.Model.{
  Environment, is_command, Draw, CommandInput, first_step, OperationResponse, CommandError,
  invalid_state, kind_text, is_delete, method_of, generation_conflict, invalid_uuid,
}
use ani_inference_service.Prelude.{
  false_true, false, subst, or_fail, pos, err, or_fail-eq-ok, str_eq, ◌||◌, List, >>=-eq-ok, guard,
  ◌≡◌, ok, ◌>>=◌, String, Option, ◌>>◌, if◌then◌else◌, none, ◌∙◌, guard-then-eq-ok, sym, Result,
  some, ltb_ℤ, Bool, refl, true, not, ◌∷◌, find_row,
}

-- The new operation stands at the beginning of the path of its kind.
pub record IsFirst (kind : OperationKind) : Type 0 where
  pub rest : List OperationStep
  pub on_path : operation_path kind ≡ some (first_step kind ∷ rest)

is_command-IsFirst : (kind : OperationKind) → is_command kind ≡ true → IsFirst kind
unfolding operation_path
is_command-IsFirst start h = record { rest = _; on_path = refl }
is_command-IsFirst stop h = record { rest = _; on_path = refl }
is_command-IsFirst restart h = record { rest = _; on_path = refl }
is_command-IsFirst delete h = record { rest = _; on_path = refl }
is_command-IsFirst create h = cc
is_command-IsFirst update h = cc
is_command-IsFirst (other_kind s) h = cc

-- The checks before the transaction.
pub record Passes (env : Environment) (i : CommandInput) (tenant service : String) : Type 0 where
  pub tenant_parsed : env.parse_uuid i.tenant_id ≡ some tenant
  pub service_parsed : env.parse_uuid i.service_id ≡ some service
  pub aimed : (is_delete i.kind || not (ltb_ℤ i.expected_generation (pos 1))) ≡ true
  pub known : is_command i.kind ≡ true

module _ (env : Environment) (draw : Draw) (i : CommandInput) where
  -- A refusal changes nothing, nor does a replay of a stored request; otherwise the command is accepted
  -- as a new request.
  pub data Outcome (d : Database) : Result CommandError OperationResponse → Database → Type 0 where
    refused : (e : CommandError) → Outcome d (err e) d
    replayed :
        {answer : OperationResponse} (tenant service : String)
        → Passes env i tenant service
        → str_eq i.request_id "" ≡ false
        → (r : Replayed env draw tenant service i d answer) → Tells answer r.operation
        → Outcome d (ok answer) d
    accepted :
        {answer : OperationResponse} {d' : Database} (tenant service : String)
        → Passes env i tenant service
        → IsFirst i.kind
        → (str_eq i.request_id "" ≡ false
            → find_row (is_request tenant (method_of i.kind) i.request_id) d.idempotency ≡ none)
        → (a : Accepted env draw tenant service i d answer d')
        → Promise env draw tenant service i a.current d answer d'
        → Outcome d (ok answer) d'

  accept-Outcome :
      (tenant service : String) (d : Database) (answer : OperationResponse) (d' : Database)
      → Passes env i tenant service
      → (str_eq i.request_id "" ≡ false
          → find_row (is_request tenant (method_of i.kind) i.request_id) d.idempotency ≡ none)
      → accept env draw tenant service i d ≡ ok (answer, d')
      → Outcome d (ok answer) d'
  accept-Outcome tenant service d answer d' passes fresh done =
      let a = accept-Accepted env draw tenant service i d answer d' done in
      accepted tenant service passes (is_command-IsFirst i.kind passes.known) fresh a
        (Accepted-Promise env draw tenant service i d answer d' passes.known a)

  once-Outcome :
      (tenant service : String) (d : Database) (answer : OperationResponse) (d' : Database)
      → Passes env i tenant service
      → accept_once env draw tenant service i d ≡ ok (answer, d')
      → Outcome d (ok answer) d'
  unfolding accept_once
  once-Outcome tenant service d answer d' passes e = by_key (str_eq i.request_id "") refl e
    where
      by_row :
          (stored : Option IdempotencyRow)
          → find_row (is_request tenant (method_of i.kind) i.request_id) d.idempotency ≡ stored
          → str_eq i.request_id "" ≡ false
          → (elim stored [
            | none ↦ accept env draw tenant service i d
            | some row ↦ replay env draw tenant service i row d
          ])
            ≡ ok (answer, d')
          → Outcome d (ok answer) d'
      by_row none fresh named done =
          accept-Outcome tenant service d answer d' passes (λ h. fresh) done
      by_row (some row) stored named done =
          let (known, same) =
            replay-Replayed env draw tenant service i row d answer d' stored done in
          subst (Outcome d (ok answer)) same (
            replayed tenant service passes named known
              (command_response_from_row-Tells answer known.operation known.answered))

      by_key :
          (unnamed : Bool)
          → str_eq i.request_id "" ≡ unnamed
          → (if unnamed
              then accept env draw tenant service i d
              else (elim (find_row
                  (is_request tenant (method_of i.kind) i.request_id)
                  d.idempotency) [
                    | none ↦ accept env draw tenant service i d
                    | some row ↦ replay env draw tenant service i row d
                  ]))
            ≡ ok (answer, d')
          → Outcome d (ok answer) d'
      by_key true h done =
          accept-Outcome tenant service d answer d' passes (λ n. false_true (sym n ∙ h)) done
      by_key false h done = by_row _ refl h done

  checked-Outcome :
      (d : Database) (answer : OperationResponse) (d' : Database)
      → checked env draw i d ≡ ok (answer, d')
      → Outcome d (ok answer) d'
  unfolding checked
  checked-Outcome d answer d' e =
      let once : String → String → Result CommandError (OperationResponse × Database) =
        λ tenant service. accept_once env draw tenant service i d in
      let known = guard (is_command i.kind) (invalid_state (kind_text i.kind)) in
      let aimed = is_delete i.kind || not (ltb_ℤ i.expected_generation (pos 1)) in
      let behind : String → String → Result CommandError (OperationResponse × Database) =
        λ tenant service. guard aimed generation_conflict >> (known >> once tenant service) in
      let parse_service = or_fail (env.parse_uuid i.service_id) (invalid_uuid "service_id") in
      let parse_tenant = or_fail (env.parse_uuid i.tenant_id) (invalid_uuid "tenant_id") in
      let (tenant, t, e1) = >>=-eq-ok (λ tenant. parse_service >>= behind tenant) parse_tenant e in
      let (service, s, e2) = >>=-eq-ok (behind tenant) parse_service e1 in
      let (aim, e3) =
        guard-then-eq-ok aimed generation_conflict (known >> once tenant service) e2 in
      let (command_, e4) = guard-then-eq-ok (is_command i.kind) _ (once tenant service) e3 in
      once-Outcome tenant service d answer d'
        (record {
          tenant_parsed = or_fail-eq-ok _ _ t;
          service_parsed = or_fail-eq-ok _ _ s;
          aimed = aim;
          known = command_;
        })
        e4

  settled-Outcome :
      (d : Database) (r : Result CommandError (OperationResponse × Database))
      → checked env draw i d ≡ r
      → Outcome d (settled env draw i d r).0 (settled env draw i d r).1
  settled-Outcome d (err e) h = refused e
  settled-Outcome d (ok (answer, d')) h = checked-Outcome d answer d' h

  -- Every command without a managed attachment either fails and leaves the database as it was; or
  -- answers with the operation of a stored request of the same key, which is the same request or a
  -- delete of the earlier contract, and leaves the database as it was; or finds a live service, at
  -- the expected generation unless it is a delete, in a state that the command needs, leaves it one
  -- generation further with the desired state of the command and a new pending operation of the
  -- command's kind for it at the first step of the path of this kind, answers with this operation,
  -- and stores the key of the request, which was new.
  pub command-Outcome :
      (d : Database)
      → i.managed ≡ false
      → Outcome d (command env draw i d).0 (command env draw i d).1
  unfolding command
  command-Outcome d h =
      subst (λ b. Outcome d (settled env draw i d (either b)).0 (settled env draw i d (either b)).1)
        (sym h) (settled-Outcome d (checked env draw i d) refl)
    where
      either : Bool → Result CommandError (OperationResponse × Database)
      either b = if b then env.accept_managed_delete i d else checked env draw i d
