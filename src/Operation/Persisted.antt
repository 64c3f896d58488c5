-- ===== src/Operation/Persisted.antt =====
-- Sequences of calls of AdvanceOperationStepCAS and RetryOperationStepCAS
-- (internal/data/postgres/operation_state.go) on the durable operations.
use ani_inference_service.Prelude.{
  ◌∷◌, true, or_fail, All-zip, ◌≡◌, err, >>=-eq-ok, List, ◌||◌, String, ℕ, refl, [], Result, Option,
  ok, All, ◌&&◌, and3-eq-true, guard, guard-eq-ok, leb, ok-injective, subst, not,
}
use ani_inference_service.Operation.{
  TransitionError, pending, running, same_phase, validate_transition,
}
use ani_inference_service.Operation.Store.{
  OperationRow, OperationStepInput, StoreError, check_advance, check_retry, transition_error,
  after_check, advance_operation_step, retry_operation_step, may_advance, may_reschedule, advanced,
  rescheduled, is_blank_kind, is_active_phase,
}
use ani_inference_service.Operation.Standing.{Agrees, Stands, advanced-Stands, rescheduled-Stands}
use ani_inference_service.Work.Table.{Tables}
use ani_inference_service.Work.Rows.{update_where-map}

module _ (parse_uuid : String → Option String) where
  transition_error-ok :
      (r : Result TransitionError Unit) → transition_error parse_uuid r ≡ ok tt → r ≡ ok tt
  transition_error-ok (ok u) e = refl
  transition_error-ok (err x) e = cc

  -- A checked advance is a transition that the validator accepts.
  check_advance-ok :
      (i j : OperationStepInput)
      → check_advance parse_uuid i ≡ ok j
      → validate_transition j.kind j.expected_phase j.expected_step j.next_phase j.next_step ≡ ok tt
  unfolding check_advance
  check_advance-ok i j e =
      let (tenant, p₁, e₁) = >>=-eq-ok _ (or_fail (parse_uuid i.tenant_id) _) e in
      let (operation, p₂, e₂) = >>=-eq-ok _ (or_fail (parse_uuid i.operation_id) _) e₁ in
      let (positive, p₃, e₃) = >>=-eq-ok _ (guard (leb 1 i.target_generation) _) e₂ in
      let (lease, p₄, e₄) = >>=-eq-ok _ (or_fail (parse_uuid i.lease_token) _) e₃ in
      let valid =
        validate_transition i.kind i.expected_phase i.expected_step i.next_phase i.next_step in
      let (accepted, p₅, e₅) = >>=-eq-ok _ (transition_error parse_uuid valid) e₄ in
      subst
        (λ k.
          validate_transition k.kind k.expected_phase k.expected_step k.next_phase k.next_step
          ≡ ok tt)
        (ok-injective e₅) (transition_error-ok valid p₅)

  check_retry-ok :
      (i j : OperationStepInput)
      → check_retry parse_uuid i ≡ ok j
      → (same_phase j.expected_phase pending || same_phase j.expected_phase running) ≡ true
  unfolding check_retry
  check_retry-ok i j e =
      let (tenant, p₁, e₁) = >>=-eq-ok _ (or_fail (parse_uuid i.tenant_id) _) e in
      let (operation, p₂, e₂) = >>=-eq-ok _ (or_fail (parse_uuid i.operation_id) _) e₁ in
      let test =
        not (is_blank_kind parse_uuid i.kind)
        && leb 1 i.target_generation
        && is_active_phase parse_uuid i.expected_phase in
      let (active, p₃, e₃) = >>=-eq-ok _ (guard test _) e₂ in
      let (lease, p₄, e₄) = >>=-eq-ok _ (or_fail (parse_uuid i.lease_token) _) e₃ in
      let (named, positive, works) =
        and3-eq-true (not (is_blank_kind parse_uuid i.kind)) (leb 1 i.target_generation)
          (is_active_phase parse_uuid i.expected_phase) (guard-eq-ok test _ p₃) in
      subst
        (λ k. (same_phase k.expected_phase pending || same_phase k.expected_phase running) ≡ true)
        (ok-injective e₄) works

-- A call, with the services and the work table as they are at its time.
pub data OperationCall : Type 0 where
  advance_call : ℕ → Tables → OperationStepInput → OperationCall
  retry_call : ℕ → ℕ → Tables → OperationStepInput → OperationCall

module _ (parse_uuid : String → Option String) where
  unfoldable pub run_call : OperationCall → List OperationRow → List OperationRow
  run_call (advance_call now t i) rows = (advance_operation_step parse_uuid now t i rows).1
  run_call (retry_call delay now t i) rows = (retry_operation_step parse_uuid delay now t i rows).1

  unfoldable pub run_calls : List OperationCall → List OperationRow → List OperationRow
  unfolding run_call
  run_calls [] rows = rows
  run_calls (c ∷ cs) rows = run_calls cs (run_call c rows)

  -- An advance names the kind of the row that it moves.
  abbrev pub NamesKind : OperationCall → List OperationRow → Type 0
  NamesKind (advance_call now t i) rows =
      (j : OperationStepInput) → check_advance parse_uuid i ≡ ok j → All (Agrees j) rows
  NamesKind (retry_call delay now t i) rows = Unit

  abbrev pub AllNameKinds : List OperationCall → List OperationRow → Type 0
  AllNameKinds [] rows = Unit
  AllNameKinds (c ∷ cs) rows = NamesKind c rows × AllNameKinds cs (run_call c rows)

  after_check-Stands :
      (statement : OperationStepInput → List OperationRow → List OperationRow × ℕ)
      (checked : Result StoreError OperationStepInput) (rows : List OperationRow)
      → ((j : OperationStepInput) → checked ≡ ok j → All Stands (statement j rows).0)
      → All Stands rows
      → All Stands (after_check parse_uuid statement checked rows).1
  after_check-Stands statement (err e) rows moved all = all
  after_check-Stands statement (ok j) rows moved all = moved j refl

  run_call-Stands :
      (c : OperationCall) (rows : List OperationRow)
      → NamesKind c rows
      → All Stands rows
      → All Stands (run_call c rows)
  unfolding run_call advance_operation_step retry_operation_step
  run_call-Stands (advance_call now t i) rows names all =
      after_check-Stands _ (check_advance parse_uuid i) rows
        (λ j checked.
          update_where-map (may_advance now t j) (advanced now j) rows
            (λ o may both.
              advanced-Stands now t j o (check_advance-ok parse_uuid i j checked) both.1 may)
            (λ o may both. both.0) (All-zip Stands (Agrees j) rows all (names j checked)))
        all
  run_call-Stands (retry_call delay now t i) rows names all =
      after_check-Stands _ (check_retry parse_uuid i) rows
        (λ j checked.
          update_where-map (may_reschedule now t j) (rescheduled delay now j) rows
            (λ o may stands.
              rescheduled-Stands delay now t j o (check_retry-ok parse_uuid i j checked) may stands)
            (λ o may stands. stands) all)
        all

  -- Whatever workers advance and put back, at whichever times, leases and generations, if each
  -- advance names the kind of the operation it moves: an operation that stood on its kind's path
  -- still does, that is, while active it is at a step of the path before the last, and once it has
  -- succeeded or failed it is complete.
  pub run_calls-Stands :
      (cs : List OperationCall) (rows : List OperationRow)
      → AllNameKinds cs rows
      → All Stands rows
      → All Stands (run_calls cs rows)
  unfolding run_calls
  run_calls-Stands [] rows names all = all
  run_calls-Stands (c ∷ cs) rows (named, names) all =
      run_calls-Stands cs (run_call c rows) names (run_call-Stands c rows named all)
