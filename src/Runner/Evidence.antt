-- ===== src/Runner/Evidence.antt =====
-- What a step of internal/biz/inference/runner.go has written or asked for when it succeeds: the
-- newest call of the history, whatever the ports answer.
use ani_inference_service.Operation.{
  OperationStep, admission, apply_cr, materialize_model, apply_runtime, withdraw_publication,
  delete_runtime, delete_cr, publish,
}
use ani_inference_service.Runner.Teardown.{delete_cr_step, delete_runtime_step}
use ani_inference_service.Runner.Execute.{run_step, dispatch_step}
use ani_inference_service.Runner.Provision.{
  admission_step, apply_cr_step, materialize_model_step, apply_runtime_step,
}
use ani_inference_service.Runner.Quota.{fenced}
use ani_inference_service.Runner.Expose.{withdraw_publication_step, publish_step, stamped}
use ani_inference_service.Runner.State.{
  OperationContext, Reservation, Publication, ModelObservation,
}
use ani_inference_service.Failure.{Error}
use ani_inference_service.Prelude.{
  Result, ◌≡◌, err, true, String, false, ◌∷◌, refl, ok, if◌then◌else◌, Bool, &&-eq-true, ◌&&◌,
}
use ani_inference_service.Runner.World.{
  World, Call, Exec, History, ◌>>=◌, ◌>>◌, perform, return, fail, continue, is_ok, require,
}
use ani_inference_service.Runner.Discipline.{JustDone}
use ani_inference_service.Runner.Ports.{call, StepResult}

-- After a computation that returns a value the history satisfies `P`.
record Leaves {A : Type 0} (P : History → Type 0) (m : Exec A) : Type 0 where
  after : (h : History) (a : A) → (m h).0 ≡ ok a → P (m h).1

module _ {A : Type 0} {P : History → Type 0} where
  fail-Leaves : (x : Error) → Leaves P (fail {A = A} x)
  unfolding fail
  fail-Leaves x = record { after = λ h a e. cc }

  if-Leaves :
      (test : Bool) (m n : Exec A) → Leaves P m → Leaves P n → Leaves P (if test then m else n)
  if-Leaves true m n p q = p
  if-Leaves false m n p q = q

  -- A call and then a value: the call was the newest.
  call_return-Leaves :
      (c : Call) (f : History → Result Error Unit) (v : A)
      → ((h : History) → P (record { call = c; succeeded = true } ∷ h))
      → Leaves P (perform c f >>= λ done. return v)
  unfolding ◌>>=◌
  call_return-Leaves c f v p = record { after = λ h a e. go h (f h) e }
    where
      go :
          (h : History) (r : Result Error Unit) {a : A}
          → (continue r (λ done. return v) (record { call = c; succeeded = is_ok r } ∷ h)).0 ≡ ok a
          → P (continue r (λ done. return v) (record { call = c; succeeded = is_ok r } ∷ h)).1
      go h (ok u) e = p h
      go h (err x) e = cc

module _ {A B : Type 0} {P : History → Type 0} where
  continue-Leaves :
      (r : Result Error A) (f : A → Exec B) (h : History) (b : B)
      → ((a : A) → Leaves P (f a))
      → (continue r f h).0 ≡ ok b
      → P (continue r f h).1
  unfolding continue
  continue-Leaves (ok a) f h b l e = (l a).after h b e
  continue-Leaves (err x) f h b l e = cc

  bind-Leaves : (m : Exec A) (f : A → Exec B) → ((a : A) → Leaves P (f a)) → Leaves P (m >>= f)
  unfolding ◌>>=◌
  bind-Leaves m f l = record { after = λ h b e. let (r, h') = m h in continue-Leaves r f h' b l e }

-- Behind a test the rest may use that it passed.
require-Leaves :
    {A : Type 0} {P : History → Type 0} (test : Bool) (x : Error) (m : Exec A)
    → (test ≡ true → Leaves P m)
    → Leaves P (require test x >> m)
unfolding ◌>>=◌
require-Leaves true x m l = record { after = λ h a e. (l refl).after h a e }
require-Leaves false x m l = record { after = λ h a e. cc }

ruleset leaves_rules = (fail-Leaves, if-Leaves, bind-Leaves)

-- A publication saved in a state under the operation's fence.
abbrev pub SavedPublication : OperationContext → String → History → Type 0
SavedPublication op state h =
    (p : Publication) × JustDone (Call.save_publication p) h
    × (p.state ≡ state)
    × (p.lease_token ≡ op.lease_token)
    × (p.fence_operation_id ≡ op.id)

-- A reservation saved in a state under the operation's fence, with no error left on it.
abbrev pub SavedReservation : OperationContext → String → History → Type 0
SavedReservation op state h =
    (r : Reservation) × JustDone (Call.save_quota r) h
    × (r.state ≡ state)
    × (r.lease_token ≡ op.lease_token)
    × (r.fence_operation_id ≡ op.id)
    × (r.last_error_code ≡ "")

module _ (w : World) (op : OperationContext) where
  save_publication-Leaves :
      (p : Publication) (state : String) (next : StepResult)
      → Leaves
          (SavedPublication op state)
          (call w (Call.save_publication (stamped op p state)) >> return next)
  save_publication-Leaves p state next =
      call_return-Leaves _ _ _ (λ h. (stamped op p state, refl, refl, refl, refl))

  save_quota-Leaves :
      (r : Reservation) (state : String) (next : StepResult)
      → Leaves
          (SavedReservation op state)
          (call w (Call.save_quota (fenced op r state "")) >> return next)
  save_quota-Leaves r state next =
      call_return-Leaves _ _ _ (λ h. (fenced op r state "", refl, refl, refl, refl, refl))

  publish_step-Leaves : Leaves (SavedPublication op "published") (publish_step w op)
  unfolding publish_step
  publish_step-Leaves = search (leaves_rules, save_publication-Leaves) depth 14

  withdraw_publication_step-Leaves :
      Leaves (SavedPublication op "withdrawn") (withdraw_publication_step w op)
  unfolding withdraw_publication_step
  withdraw_publication_step-Leaves = search (leaves_rules, save_publication-Leaves) depth 14

  -- A model saved as known and ready.
  abbrev SavedModel : History → Type 0
  SavedModel h =
      (m : ModelObservation) × JustDone (Call.save_model op m) h
      × (m.known ≡ true)
      × (m.ready ≡ true)

  save_model-Leaves :
      (m : ModelObservation) (x : Error) (next : StepResult)
      → Leaves SavedModel
          (require (m.known && m.ready) x >> (call w (Call.save_model op m) >> return next))
  save_model-Leaves m x next =
      require-Leaves (m.known && m.ready) x (call w (Call.save_model op m) >> return next) λ t.
        let (k, r) = &&-eq-true m.known m.ready t in call_return-Leaves _ _ _ (λ h. (m, refl, k, r))

  materialize_model_step-Leaves : Leaves SavedModel (materialize_model_step w op)
  unfolding materialize_model_step
  materialize_model_step-Leaves = search (leaves_rules, save_model-Leaves) depth 14

  -- A step that ends with one call.
  last_call-Leaves : (c : Call) (next : StepResult) → Leaves (JustDone c) (call w c >> return next)
  last_call-Leaves c next = call_return-Leaves _ _ _ (λ h. refl)

  admission_step-Leaves : Leaves (JustDone (Call.admit op)) (admission_step w op)
  unfolding admission_step
  admission_step-Leaves = search (leaves_rules, last_call-Leaves) depth 12

  apply_cr_step-Leaves : Leaves (JustDone (Call.apply_cr op)) (apply_cr_step w op)
  unfolding apply_cr_step
  apply_cr_step-Leaves = search (leaves_rules, last_call-Leaves) depth 12

  apply_runtime_step-Leaves : Leaves (JustDone (Call.apply_runtime op)) (apply_runtime_step w op)
  unfolding apply_runtime_step
  apply_runtime_step-Leaves = search (leaves_rules, last_call-Leaves) depth 12

  delete_runtime_step-Leaves : Leaves (JustDone (Call.delete_runtime op)) (delete_runtime_step w op)
  unfolding delete_runtime_step
  delete_runtime_step-Leaves = search (leaves_rules, last_call-Leaves) depth 12

  delete_cr_step-Leaves : Leaves (JustDone (Call.cleanup_model op)) (delete_cr_step w op)
  unfolding delete_cr_step
  delete_cr_step-Leaves = search (leaves_rules, last_call-Leaves) depth 12

  -- What the newest call must be when a step has succeeded.
  abbrev pub EvidenceOf : OperationStep → History → Type 0
  EvidenceOf admission h = JustDone (Call.admit op) h
  EvidenceOf apply_cr h = JustDone (Call.apply_cr op) h
  EvidenceOf materialize_model h = SavedModel h
  EvidenceOf apply_runtime h = JustDone (Call.apply_runtime op) h
  EvidenceOf withdraw_publication h = SavedPublication op "withdrawn" h
  EvidenceOf delete_runtime h = JustDone (Call.delete_runtime op) h
  EvidenceOf delete_cr h = JustDone (Call.cleanup_model op) h
  EvidenceOf publish h = SavedPublication op "published" h
  EvidenceOf _ h = Unit

  -- Whatever the ports answer, when a step succeeds the newest call is the one that establishes it:
  -- admission, the applied resource or runtime, the deleted runtime or the cleaned-up model files;
  -- for materialize_model the save of a model that is known and ready; for publish and
  -- withdraw_publication the save of the publication in its final state under the operation's lease
  -- and fence. Of the quota, GPU and observation steps it says nothing.
  pub run_step-EvidenceOf :
      (h : History) (next : StepResult)
      → (run_step w op h).0 ≡ ok next
      → EvidenceOf op.step (run_step w op h).1
  unfolding run_step
  run_step-EvidenceOf h next e = dispatch op.step h next e
    where
      dispatch :
          (s : OperationStep) (h : History) (next : StepResult)
          → (dispatch_step w s op h).0 ≡ ok next
          → EvidenceOf s (dispatch_step w s op h).1
      dispatch admission h next e = admission_step-Leaves.after h next e
      dispatch apply_cr h next e = apply_cr_step-Leaves.after h next e
      dispatch materialize_model h next e = materialize_model_step-Leaves.after h next e
      dispatch apply_runtime h next e = apply_runtime_step-Leaves.after h next e
      dispatch withdraw_publication h next e = withdraw_publication_step-Leaves.after h next e
      dispatch delete_runtime h next e = delete_runtime_step-Leaves.after h next e
      dispatch delete_cr h next e = delete_cr_step-Leaves.after h next e
      dispatch publish h next e = publish_step-Leaves.after h next e
      dispatch _ h next e = tt
