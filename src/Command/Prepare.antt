-- ===== src/Command/Prepare.antt =====
-- What a command changes before it moves the service (internal/data/postgres/command_usecase.go).
use ani_inference_service.Command.Database.{Database, cloned, cancel_active_operation, is_spec}
use ani_inference_service.Command.Accept.{next_spec, clone_spec, cancel}
use ani_inference_service.Command.Model.{
  Environment, Draw, CommandInput, is_delete, invalid_state, unique_violation,
}
use ani_inference_service.Prelude.{
  Bool, >>=-eq-ok, sym, not, guard, ◌++◌, if◌then◌else◌, false, ok, refl, ◌>>◌, String,
  ok-injective, ◌+◌, subst, true, ◌==◌, ◌≡◌, length, ap, ℕ, any_row,
}

module _ (env : Environment) (draw : Draw) (tenant service : String) (i : CommandInput) where
  -- The tables that the preparation keeps.
  abbrev pub Prepared : Database → Database → Type 0
  Prepared d d' = (d'.tables ≡ d.tables) × (d'.idempotency ≡ d.idempotency)

  pub cancel-Prepared : (d : Database) → Prepared d (cancel env draw tenant service i d).0
  unfolding cancel cancel_active_operation
  cancel-Prepared d = if_delete (is_delete i.kind)
    where
      if_delete :
          (b : Bool)
          → Prepared d (if b then cancel_active_operation draw.now tenant service d else (d, 0)).0
      if_delete true = (refl, refl)
      if_delete false = (refl, refl)

  same_database : (d : Database) → Prepared d d
  same_database d = (refl, refl)

  clone_spec-Prepared :
      (source target : ℕ) (d d' : Database)
      → clone_spec env draw tenant service i source target d ≡ ok d'
      → Prepared d d'
  unfolding clone_spec
  clone_spec-Prepared source target d d' e =
      let copies = cloned draw.spec_id target tenant service source d.specs in
      let next : Database = record d { specs = d.specs ++ copies } in
      let one = guard (length copies == 1) (invalid_state "missing current specification") in
      let free = guard (not (any_row (is_spec tenant service target) d.specs)) unique_violation in
      let (u, unique, e1) = >>=-eq-ok (λ u. one >> ok next) free e in
      let (v, single, same) = >>=-eq-ok (λ v. ok next) one e1 in
      (
        ap (λ x. x.tables) (sym (ok-injective same)),
        ap (λ x. x.idempotency) (sym (ok-injective same)),
      )

  pub next_spec-Prepared :
      (generation : ℕ) (d d' : Database)
      → next_spec env draw tenant service i generation d ≡ ok d'
      → Prepared d d'
  unfolding next_spec
  next_spec-Prepared generation d d' e = by_kind (is_delete i.kind) e
    where
      by_kind :
          (b : Bool)
          → (if b then ok d else clone_spec env draw tenant service i generation (generation + 1) d)
            ≡ ok d'
          → Prepared d d'
      by_kind true same = subst (Prepared d) (ok-injective same) (same_database d)
      by_kind false same = clone_spec-Prepared generation (generation + 1) d d' same
