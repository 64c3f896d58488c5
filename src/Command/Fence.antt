-- ===== src/Command/Fence.antt =====
-- Two commands for one generation of a service (internal/data/postgres/command_usecase.go).
use ani_inference_service.Command.Repeats.{command-passes}
use ani_inference_service.Command.Results.{Passes}
use ani_inference_service.Command.Outcome.{Accepted}
use ani_inference_service.Work.Table.{Service, find_service}
use ani_inference_service.Command.Database.{Database, is_request}
use ani_inference_service.Command.Model.{
  Environment, CommandInput, is_delete, at_expected, Draw, OperationResponse, generation_conflict,
  method_of,
}
use ani_inference_service.Prelude.{
  ==_iff, none, if◌then◌else◌, ◌∙◌, true, refl, ap, inl, Bool-cases, arith, negsuc, some, ◌≢◌, ◌+◌,
  str_eq, Bool, err, String, false, pos, ℤ, inr, ◌≡◌, sym, ℕ, find_row,
}
use ani_inference_service.Operation.{
  create, start, update, restart, stop, delete, other_kind, OperationKind,
}
use ani_inference_service.Command.Accept.{accept, accept_once, admit, command}

-- A kind other than delete names the generation that it changes.
names_generation :
    (kind : OperationKind) (e : ℤ) (n : ℕ)
    → is_delete kind ≡ false
    → at_expected kind e n ≡ true
    → e ≡ pos n
names_generation create (pos m) n d h = ap pos (sym ((==_iff n m).0 h))
names_generation start (pos m) n d h = ap pos (sym ((==_iff n m).0 h))
names_generation update (pos m) n d h = ap pos (sym ((==_iff n m).0 h))
names_generation restart (pos m) n d h = ap pos (sym ((==_iff n m).0 h))
names_generation stop (pos m) n d h = ap pos (sym ((==_iff n m).0 h))
names_generation (other_kind s) (pos m) n d h = ap pos (sym ((==_iff n m).0 h))
names_generation create (negsuc m) n d h = cc
names_generation start (negsuc m) n d h = cc
names_generation update (negsuc m) n d h = cc
names_generation restart (negsuc m) n d h = cc
names_generation stop (negsuc m) n d h = cc
names_generation (other_kind s) (negsuc m) n d h = cc
names_generation delete e n d h = cc

unlike_next : (n : ℕ) → pos n ≢ pos (n + 1)
unlike_next n e = omega (arith, pos_injective e)
  where
    pos_injective : {a b : ℕ} → pos a ≡ pos b → a ≡ b
    pos_injective e = cc

late :
    (kind : OperationKind) (n : ℕ)
    → is_delete kind ≡ false
    → at_expected kind (pos n) (n + 1) ≡ false
late kind n d = elim (Bool-cases (at_expected kind (pos n) (n + 1))) [
  | inl h ↦ absurd (unlike_next n (names_generation kind (pos n) (n + 1) d h))
  | inr h ↦ h
]

module _ (env : Environment) (tenant service : String) (j : CommandInput) where
  -- A service that is a generation further refuses the command.
  admit-late :
      (draw : Draw) (d : Database) (current : Service)
      → at_expected j.kind j.expected_generation current.desired_generation ≡ false
      → admit env draw tenant service j d current ≡ err generation_conflict
  unfolding admit
  admit-late draw d current h = rw h

  accept-late :
      (draw : Draw) (d : Database) (current : Service)
      → find_service tenant service d.tables.services ≡ some current
      → at_expected j.kind j.expected_generation current.desired_generation ≡ false
      → accept env draw tenant service j d ≡ err generation_conflict
  unfolding accept
  accept-late draw d current found h = rw (found, admit-late draw d current h)

  accept_once-fresh :
      (draw : Draw) (d : Database)
      → find_row (is_request tenant (method_of j.kind) j.request_id) d.idempotency ≡ none
      → accept_once env draw tenant service j d ≡ accept env draw tenant service j d
  unfolding accept_once
  accept_once-fresh draw d fresh = rw fresh (either (str_eq j.request_id ""))
    where
      either :
          (b : Bool)
          → (if b then accept env draw tenant service j d else accept env draw tenant service j d)
            ≡ accept env draw tenant service j d
      either true = refl
      either false = refl

  -- After an accepted command for a generation, another command for the same generation of the same
  -- service is refused as late and changes nothing, if neither is a delete, the second carries no
  -- managed attachment, and its key is not stored yet.
  pub command-fenced :
      (draw draw' : Draw) (i : CommandInput) (d : Database) (answer : OperationResponse)
      (d' : Database)
      → Accepted env draw tenant service i d answer d'
      → is_delete i.kind ≡ false
      → is_delete j.kind ≡ false
      → j.expected_generation ≡ i.expected_generation
      → Passes env j tenant service
      → j.managed ≡ false
      → find_row (is_request tenant (method_of j.kind) j.request_id) d'.idempotency ≡ none
      → command env draw' j d' ≡ (err generation_conflict, d')
  command-fenced draw draw' i d answer d' a changes changes' same passes unattached fresh =
      let n = a.current.desired_generation in
      let named = same ∙ names_generation i.kind i.expected_generation n changes a.expected in
      let behind = ap (λ e. at_expected j.kind e (n + 1)) named ∙ late j.kind n changes' in
      command-passes env j tenant service passes draw' d' (err generation_conflict) unattached
        (accept_once-fresh draw' d' fresh ∙ accept-late draw' d' _ a.started.moved behind)
