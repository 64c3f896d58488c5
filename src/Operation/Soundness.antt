-- ===== src/Operation/Soundness.antt =====
-- Every transition that the validator accepts is an edge of the diagram.
use ani_inference_service.Prelude.{
  arith, eq_iff, [], true, ◌≡◌, ◌∷◌, some, List, ℕ, get_elem?, inl, zero, Bool-cases, suc, ◌+◌, ok,
  inr, Option-cases, ◌<◌, length, ap, refl, subst, guard, &&-eq-true, ◌&&◌, unwrap_some, dec_lt,
  guard-eq-ok, ◌∙◌, sym, >>=-eq-ok, or_fail-eq-ok, or_fail, ==_iff, ◌||◌,
}
use ani_inference_service.Operation.{
  OperationKind, create, start, update, restart, stop, delete, other_kind, OperationStep, admission,
  reserve_quota, resolve_gpu, apply_cr, complete, other_step, OperationPhase, pending, running,
  succeeded, failed, other_phase, same_step, same_phase, step_index_from, operation_path,
  validate_transition, active_index, bring_up, replace, validate_target, validate_running,
  validate_advance, is_step_at, cannot_succeed, must_claim_first, unknown_kind,
  failed_needs_complete,
}
use ani_inference_service.Operation.Edges.{
  Deploys, deploys_create, deploys_start, deploys_update, deploys_restart, Replaces,
  replaces_update, replaces_restart, tears_replaced, tears_stop, tears_delete, Next, admitted,
  quota_reserved, gpu_resolved, cr_applied, model_ready, runtime_applied, runtime_ready, withdrawn,
  deleted, absent_replaced, previous_released, absent_stopped, absent_deleted, cr_deleted, Last,
  last_publish, last_stop, last_delete, Active, before, at_end, Edge, claim, advance, around_gpu,
  finish, fail_pending, fail_running,
}

pub same_step-eq : (a b : OperationStep) → same_step a b ≡ true → a ≡ b
unfolding same_step
same_step-eq (other_step s) (other_step t) h = ground (arith, eq_iff s t)
same_step-eq (other_step s) b h = ground arith
same_step-eq admission b h = ground arith
same_step-eq _ b h = ground arith

step_index_from-get_elem? :
    (i : ℕ) (path : List OperationStep) (s : OperationStep) {j : ℕ}
    → step_index_from i path s ≡ some j
    → (n : ℕ) × (j ≡ i + n) × (get_elem? path n ≡ some s)
unfolding step_index_from
step_index_from-get_elem? i [] s h = cc
step_index_from-get_elem? i (c ∷ cs) s {j} h = elim (Bool-cases (same_step c s)) [
  | inl e ↦ (0, ground (arith, h, e), ap some (same_step-eq c s e))
  | inr e ↦
      let (n, p, q) = step_index_from-get_elem? (suc i) cs s {j = j} (ground (arith, h, e)) in
      (suc n, omega arith, q)
]

-- An active index points at its step, and is not the last.
active_index-eq-ok :
    (path : List OperationStep) (s : OperationStep) {i : ℕ}
    → active_index path s ≡ ok i
    → (get_elem? path i ≡ some s) × (suc i < length path)
unfolding active_index
active_index-eq-ok path s {i} h = elim (Option-cases (step_index_from 0 path s)) [
  | inl e ↦ ground (arith, h, e)
  | inr (j, e) ↦
      let (n, p, q) = step_index_from-get_elem? 0 path s e in
      let p' : j ≡ n = omega arith in ground (arith, h, e, q, p')
]

-- Each step of a path leads to the next by the diagram, and the last but one ends the operation.
abbrev Chain : OperationKind → List OperationStep → Type 0
Chain k [] = Unit
Chain k (a ∷ []) = Unit
Chain k (a ∷ b ∷ []) = Last k a × (b ≡ complete)
Chain k (a ∷ b ∷ c ∷ path) = Next k a b × Chain k (b ∷ c ∷ path)

bring_up-Chain : {k : OperationKind} → Deploys k → Chain k bring_up
bring_up-Chain d = (
  quota_reserved d,
  (
    gpu_resolved d,
    (cr_applied d, (model_ready d, (runtime_applied d, (runtime_ready d, (last_publish d, refl))))),
  ),
)

replace-Chain : {k : OperationKind} → Replaces k → Deploys k → Chain k replace
replace-Chain r d = (
  withdrawn (tears_replaced r),
  (deleted (tears_replaced r), (absent_replaced r, (previous_released r, bring_up-Chain d))),
)

operation_path-Chain :
    (k : OperationKind) {path : List OperationStep} → operation_path k ≡ some path → Chain k path
unfolding operation_path
operation_path-Chain create e =
    subst (Chain create) (unwrap_some e) (admitted, bring_up-Chain deploys_create)
operation_path-Chain start e = subst (Chain start) (unwrap_some e) (bring_up-Chain deploys_start)
operation_path-Chain update e =
    subst (Chain update) (unwrap_some e) (replace-Chain replaces_update deploys_update)
operation_path-Chain restart e =
    subst (Chain restart) (unwrap_some e) (replace-Chain replaces_restart deploys_restart)
operation_path-Chain stop e =
    subst (Chain stop) (unwrap_some e)
      (withdrawn tears_stop, (deleted tears_stop, (absent_stopped, (last_stop, refl))))
operation_path-Chain delete e = subst (Chain delete) (unwrap_some e) (
  withdrawn tears_delete,
  (deleted tears_delete, (absent_deleted, (cr_deleted, (last_delete, refl)))),
)
operation_path-Chain (other_kind s) e = cc

at_edge :
    {k : OperationKind} {a b s t : OperationStep}
    → Next k a b
    → some a ≡ some s
    → some b ≡ some t
    → Next k s t
at_edge {k} {a} {b} {s} {t} n p q =
    subst (λ x. Next k x t) (unwrap_some p) (subst (λ x. Next k a x) (unwrap_some q) n)

Chain-Next :
    (k : OperationKind) (path : List OperationStep) (i : ℕ) {s t : OperationStep}
    → Chain k path
    → get_elem? path i ≡ some s
    → get_elem? path (suc i) ≡ some t
    → suc (suc i) < length path
    → Next k s t
Chain-Next k [] i c p q h = absurd (omega arith)
Chain-Next k (a ∷ []) i c p q h = absurd (omega arith)
Chain-Next k (a ∷ b ∷ []) i c p q h = absurd (omega arith)
Chain-Next k (a ∷ b ∷ d ∷ path) zero c p q h = at_edge c.0 p q
Chain-Next k (a ∷ b ∷ d ∷ path) (suc i) c p q h =
    Chain-Next k (b ∷ d ∷ path) i c.1 p q (omega arith)

Chain-Last :
    (k : OperationKind) (path : List OperationStep) (i : ℕ) {s : OperationStep}
    → Chain k path
    → get_elem? path i ≡ some s
    → suc (suc i) ≡ length path
    → Last k s
Chain-Last k [] i c p h = absurd (omega arith)
Chain-Last k (a ∷ []) i c p h = absurd (omega arith)
Chain-Last k (a ∷ b ∷ []) zero c p h = subst (Last k) (unwrap_some p) c.0
Chain-Last k (a ∷ b ∷ []) (suc i) c p h = absurd (omega arith)
Chain-Last k (a ∷ b ∷ d ∷ path) zero c p h = absurd (omega arith)
Chain-Last k (a ∷ b ∷ d ∷ path) (suc i) c p h = Chain-Last k (b ∷ d ∷ path) i c.1 p (omega arith)

get_elem?-below :
    (path : List OperationStep) (i : ℕ)
    → i < length path
    → (s : OperationStep) × (get_elem? path i ≡ some s)
get_elem?-below [] i h = absurd (omega arith)
get_elem?-below (x ∷ xs) zero h = (x, refl)
get_elem?-below (x ∷ xs) (suc i) h = get_elem?-below xs i (omega arith)

Chain-Active :
    (k : OperationKind) (path : List OperationStep) (i : ℕ) {s : OperationStep}
    → Chain k path
    → get_elem? path i ≡ some s
    → suc i < length path
    → Active k s
Chain-Active k path i c p h = elim (dec_lt (suc (suc i)) (length path)) [
  | yes more ↦
      let (t, q) = get_elem?-below path (suc i) h in before t (Chain-Next k path i c p q more)
  | no end ↦ at_end (Chain-Last k path i c p (omega arith))
]

Next-resolve_gpu : {k : OperationKind} → Next k reserve_quota resolve_gpu → Deploys k
Next-resolve_gpu (quota_reserved d) = d

Last-reserve_quota : {k : OperationKind} → ¬ Last k reserve_quota
Last-reserve_quota l = elim l [ ]

is_step_at-get_elem? :
    (path : List OperationStep) (i : ℕ) (s : OperationStep)
    → is_step_at path i s ≡ true
    → get_elem? path i ≡ some s
unfolding is_step_at
is_step_at-get_elem? path i s h = elim (Option-cases (get_elem? path i)) [
  | inl e ↦ ground (arith, e)
  | inr (t, e) ↦ ground (arith, e, same_step-eq t s)
]

module _ (k : OperationKind) (path : List OperationStep) (c : Chain k path) where
  -- The compatibility edge exists only where `resolve_gpu` follows.
  around_gpu_sound :
      (i : ℕ)
      → get_elem? path i ≡ some reserve_quota
      → suc i < length path
      → get_elem? path (suc i) ≡ some resolve_gpu
      → Deploys k
  around_gpu_sound i p h q = elim (dec_lt (suc (suc i)) (length path)) [
    | yes more ↦ Next-resolve_gpu (Chain-Next k path i c p q more)
    | no end ↦ absurd (Last-reserve_quota (Chain-Last k path i c p (omega arith)))
  ]

  validate_advance_sound :
      (i j : ℕ) {s t : OperationStep}
      → get_elem? path i ≡ some s
      → suc i < length path
      → get_elem? path j ≡ some t
      → suc j < length path
      → validate_advance path i s j t ≡ ok tt
      → Edge k running s running t
  unfolding validate_advance
  validate_advance_sound i j {s} {t} p h q h' e =
      elim (Bool-cases (
        same_step s reserve_quota
        && (same_step t apply_cr && is_step_at path (suc i) resolve_gpu))) [
          | inl y ↦
              let (a, b) = &&-eq-true _ _ y in
              let (b', d) = &&-eq-true _ _ b in
              let s' = same_step-eq s reserve_quota a in
              let t' = same_step-eq t apply_cr b' in
              rw (s', t')
                (around_gpu (
                  around_gpu_sound i (rw (← s') p) h
                    (is_step_at-get_elem? path (suc i) resolve_gpu d)))
          | inr n ↦
              let j' : j ≡ suc i = ground (arith, n, e) in
              advance (Chain-Next k path i c p (rw j' at q) (omega arith))
        ]

  validate_running_sound :
      (i : ℕ) (from_phase : OperationPhase) {s t : OperationStep}
      → same_phase from_phase pending || same_phase from_phase running ≡ true
      → get_elem? path i ≡ some s
      → suc i < length path
      → validate_running path i from_phase s t ≡ ok tt
      → Edge k from_phase s running t
  unfolding validate_running same_phase
  validate_running_sound i pending {s} {t} a p h e =
      let (j, v, e') = >>=-eq-ok _ (active_index path t) e in
      let (q, h') = active_index-eq-ok path t v in
      let i' : i ≡ j = (==_iff i j).0 (guard-eq-ok _ must_claim_first e') in
      rw (unwrap_some (sym q ∙ ap (get_elem? path) (sym i') ∙ p))
        (claim (Chain-Active k path i c p h))
  validate_running_sound i running {s} {t} a p h e =
      let (j, v, e') = >>=-eq-ok _ (active_index path t) e in
      let (q, h') = active_index-eq-ok path t v in validate_advance_sound i j p h q h' e'
  validate_running_sound i succeeded a p h e = cc
  validate_running_sound i failed a p h e = cc
  validate_running_sound i (other_phase x) a p h e = cc

  validate_target_sound :
      (i : ℕ) (from_phase : OperationPhase) (s : OperationStep) (to_phase : OperationPhase)
      (t : OperationStep)
      → same_phase from_phase pending || same_phase from_phase running ≡ true
      → get_elem? path i ≡ some s
      → suc i < length path
      → validate_target path i from_phase s to_phase t ≡ ok tt
      → Edge k from_phase s to_phase t
  unfolding validate_target same_phase
  validate_target_sound i from_phase s running t a p h e =
      validate_running_sound i from_phase a p h e
  validate_target_sound i running s succeeded t a p h e =
      let (x, y) = &&-eq-true _ _ (guard-eq-ok _ cannot_succeed e) in
      rw (same_step-eq t complete x) (finish (Chain-Last k path i c p ((==_iff _ _).0 y)))
  validate_target_sound i pending s failed t a p h e =
      rw (same_step-eq t complete (guard-eq-ok _ failed_needs_complete e))
        (fail_pending (Chain-Active k path i c p h))
  validate_target_sound i running s failed t a p h e =
      rw (same_step-eq t complete (guard-eq-ok _ failed_needs_complete e))
        (fail_running (Chain-Active k path i c p h))
  validate_target_sound i _ s _ t a p h e = cc

-- A transition that the validator accepts is an edge of the diagram: no step is skipped, none is
-- repeated, only the last step of a kind can succeed, and a finished operation does not move.
pub validate_transition-Edge :
    (k : OperationKind) (p q : OperationPhase) (s t : OperationStep)
    → validate_transition k p s q t ≡ ok tt
    → Edge k p s q t
unfolding validate_transition
validate_transition-Edge k p q s t e =
    let (path, f, e₁) = >>=-eq-ok _ (or_fail (operation_path k) (unknown_kind k)) e in
    let (u, g, e₂) = >>=-eq-ok _ (guard (same_phase p pending || same_phase p running) _) e₁ in
    let (i, v, e₃) = >>=-eq-ok _ (active_index path s) e₂ in
    let (here, more) = active_index-eq-ok path s v in
    validate_target_sound k path (operation_path-Chain k (or_fail-eq-ok _ _ f)) i p s q t
      (guard-eq-ok _ _ g) here more e₃
