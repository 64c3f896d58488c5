-- ===== src/Gpu/Release.antt =====
-- `ValidateReleaseProofInput` (internal/biz/gpu/release.go). Which of several blank fields an error
-- names depends on the order of a Go map; here a blank field is one error. Parsing times is a
-- parameter.
use ani_inference_service.Prelude.{
  ◌>>◌, false, [], All-zip, ◌||◌, Result, ◌&&◌, List, guard-eq-ok, String, All, >>=-eq-ok, ◌↔◌, ◌∷◌,
  str_eq, is_blank, ◌≡◌, not, guard, ok, All-map, Bool, true, refl, ||-eq-false,
}
use ani_inference_service.Runner.State.{PodRef}

pub record ReleaseProofInput : Type 0 where
  pub tenant_id : String
  pub resource_id : String
  pub create_operation_id : String
  pub delete_operation_id : String
  pub sealed_at : String
  pub pods : List PodRef

pub data ReleaseError : Type 0 where
  field_required pod_field_required sealed_at_invalid marshal_failed : ReleaseError
  duplicate_pod : String → ReleaseError

abbrev pub is_filled_pod : PodRef → Bool
is_filled_pod p =
    not (is_blank p.cluster_id)
    && not (is_blank p.namespace)
    && not (is_blank p.name)
    && not (is_blank p.uid)
    && not (is_blank p.container_name)

abbrev pub is_filled_input : ReleaseProofInput → Bool
is_filled_input i =
    not (is_blank i.tenant_id)
    && not (is_blank i.resource_id)
    && not (is_blank i.create_operation_id)
    && not (is_blank i.delete_operation_id)
    && not (is_blank i.sealed_at)

-- The map of the UIDs seen.
abbrev pub is_seen : String → List String → Bool
is_seen uid [] = false
is_seen uid (u ∷ us) = str_eq uid u || is_seen uid us

unfoldable pub check_pods : List String → List PodRef → Result ReleaseError Unit
check_pods seen [] = ok tt
check_pods seen (p ∷ ps) = do
  guard (is_filled_pod p) pod_field_required
  guard (not (is_seen p.uid seen)) (duplicate_pod p.uid)
  check_pods (p.uid ∷ seen) ps

unfoldable pub validate_release_proof_input :
    (String → Bool) → ReleaseProofInput → Result ReleaseError Unit
unfolding check_pods
validate_release_proof_input is_rfc3339 i = do
  guard (is_filled_input i) field_required
  guard (is_rfc3339 i.sealed_at) sealed_at_invalid
  check_pods [] i.pods

-- No two Pods share a UID.
abbrev pub Distinct : List PodRef → Type 0
Distinct [] = Unit
Distinct (p ∷ ps) = All (λ q. str_eq q.uid p.uid ≡ false) ps × Distinct ps

-- Every Pod is complete, and its UID is new.
abbrev Accepted : List String → List PodRef → Type 0
Accepted seen ps =
    All (λ p. (is_filled_pod p ≡ true) × (is_seen p.uid seen ≡ false)) ps × Distinct ps

check_pods-Accepted :
    (seen : List String) (ps : List PodRef) → check_pods seen ps ≡ ok tt → Accepted seen ps
unfolding check_pods
check_pods-Accepted seen [] e = (tt, tt)
check_pods-Accepted seen (p ∷ ps) e =
    let (u₁, a, e₁) = >>=-eq-ok _ (guard (is_filled_pod p) _) e in
    let (u₂, b, e₂) = >>=-eq-ok _ (guard (not (is_seen p.uid seen)) _) e₁ in
    let (rest, distinct) = check_pods-Accepted (p.uid ∷ seen) ps e₂ in
    let new = not_seen (is_seen p.uid seen) (guard-eq-ok (not (is_seen p.uid seen)) _ b) in
    (
      (
        (guard-eq-ok (is_filled_pod p) _ a, new),
        All-map ps (λ q h. (h.0, (||-eq-false (str_eq q.uid p.uid) _ h.1).1)) rest,
      ),
      (
        All-map ps (λ q h. (||-eq-false (str_eq q.uid p.uid) (is_seen q.uid seen) h.1).0) rest,
        distinct,
      ),
    )
  where
    not_seen : (b : Bool) → not b ≡ true → b ≡ false
    not_seen true h = cc
    not_seen false h = refl

Accepted-check_pods :
    (seen : List String) (ps : List PodRef) → Accepted seen ps → check_pods seen ps ≡ ok tt
unfolding check_pods
Accepted-check_pods seen [] h = refl
Accepted-check_pods seen (p ∷ ps) (((filled, new), rest), (others, distinct)) =
    rw (filled, new)
      (Accepted-check_pods (p.uid ∷ seen) ps
        (All-map ps (λ q h. (h.0.0, rw (h.1, h.0.1) refl)) (All-zip _ _ ps rest others), distinct))

pub validate_release_proof_input_iff :
    (is_rfc3339 : String → Bool) (i : ReleaseProofInput)
    → (validate_release_proof_input is_rfc3339 i ≡ ok tt) ↔ (
        (is_filled_input i ≡ true)
        × (is_rfc3339 i.sealed_at ≡ true)
        × All (λ p. is_filled_pod p ≡ true) i.pods
        × Distinct i.pods)
unfolding validate_release_proof_input
validate_release_proof_input_iff is_rfc3339 i = (
  λ e.
      let (u₁, a, e₁) = >>=-eq-ok _ (guard (is_filled_input i) _) e in
      let (u₂, b, e₂) = >>=-eq-ok _ (guard (is_rfc3339 i.sealed_at) _) e₁ in
      let (rest, distinct) = check_pods-Accepted [] i.pods e₂ in
      (
        guard-eq-ok (is_filled_input i) _ a,
        guard-eq-ok (is_rfc3339 i.sealed_at) _ b,
        All-map i.pods (λ p h. h.0) rest,
        distinct,
      ),
  λ h.
      let (a, b, filled, distinct) = h in
      rw (a, b)
        (Accepted-check_pods [] i.pods (All-map i.pods (λ p f. (f, refl)) filled, distinct)),
)
