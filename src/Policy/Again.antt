-- ===== src/Policy/Again.antt =====
-- Normalising a policy again.
use ani_inference_service.Names.{contains}
use ani_inference_service.Policy.Trim.{trim_space-trim_space}
use ani_inference_service.Names.Sorted.{contains-head}
use ani_inference_service.Policy.Normal.{trimmed, IsNormalOf, normalize_iff}
use ani_inference_service.Policy.{has_negative_limit, Policy, normalize}
use ani_inference_service.Prelude.{
  arith, List, ◌≡◌, sym, str_eq, ◌∙◌, [], trim_space, ap, ok, subst, eq_iff, Bool, String, ◌∷◌,
  true, refl, false,
}

trimmed-same :
    (xs : List String) → ((m : String) → contains m xs ≡ true → trim_space m ≡ m) → trimmed xs ≡ xs
unfolding trimmed contains
trimmed-same [] all = refl
trimmed-same (x ∷ xs) all =
    let rest = trimmed-same xs (λ m there. all m (ground (arith, there))) in
    cc (all x (contains-head x xs), rest)

contains-trimmed :
    (m : String) (xs : List String) → contains m (trimmed xs) ≡ true → trim_space m ≡ m
unfolding trimmed contains
contains-trimmed m [] there = cc
contains-trimmed m (x ∷ xs) there = by_test (contains-trimmed m xs) (str_eq (trim_space x) m) refl
  where
    by_test :
        (contains m (trimmed xs) ≡ true → trim_space m ≡ m)
        → (b : Bool) → str_eq (trim_space x) m ≡ b
        → trim_space m ≡ m
    by_test later true e =
        let same : trim_space x ≡ m = ground (arith, eq_iff (trim_space x) m, e) in
        subst (λ k. trim_space k ≡ k) same (trim_space-trim_space x)
    by_test later false e = later (ground (arith, there, e))

IsNormalOf-itself : (p q : Policy) → IsNormalOf p q → IsNormalOf q q
unfolding has_negative_limit
IsNormalOf-itself p q a =
    let names : trimmed q.allowed_model_names ≡ q.allowed_model_names =
      trimmed-same q.allowed_model_names
        (λ m there. contains-trimmed m p.allowed_model_names (sym (a.same_models m) ∙ there)) in
    let name : q.name ≡ trim_space p.name = ap (λ r. r.name) a.others_stay in
    let again : trim_space q.name ≡ q.name =
      ap trim_space name ∙ trim_space-trim_space p.name ∙ sym name in
    record {
      name_given = cc (again, name, a.name_given);
      limits_allowed = ap has_negative_limit a.others_stay ∙ a.limits_allowed;
      models_named = cc (names, a.same_models "", a.models_named);
      models_sorted = a.models_sorted;
      same_models = λ m. ap (contains m) (sym names);
      others_stay = ap (λ n. record q { name = n }) (sym again);
    }

-- A policy that `Normalize` returned is returned unchanged by it.
pub normalize_idempotent : (p q : Policy) → normalize p ≡ ok q → normalize q ≡ ok q
normalize_idempotent p q h = (normalize_iff q q).1 (IsNormalOf-itself p q ((normalize_iff p q).0 h))
