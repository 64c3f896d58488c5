-- ===== src/Policy/Normal.antt =====
-- What `Normalize` accepts and what it returns.
use ani_inference_service.Names.{contains, add_name, sort}
use ani_inference_service.Names.Sorted.{
  IsDistinct, IsSorted, sorted-eq, sort-IsSorted, contains-sort, contains-add,
}
use ani_inference_service.Policy.{
  collect, Policy, has_negative_limit, with_names, normalize, PolicyError, add_name, contains, sort,
}
use ani_inference_service.Prelude.{
  ap, arith, [], Bool, refl, sym, ok-injective, str_eq, String, false, ok, ◌∷◌, subst,
  if◌then◌else◌, List, true, trim_space, ◌||◌, ◌≡◌, >>=-eq-ok, not, ◌∙◌, guard-then-eq-ok,
  not-eq-true, ◌↔◌, Result,
}

unfoldable pub trimmed : List String → List String
trimmed [] = []
trimmed (x ∷ xs) = trim_space x ∷ trimmed xs

-- A normal form of a policy, described without sorting.
pub record IsNormalOf (p q : Policy) : Type 0 where
  pub name_given : str_eq (trim_space p.name) "" ≡ false
  pub limits_allowed : has_negative_limit p ≡ false
  pub models_named : contains "" (trimmed p.allowed_model_names) ≡ false
  pub models_sorted : IsSorted q.allowed_model_names
  pub same_models :
      (m : String) → contains m q.allowed_model_names ≡ contains m (trimmed p.allowed_model_names)
  pub others_stay : q ≡ with_names p q.allowed_model_names

-- The keys of the map, once the names are collected.
Collected : List String → List String → List String → Type 0
Collected names xs r =
    IsDistinct r
    × (contains "" (trimmed xs) ≡ false)
    × ((m : String) → contains m r ≡ (contains m (trimmed xs) || contains m names))

add-IsDistinct :
    (x : String) (names : List String) → IsDistinct names → IsDistinct (add_name x names)
unfolding add_name IsDistinct
add-IsDistinct x names distinct = by_test (contains x names) refl
  where
    by_test : (b : Bool) → contains x names ≡ b → IsDistinct (if b then names else x ∷ names)
    by_test true e = distinct
    by_test false e = (e, distinct)

collect-Collected :
    (names xs r : List String) → IsDistinct names → collect names xs ≡ ok r → Collected names xs r
unfolding collect trimmed contains Collected
collect-Collected names [] r distinct h =
    (subst IsDistinct (ok-injective h) distinct, refl, λ m. ap (contains m) (sym (ok-injective h)))
collect-Collected names (x ∷ xs) r distinct h =
    let named : str_eq (trim_space x) "" ≡ false = ground (arith, h) in
    let (single, rest, same) =
      collect-Collected (add_name (trim_space x) names) xs r
        (add-IsDistinct (trim_space x) names distinct) (ground (arith, h, named)) in
    (
      single,
      ground (arith, named, rest),
      λ m. ground (arith, same m, contains-add m (trim_space x) names),
    )

collect-ok :
    (names xs : List String)
    → contains "" (trimmed xs) ≡ false
    → (r : List String) × (collect names xs ≡ ok r)
unfolding collect trimmed contains
collect-ok names [] named = (names, refl)
collect-ok names (x ∷ xs) named =
    let (r, e) = collect-ok (add_name (trim_space x) names) xs (ground (arith, named)) in
    (r, ground (arith, named, e))

with_names-IsNormalOf :
    (p : Policy) (names : List String)
    → str_eq (trim_space p.name) "" ≡ false
    → has_negative_limit p ≡ false
    → Collected [] p.allowed_model_names names
    → IsNormalOf p (with_names p (sort names))
unfolding Collected contains
with_names-IsNormalOf p names named allowed (single, models, same) = record {
  name_given = named;
  limits_allowed = allowed;
  models_named = models;
  models_sorted = sort-IsSorted names single;
  same_models = λ m. contains-sort m names ∙ ground (arith, same m);
  others_stay = refl;
}

normalize-IsNormalOf : (p q : Policy) → normalize p ≡ ok q → IsNormalOf p q
unfolding normalize IsDistinct
normalize-IsNormalOf p q h =
    let last : List String → Result PolicyError Policy = λ names. ok (with_names p (sort names)) in
    let (named, h1) = guard-then-eq-ok (not (str_eq (trim_space p.name) "")) _ _ h in
    let (allowed, h2) = guard-then-eq-ok (not (has_negative_limit p)) _ _ h1 in
    let (names, collected, h3) = >>=-eq-ok last (collect [] p.allowed_model_names) h2 in
    subst (IsNormalOf p) (ok-injective h3) (
      with_names-IsNormalOf p names (not-eq-true _ named) (not-eq-true _ allowed)
        (collect-Collected [] p.allowed_model_names names tt collected))

-- A policy has at most one normal form.
IsNormalOf-unique : (p q r : Policy) → IsNormalOf p q → IsNormalOf p r → q ≡ r
IsNormalOf-unique p q r a b =
    let same =
      sorted-eq q.allowed_model_names r.allowed_model_names a.models_sorted b.models_sorted
        (λ m. a.same_models m ∙ sym (b.same_models m)) in
    a.others_stay ∙ ap (with_names p) same ∙ sym b.others_stay

-- A policy that has a normal form is normalised.
normalize-ok : (p q : Policy) → IsNormalOf p q → (r : Policy) × (normalize p ≡ ok r)
unfolding normalize
normalize-ok p q a =
    let (names, e) = collect-ok [] p.allowed_model_names a.models_named in
    (with_names p (sort names), ground (arith, a.name_given, a.limits_allowed, e))

-- The code turns a policy into another exactly if its name is not blank, no limit is negative, no
-- listed model name is blank, and the other one has the trimmed name, the trimmed model names in
-- strictly increasing order, and all else as before.
pub normalize_iff : (p q : Policy) → (normalize p ≡ ok q) ↔ IsNormalOf p q
normalize_iff p q = (normalize-IsNormalOf p q, normalized)
  where
    normalized : IsNormalOf p q → normalize p ≡ ok q
    normalized a =
        let (r, e) = normalize-ok p q a in
        e ∙ ap ok (IsNormalOf-unique p r q (normalize-IsNormalOf p r e) a)
