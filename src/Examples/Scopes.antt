-- ===== src/Examples/Scopes.antt =====
-- The Pods of one delete operation, saved twice.
use ani_inference_service.Operation.SavedPods.{
  load_release_pods-Saved, Saved, save_release_pods-Saved,
}
use ani_inference_service.Runner.State.{PodRef}
use ani_inference_service.Operation.ReleaseScope.{
  ScopeRow, validate_release_pods, save_release_pods, load_release_pods, sealed_object,
  decode_scope, same_pod,
}
use ani_inference_service.Operation.MergedPods.{Has}
use ani_inference_service.Prelude.{
  unwrap_some, Bool, ◌≡◌, String, ap, Option, str_eq, [], ◌∷◌, some, List, sym, ok, refl, any_row,
  find_row, is_blank,
}

abbrev pod : String → PodRef
pod uid = record {
  cluster_id = "c1";
  namespace = "n1";
  name = "p";
  uid = uid;
  container_name = "main";
}

abbrev parse : String → Option String
parse s = some s

abbrev is_time : String → Bool
is_time s = str_eq s "2026-01-01T00:00:00Z"

abbrev scope_row : List PodRef → ScopeRow
scope_row pods = record {
  tenant_id = "t1";
  service_id = "s1";
  operation_id = "o1";
  pods = sealed_object "" (some pods);
}

abbrev first_rows : List ScopeRow
first_rows = scope_row (pod "u1" ∷ []) ∷ []

abbrev second_rows : List ScopeRow
second_rows = scope_row (pod "u1" ∷ pod "u2" ∷ []) ∷ []

save_release_pods-Saved_example :
    Saved parse is_time "t1" "s1" "o1" (pod "u2" ∷ pod "u1" ∷ []) first_rows second_rows
unfolding save_release_pods
save_release_pods-Saved_example =
    save_release_pods-Saved parse is_time "t1" "s1" "o1" "" (pod "u2" ∷ pod "u1" ∷ []) first_rows
      second_rows refl

abbrev saved_scope : Saved parse is_time "t1" "s1" "o1" (pod "u2" ∷ []) first_rows second_rows
unfolding Has decode_scope find_row any_row same_pod
saved_scope = record {
  tenant = "t1";
  service = "s1";
  operation = "o1";
  tenant_parsed = refl;
  service_parsed = refl;
  operation_parsed = refl;
  seal = "";
  scope = pod "u1" ∷ pod "u2" ∷ [];
  stored = refl;
  covers = (refl, tt);
  extends = λ before h. (
    ("", pod "u1" ∷ []),
    ap (decode_scope is_time) (sym (unwrap_some h)),
    record { rest = pod "u2" ∷ []; split_at = refl },
  );
}

load_release_pods-Saved_example :
    load_release_pods parse is_time "t1" "s1" "o1" second_rows ≡ ok (pod "u1" ∷ pod "u2" ∷ [])
unfolding saved_scope validate_release_pods is_blank
load_release_pods-Saved_example =
    load_release_pods-Saved parse is_time "t1" "s1" "o1" (pod "u2" ∷ []) first_rows second_rows
      saved_scope refl refl
