-- ===== src/Examples/Policies.antt =====
-- The theorems about access policies at the policy of policy_test.go.
use ani_inference_service.Policy.Again.{normalize_idempotent}
use ani_inference_service.Policy.Normal.{IsNormalOf, normalize_iff}
use ani_inference_service.Policy.{Policy, normalize, empty_model_name}
use ani_inference_service.Prelude.{err, refl, [], ◌∷◌, ok, ◌↔◌, ◌≡◌, pos}

abbrev client : Policy
client = record {
  id = "policy";
  tenant_id = "tenant";
  name = " client ";
  allowed_model_names = " model-b " ∷ "model-a" ∷ "model-b" ∷ [];
  requests_per_second = pos 5;
  requests_per_minute = pos 0;
  requests_per_hour = pos 0;
  version = 1;
}

abbrev normal_client : Policy
normal_client = record client { name = "client"; allowed_model_names = "model-a" ∷ "model-b" ∷ [] }

client-normal : normalize client ≡ ok normal_client
unfolding normalize
client-normal = refl

blank_model : normalize (record client { allowed_model_names = " " ∷ [] }) ≡ err empty_model_name
unfolding normalize
blank_model = refl

normalize_iff_example : (normalize client ≡ ok normal_client) ↔ IsNormalOf client normal_client
normalize_iff_example = normalize_iff client normal_client

normalize_idempotent_example : normalize normal_client ≡ ok normal_client
normalize_idempotent_example = normalize_idempotent client normal_client client-normal
