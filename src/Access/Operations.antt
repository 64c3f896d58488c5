-- ===== src/Access/Operations.antt =====
-- `Create`, `List`, `Get`, `Revoke` and `Rotate` of `Service`
-- (internal/biz/accesskey/access_key.go).
use ani_inference_service.Access.Bytes.{Bytes}
use ani_inference_service.Access.Secret.{key_prefix, hash_version}
use ani_inference_service.Access.Key.{
  ListOptions, KeyError, Repository, CreateInput, Record, IssueResult, repository_missing,
  annotated, invalid_input, RotatePersistInput, CreatePersistInput,
}
use ani_inference_service.Access.Issue.{new_secret, hash_secret, seal_secret}
use ani_inference_service.Access.Service.{
  KeyService, tidy, has_only_policy, is_page, reveal, paged, reveal_all, new_record, rotated_record,
  created, rotated,
}
use ani_inference_service.Effect.{◌>>◌, ◌>>=◌, Effect, need, require, lift, gets, return}
use ani_inference_service.Prelude.{
  not, contains_code, List, trim_space, ◌||◌, str_eq, ℤ, String, codes,
}

module _ {S : Type 0} (service : KeyService S) where
  abbrev repository : Effect S KeyError (Repository S)
  repository = need service.repository repository_missing

  -- What is stored with a ciphertext.
  unfoldable pub new_input : CreateInput → String → Bytes → Bytes → Bytes → CreatePersistInput
  unfolding new_record trim_space
  new_input i id secret hash ciphertext = record {
    key = record (new_record i id secret hash) { secret_ciphertext = ciphertext };
    request_id = trim_space i.request_id;
  }

  unfoldable pub persist_as :
      Repository S → CreateInput → Bytes → Bytes → String → Effect S KeyError IssueResult
  unfolding seal_secret new_record new_input created
  persist_as r i secret hash id = do
    ciphertext ← seal_secret service.platform service.cipher (new_record i id secret hash) secret
    persisted ← r.create (new_input i id secret hash ciphertext)
    lift (created i secret persisted)

  unfoldable pub persist_new : Repository S → CreateInput → Effect S KeyError IssueResult
  unfolding new_secret hash_secret persist_as
  persist_new r i = do
    secret ← new_secret service.platform
    hash ← hash_secret service.platform secret
    id ← service.platform.new_uuid
    persist_as r i secret hash id

  unfoldable pub create_tidy : Repository S → CreateInput → Effect S KeyError IssueResult
  unfolding persist_new has_only_policy trim_space
  create_tidy r i = do
    require (not (str_eq i.tenant_id "" || str_eq i.name "" || str_eq i.created_by ""))
        (annotated invalid_input "tenant, name and actor are required")
    now ← gets service.platform.now
    require (has_only_policy i (service.platform.parse_uuid (trim_space i.policy_id)) now)
        (annotated invalid_input "a policy ID is required; scope and limits belong to the policy")
    persist_new r i

  -- `Create`.
  unfoldable pub create : CreateInput → Effect S KeyError IssueResult
  unfolding create_tidy tidy
  create i = do r ← repository; create_tidy r (tidy i)

  unfoldable pub list_page :
      Repository S → String → ListOptions → Effect S KeyError (List Record × ℤ)
  unfolding is_page reveal_all trim_space contains_code
  list_page r tenant o = do
    require (is_page o) (annotated invalid_input "invalid access-key page")
    require (not (contains_code 0 (codes o.served_model_name)))
        (annotated invalid_input "invalid model name")
    found ← r.list (trim_space tenant) o
    items ← lift (reveal_all service.cipher found.0)
    return (items, found.1)

  -- `List`.
  unfoldable pub list_keys : String → ListOptions → Effect S KeyError (List Record × ℤ)
  unfolding list_page paged
  list_keys tenant o = do r ← repository; list_page r tenant (paged o)

  -- `Get`.
  unfoldable pub get_key : String → String → Effect S KeyError Record
  unfolding reveal trim_space
  get_key tenant id = do
    r ← repository
    found ← r.get (trim_space tenant) (trim_space id)
    lift (reveal service.cipher found)

  -- `Revoke`.
  unfoldable pub revoke_key : String → String → String → String → Effect S KeyError Record
  unfolding trim_space
  revoke_key tenant id actor request = do
    r ← repository
    r.revoke (trim_space tenant) (trim_space id) (trim_space actor) (trim_space request)

  -- What is stored for a rotation.
  unfoldable pub new_rotation :
      Bytes → Bytes → Bytes → String → String → String → RotatePersistInput
  unfolding key_prefix trim_space
  new_rotation secret hash ciphertext idempotency actor request = record {
    key_prefix = key_prefix secret;
    secret_hash = hash;
    hash_version = hash_version;
    secret_ciphertext = ciphertext;
    idempotency = trim_space idempotency;
    actor = trim_space actor;
    request_id = trim_space request;
  }

  unfoldable pub rotate_as :
      Repository S
      → String
      → String
      → String
      → String
      → String
      → Bytes
      → Bytes
      → Effect S KeyError IssueResult
  unfolding seal_secret rotated_record new_rotation trim_space
  rotate_as r tenant id idempotency actor request secret hash = do
    ciphertext ←
        seal_secret service.platform service.cipher (rotated_record tenant id secret hash) secret
    result ←
        r.rotate (trim_space tenant) (trim_space id)
          (new_rotation secret hash ciphertext idempotency actor request)
    return (rotated secret result)

  -- `Rotate`.
  unfoldable pub rotate_key :
      String → String → String → String → String → Effect S KeyError IssueResult
  unfolding new_secret hash_secret rotate_as
  rotate_key tenant id idempotency actor request = do
    r ← repository
    secret ← new_secret service.platform
    hash ← hash_secret service.platform secret
    rotate_as r tenant id idempotency actor request secret hash
