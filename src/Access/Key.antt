-- ===== src/Access/Key.antt =====
-- The records, errors and ports of internal/biz/accesskey. A time is a number of nanoseconds and a
-- pointer to one an Option; secrets, hashes and ciphertexts are bytes.
use ani_inference_service.Effect.{Effect}
use ani_inference_service.Access.Bytes.{Bytes}
use ani_inference_service.Prelude.{
  ℤ, Bool, ℕ, String, Option, [], false, none, true, pos, List, err, ok, Result,
}

-- The errors of the package, and an error of a port by its text.
pub data KeyError : Type 0 where
  external : String → KeyError
  annotated : KeyError → String → KeyError
  not_found invalid_input already_revoked expired invalid_secret scope_denied : KeyError
  rate_limited idempotency_replay secret_unavailable : KeyError
  repository_missing policy_missing : KeyError

-- `errors.Is(err, ErrNotFound)`.
unfoldable pub is_not_found : KeyError → Bool
is_not_found not_found = true
is_not_found (annotated e text) = is_not_found e
is_not_found _ = false

pub record Record : Type 0 where
  pub tenant_id : String
  pub id : String
  pub name : String
  pub key_prefix : Bytes
  pub secret_hash : Bytes
  pub hash_version : Bytes
  pub policy_id : String
  pub secret_ciphertext : Bytes
  pub secret : Bytes
  pub allowed_service_ids : List String
  pub allowed_model_names : List String
  pub requests_per_second : ℤ
  pub requests_per_minute : ℤ
  pub requests_per_hour : ℤ
  pub expires_at : Option ℕ
  pub revoked_at : Option ℕ
  pub created_by : String
  pub created_at : ℕ
  pub last_used_at : Option ℕ
  pub version : ℤ
  pub create_idempotency_key : String
  pub rotation_idempotency : String

-- `Record{}`; the zero time is 0.
abbrev pub zero_record : Record
zero_record = record {
  tenant_id = "";
  id = "";
  name = "";
  key_prefix = [];
  secret_hash = [];
  hash_version = [];
  policy_id = "";
  secret_ciphertext = [];
  secret = [];
  allowed_service_ids = [];
  allowed_model_names = [];
  requests_per_second = pos 0;
  requests_per_minute = pos 0;
  requests_per_hour = pos 0;
  expires_at = none;
  revoked_at = none;
  created_by = "";
  created_at = 0;
  last_used_at = none;
  version = pos 0;
  create_idempotency_key = "";
  rotation_idempotency = "";
}

pub record CreateInput : Type 0 where
  pub tenant_id : String
  pub request_id : String
  pub name : String
  pub policy_id : String
  pub allowed_service_ids : List String
  pub allowed_model_names : List String
  pub requests_per_second : ℤ
  pub requests_per_minute : ℤ
  pub requests_per_hour : ℤ
  pub expires_at : Option ℕ
  pub created_by : String
  pub idempotency_key : String

pub record ListOptions : Type 0 where
  pub limit : ℤ
  pub offset : ℤ
  pub served_model_name : String

pub record CreatePersistInput : Type 0 where
  pub key : Record
  pub request_id : String

pub record PersistResult : Type 0 where
  pub key : Record
  pub replayed : Bool

pub record RotatePersistInput : Type 0 where
  pub key_prefix : Bytes
  pub secret_hash : Bytes
  pub hash_version : Bytes
  pub secret_ciphertext : Bytes
  pub idempotency : String
  pub actor : String
  pub request_id : String

-- `CreateResult` and `RotateResult`, which have the same fields.
pub record IssueResult : Type 0 where
  pub key : Record
  pub secret : Bytes
  pub replayed : Bool

pub record CheckResult : Type 0 where
  pub key : Record
  pub allowed : Bool
  pub denial_code : String
  pub retry_after : ℕ
  pub policy_version : ℤ

-- `Repository`, over the state `S` of everything outside. `Consume` is not called here.
pub record Repository (S : Type 0) : Type 0 where
  pub create : CreatePersistInput → Effect S KeyError PersistResult
  pub list : String → ListOptions → Effect S KeyError (List Record × ℤ)
  pub get : String → String → Effect S KeyError Record
  pub get_by_prefix : Bytes → Effect S KeyError Record
  pub archive_secret : Record → Bytes → Effect S KeyError Unit
  pub revoke : String → String → String → String → Effect S KeyError Record
  pub rotate : String → String → RotatePersistInput → Effect S KeyError PersistResult

-- `AccessPolicy`.
pub record AccessPolicy (S : Type 0) : Type 0 where
  pub resolve : String → Effect S KeyError String
  pub consume_access : Record → String → String → ℕ → ℤ → Effect S KeyError CheckResult

-- `cipher.AEAD`: its sizes, Seal without the destination, and Open (unseal).
pub record Aead : Type 0 where
  pub nonce_size : ℕ
  pub overhead : ℕ
  pub seal : Bytes → Bytes → Bytes → Bytes
  pub unseal : Bytes → Bytes → Bytes → Option Bytes

-- The cost parameters of `argon2.IDKey` behind the password and the salt: time, memory, threads,
-- length of the key.
pub record Argon : Type 0 where
  pub time : ℕ
  pub memory : ℕ
  pub threads : ℕ
  pub key_len : ℕ

-- What the package takes from others: random bytes, argon2, UUIDs (`Parse` answers the canonical
-- spelling) and the clock.
pub record Platform (S : Type 0) : Type 0 where
  pub random : ℕ → Effect S KeyError Bytes
  pub argon2 : Bytes → Bytes → Argon → Bytes
  pub parse_uuid : String → Option String
  pub new_uuid : Effect S KeyError String
  pub now : S → ℕ

-- `fmt.Errorf("text: %w", err)` where there is an error.
abbrev pub explained : {A : Type 0} → String → Result KeyError A → Result KeyError A
explained text (ok a) = ok a
explained text (err e) = err (annotated e text)

abbrev pub explain : {S A : Type 0} → String → Effect S KeyError A → Effect S KeyError A
explain text m s = let (r, s') = m s in (explained text r, s')
