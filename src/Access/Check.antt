-- ===== src/Access/Check.antt =====
-- `Check` of `Service` (internal/biz/accesskey/access_key.go).
use ani_inference_service.Access.Issue.{seal_secret}
use ani_inference_service.Access.Bytes.{utf8, Bytes, has_prefix}
use ani_inference_service.Access.Secret.{verify_secret, key_prefix, secret_prefix}
use ani_inference_service.Access.Service.{KeyService, is_empty, is_after}
use ani_inference_service.Access.Key.{
  Record, CheckResult, zero_record, Repository, is_not_found, AccessPolicy, KeyError,
  repository_missing, policy_missing,
}
use ani_inference_service.Effect.{◌>>◌, ◌>>=◌, Effect, return, need, fail, gets, attempt}
use ani_inference_service.Prelude.{
  if◌then◌else◌, none, ℕ, Option, pos, ◌&&◌, String, false, some, trim_space, Bool, true, Result,
  ok, ◌||◌, not, str_eq, ltb_ℤ, ℤ, err,
}

-- A refusal without a record.
abbrev pub unknown_key : CheckResult
unknown_key = record {
  key = zero_record;
  allowed = false;
  denial_code = "invalid_key";
  retry_after = 0;
  policy_version = pos 0;
}

-- A refusal of a known key.
abbrev pub denied : Record → String → CheckResult
denied r code = record {
  key = r;
  allowed = false;
  denial_code = code;
  retry_after = 0;
  policy_version = r.version;
}

-- The published service is the one that is asked for, if one is.
unfoldable pub is_in_scope : String → String → Bool
unfolding trim_space
is_in_scope service_id resolved =
    not (str_eq resolved "")
    && (str_eq (trim_space service_id) "" || str_eq (trim_space service_id) resolved)

-- `if cost < 1 { cost = 1 }`.
abbrev pub at_least_one : ℤ → ℤ
at_least_one cost = if ltb_ℤ cost (pos 1) then pos 1 else cost

abbrev pub is_revoked : Option ℕ → Bool
is_revoked none = false
is_revoked (some t) = true

module _ {S : Type 0} (service : KeyService S) where
  -- Only an admitted key without a ciphertext is archived.
  unfoldable pub archive :
      Repository S → Bytes → Record → CheckResult → Effect S KeyError CheckResult
  unfolding seal_secret
  archive r api_key key result = do
    ciphertext ← seal_secret service.platform service.cipher key api_key
    r.archive_secret key ciphertext
    return result

  unfoldable pub after_consume :
      Repository S → Bytes → Record → CheckResult → Effect S KeyError CheckResult
  unfolding archive
  after_consume r api_key key result =
      if result.allowed && is_empty key.secret_ciphertext
      then archive r api_key key result
      else return result

  unfoldable pub consume :
      Repository S
      → AccessPolicy S
      → Bytes
      → Record
      → String
      → String
      → ℕ
      → ℤ
      → Effect S KeyError CheckResult
  unfolding after_consume
  consume r policy api_key key resolved model now cost = do
    result ← policy.consume_access key resolved model now (at_least_one cost)
    after_consume r api_key key result

  unfoldable pub check_scope :
      Repository S → Bytes → Record → String → String → ℕ → ℤ → Effect S KeyError CheckResult
  unfolding consume is_in_scope trim_space
  check_scope r api_key key service_id model now cost = do
    policy ← need service.policy policy_missing
    resolved ← policy.resolve (trim_space model)
    if is_in_scope service_id resolved
        then consume r policy api_key key resolved (trim_space model) now cost
        else return (denied key "scope_denied")

  -- The checks of the record at a time.
  unfoldable pub check_times :
      Repository S → Bytes → Record → String → String → ℤ → ℕ → Effect S KeyError CheckResult
  unfolding check_scope
  check_times r api_key key service_id model cost now =
      if is_revoked key.revoked_at
      then return (denied key "revoked")
      else if is_after key.expires_at now
      then check_scope r api_key key service_id model now cost
      else return (denied key "expired")

  unfoldable pub check_record :
      Repository S
      → Bytes
      → Result KeyError Record
      → String
      → String
      → ℤ
      → Effect S KeyError CheckResult
  unfolding check_times verify_secret is_not_found
  check_record r api_key (err e) service_id model cost =
      if is_not_found e then return unknown_key else fail e
  check_record r api_key (ok key) service_id model cost =
      if verify_secret service.platform.argon2 api_key key.secret_hash
      then gets service.platform.now >>= check_times r api_key key service_id model cost
      else return unknown_key

  unfoldable pub look_up_key :
      Repository S → Bytes → String → String → ℤ → Effect S KeyError CheckResult
  unfolding check_record key_prefix
  look_up_key r api_key service_id model cost = do
    found ← attempt (r.get_by_prefix (key_prefix api_key))
    check_record r api_key found service_id model cost

  unfoldable pub check_key :
      Repository S → Bytes → String → String → ℤ → Effect S KeyError CheckResult
  unfolding look_up_key has_prefix
  check_key r api_key service_id model cost =
      if not (is_empty api_key) && has_prefix api_key secret_prefix
      then look_up_key r api_key service_id model cost
      else return unknown_key

  -- `Check`.
  unfoldable pub check : String → String → String → ℤ → Effect S KeyError CheckResult
  unfolding check_key utf8 trim_space
  check api_key service_id model cost = do
    r ← need service.repository repository_missing
    check_key r (utf8 (trim_space api_key)) service_id model cost
