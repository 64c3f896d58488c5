-- ===== src/Access/Acceptance.antt =====
-- A stored key is accepted by `Check` (internal/biz/accesskey/access_key.go).
use ani_inference_service.Access.Issued.{IsStoredWith}
use ani_inference_service.Effect.{continue, need, return}
use ani_inference_service.Access.Base64.{decode, raw_url}
use ani_inference_service.Access.Key.{
  Aead, AccessPolicy, Record, CheckResult, secret_unavailable, Repository, repository_missing,
}
use ani_inference_service.Access.Check.{
  check_scope, consume, check, after_consume, check_key, is_in_scope, at_least_one, look_up_key,
  check_record, check_times, is_revoked, unknown_key,
}
use ani_inference_service.Access.Service.{KeyService, is_empty, is_after}
use ani_inference_service.Access.Bytes.{has_prefix, Bytes, drop, bytes_eq, utf8}
use ani_inference_service.Prelude.{
  ok-injective, ◌&&◌, Bool, false, ◌∷◌, ℕ, trim_space, refl, subst, ◌≡◌, and3-eq-true, Option,
  >>=-eq-ok, some, String, ok, guard-eq-ok, [], ℤ, none, true, or_fail, guard, length, ◌==◌, ap,
  ◌∙◌, not, if◌then◌else◌,
}
use ani_inference_service.Access.Secret.{
  key_prefix, open_secret, is_secret_of, ciphertext_prefix, secret_prefix, open_prefixed,
  open_decoded, checked_secret, open_sealed,
}

-- What opening a ciphertext says of it and of the secret.
opened_prefixes :
    (cipher : Option Aead) (r : Record) (secret : Bytes)
    → open_secret cipher r ≡ ok secret
    → (has_prefix r.secret_ciphertext ciphertext_prefix ≡ true) × (is_secret_of r secret ≡ true)
unfolding open_secret open_prefixed open_decoded checked_secret
opened_prefixes none r secret done = cc
opened_prefixes (some aead) r secret done =
    let prefixed = guard (has_prefix r.secret_ciphertext ciphertext_prefix) secret_unavailable in
    let (u, first, done1) = >>=-eq-ok (λ u. open_prefixed aead r) prefixed done in
    let decoded = or_fail (decode raw_url (drop 3 r.secret_ciphertext)) secret_unavailable in
    let (sealed, found, done2) = >>=-eq-ok (open_decoded aead r) decoded done1 in
    let (plain, opened, done3) = >>=-eq-ok (checked_secret r) (open_sealed aead r sealed) done2 in
    let shaped = guard (is_secret_of r plain) secret_unavailable in
    let (v, last, done4) = >>=-eq-ok (λ u. ok plain) shaped done3 in
    (
      guard-eq-ok _ secret_unavailable first,
      subst (λ x. is_secret_of r x ≡ true) (ok-injective done4)
          (guard-eq-ok _ secret_unavailable last),
    )

secret_prefixed :
    (r : Record) (secret : Bytes)
    → is_secret_of r secret ≡ true
    → has_prefix secret secret_prefix ≡ true
unfolding is_secret_of
secret_prefixed r secret shape =
    (and3-eq-true (length secret == 47) (bytes_eq (key_prefix secret) r.key_prefix) _ shape).2

is_empty-prefixed : (b : ℕ) (bs ps : Bytes) → has_prefix bs (b ∷ ps) ≡ true → is_empty bs ≡ false
unfolding has_prefix
is_empty-prefixed b [] ps h = cc
is_empty-prefixed b (x ∷ xs) ps h = refl

is_key-prefixed :
    (secret : Bytes)
    → has_prefix secret secret_prefix ≡ true
    → (not (is_empty secret) && has_prefix secret secret_prefix) ≡ true
unfolding has_prefix
is_key-prefixed [] prefixed = cc
is_key-prefixed (b ∷ bs) prefixed = prefixed

&&-false : (b : Bool) → (b && false) ≡ false
&&-false true = refl
&&-false false = refl

module _ {S : Type 0} (service : KeyService S) where
  -- A policy that answers for a key.
  pub record Answers (policy : AccessPolicy S) (key : Record) (service_id model : String) (cost : ℤ)
      (result : CheckResult) (before after : S) : Type 0 where
    pub configured : service.policy ≡ some policy
    pub resolved : String
    pub between : S
    pub resolves : policy.resolve (trim_space model) before ≡ (ok resolved, between)
    pub in_scope : is_in_scope service_id resolved ≡ true
    pub consumes :
        policy.consume_access key resolved
          (trim_space model)
          (service.platform.now before)
          (at_least_one cost)
          between
        ≡ (ok result, after)

  check_scope-accepts :
      (r : Repository S) (policy : AccessPolicy S) (secret : Bytes) (key : Record)
      (service_id model : String) (cost : ℤ) (result : CheckResult) (before after : S)
      → is_empty key.secret_ciphertext ≡ false
      → Answers policy key service_id model cost result before after
      → check_scope service r secret key service_id model (service.platform.now before) cost before
        ≡ (ok result, after)
  unfolding check_scope consume after_consume continue
  check_scope-accepts r policy secret key service_id model cost result before after kept answers =
      rw (
        answers.configured,
        answers.resolves,
        answers.in_scope,
        answers.consumes,
        kept,
        &&-false result.allowed,
      )

  check_record-accepts :
      (r : Repository S) (policy : AccessPolicy S) (secret : Bytes) (key : Record)
      (service_id model : String) (cost : ℤ) (result : CheckResult) (before after : S)
      → IsStoredWith service secret key
      → is_revoked key.revoked_at ≡ false
      → is_after key.expires_at (service.platform.now before) ≡ true
      → Answers policy key service_id model cost result before after
      → check_record service r secret (ok key) service_id model cost before ≡ (ok result, after)
  unfolding check_record check_times continue
  check_record-accepts r policy secret key service_id model cost result before after stored
        unrevoked unexpired answers =
      let sealed = (opened_prefixes service.cipher key secret stored.opens).0 in
      rw (stored.verifies, unrevoked, unexpired)
        (check_scope-accepts r policy secret key service_id model cost result before after
          (is_empty-prefixed _ key.secret_ciphertext _ sealed) answers)

  look_up_key-found :
      (r : Repository S) (secret : Bytes) (key : Record) (service_id model : String) (cost : ℤ)
      (s before : S)
      → r.get_by_prefix (key_prefix secret) s ≡ (ok key, before)
      → look_up_key service r secret service_id model cost s
        ≡ check_record service r secret (ok key) service_id model cost before
  unfolding look_up_key continue
  look_up_key-found r secret key service_id model cost s before found = rw found

  check_key-prefixed :
      (r : Repository S) (secret : Bytes) (service_id model : String) (cost : ℤ) (s : S)
      → has_prefix secret secret_prefix ≡ true
      → check_key service r secret service_id model cost s
        ≡ look_up_key service r secret service_id model cost s
  unfolding check_key
  check_key-prefixed r secret service_id model cost s prefixed =
      ap
        (λ b.
          (if b then look_up_key service r secret service_id model cost else return unknown_key) s)
        (is_key-prefixed secret prefixed)

  check-configured :
      (r : Repository S) (api_key service_id model : String) (cost : ℤ) (s : S)
      → service.repository ≡ some r
      → check service api_key service_id model cost s
        ≡ check_key service r (utf8 (trim_space api_key)) service_id model cost s
  unfolding check continue
  check-configured r api_key service_id model cost s configured =
      ap
        (λ found.
          continue (λ r'. check_key service r' (utf8 (trim_space api_key)) service_id model cost)
            (need found repository_missing s))
        configured

  -- Given a key that goes with a secret and is stored under the secret's prefix, a check with this
  -- secret returns what the policy answers and archives nothing, if the key is neither revoked nor
  -- expired when it is read and the policy resolves the model to the service that is asked for.
  pub check-accepts :
      (r : Repository S) (policy : AccessPolicy S) (api_key service_id model : String)
      (key : Record) (cost : ℤ) (result : CheckResult) (s before after : S)
      → service.repository ≡ some r
      → IsStoredWith service (utf8 (trim_space api_key)) key
      → r.get_by_prefix (key_prefix (utf8 (trim_space api_key))) s ≡ (ok key, before)
      → is_revoked key.revoked_at ≡ false
      → is_after key.expires_at (service.platform.now before) ≡ true
      → Answers policy key service_id model cost result before after
      → check service api_key service_id model cost s ≡ (ok result, after)
  check-accepts r policy api_key service_id model key cost result s before after configured stored
        found unrevoked unexpired answers =
      let secret = utf8 (trim_space api_key) in
      let shape = (opened_prefixes service.cipher key secret stored.opens).1 in
      check-configured r api_key service_id model cost s configured
      ∙ check_key-prefixed r secret service_id model cost s (secret_prefixed key secret shape)
      ∙ look_up_key-found r secret key service_id model cost s before found
      ∙ check_record-accepts r policy secret key service_id model cost result before after stored
          unrevoked unexpired answers
