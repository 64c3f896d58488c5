-- ===== src/Access/Decision.antt =====
-- The decision of `Check` (internal/biz/accesskey/access_key.go), both ways.
use ani_inference_service.Access.Secret.{key_prefix, secret_prefix}
use ani_inference_service.Effect.{bind-eq-ok, need-eq-ok, fail, attempt-eq-ok}
use ani_inference_service.Access.Admission.{
  Admitted, if_refused, check_verified-Admitted, if_refusing,
}
use ani_inference_service.Access.Bytes.{Bytes, utf8, has_prefix}
use ani_inference_service.Access.Key.{Repository, CheckResult, KeyError, Record, is_not_found}
use ani_inference_service.Access.Check.{check_record, check_key, check, unknown_key, look_up_key}
use ani_inference_service.Access.Service.{KeyService, is_empty}
use ani_inference_service.Prelude.{
  ◌≡◌, refl, ok, trim_space, String, ℤ, some, true, Result, err, &&-eq-true, not, ◌&&◌,
}

fail-ne-ok : {S A : Type 0} {e : KeyError} {a : A} {s s' : S} → ¬ (fail {A = A} e s ≡ (ok a, s'))
fail-ne-ok done = cc

module _ {S : Type 0} (service : KeyService S) where
  check_found-Admitted :
      (r : Repository S) (secret : Bytes) (found : Result KeyError Record)
      (service_id model : String) (cost : ℤ) (result : CheckResult) (s0 s1 s' : S)
      → service.repository ≡ some r
      → r.get_by_prefix (key_prefix secret) s0 ≡ (found, s1)
      → has_prefix secret secret_prefix ≡ true
      → check_record service r secret found service_id model cost s1 ≡ (ok result, s')
      → result.allowed ≡ true
      → Admitted service secret service_id model cost result
  unfolding check_record
  check_found-Admitted r secret (ok key) service_id model cost result s0 s1 s' configured answer
        prefixed done allowed =
      check_verified-Admitted service r secret key service_id model cost result s0 s1 s' configured
        answer prefixed done allowed
  check_found-Admitted r secret (err e) service_id model cost result s0 s1 s' configured answer
        prefixed done allowed =
      let (known, failed) =
        if_refusing (is_not_found e) (fail e) unknown_key result s1 s' refl done allowed in
      absurd (fail-ne-ok failed)

  look_up_key-Admitted :
      (r : Repository S) (secret : Bytes) (service_id model : String) (cost : ℤ)
      (result : CheckResult) (s s' : S)
      → service.repository ≡ some r
      → has_prefix secret secret_prefix ≡ true
      → look_up_key service r secret service_id model cost s ≡ (ok result, s')
      → result.allowed ≡ true
      → Admitted service secret service_id model cost result
  unfolding look_up_key
  look_up_key-Admitted r secret service_id model cost result s s' configured prefixed done allowed =
      let (found, s1, answered, done1) = bind-eq-ok done in
      check_found-Admitted r secret found service_id model cost result s s1 s' configured
        (attempt-eq-ok (r.get_by_prefix (key_prefix secret) s) answered) prefixed done1 allowed

  check_key-Admitted :
      (r : Repository S) (secret : Bytes) (service_id model : String) (cost : ℤ)
      (result : CheckResult) (s s' : S)
      → service.repository ≡ some r
      → check_key service r secret service_id model cost s ≡ (ok result, s')
      → result.allowed ≡ true
      → Admitted service secret service_id model cost result
  unfolding check_key
  check_key-Admitted r secret service_id model cost result s s' configured done allowed =
      let (shape, done1) =
        if_refused (not (is_empty secret) && has_prefix secret secret_prefix)
          (look_up_key service r secret service_id model cost) unknown_key result s s' refl done
          allowed in
      look_up_key-Admitted r secret service_id model cost result s s' configured
        (&&-eq-true _ _ shape).1 done1 allowed

  -- A check that allows a request has found a key under the prefix of the trimmed secret, which has
  -- the fixed prefix and from which Argon2 derives the key of the stored hash with the salt of the
  -- hash, at a time when the key was neither revoked nor expired; and the policy resolved the trimmed
  -- model to a service with a name, which is the service that was asked for if one was, and the
  -- access to it that the policy was then asked for, of as many units as the cost, or of one if the
  -- cost is not positive, has the result that is returned.
  pub check-Admitted :
      (api_key service_id model : String) (cost : ℤ) (result : CheckResult) (s s' : S)
      → check service api_key service_id model cost s ≡ (ok result, s')
      → result.allowed ≡ true
      → Admitted service (utf8 (trim_space api_key)) service_id model cost result
  unfolding check
  check-Admitted api_key service_id model cost result s s' done allowed =
      let (r, s1, found, done1) = bind-eq-ok done in
      check_key-Admitted r (utf8 (trim_space api_key)) service_id model cost result s1 s'
        (need-eq-ok _ found).0 done1 allowed
