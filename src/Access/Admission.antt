-- ===== src/Access/Admission.antt =====
-- When `Check` (internal/biz/accesskey/access_key.go) admits a key.
use ani_inference_service.Access.Verified.{verify_secret-IsHashOf, IsHashOf}
use ani_inference_service.Access.Secret.{key_prefix, secret_prefix, verify_secret}
use ani_inference_service.Access.Check.{
  check_scope, after_consume, archive, consume, is_in_scope, denied, at_least_one, check_record,
  check_times, unknown_key, is_revoked,
}
use ani_inference_service.Access.Key.{Record, KeyError, CheckResult, Repository, AccessPolicy}
use ani_inference_service.Access.Bytes.{Bytes, has_prefix}
use ani_inference_service.Effect.{Effect, return, bind-eq-ok, need-eq-ok}
use ani_inference_service.Access.Service.{KeyService, is_after}
use ani_inference_service.Prelude.{
  ℤ, sym, if◌then◌else◌, ◌≡◌, some, Bool, ℕ, false_true, String, refl, ok, ap, ok-injective, ◌∙◌,
  false, true, trim_space, pos, zero, suc, negsuc, subst, arith, &&-eq-true, none, str_eq, not, ◌⊎◌,
  inr, Option, ◌||◌, eq_iff, ◌<◌, inl,
}

-- A refusal that is not an allowance leaves the other branch.
pub if_refused :
    {S : Type 0} (test : Bool) (m : Effect S KeyError CheckResult) (refusal : CheckResult)
    (result : CheckResult) (s s' : S)
    → refusal.allowed ≡ false
    → (if test then m else return refusal) s ≡ (ok result, s')
    → result.allowed ≡ true
    → (test ≡ true) × (m s ≡ (ok result, s'))
if_refused true m refusal result s s' never done allowed = (refl, done)
if_refused false m refusal result s s' never done allowed =
    false_true (sym never ∙ ap (λ x. x.allowed) (ok-injective (ap (λ x. x.0) done)) ∙ allowed)

pub if_refusing :
    {S : Type 0} (test : Bool) (m : Effect S KeyError CheckResult) (refusal : CheckResult)
    (result : CheckResult) (s s' : S)
    → refusal.allowed ≡ false
    → (if test then return refusal else m) s ≡ (ok result, s')
    → result.allowed ≡ true
    → (test ≡ false) × (m s ≡ (ok result, s'))
if_refusing false m refusal result s s' never done allowed = (refl, done)
if_refusing true m refusal result s s' never done allowed =
    false_true (sym never ∙ ap (λ x. x.allowed) (ok-injective (ap (λ x. x.0) done)) ∙ allowed)

-- How many units an access of a cost takes: the cost, if it is positive, or else one.
pub data Charges : ℤ → ℤ → Type 0 where
  the_cost : (n : ℕ) → Charges (pos (suc n)) (pos (suc n))
  one_for_zero : Charges (pos zero) (pos 1)
  one_for_negative : (n : ℕ) → Charges (negsuc n) (pos 1)

at_least_one-Charges : (cost : ℤ) → Charges cost (at_least_one cost)
at_least_one-Charges (pos zero) = one_for_zero
at_least_one-Charges (pos (suc n)) = subst (Charges (pos (suc n))) (ground arith) (the_cost n)
at_least_one-Charges (negsuc n) = subst (Charges (negsuc n)) (ground arith) (one_for_negative n)

is_in_scope-names :
    (service_id resolved : String)
    → is_in_scope service_id resolved ≡ true
    → (¬ (resolved ≡ "")) × ((trim_space service_id ≡ "") ⊎ (trim_space service_id ≡ resolved))
unfolding is_in_scope
is_in_scope-names service_id resolved h =
    let (named, asked) = &&-eq-true (not (str_eq resolved "")) _ h in
    (
      λ e. absurd (ground (arith, eq_iff resolved "", named, e)),
      by_service (str_eq (trim_space service_id) "") refl asked,
    )
  where
    by_service :
        (b : Bool)
        → str_eq (trim_space service_id) "" ≡ b
        → (b || str_eq (trim_space service_id) resolved) ≡ true
        → (trim_space service_id ≡ "") ⊎ (trim_space service_id ≡ resolved)
    by_service true blank any = inl (ground (arith, eq_iff (trim_space service_id) "", blank))
    by_service false named any = inr (ground (arith, eq_iff (trim_space service_id) resolved, any))

is_revoked-none : (t : Option ℕ) → is_revoked t ≡ false → t ≡ none
is_revoked-none none h = refl
is_revoked-none (some t) h = cc

is_after-lt :
    (expiry : Option ℕ) (now : ℕ) → is_after expiry now ≡ true → (t : ℕ) → expiry ≡ some t → now < t
is_after-lt none now h t e = cc
is_after-lt (some u) now h t e = ground (arith, h, e)

module _ {S : Type 0} (service : KeyService S) where
  -- A known key that the policy has consumed an access for.
  pub record Permits (key : Record) (service_id model : String) (cost : ℤ) (now : ℕ)
      (result : CheckResult) : Type 0 where
    pub policy : AccessPolicy S
    pub configured : service.policy ≡ some policy
    pub asked : S
    pub resolved : String
    pub before : S
    pub resolves : policy.resolve (trim_space model) asked ≡ (ok resolved, before)
    pub is_named : ¬ (resolved ≡ "")
    pub in_scope : (trim_space service_id ≡ "") ⊎ (trim_space service_id ≡ resolved)
    pub units : ℤ
    pub charged : Charges cost units
    pub after : S
    pub consumed :
        policy.consume_access key resolved (trim_space model) now units before ≡ (ok result, after)

  -- The key under the prefix of a secret, which authenticates it and is neither revoked nor expired.
  pub record Authenticates (secret : Bytes) (key : Record) (now : ℕ) : Type 0 where
    pub repository : Repository S
    pub configured : service.repository ≡ some repository
    pub before : S
    pub after : S
    pub found : repository.get_by_prefix (key_prefix secret) before ≡ (ok key, after)
    pub read : service.platform.now after ≡ now
    pub prefixed : has_prefix secret secret_prefix ≡ true
    pub verifies : verify_secret service.platform.argon2 secret key.secret_hash ≡ true
    pub hashed : IsHashOf service.platform.argon2 secret key.secret_hash
    pub unrevoked : key.revoked_at ≡ none
    pub unexpired : (t : ℕ) → key.expires_at ≡ some t → now < t

  archive-same :
      (r : Repository S) (api_key : Bytes) (key : Record) (result result' : CheckResult) (s s' : S)
      → archive service r api_key key result s ≡ (ok result', s')
      → result ≡ result'
  unfolding archive
  archive-same r api_key key result result' s s' done =
      let (c, s1, sealed, done1) = bind-eq-ok done in
      let (u, s2, written, done2) = bind-eq-ok done1 in ok-injective (ap (λ x. x.0) done2)

  if_archive-same :
      (test : Bool) (r : Repository S) (api_key : Bytes) (key : Record)
      (result result' : CheckResult) (s s' : S)
      → (if test then archive service r api_key key result else return result) s ≡ (ok result', s')
      → result ≡ result'
  if_archive-same true r api_key key result result' s s' done =
      archive-same r api_key key result result' s s' done
  if_archive-same false r api_key key result result' s s' done = ok-injective (ap (λ x. x.0) done)

  after_consume-same :
      (r : Repository S) (api_key : Bytes) (key : Record) (result result' : CheckResult) (s s' : S)
      → after_consume service r api_key key result s ≡ (ok result', s')
      → result ≡ result'
  unfolding after_consume
  after_consume-same r api_key key result result' s s' done =
      if_archive-same _ r api_key key result result' s s' done

  check_scope-Permits :
      (r : Repository S) (api_key : Bytes) (key : Record) (service_id model : String) (now : ℕ)
      (cost : ℤ) (result : CheckResult) (s s' : S)
      → check_scope service r api_key key service_id model now cost s ≡ (ok result, s')
      → result.allowed ≡ true
      → Permits key service_id model cost now result
  unfolding check_scope consume
  check_scope-Permits r api_key key service_id model now cost result s s' done allowed =
      let (policy, s1, configured, done1) = bind-eq-ok done in
      let (resolved, s2, answered, done2) = bind-eq-ok done1 in
      let (in_scope, done3) =
        if_refused (is_in_scope service_id resolved)
          (consume service r policy api_key key resolved (trim_space model) now cost)
          (denied key "scope_denied") result s2 s' refl done2 allowed in
      let (consumed, s3, spent, done4) = bind-eq-ok done3 in
      record {
        policy = policy;
        configured = (need-eq-ok _ configured).0;
        resolved = resolved;
        asked = s1;
        before = s2;
        resolves = answered;
        is_named = (is_in_scope-names service_id resolved in_scope).0;
        in_scope = (is_in_scope-names service_id resolved in_scope).1;
        units = at_least_one cost;
        charged = at_least_one-Charges cost;
        after = s3;
        consumed =
            spent
            ∙ ap (λ x. (ok x, s3)) (after_consume-same r api_key key consumed result s3 s' done4);
      }

  -- What `Check` admits.
  abbrev pub Admitted : Bytes → String → String → ℤ → CheckResult → Type 0
  Admitted secret service_id model cost result =
      (key : Record) × (now : ℕ) × Authenticates secret key now
      × Permits key service_id model cost now result

  pub check_verified-Admitted :
      (r : Repository S) (secret : Bytes) (key : Record) (service_id model : String) (cost : ℤ)
      (result : CheckResult) (s0 s1 s' : S)
      → service.repository ≡ some r
      → r.get_by_prefix (key_prefix secret) s0 ≡ (ok key, s1)
      → has_prefix secret secret_prefix ≡ true
      → check_record service r secret (ok key) service_id model cost s1 ≡ (ok result, s')
      → result.allowed ≡ true
      → Admitted secret service_id model cost result
  unfolding check_record check_times
  check_verified-Admitted r secret key service_id model cost result s0 s1 s' configured found
        prefixed done allowed =
      let (verifies, done1) = if_refused _ _ unknown_key result s1 s' refl done allowed in
      let (now, s2, read, done2) = bind-eq-ok done1 in
      let (unrevoked, done3) =
        if_refusing _ _ (denied key "revoked") result s2 s' refl done2 allowed in
      let (unexpired, done4) =
        if_refused _ _ (denied key "expired") result s2 s' refl done3 allowed in
      (
        key,
        now,
        record {
          repository = r;
          configured = configured;
          before = s0;
          after = s1;
          found = found;
          read = ok-injective (ap (λ x. x.0) read);
          prefixed = prefixed;
          verifies = verifies;
          hashed = verify_secret-IsHashOf service.platform.argon2 secret key.secret_hash verifies;
          unrevoked = is_revoked-none key.revoked_at unrevoked;
          unexpired = is_after-lt key.expires_at now unexpired;
        },
        check_scope-Permits r secret key service_id model now cost result s2 s' done4 allowed,
      )
