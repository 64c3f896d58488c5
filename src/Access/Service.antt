-- ===== src/Access/Service.antt =====
-- The operations of `Service` (internal/biz/accesskey/access_key.go) over any repository, policy,
-- cipher and platform.
use ani_inference_service.Access.Bytes.{Bytes}
use ani_inference_service.Access.Secret.{open_secret, key_prefix, hash_version}
use ani_inference_service.Access.Key.{
  ListOptions, CreateInput, Aead, AccessPolicy, Record, Repository, PersistResult, zero_record,
  KeyError, IssueResult, Platform, idempotency_replay,
}
use ani_inference_service.Prelude.{
  Option, negsuc, some, true, ◌==◌, none, not, ltb_ℤ, ltb, trim_space, List, String, pos, Result,
  ◌>>=◌, if◌then◌else◌, ◌&&◌, err, ℕ, str_eq, false, ok, [], ◌∷◌, ℤ, Bool,
}

-- `Service`. A nil collaborator is `none`.
pub record KeyService (S : Type 0) : Type 0 where
  pub policy : Option (AccessPolicy S)
  pub repository : Option (Repository S)
  pub cipher : Option Aead
  pub platform : Platform S

-- The trimmed fields of a request.
unfoldable pub tidy : CreateInput → CreateInput
unfolding trim_space
tidy i = record i {
  name = trim_space i.name;
  tenant_id = trim_space i.tenant_id;
  created_by = trim_space i.created_by;
  idempotency_key = trim_space i.idempotency_key;
}

abbrev pub nil_uuid : String
nil_uuid = "00000000-0000-0000-0000-000000000000"

abbrev pub is_zero : ℤ → Bool
is_zero (pos n) = n == 0
is_zero (negsuc n) = false

abbrev pub is_empty : {A : Type 0} → List A → Bool
is_empty [] = true
is_empty (x ∷ xs) = false

-- `t == nil || t.After(now)`.
abbrev pub is_after : Option ℕ → ℕ → Bool
is_after none now = true
is_after (some t) now = ltb now t

-- A canonical policy and nothing that belongs to the policy.
unfoldable pub has_only_policy : CreateInput → Option String → ℕ → Bool
has_only_policy i none now = false
has_only_policy i (some policy) now =
    not (str_eq policy nil_uuid)
    && str_eq policy i.policy_id
    && is_empty i.allowed_service_ids
    && is_empty i.allowed_model_names
    && is_zero i.requests_per_second
    && is_zero i.requests_per_minute
    && is_zero i.requests_per_hour
    && is_after i.expires_at now

-- `sameExpiry`.
abbrev pub same_expiry : Option ℕ → Option ℕ → Bool
same_expiry none none = true
same_expiry (some a) (some b) = a == b
same_expiry _ _ = false

-- The record that is stored, before its ciphertext.
unfoldable pub new_record : CreateInput → String → Bytes → Bytes → Record
unfolding key_prefix
new_record i id secret hash = record zero_record {
  tenant_id = i.tenant_id;
  id = id;
  name = i.name;
  key_prefix = key_prefix secret;
  secret_hash = hash;
  hash_version = hash_version;
  policy_id = i.policy_id;
  expires_at = i.expires_at;
  created_by = i.created_by;
  create_idempotency_key = i.idempotency_key;
  version = pos 1;
}

-- A replay returns the stored record without a secret, if it is of the same request.
abbrev pub created_by : Bool → Bool → Bytes → Record → Result KeyError IssueResult
created_by false same secret key = ok (record { key = key; secret = secret; replayed = false })
created_by true true secret key = ok (record { key = key; secret = []; replayed = true })
created_by true false secret key = err idempotency_replay

-- What a repository's answer to a creation is for the caller.
unfoldable pub created : CreateInput → Bytes → PersistResult → Result KeyError IssueResult
created i secret p =
    created_by p.replayed
      (str_eq p.key.name i.name
        && str_eq p.key.policy_id i.policy_id
        && same_expiry p.key.expires_at i.expires_at)
      secret p.key

-- The record that is looked up for `Rotate`'s associated data.
unfoldable pub rotated_record : String → String → Bytes → Bytes → Record
unfolding key_prefix trim_space
rotated_record tenant id secret hash = record zero_record {
  tenant_id = trim_space tenant;
  id = trim_space id;
  key_prefix = key_prefix secret;
  secret_hash = hash;
}

abbrev pub rotated : Bytes → PersistResult → IssueResult
rotated secret p = record {
  key = p.key;
  secret = if p.replayed then [] else secret;
  replayed = p.replayed;
}

-- A record with its recovered secret.
unfoldable pub with_secret : Option Aead → Record → Result KeyError Record
unfolding open_secret
with_secret cipher r = do secret ← open_secret cipher r; ok (record r { secret = secret })

-- A record without a ciphertext has no secret to recover.
unfoldable pub reveal : Option Aead → Record → Result KeyError Record
unfolding with_secret
reveal cipher r = if is_empty r.secret_ciphertext then ok r else with_secret cipher r

-- The loop of `List`.
unfoldable pub reveal_all : Option Aead → List Record → Result KeyError (List Record)
unfolding reveal
reveal_all cipher [] = ok []
reveal_all cipher (r ∷ rs) = do
  first ← reveal cipher r
  others ← reveal_all cipher rs
  ok (first ∷ others)

-- The page of `List`: 20 where no limit is given.
unfoldable pub paged : ListOptions → ListOptions
unfolding trim_space
paged o = record o {
  limit = if is_zero o.limit then pos 20 else o.limit;
  served_model_name = trim_space o.served_model_name;
}

unfoldable pub is_page : ListOptions → Bool
is_page o =
    not (ltb_ℤ o.limit (pos 1)) && not (ltb_ℤ (pos 100) o.limit) && not (ltb_ℤ o.offset (pos 0))
