-- ===== src/Examples/Keys.antt =====
-- Access keys in a memory of one record, under a cipher that only marks the text.
use ani_inference_service.Access.Decision.{check-Admitted}
use ani_inference_service.Access.Acceptance.{check-accepts}
use ani_inference_service.Access.Admission.{Admitted}
use ani_inference_service.Access.Pages.{Listed, list_keys-Listed}
use ani_inference_service.Access.Secret.{verify_secret, open_secret}
use ani_inference_service.Access.Check.{is_in_scope, check}
use ani_inference_service.Effect.{continue}
use ani_inference_service.Access.Operations.{create, list_keys}
use ani_inference_service.Access.Issue.{hash_with, secret_of, seal_with}
use ani_inference_service.Access.Stored.{IsTrusted, Created, create-Created}
use ani_inference_service.Access.Service.{KeyService, new_record, tidy, rotated_record}
use ani_inference_service.Access.RoundTrip.{AreBytes-append}
use ani_inference_service.Access.Key.{
  Platform, Record, Aead, Repository, AccessPolicy, KeyError, not_found, CreateInput,
  RotatePersistInput, CheckResult, PersistResult,
}
use ani_inference_service.Access.Laws.{IsLawfulAead, IsLawfulPlatform}
use ani_inference_service.Access.Bytes.{Bytes, drop, AreBytes, drop-append, utf8}
use ani_inference_service.Prelude.{
  some, suc, zero, ◌≡◌, [], ℕ, ◌++◌, Option, ok, arith, ap, ◌∷◌, length, ◌<◌, refl, false, true,
  ok-injective, subst, none, Result, List, pos, err, unwrap_some, String, trim_space,
}

abbrev Memory : Type 0
Memory = Option Record

repeated : ℕ → ℕ → Bytes
repeated zero b = []
repeated (suc n) b = b ∷ repeated n b

length-repeated : (n b : ℕ) → length (repeated n b) ≡ n
unfolding repeated
length-repeated zero b = refl
length-repeated (suc n) b = omega (arith, length-repeated n b)

repeated-AreBytes : (n b : ℕ) → b < 256 → AreBytes (repeated n b)
unfolding repeated
repeated-AreBytes zero b h = tt
repeated-AreBytes (suc n) b h = (h, repeated-AreBytes n b h)

abbrev marking : Aead
unfolding repeated drop
marking = record {
  nonce_size = 12;
  overhead = 16;
  seal = λ nonce plain data_. repeated 16 0 ++ plain;
  unseal = λ nonce sealed data_. some (drop 16 sealed);
}

marking-IsLawfulAead : IsLawfulAead marking
unfolding marking
marking-IsLawfulAead = record {
  unseal-seal = λ nonce plain data_ size.
      ap some (drop-append 16 (repeated 16 0) plain (length-repeated 16 0));
  length-seal = λ nonce plain data_. unfold repeated in omega arith;
  seal-AreBytes = λ nonce plain data_ bytes.
      AreBytes-append (repeated 16 0) plain (repeated-AreBytes 16 0 (omega arith)) bytes;
}

abbrev platform : Platform Memory
unfolding repeated
platform = record {
  random = λ n s. (ok (repeated n 7), s);
  argon2 = λ secret salt a. repeated a.key_len 9;
  parse_uuid = λ s. some s;
  new_uuid = λ s. (ok "11111111-1111-1111-1111-111111111111", s);
  now = λ s. 1000;
}

answer-parts :
    {A : Type 0} {a b : A} {s s' : Memory}
    → ◌≡◌ {A = Result KeyError A × Memory} (ok a, s) (ok b, s')
    → a ≡ b
answer-parts e = ok-injective (ap (λ x. x.0) e)

platform-IsLawfulPlatform : IsLawfulPlatform platform
unfolding platform
platform-IsLawfulPlatform = record {
  random-length = λ n bs s s' e. subst (λ x. length x ≡ n) (answer-parts e) (length-repeated n 7);
  random-AreBytes =
      λ n bs s s' e. subst AreBytes (answer-parts e) (repeated-AreBytes n 7 (omega arith));
  length-argon2 = λ secret salt a. length-repeated a.key_len 9;
  argon2-AreBytes = λ secret salt a. repeated-AreBytes a.key_len 9 (omega arith);
}

-- One record at most; a rotation replaces what belongs to the secret.
abbrev found : Option Record → Result KeyError Record
found none = err not_found
found (some r) = ok r

abbrev turned : RotatePersistInput → Option Record → Result KeyError PersistResult × Memory
turned i none = (err not_found, none)
turned i (some r) =
    let after = record r {
      key_prefix = i.key_prefix;
      secret_hash = i.secret_hash;
      secret_ciphertext = i.secret_ciphertext;
    } in
    (ok (record { key = after; replayed = false }), some after)

abbrev store : Repository Memory
store = record {
  create = λ i s. (ok (record { key = i.key; replayed = false }), some i.key);
  list = λ tenant o s. (ok (listed s, pos (length (listed s))), s);
  get = λ tenant id s. (found s, s);
  get_by_prefix = λ prefix s. (found s, s);
  archive_secret = λ r c s. (ok tt, some (record r { secret_ciphertext = c }));
  revoke = λ tenant id actor request s. (found s, s);
  rotate = λ tenant id i s. turned i s;
}
  where
    listed : Option Record → List Record
    listed none = []
    listed (some r) = r ∷ []

-- Everything is published as one service and every access is allowed.
abbrev open_policy : AccessPolicy Memory
open_policy = record {
  resolve = λ model s. (ok "svc", s);
  consume_access = λ r service model now cost s. (
    ok (record {
      key = r;
      allowed = true;
      denial_code = "";
      retry_after = 0;
      policy_version = pos 1;
    }),
    s,
  );
}

abbrev keys : KeyService Memory
keys = record {
  policy = some open_policy;
  repository = some store;
  cipher = some marking;
  platform = platform;
}

abbrev request : CreateInput
request = record {
  tenant_id = "t1";
  request_id = "r1";
  name = " chat ";
  policy_id = "22222222-2222-2222-2222-222222222222";
  allowed_service_ids = [];
  allowed_model_names = [];
  requests_per_second = pos 0;
  requests_per_minute = pos 0;
  requests_per_hour = pos 0;
  expires_at = some 2000;
  created_by = "u1";
  idempotency_key = "k1";
}

-- The secret, hash and record that are drawn.
abbrev drawn : Bytes
unfolding secret_of platform
drawn = secret_of (repeated 32 7)

abbrev drawn_record : Record
unfolding hash_with new_record tidy platform
drawn_record =
    new_record (tidy request) "11111111-1111-1111-1111-111111111111" drawn
      (hash_with platform drawn (repeated 16 7))

abbrev stored : Record
unfolding seal_with drawn_record
stored = record drawn_record {
  secret_ciphertext = seal_with marking drawn_record drawn (repeated 12 7);
}

abbrev trusted : IsTrusted keys
trusted = record {
  platform = platform-IsLawfulPlatform;
  cipher = λ aead e. subst IsLawfulAead (unwrap_some e) marking-IsLawfulAead;
}

create-Created_example :
    Created keys (record { key = stored; secret = drawn; replayed = false }) (some stored)
unfolding create continue platform marking
create-Created_example =
    create-Created keys trusted request (record { key = stored; secret = drawn; replayed = false })
      none (some stored) refl

abbrev rotated_hash : Record
unfolding rotated_record hash_with drawn platform
rotated_hash = rotated_record "t1" "k1" drawn (hash_with platform drawn (repeated 16 7))

abbrev turned_record : Record
unfolding seal_with rotated_hash marking
turned_record = record stored {
  key_prefix = rotated_hash.key_prefix;
  secret_hash = rotated_hash.secret_hash;
  secret_ciphertext = seal_with marking rotated_hash drawn (repeated 12 7);
}

-- The text of the drawn secret.
abbrev spelled : String
spelled = " iak_BwcHBwcHBwcHBwcHBwcHBwcHBwcHBwcHBwcHBwcHBwc "

abbrev verdict : CheckResult
verdict = record {
  key = stored;
  allowed = true;
  denial_code = "";
  retry_after = 0;
  policy_version = pos 1;
}

check-Admitted_example : Admitted keys (utf8 (trim_space spelled)) "svc" "chat" (pos 0) verdict
unfolding check continue platform marking stored
check-Admitted_example =
    check-Admitted keys spelled "svc" "chat" (pos 0) verdict (some stored) (some stored) refl refl

check-accepts_example :
    check keys spelled "svc" "chat" (pos 0) (some stored) ≡ (ok verdict, some stored)
unfolding is_in_scope verify_secret open_secret platform stored drawn marking
check-accepts_example =
    check-accepts keys store open_policy spelled "svc" "chat" stored (pos 0) verdict (some stored)
      (some stored) (some stored) refl (record { verifies = refl; is_found = refl; opens = refl })
      refl refl refl
      (record {
        configured = refl;
        resolved = "svc";
        between = some stored;
        resolves = refl;
        in_scope = refl;
        consumes = refl;
      })

list_keys-Listed_example : Listed keys "t1" (record stored { secret = drawn } ∷ []) (pos 1)
unfolding list_keys continue platform marking stored drawn
list_keys-Listed_example =
    list_keys-Listed keys "t1"
      (record { limit = pos 0; offset = pos 0; served_model_name = "chat" })
      (record stored { secret = drawn } ∷ []) (pos 1) (some stored) (some stored) refl
