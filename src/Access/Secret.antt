-- ===== src/Access/Secret.antt =====
-- Secrets, their hashes and their ciphertexts: internal/biz/accesskey/secret.go and the functions at
-- the end of access_key.go.
use ani_inference_service.Access.Base64.{decode, raw_std, raw_url}
use ani_inference_service.Access.Key.{Argon, Record, Aead, KeyError, secret_unavailable}
use ani_inference_service.Access.Bytes.{Bytes, has_prefix, split, take, utf8, bytes_eq, drop}
use ani_inference_service.Prelude.{
  ◌>>=◌, [], err, ◌==◌, ◌>>◌, false, Bool, ◌∷◌, none, ◌++◌, guard, List, leb, Result, ◌&&◌, ◌+◌,
  if◌then◌else◌, some, ◌*◌, ok, codes, length, or_fail, Option, not, ltb, ℕ,
}

abbrev pub secret_prefix : Bytes
secret_prefix = codes "iak_"

abbrev pub hash_version : Bytes
hash_version = codes "argon2id-v1"

abbrev pub argon_key_len : ℕ
argon_key_len = 32

abbrev pub argon_salt_len : ℕ
argon_salt_len = 16

abbrev pub argon_parameters : Argon
argon_parameters = record { time = 3; memory = 64 * 1024; threads = 1; key_len = argon_key_len }

-- The `$` between the parts of a hash.
abbrev pub dollar : ℕ
dollar = 36

abbrev pub ciphertext_prefix : Bytes
ciphertext_prefix = codes "v1:"

-- `keyPrefix`.
unfoldable pub key_prefix : Bytes → Bytes
unfolding take
key_prefix secret = if leb (length secret) 16 then secret else take 16 secret

-- `secretAAD`.
unfoldable pub secret_aad : Record → Bytes
unfolding utf8
secret_aad r =
    codes "inference-access-key/v1"
    ++ 0 ∷ utf8 r.tenant_id
    ++ 0 ∷ utf8 r.id
    ++ 0 ∷ r.key_prefix
    ++ 0 ∷ r.secret_hash

-- The decryption of what stands behind the version.
unfoldable pub open_sealed : Aead → Record → Bytes → Result KeyError Bytes
unfolding take drop secret_aad
open_sealed aead r sealed = do
  guard (not (ltb (length sealed) (aead.nonce_size + aead.overhead))) secret_unavailable
  or_fail (aead.unseal (take aead.nonce_size sealed) (drop aead.nonce_size sealed) (secret_aad r))
      secret_unavailable

-- The checks of a decrypted secret.
unfoldable pub is_secret_of : Record → Bytes → Bool
unfolding key_prefix has_prefix
is_secret_of r secret =
    length secret == 47
    && bytes_eq (key_prefix secret) r.key_prefix
    && has_prefix secret secret_prefix

unfoldable pub checked_secret : Record → Bytes → Result KeyError Bytes
unfolding is_secret_of
checked_secret r secret = guard (is_secret_of r secret) secret_unavailable >>= λ u. ok secret

unfoldable pub open_decoded : Aead → Record → Bytes → Result KeyError Bytes
unfolding open_sealed checked_secret
open_decoded aead r sealed = open_sealed aead r sealed >>= checked_secret r

unfoldable pub open_prefixed : Aead → Record → Result KeyError Bytes
unfolding open_decoded drop decode
open_prefixed aead r =
    or_fail (decode raw_url (drop 3 r.secret_ciphertext)) secret_unavailable >>= open_decoded aead r

-- `SecretCipher.open`. A nil cipher is `none`.
unfoldable pub open_secret : Option Aead → Record → Result KeyError Bytes
unfolding open_prefixed has_prefix
open_secret none r = err secret_unavailable
open_secret (some aead) r =
    guard (has_prefix r.secret_ciphertext ciphertext_prefix) secret_unavailable >>= λ u.
    open_prefixed aead r

-- `subtle.ConstantTimeCompare(got, want) == 1`, on the decoded salt and key.
unfoldable pub same_key :
    (Bytes → Bytes → Argon → Bytes) → Bytes → Option Bytes → Option Bytes → Bool
same_key argon2 secret (some salt) (some want) =
    length salt == argon_salt_len
    && length want == argon_key_len
    && bytes_eq (argon2 secret salt argon_parameters) want
same_key argon2 secret _ _ = false

unfoldable pub verify_parts : (Bytes → Bytes → Argon → Bytes) → Bytes → List Bytes → Bool
unfolding same_key decode
verify_parts argon2 secret (version ∷ salt ∷ key ∷ []) =
    bytes_eq version hash_version
    && same_key argon2 secret (decode raw_std salt) (decode raw_std key)
verify_parts argon2 secret _ = false

-- `verifySecret`.
unfoldable pub verify_secret : (Bytes → Bytes → Argon → Bytes) → Bytes → Bytes → Bool
unfolding verify_parts split
verify_secret argon2 secret encoded = verify_parts argon2 secret (split dollar encoded)
