-- ===== src/Access/Issue.antt =====
-- `newSecret`, `hashSecret` (internal/biz/accesskey/access_key.go) and `SecretCipher.seal`
-- (secret.go), which draw random bytes.
use ani_inference_service.Effect.{Effect, need, return, ◌>>=◌}
use ani_inference_service.Access.Secret.{
  secret_aad, secret_prefix, hash_version, ciphertext_prefix, argon_salt_len, dollar,
  argon_parameters,
}
use ani_inference_service.Access.Bytes.{Bytes}
use ani_inference_service.Access.Base64.{encode, raw_url, raw_std}
use ani_inference_service.Access.Key.{Platform, Aead, Record, KeyError, secret_unavailable, explain}
use ani_inference_service.Prelude.{◌∷◌, Option, ◌++◌}

-- The secret of random bytes.
unfoldable pub secret_of : Bytes → Bytes
unfolding encode
secret_of random = secret_prefix ++ encode raw_url random

-- The ciphertext under a nonce.
unfoldable pub seal_with : Aead → Record → Bytes → Bytes → Bytes
unfolding encode secret_aad
seal_with aead r secret nonce =
    ciphertext_prefix ++ encode raw_url (nonce ++ aead.seal nonce secret (secret_aad r))

module _ {S : Type 0} (p : Platform S) where
  -- `newSecret`, without the prefix that it also returns.
  unfoldable pub new_secret : Effect S KeyError Bytes
  unfolding secret_of
  new_secret = do
    random ← explain "generate inference access key" (p.random 32)
    return (secret_of random)

  -- The hash under a salt.
  unfoldable pub hash_with : Bytes → Bytes → Bytes
  unfolding encode
  hash_with secret salt =
      hash_version
      ++ dollar ∷ encode raw_std salt
      ++ dollar ∷ encode raw_std (p.argon2 secret salt argon_parameters)

  -- `hashSecret`.
  unfoldable pub hash_secret : Bytes → Effect S KeyError Bytes
  unfolding hash_with
  hash_secret secret = do
    salt ← explain "generate access-key hash salt" (p.random argon_salt_len)
    return (hash_with secret salt)

  unfoldable pub seal_by : Aead → Record → Bytes → Effect S KeyError Bytes
  unfolding seal_with
  seal_by aead r secret = do
    nonce ← p.random aead.nonce_size
    return (seal_with aead r secret nonce)

  -- `SecretCipher.seal`.
  unfoldable pub seal_secret : Option Aead → Record → Bytes → Effect S KeyError Bytes
  unfolding seal_by
  seal_secret cipher r secret = do aead ← need cipher secret_unavailable; seal_by aead r secret
