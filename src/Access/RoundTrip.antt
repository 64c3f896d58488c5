-- ===== src/Access/RoundTrip.antt =====
-- Hashes verify and ciphertexts open: internal/biz/accesskey/secret.go with the end of
-- access_key.go.
use ani_inference_service.Access.Base64.{
  encode, raw_std, plain-Lacks, encode-All, decode-encode, raw_url, length-encode, plain-AreBytes,
}
use ani_inference_service.Access.Issue.{secret_of, seal_with, hash_with}
use ani_inference_service.Access.Secret.{
  is_secret_of, verify_secret, open_secret, open_sealed, verify_parts, same_key, key_prefix,
  secret_aad, argon_salt_len, argon_parameters, dollar, hash_version, secret_prefix, open_prefixed,
  open_decoded, checked_secret,
}
use ani_inference_service.Access.Laws.{IsLawfulAead, IsLawfulPlatform}
use ani_inference_service.Access.Bytes.{
  Bytes, AreBytes, split-next, take-append, has_prefix, drop-append, split-last, bytes_eq_refl,
  has_prefix-append,
}
use ani_inference_service.Access.Key.{Record, Platform, Aead}
use ani_inference_service.Prelude.{
  [], ok, length, some, ◌++◌, ◌∷◌, ◌≡◌, true, length-append, false, arith, ◌+◌, refl, ltb, ◌==◌,
}

pub AreBytes-append : (xs ys : Bytes) → AreBytes xs → AreBytes ys → AreBytes (xs ++ ys)
AreBytes-append [] ys hx hy = hy
AreBytes-append (x ∷ xs) ys (h, hx) hy = (h, AreBytes-append xs ys hx hy)

-- The record with a ciphertext.
abbrev pub with_ciphertext : Record → Bytes → Record
with_ciphertext r c = record r { secret_ciphertext = c }

pub secret_of-AreBytes : (random : Bytes) → AreBytes random → AreBytes (secret_of random)
unfolding secret_of
secret_of-AreBytes random bytes =
    AreBytes-append secret_prefix (encode raw_url random) (omega arith)
      (plain-AreBytes _ (encode-All raw_url random bytes))

same_aad : (r : Record) (c : Bytes) → secret_aad (with_ciphertext r c) ≡ secret_aad r
unfolding secret_aad
same_aad r c = refl

same_shape :
    (r : Record) (c secret : Bytes)
    → is_secret_of (with_ciphertext r c) secret ≡ is_secret_of r secret
unfolding is_secret_of
same_shape r c secret = refl

length-secret_of : (random : Bytes) → length random ≡ 32 → (length (secret_of random) == 47) ≡ true
unfolding secret_of
length-secret_of random size = rw (length-encode raw_url random, size)

secret_of-prefix : (random : Bytes) → has_prefix (secret_of random) secret_prefix ≡ true
unfolding secret_of
secret_of-prefix random = has_prefix-append secret_prefix (encode raw_url random)

module _ {S : Type 0} (p : Platform S) (lawful : IsLawfulPlatform p) where
  pub verify_secret-hash_with :
      (secret salt : Bytes)
      → length salt ≡ argon_salt_len
      → AreBytes salt
      → verify_secret p.argon2 secret (hash_with p secret salt) ≡ true
  unfolding verify_secret verify_parts same_key hash_with
  verify_secret-hash_with secret salt size bytes =
      let key = p.argon2 secret salt argon_parameters in
      let key_bytes = lawful.argon2-AreBytes secret salt argon_parameters in
      let encoded = encode raw_std in
      rw
        (
          split-next dollar hash_version (encoded salt ++ dollar ∷ encoded key) (omega arith),
          split-next dollar (encoded salt) (encoded key)
              (plain-Lacks _ (encode-All raw_std salt bytes)),
          split-last dollar (encoded key) (plain-Lacks _ (encode-All raw_std key key_bytes)),
          decode-encode raw_std salt bytes,
          decode-encode raw_std key key_bytes,
        )
        (rw (size, lawful.length-argon2 secret salt argon_parameters) (bytes_eq_refl key))

  -- A new secret has the length and the prefix that opening asks for.
  pub secret_of-shape :
      (random : Bytes)
      → length random ≡ 32
      → (r : Record) → r.key_prefix ≡ key_prefix (secret_of random)
      → is_secret_of r (secret_of random) ≡ true
  unfolding is_secret_of
  secret_of-shape random size r prefix = rw (
    length-secret_of random size,
    prefix,
    bytes_eq_refl (key_prefix (secret_of random)),
    secret_of-prefix random,
  )

module _ (aead : Aead) (lawful : IsLawfulAead aead) where
  open_sealed-seal :
      (r : Record) (secret nonce : Bytes)
      → length nonce ≡ aead.nonce_size
      → open_sealed aead r (nonce ++ aead.seal nonce secret (secret_aad r)) ≡ ok secret
  unfolding open_sealed
  open_sealed-seal r secret nonce size =
      let sealed = aead.seal nonce secret (secret_aad r) in
      let enough : ltb (length (nonce ++ sealed)) (aead.nonce_size + aead.overhead) ≡ false =
        ground
          (arith, length-append nonce sealed, lawful.length-seal nonce secret (secret_aad r)) in
      rw (
        enough,
        take-append aead.nonce_size nonce sealed size,
        drop-append aead.nonce_size nonce sealed size,
        lawful.unseal-seal nonce secret (secret_aad r) size,
      )

  pub open_secret-seal_with :
      (r : Record) (secret nonce : Bytes)
      → length nonce ≡ aead.nonce_size
      → AreBytes nonce
      → AreBytes secret
      → is_secret_of r secret ≡ true
      → open_secret (some aead) (with_ciphertext r (seal_with aead r secret nonce)) ≡ ok secret
  unfolding open_secret open_prefixed open_decoded checked_secret seal_with
  open_secret-seal_with r secret nonce size bytes secret_bytes shape =
      let sealed = aead.seal nonce secret (secret_aad r) in
      let c = seal_with aead r secret nonce in
      let all =
        AreBytes-append nonce sealed bytes (lawful.seal-AreBytes nonce secret _ secret_bytes) in
      rw (
        decode-encode raw_url (nonce ++ sealed) all,
        same_aad r c,
        open_sealed-seal (with_ciphertext r c) secret nonce size,
        same_shape r c secret,
        shape,
      )
