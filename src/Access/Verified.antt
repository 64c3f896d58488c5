-- ===== src/Access/Verified.antt =====
-- What a hash is of a secret that `verifySecret` (internal/biz/accesskey/access_key.go) accepts.
use ani_inference_service.Access.Base64.{decode, raw_std}
use ani_inference_service.Access.Secret.{
  verify_secret, same_key, verify_parts, dollar, hash_version, argon_parameters, argon_salt_len,
  argon_key_len,
}
use ani_inference_service.Access.Key.{Argon}
use ani_inference_service.Access.Bytes.{Bytes, bytes_eq, split}
use ani_inference_service.Prelude.{
  List, ap, true, some, refl, ◌&&◌, arith, &&-eq-true, Option, length, ◌≡◌, none, ◌∙◌, ◌∷◌, [],
  ◌==◌,
}

-- The hash is in the three parts of the version, and its key is what Argon2 derives from the secret
-- and its salt.
pub record IsHashOf (argon2 : Bytes → Bytes → Argon → Bytes) (secret encoded : Bytes) : Type 0 where
  pub salt_text : Bytes
  pub key_text : Bytes
  pub in_parts : split dollar encoded ≡ hash_version ∷ salt_text ∷ key_text ∷ []
  pub salt : Bytes
  pub key : Bytes
  pub salt_decoded : decode raw_std salt_text ≡ some salt
  pub key_decoded : decode raw_std key_text ≡ some key
  pub sizes : (length salt ≡ 16) × (length key ≡ 32)
  pub derived : argon2 secret salt argon_parameters ≡ key

bytes_eq-eq : (xs ys : Bytes) → bytes_eq xs ys ≡ true → xs ≡ ys
bytes_eq-eq [] [] h = refl
bytes_eq-eq (x ∷ xs) (y ∷ ys) h =
    let (head, tail) = &&-eq-true (x == y) (bytes_eq xs ys) h in
    let same : x ≡ y = ground (arith, head) in cc (same, bytes_eq-eq xs ys tail)
bytes_eq-eq [] (y ∷ ys) h = cc
bytes_eq-eq (x ∷ xs) [] h = cc

module _ (argon2 : Bytes → Bytes → Argon → Bytes) (secret encoded : Bytes) where
  by_decoded :
      (version salt_text key_text : Bytes)
      → split dollar encoded ≡ version ∷ salt_text ∷ key_text ∷ []
      → version ≡ hash_version
      → (salt key : Option Bytes) → decode raw_std salt_text ≡ salt
      → decode raw_std key_text ≡ key
      → same_key argon2 secret salt key ≡ true
      → IsHashOf argon2 secret encoded
  unfolding same_key
  by_decoded version salt_text key_text parts current none key s k h = absurd (ground (arith, h))
  by_decoded version salt_text key_text parts current (some salt) none s k h =
      absurd (ground (arith, h))
  by_decoded version salt_text key_text parts current (some salt) (some key) s k h =
      let (both, derived) =
        &&-eq-true (length salt == argon_salt_len && length key == argon_key_len) _ h in
      let (salted, keyed) = &&-eq-true (length salt == argon_salt_len) _ both in
      record {
        salt_text = salt_text;
        key_text = key_text;
        in_parts = parts ∙ ap (λ v. v ∷ salt_text ∷ key_text ∷ []) current;
        salt = salt;
        key = key;
        salt_decoded = s;
        key_decoded = k;
        sizes = (ground (arith, salted), ground (arith, keyed));
        derived = bytes_eq-eq _ key derived;
      }

  by_parts :
      (parts : List Bytes)
      → split dollar encoded ≡ parts
      → verify_parts argon2 secret parts ≡ true
      → IsHashOf argon2 secret encoded
  unfolding verify_parts
  by_parts [] e h = absurd (ground (arith, h))
  by_parts (a ∷ []) e h = absurd (ground (arith, h))
  by_parts (a ∷ b ∷ []) e h = absurd (ground (arith, h))
  by_parts (version ∷ salt ∷ key ∷ []) e h =
      let (current, same) = &&-eq-true (bytes_eq version hash_version) _ h in
      by_decoded version salt key e (bytes_eq-eq version hash_version current) _ _ refl refl same
  by_parts (a ∷ b ∷ c ∷ d ∷ more) e h = absurd (ground (arith, h))

  pub verify_secret-IsHashOf :
      verify_secret argon2 secret encoded ≡ true → IsHashOf argon2 secret encoded
  unfolding verify_secret
  verify_secret-IsHashOf h = by_parts _ refl h
