-- ===== src/Access/Laws.antt =====
-- What internal/biz/accesskey relies on: the documented behaviour of cipher.AEAD, rand.Read and
-- argon2.IDKey.
use ani_inference_service.Access.Bytes.{Bytes, AreBytes}
use ani_inference_service.Access.Key.{Aead, Platform, Argon}
use ani_inference_service.Prelude.{◌≡◌, ok, length, some, ◌+◌, ℕ}

-- Opening with the nonce and the data of the sealing gives the text back, and the sealed text is
-- longer by the overhead.
pub record IsLawfulAead (aead : Aead) : Type 0 where
  pub unseal-seal :
      (nonce plain data_ : Bytes)
      → length nonce ≡ aead.nonce_size
      → aead.unseal nonce (aead.seal nonce plain data_) data_ ≡ some plain
  pub length-seal :
      (nonce plain data_ : Bytes)
      → length (aead.seal nonce plain data_) ≡ length plain + aead.overhead
  pub seal-AreBytes :
      (nonce plain data_ : Bytes) → AreBytes plain → AreBytes (aead.seal nonce plain data_)

-- Random bytes and derived keys have the length that is asked for.
pub record IsLawfulPlatform {S : Type 0} (p : Platform S) : Type 0 where
  pub random-length : (n : ℕ) (bs : Bytes) (s s' : S) → p.random n s ≡ (ok bs, s') → length bs ≡ n
  pub random-AreBytes : (n : ℕ) (bs : Bytes) (s s' : S) → p.random n s ≡ (ok bs, s') → AreBytes bs
  pub length-argon2 :
      (secret salt : Bytes) (a : Argon) → length (p.argon2 secret salt a) ≡ a.key_len
  pub argon2-AreBytes : (secret salt : Bytes) (a : Argon) → AreBytes (p.argon2 secret salt a)
