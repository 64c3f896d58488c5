-- ===== src/Access/Issued.antt =====
-- What `Create` and `Rotate` (internal/biz/accesskey/access_key.go) hand to the repository.
use ani_inference_service.Access.RoundTrip.{
  verify_secret-hash_with, with_ciphertext, secret_of-shape, open_secret-seal_with,
  secret_of-AreBytes,
}
use ani_inference_service.Effect.{bind-eq-ok, continue}
use ani_inference_service.Access.Secret.{verify_secret, key_prefix, open_secret, is_secret_of}
use ani_inference_service.Access.Issue.{new_secret, hash_secret, seal_secret, seal_by}
use ani_inference_service.Access.Bytes.{Bytes, AreBytes}
use ani_inference_service.Access.Laws.{IsLawfulPlatform, IsLawfulAead}
use ani_inference_service.Access.Service.{KeyService, created, rotated, created_by}
use ani_inference_service.Access.Key.{
  Platform, KeyError, explained, Record, Aead, IssueResult, CreateInput, PersistResult,
}
use ani_inference_service.Prelude.{
  true, ok, ◌≡◌, Result, subst, some, String, ok-injective, err, ap, false, refl, Option, none, [],
  sym, ◌∙◌, Bool, false_true,
}

explain-eq-ok :
    {S A : Type 0} (text : String) (r : Result KeyError A × S) {a : A} {s' : S}
    → ◌≡◌ {A = Result KeyError A × S} (explained text r.0, r.1) (ok a, s')
    → r ≡ (ok a, s')
explain-eq-ok text (ok a, s) done = cc
explain-eq-ok text (err e, s) done = cc

-- What is stored with a secret: a hash that the secret verifies against, its prefix, and a
-- ciphertext that opens to it.
pub record IsStoredWith {S : Type 0} (service : KeyService S) (secret : Bytes) (r : Record)
    : Type 0 where
  pub verifies : verify_secret service.platform.argon2 secret r.secret_hash ≡ true
  pub is_found : r.key_prefix ≡ key_prefix secret
  pub opens : open_secret service.cipher r ≡ ok secret

module _ {S : Type 0} (p : Platform S) (lawful : IsLawfulPlatform p) where
  -- The shape of a new secret.
  abbrev pub IsNew : Bytes → Type 0
  IsNew secret =
      AreBytes secret
      × ((r : Record) → r.key_prefix ≡ key_prefix secret → is_secret_of r secret ≡ true)

  pub new_secret-IsNew :
      (secret : Bytes) (s s' : S) → new_secret p s ≡ (ok secret, s') → IsNew secret
  unfolding new_secret
  new_secret-IsNew secret s s' made =
      let (random, s1, drawn, same) = bind-eq-ok made in
      let drawn' = explain-eq-ok _ (p.random 32 s) drawn in
      subst IsNew (ok-injective (ap (λ x. x.0) same)) (
        secret_of-AreBytes random (lawful.random-AreBytes 32 random s s1 drawn'),
        λ r e. secret_of-shape p lawful random (lawful.random-length 32 random s s1 drawn') r e,
      )

  pub hash_secret-verifies :
      (secret hash : Bytes) (s s' : S)
      → hash_secret p secret s ≡ (ok hash, s')
      → verify_secret p.argon2 secret hash ≡ true
  unfolding hash_secret
  hash_secret-verifies secret hash s s' made =
      let (salt, s1, drawn, same) = bind-eq-ok made in
      let drawn' = explain-eq-ok _ (p.random 16 s) drawn in
      let verified =
        verify_secret-hash_with p lawful secret salt (lawful.random-length 16 salt s s1 drawn')
          (lawful.random-AreBytes 16 salt s s1 drawn') in
      subst (λ x. verify_secret p.argon2 secret x ≡ true) (ok-injective (ap (λ x. x.0) same))
        verified

  seal_by-opens :
      (aead : Aead)
      → IsLawfulAead aead
      → (r : Record) (secret c : Bytes) (s s' : S) → seal_by p aead r secret s ≡ (ok c, s')
      → AreBytes secret
      → is_secret_of r secret ≡ true
      → open_secret (some aead) (with_ciphertext r c) ≡ ok secret
  unfolding seal_by
  seal_by-opens aead trusted r secret c s s' made bytes shape =
      let (nonce, s1, drawn, same) = bind-eq-ok made in
      let size = lawful.random-length aead.nonce_size nonce s s1 drawn in
      let opened =
        open_secret-seal_with aead trusted r secret nonce size
          (lawful.random-AreBytes aead.nonce_size nonce s s1 drawn) bytes shape in
      subst (λ x. open_secret (some aead) (with_ciphertext r x) ≡ ok secret)
        (ok-injective (ap (λ x. x.0) same)) opened

  -- Every cipher that is there is lawful.
  pub seal_secret-opens :
      (cipher : Option Aead)
      → ((aead : Aead) → cipher ≡ some aead → IsLawfulAead aead)
      → (r : Record) (secret c : Bytes) (s s' : S) → seal_secret p cipher r secret s ≡ (ok c, s')
      → AreBytes secret
      → is_secret_of r secret ≡ true
      → open_secret cipher (with_ciphertext r c) ≡ ok secret
  unfolding seal_secret continue
  seal_secret-opens none trusted r secret c s s' made bytes shape = cc
  seal_secret-opens (some aead) trusted r secret c s s' made bytes shape =
      seal_by-opens aead (trusted aead refl) r secret c s s' made bytes shape

-- What the caller of `Create` gets for the repository's answer.
pub record IsAnswer (secret : Bytes) (answer : PersistResult) (result : IssueResult) : Type 0 where
  pub returned : result.key ≡ answer.key
  pub same_replay : result.replayed ≡ answer.replayed
  pub fresh : result.replayed ≡ false → result.secret ≡ secret
  pub hidden : result.replayed ≡ true → result.secret ≡ []

created_by-IsAnswer :
    (replayed same : Bool) (secret : Bytes) (answer : PersistResult) (result : IssueResult)
    → answer.replayed ≡ replayed
    → created_by replayed same secret answer.key ≡ ok result
    → IsAnswer secret answer result
created_by-IsAnswer false same secret answer result h done =
    let e = ok-injective done in
    record {
      returned = sym (ap (λ x. x.key) e);
      same_replay = sym (ap (λ x. x.replayed) e) ∙ sym h;
      fresh = λ f. sym (ap (λ x. x.secret) e);
      hidden = λ f. false_true (ap (λ x. x.replayed) e ∙ f);
    }
created_by-IsAnswer true true secret answer result h done =
    let e = ok-injective done in
    record {
      returned = sym (ap (λ x. x.key) e);
      same_replay = sym (ap (λ x. x.replayed) e) ∙ sym h;
      fresh = λ f. false_true (sym f ∙ sym (ap (λ x. x.replayed) e));
      hidden = λ f. sym (ap (λ x. x.secret) e);
    }
created_by-IsAnswer true false secret answer result h done = cc

pub created-IsAnswer :
    (i : CreateInput) (secret : Bytes) (answer : PersistResult) (result : IssueResult)
    → created i secret answer ≡ ok result
    → IsAnswer secret answer result
unfolding created
created-IsAnswer i secret answer result done =
    created_by-IsAnswer answer.replayed _ secret answer result refl done

pub rotated-IsAnswer :
    (secret : Bytes) (answer : PersistResult) → IsAnswer secret answer (rotated secret answer)
rotated-IsAnswer secret answer = record {
  returned = refl;
  same_replay = refl;
  fresh = λ h. rw h;
  hidden = λ h. rw h;
}
