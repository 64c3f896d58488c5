-- ===== src/Access/Stored.antt =====
-- What `Create` and `Rotate` (internal/biz/accesskey/access_key.go) store and return.
use ani_inference_service.Access.Secret.{key_prefix}
use ani_inference_service.Access.RoundTrip.{with_ciphertext}
use ani_inference_service.Access.Issued.{
  IsStoredWith, created-IsAnswer, IsAnswer, hash_secret-verifies, seal_secret-opens,
  new_secret-IsNew, new_secret-IsNew,
}
use ani_inference_service.Effect.{bind-eq-ok, need-eq-ok}
use ani_inference_service.Access.Issue.{new_secret, hash_secret, seal_secret}
use ani_inference_service.Access.Bytes.{Bytes}
use ani_inference_service.Access.Operations.{
  persist_new, create, create_tidy, persist_as, new_input,
}
use ani_inference_service.Access.Key.{
  IssueResult, Record, Aead, Repository, RotatePersistInput, CreatePersistInput, CreateInput,
  PersistResult,
}
use ani_inference_service.Access.Laws.{IsLawfulPlatform, IsLawfulAead}
use ani_inference_service.Access.Service.{KeyService, new_record, rotated_record, tidy}
use ani_inference_service.Prelude.{some, ◌∙◌, ◌≡◌, ap, trim_space, ok, refl, String}

module _ {S : Type 0} (service : KeyService S) where
  -- The collaborators behave as documented.
  pub record IsTrusted : Type 0 where
    pub platform : IsLawfulPlatform service.platform
    pub cipher : (aead : Aead) → service.cipher ≡ some aead → IsLawfulAead aead

  -- A creation that succeeds: the repository took a record that goes with a secret.
  pub record Created (result : IssueResult) (s' : S) : Type 0 where
    pub repository : Repository S
    pub configured : service.repository ≡ some repository
    pub input : CreatePersistInput
    pub answer : PersistResult
    pub before : S
    pub persisted : repository.create input before ≡ (ok answer, s')
    pub secret : Bytes
    pub stored : IsStoredWith service secret input.key
    pub answered : IsAnswer secret answer result

  -- A rotation that succeeds: the repository took what goes with a new secret.
  pub record Rotated (tenant id : String) (result : IssueResult) (s' : S) : Type 0 where
    pub repository : Repository S
    pub configured : service.repository ≡ some repository
    pub input : RotatePersistInput
    pub answer : PersistResult
    pub before : S
    pub persisted :
        repository.rotate (trim_space tenant) (trim_space id) input before ≡ (ok answer, s')
    pub secret : Bytes
    pub stored : IsStoredWith service secret (
        with_ciphertext (rotated_record tenant id secret input.secret_hash) input.secret_ciphertext)
    pub stored_prefix : input.key_prefix ≡ key_prefix secret
    pub answered : IsAnswer secret answer result

  module _ (trusted : IsTrusted) where
    -- Hashing and sealing a new secret makes a record that goes with it.
    stored_with :
        (r : Record) (secret hash c : Bytes) (s0 s1 s2 s3 s4 : S)
        → new_secret service.platform s0 ≡ (ok secret, s1)
        → hash_secret service.platform secret s1 ≡ (ok hash, s2)
        → seal_secret service.platform service.cipher r secret s3 ≡ (ok c, s4)
        → r.key_prefix ≡ key_prefix secret
        → r.secret_hash ≡ hash
        → IsStoredWith service secret (with_ciphertext r c)
    stored_with r secret hash c s0 s1 s2 s3 s4 made hashed sealed found same_hash = record {
      verifies =
          rw same_hash
            (hash_secret-verifies service.platform trusted.platform secret hash s1 s2 hashed);
      is_found = found;
      opens =
          let (bytes, shape) =
            new_secret-IsNew service.platform trusted.platform secret s0 s1 made in
          seal_secret-opens service.platform trusted.platform service.cipher trusted.cipher r secret
            c s3 s4 sealed bytes (shape r found);
    }

    persist_as-Created :
        (r : Repository S)
        → service.repository ≡ some r
        → (i : CreateInput) (result : IssueResult) (secret hash : Bytes) (id : String)
        → (s0 s1 s2 s3 s' : S) → new_secret service.platform s0 ≡ (ok secret, s1)
        → hash_secret service.platform secret s1 ≡ (ok hash, s2)
        → persist_as service r i secret hash id s3 ≡ (ok result, s')
        → Created result s'
    unfolding persist_as new_record new_input
    persist_as-Created r configured i result secret hash id s0 s1 s2 s3 s' made hashed done =
        let (c, s4, sealed, done4) = bind-eq-ok done in
        let (answer, s5, persisted, done5) = bind-eq-ok done4 in
        record {
          repository = r;
          configured = configured;
          input = new_input service i id secret hash c;
          answer = answer;
          before = s4;
          persisted = persisted ∙ ap (λ x. (ok answer, x.1)) done5;
          secret = secret;
          stored =
              stored_with (new_record i id secret hash) secret hash c s0 s1 s2 s3 s4 made hashed
                sealed refl refl;
          answered = created-IsAnswer i secret answer result (ap (λ x. x.0) done5);
        }

    persist_new-Created :
        (r : Repository S)
        → service.repository ≡ some r
        → (i : CreateInput) (result : IssueResult) (s s' : S)
        → persist_new service r i s ≡ (ok result, s')
        → Created result s'
    unfolding persist_new
    persist_new-Created r configured i result s s' done =
        let (secret, s1, made, done1) = bind-eq-ok done in
        let (hash, s2, hashed, done2) = bind-eq-ok done1 in
        let (id, s3, named, done3) = bind-eq-ok done2 in
        persist_as-Created r configured i result secret hash id s s1 s2 s3 s' made hashed done3

    -- A creation that succeeds has handed the repository a record whose prefix is that of a secret,
    -- whose hash the secret verifies against and whose ciphertext opens to it, and returns the
    -- repository's record with this secret, or with none where the repository replays an earlier
    -- creation; the platform and the cipher behave as documented.
    pub create-Created :
        (i : CreateInput) (result : IssueResult) (s s' : S)
        → create service i s ≡ (ok result, s')
        → Created result s'
    unfolding create create_tidy
    create-Created i result s s' done =
        let (r, s1, found, done1) = bind-eq-ok done in
        let (u, s2, filled, done2) = bind-eq-ok done1 in
        let (now, s3, read, done3) = bind-eq-ok done2 in
        let (v, s4, valid, done4) = bind-eq-ok done3 in
        persist_new-Created r (need-eq-ok _ found).0 (tidy i) result s4 s' done4
