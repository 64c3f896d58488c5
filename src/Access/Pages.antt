-- ===== src/Access/Pages.antt =====
-- `List` and `Get` (internal/biz/accesskey/access_key.go).
use ani_inference_service.Effect.{bind-eq-ok, require-eq-ok, need-eq-ok}
use ani_inference_service.Access.Operations.{list_page, list_keys}
use ani_inference_service.Access.Secret.{open_secret}
use ani_inference_service.Access.Key.{ListOptions, Aead, Record, Repository}
use ani_inference_service.Access.Bytes.{Bytes}
use ani_inference_service.Access.Service.{
  reveal, reveal_all, with_secret, is_empty, is_page, KeyService, paged,
}
use ani_inference_service.Prelude.{
  ◌∷◌, ℕ, [], codes, contains_code, false, ok, ok-injective, ◌≤◌, List, pos, refl, subst, Option,
  >>=-eq-ok, true, ◌≡◌, negsuc, ◌&&◌, ◌>>=◌, some, String, trim_space, ℤ, not, if◌then◌else◌, Bool,
  arith, ltb_ℤ, ap, ◌∙◌, not-eq-true,
}

-- The item with its recovered secret, where it has a ciphertext.
pub data Revealed (cipher : Option Aead) (r : Record) : Record → Type 0 where
  legacy : r.secret_ciphertext ≡ [] → Revealed cipher r r
  recovered :
      (secret : Bytes)
      → open_secret cipher r ≡ ok secret
      → Revealed cipher r (record r { secret = secret })

-- Item by item.
pub data AllRevealed (cipher : Option Aead) : List Record → List Record → Type 0 where
  none_left : AllRevealed cipher [] []
  one_more :
      {r r' : Record} {rs rs' : List Record}
      → Revealed cipher r r'
      → AllRevealed cipher rs rs'
      → AllRevealed cipher (r ∷ rs) (r' ∷ rs')

with_secret-Revealed :
    (cipher : Option Aead) (r r' : Record) → with_secret cipher r ≡ ok r' → Revealed cipher r r'
unfolding with_secret
with_secret-Revealed cipher r r' done =
    let (secret, opened, same) =
      >>=-eq-ok (λ x. ok (record r { secret = x })) (open_secret cipher r) done in
    subst (Revealed cipher r) (ok-injective same) (recovered secret opened)

is_empty-eq-true : (bs : Bytes) → is_empty bs ≡ true → bs ≡ []
is_empty-eq-true [] h = refl
is_empty-eq-true (b ∷ bs) h = cc

if_empty-Revealed :
    (cipher : Option Aead) (r r' : Record) (empty : Bool)
    → is_empty r.secret_ciphertext ≡ empty
    → (if empty then ok r else with_secret cipher r) ≡ ok r'
    → Revealed cipher r r'
if_empty-Revealed cipher r r' true h done =
    subst (Revealed cipher r) (ok-injective done) (legacy (is_empty-eq-true r.secret_ciphertext h))
if_empty-Revealed cipher r r' false h done = with_secret-Revealed cipher r r' done

reveal-Revealed :
    (cipher : Option Aead) (r r' : Record) → reveal cipher r ≡ ok r' → Revealed cipher r r'
unfolding reveal
reveal-Revealed cipher r r' done = if_empty-Revealed cipher r r' _ refl done

reveal_all-AllRevealed :
    (cipher : Option Aead) (rs rs' : List Record)
    → reveal_all cipher rs ≡ ok rs'
    → AllRevealed cipher rs rs'
unfolding reveal_all
reveal_all-AllRevealed cipher [] rs' done =
    subst (AllRevealed cipher []) (ok-injective done) none_left
reveal_all-AllRevealed cipher (r ∷ rs) rs' done =
    let (first, opened, done1) =
      >>=-eq-ok (λ x. reveal_all cipher rs >>= λ xs. ok (x ∷ xs)) (reveal cipher r) done in
    let (others, rest, same) = >>=-eq-ok (λ x. ok (first ∷ x)) (reveal_all cipher rs) done1 in
    subst (AllRevealed cipher (r ∷ rs)) (ok-injective same) (
      one_more (reveal-Revealed cipher r first opened)
        (reveal_all-AllRevealed cipher rs others rest))

-- Options that the repository may be asked for.
pub data Page : ListOptions → Type 0 where
  page :
      {limit offset : ℕ} {o : ListOptions}
      → o.limit ≡ pos limit
      → o.offset ≡ pos offset
      → 1 ≤ limit
      → limit ≤ 100
      → contains_code 0 (codes o.served_model_name) ≡ false
      → Page o

is_page-bounds :
    (limit offset : ℤ)
    → (not (ltb_ℤ limit (pos 1)) && not (ltb_ℤ (pos 100) limit) && not (ltb_ℤ offset (pos 0)))
      ≡ true
    → (m n : ℕ) × (limit ≡ pos m) × (offset ≡ pos n) × (1 ≤ m) × (m ≤ 100)
is_page-bounds (pos m) (pos n) h = (m, n, refl, refl, ground arith, ground arith)
is_page-bounds (pos m) (negsuc n) h = absurd (ground arith)
is_page-bounds (negsuc m) offset h = absurd (ground arith)

is_page-Page :
    (o : ListOptions)
    → is_page o ≡ true
    → not (contains_code 0 (codes o.served_model_name)) ≡ true
    → Page o
unfolding is_page
is_page-Page o h plain =
    let (m, n, l, f, low, high) = is_page-bounds o.limit o.offset h in
    page l f low high (not-eq-true _ plain)

module _ {S : Type 0} (service : KeyService S) where
  -- What a listing that succeeds asked for and returns.
  pub record Listed (tenant : String) (items : List Record) (total : ℤ) : Type 0 where
    pub repository : Repository S
    pub configured : service.repository ≡ some repository
    pub options : ListOptions
    pub bounded : Page options
    pub before : S
    pub after : S
    pub found : List Record
    pub answered : repository.list (trim_space tenant) options before ≡ (ok (found, total), after)
    pub revealed : AllRevealed service.cipher found items

  list_page-Listed :
      (r : Repository S)
      → service.repository ≡ some r
      → (tenant : String) (o : ListOptions) (items : List Record) (total : ℤ) (s s' : S)
      → list_page service r tenant o s ≡ (ok (items, total), s')
      → Listed tenant items total
  unfolding list_page
  list_page-Listed r configured tenant o items total s s' done =
      let (u, s1, bounded, done1) = bind-eq-ok done in
      let (v, s2, plain, done2) = bind-eq-ok done1 in
      let (found, s3, answered, done3) = bind-eq-ok done2 in
      let (opened, s4, revealed, done4) = bind-eq-ok done3 in
      let same = ok-injective (ap (λ x. x.0) done4) in
      record {
        repository = r;
        configured = configured;
        options = o;
        bounded = is_page-Page o (require-eq-ok _ bounded).0 (require-eq-ok _ plain).0;
        before = s2;
        after = s3;
        found = found.0;
        answered = answered ∙ ap (λ t. (ok (found.0, t), s3)) (ap (λ x. x.1) same);
        revealed =
            subst (AllRevealed service.cipher found.0) (ap (λ x. x.0) same)
              (reveal_all-AllRevealed service.cipher found.0 opened (ap (λ x. x.0) revealed));
      }

  -- A listing that succeeds has asked the repository for a page of at least one and at most a hundred
  -- records, at an offset that is not negative and under a model name without NUL; it returns the
  -- repository's total and its records in their order, each with the secret that its ciphertext opens
  -- to, or as it was where it has no ciphertext.
  pub list_keys-Listed :
      (tenant : String) (o : ListOptions) (items : List Record) (total : ℤ) (s s' : S)
      → list_keys service tenant o s ≡ (ok (items, total), s')
      → Listed tenant items total
  unfolding list_keys
  list_keys-Listed tenant o items total s s' done =
      let (r, s1, found, done1) = bind-eq-ok done in
      list_page-Listed r (need-eq-ok _ found).0 tenant (paged o) items total s1 s' done1
