-- ===== src/Work/Exclusive.antt =====
-- Claims of a service whose lease is alive (internal/data/postgres/work.sql.go).
use ani_inference_service.Work.Held.{Held, Respects, held-claimable, run_all-Held}
use ani_inference_service.Work.Invariants.{if-eq-some}
use ani_inference_service.Runner.State.{Item}
use ani_inference_service.Prelude.{
  ◌≡◌, ◌∙◌, ◌<◌, sym, List, some, String, true, ℕ, false_true, none, refl, Bool, ap, Option, ◌+◌,
  All, subst, unwrap_some, ◌∷◌,
}
use ani_inference_service.Work.History.{run, Statement, claim}
use ani_inference_service.Work.Claim.{claimable, leased_row}
use ani_inference_service.Work.Fence.{has_key-cong}
use ani_inference_service.Work.Keys.{has_key-own}
use ani_inference_service.Work.Table.{Tables, Service, WorkRow, has_key, has_row}
use ani_inference_service.Work.History.{run_all}
use ani_inference_service.Work.Claim.{claim_resource_work, take_lease, candidate, unlocked}
use ani_inference_service.Work.Rows.{Joined, candidate-All, update_where-map}
use ani_inference_service.Work.Keys.{run-has_row}
use ani_inference_service.Work.Keys.{Found, rows-Found}

abbrev pub SameService : Item → Item → Type 0
SameService a b = (a.tenant_id ≡ b.tenant_id) × (a.service_id ≡ b.service_id)

module _ (item : Item) (until : ℕ) where
  claimed-Held :
      (services : List Service) (tenant : String) (now : ℕ) (locked : WorkRow → Bool)
      (owner token : String) (lease : ℕ) (t : Tables) (other : Item)
      (o : Option (WorkRow × Service))
      → ((p : WorkRow × Service)
          → o ≡ some p
          → Joined (Held item until) (unlocked locked (claimable services tenant now)) p)
      → now < until
      → (take_lease owner token lease now t o).0 ≡ some other
      → (other.tenant_id ≡ item.tenant_id) × (other.service_id ≡ item.service_id)
      → ⊥
  unfolding take_lease
  claimed-Held services tenant now locked owner token lease t other none joined early e same = cc
  claimed-Held services tenant now locked owner token lease t other (some p) joined early e
        (st, ss) =
      let (holds, found) = joined p refl in
      let claimed = unwrap_some e in
      let own =
        has_key-cong p.0 (sym (ap (λ i. i.tenant_id) claimed ∙ st))
          (sym (ap (λ i. i.service_id) claimed ∙ ss)) in
      held-claimable services tenant now until p.0 (holds (own ∙ has_key-own p.0)).1 early
        (if-eq-some (locked p.0) (claimable services tenant now p.0) found)

  -- A claim under the lease returns another service.
  Held-claim :
      (owner token : String) (lease : ℕ) (tenant : String) (now : ℕ) (locked : WorkRow → Bool)
      (t : Tables) (other : Item)
      → All (Held item until) t.work
      → now < until
      → (claim_resource_work owner token lease tenant now locked t).0 ≡ some other
      → (other.tenant_id ≡ item.tenant_id) × (other.service_id ≡ item.service_id)
      → ⊥
  unfolding claim_resource_work
  Held-claim owner token lease tenant now locked t other all early e same =
      let pick = claimable t.services tenant now in
      let o = candidate (unlocked locked pick) t.work in
      claimed-Held t.services tenant now locked owner token lease t other o
        (λ p found. candidate-All (Held item until) (unlocked locked pick) t.work p all found) early
        e same

-- The claim itself puts the row under the lease.
take_lease-Held :
    (owner token : String) (lease now : ℕ) (t : Tables) (o : Option (WorkRow × Service))
    (item : Item)
    → (take_lease owner token lease now t o).0 ≡ some item
    → All (Held item (now + lease)) (take_lease owner token lease now t o).1.work
unfolding take_lease
take_lease-Held owner token lease now t none item e = cc
take_lease-Held owner token lease now t (some p) item e =
    let claimed = unwrap_some e in
    subst (λ i. All (Held i (now + lease)) (take_lease owner token lease now t (some p)).1.work)
      claimed
      (update_where-map (has_key p.0.tenant_id p.0.service_id) (leased_row owner token lease now)
        t.work (λ r same found own. (refl, refl))
        (λ r others found own. false_true (sym others ∙ own)) (rows-Found t.work))

-- The claimed service has a row, before and after the claim.
take_lease-Found :
    (owner token : String) (lease now : ℕ) (t : Tables) (o : Option (WorkRow × Service))
    (item : Item)
    → ((p : WorkRow × Service) → o ≡ some p → Found t.work p.0)
    → (take_lease owner token lease now t o).0 ≡ some item
    → has_row item.tenant_id item.service_id t.work ≡ true
unfolding take_lease
take_lease-Found owner token lease now t none item found e = cc
take_lease-Found owner token lease now t (some p) item found e =
    subst (λ i. has_row i.tenant_id i.service_id t.work ≡ true) (unwrap_some e) (found p refl)

claim-has_row :
    (owner token : String) (lease : ℕ) (tenant : String) (now : ℕ) (locked : WorkRow → Bool)
    (t : Tables) (item : Item)
    → (claim_resource_work owner token lease tenant now locked t).0 ≡ some item
    → has_row item.tenant_id item.service_id t.work ≡ true
unfolding claim_resource_work
claim-has_row owner token lease tenant now locked t item e =
    let pick = unlocked locked (claimable t.services tenant now) in
    take_lease-Found owner token lease now t (candidate pick t.work) item
      (λ p found. (candidate-All (Found t.work) pick t.work p (rows-Found t.work) found).0) e

claim-Held :
    (owner token : String) (lease : ℕ) (tenant : String) (now : ℕ) (locked : WorkRow → Bool)
    (t : Tables) (item : Item)
    → (claim_resource_work owner token lease tenant now locked t).0 ≡ some item
    → All
        (Held item (now + lease))
        (claim_resource_work owner token lease tenant now locked t).1.work
unfolding claim_resource_work
claim-Held owner token lease tenant now locked t item e =
    take_lease-Held owner token lease now t
      (candidate (unlocked locked (claimable t.services tenant now)) t.work) item e

-- Once a claim has returned an item for some time, then whatever happens after it as long as claims
-- come before that time is over, commits and retries are of other leases and no command releases
-- this one: a further claim before that time is over, by whichever worker, returns another service.
pub claim_excludes :
    (owner token : String) (lease : ℕ) (tenant : String) (at : ℕ) (locked : WorkRow → Bool)
    (t : Tables) (item : Item) (ss : List Statement)
    → (claim_resource_work owner token lease tenant at locked t).0 ≡ some item
    → All (Respects item (at + lease)) ss
    → (rival rival_token : String) (rival_lease : ℕ) (rival_tenant : String) (now : ℕ)
      (rival_locked : WorkRow → Bool) (other : Item)
    → now < at + lease
    → (claim_resource_work rival rival_token rival_lease rival_tenant now rival_locked
        (run_all (claim owner token lease tenant at locked ∷ ss) t)).0
      ≡ some other
    → ¬ SameService other item
unfolding run_all
claim_excludes owner token lease tenant at locked t item ss e respects rival rival_token rival_lease
      rival_tenant now rival_locked other early found =
    let s = claim owner token lease tenant at locked in
    let there =
      run-has_row item.tenant_id item.service_id s t
        (claim-has_row owner token lease tenant at locked t item e) in
    Held-claim item (at + lease) rival rival_token rival_lease rival_tenant now rival_locked
      (run_all (s ∷ ss) t) other
      (run_all-Held item (at + lease) ss (run s t) respects there
        (claim-Held owner token lease tenant at locked t item e))
      early found
