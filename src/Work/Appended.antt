-- ===== src/Work/Appended.antt =====
-- Rows of work that are only appended, as Repair appends them (internal/data/postgres/work_store.go).
use ani_inference_service.Work.Store.{Moment}
use ani_inference_service.Work.Table.{WorkRow, Tables, has_row, find_service, Service}
use ani_inference_service.Prelude.{
  sym, ◌∷◌, none, ◌++◌, Bool, ℕ, true, All, ◌≡◌, arith, ap, [], false, All-map, some, List, ◌∙◌,
  refl, String, All-append, subst, false_true,
}
use ani_inference_service.Work.Recovered.{Keeps}
use mathlib.Core.List.{append-nil, append_assoc}

-- A row of a service that had none, due at the time of one of the calls, under no lease and with
-- nothing acknowledged.
pub record IsAdded (moments : ℕ → Moment) (t : Tables) (r : WorkRow) : Type 0 where
  pub is_missing : has_row r.tenant_id r.service_id t.work ≡ false
  pub service : Service
  pub is_known : find_service r.tenant_id r.service_id t.services ≡ some service
  pub turn : ℕ
  pub is_due : r.next_run_at ≡ some (moments turn).now
  pub unacknowledged : r.acknowledged_version ≡ 0
  pub unleased : (r.lease_token ≡ none) × (r.lease_until ≡ none) × (r.lease_owner ≡ none)

-- Rows are only appended, and they are those of services that had none.
pub record Appends (moments : ℕ → Moment) (t t' : Tables) : Type 0 where
  pub services_stay : t'.services ≡ t.services
  pub more : List WorkRow
  pub rows_after : t'.work ≡ t.work ++ more
  pub all_added : All (IsAdded moments t) more

has_row-append :
    (tenant service : String) (rows more : List WorkRow)
    → has_row tenant service rows ≡ true
    → has_row tenant service (rows ++ more) ≡ true
has_row-append tenant service [] more h = cc h
has_row-append tenant service (r ∷ rs) more h =
    ground (arith, h, has_row-append tenant service rs more)

module _ (moments : ℕ → Moment) where
  pub Appends-refl : (t : Tables) → Appends moments t t
  Appends-refl t = record {
    services_stay = refl;
    more = [];
    rows_after = sym (append-nil t.work);
    all_added = tt;
  }

  -- What a row lacked after some were appended, it lacked before.
  IsAdded-before :
      (t u : Tables)
      → Appends moments t u
      → (r : WorkRow) → IsAdded moments u r
      → IsAdded moments t r
  IsAdded-before t u a r added = record {
    is_missing =
        by_row (has_row r.tenant_id r.service_id t.work) refl
          (has_row-append r.tenant_id r.service_id t.work a.more);
    service = added.service;
    is_known =
        subst (λ vs. find_service r.tenant_id r.service_id vs ≡ some added.service) a.services_stay
          added.is_known;
    turn = added.turn;
    is_due = added.is_due;
    unacknowledged = added.unacknowledged;
    unleased = added.unleased;
  }
    where
      by_row :
          (b : Bool)
          → has_row r.tenant_id r.service_id t.work ≡ b
          → (has_row r.tenant_id r.service_id t.work ≡ true
              → has_row r.tenant_id r.service_id (t.work ++ a.more) ≡ true)
          → has_row r.tenant_id r.service_id t.work ≡ false
      by_row false e stays = e
      by_row true e stays =
          false_true
            (sym added.is_missing ∙ ap (has_row r.tenant_id r.service_id) a.rows_after ∙ stays e)

  pub Appends-trans :
      (t u v : Tables) → Appends moments t u → Appends moments u v → Appends moments t v
  Appends-trans t u v a b = record {
    services_stay = b.services_stay ∙ a.services_stay;
    more = a.more ++ b.more;
    rows_after =
        b.rows_after ∙ ap (λ rows. rows ++ b.more) a.rows_after ∙ append_assoc t.work a.more b.more;
    all_added =
        All-append (IsAdded moments t) a.more b.more a.all_added
          (All-map b.more (IsAdded-before t u a) b.all_added);
  }

  pub Appends-Keeps : (t u : Tables) → Appends moments t u → Keeps t u
  Appends-Keeps t u a = record {
    same_services = a.services_stay;
    rows_stay = λ v h.
        subst (λ rows. has_row v.tenant_id v.id rows ≡ true) (sym a.rows_after)
          (has_row-append v.tenant_id v.id t.work a.more h);
  }
