-- ===== src/Work/Repaired.antt =====
-- What Recover and Repair promise: a row of work for every service that is not deleted, and that a
-- repair notifies nobody.
use ani_inference_service.Work.Appended.{Appends, Appends-Keeps, Appends-refl, Appends-trans}
use ani_inference_service.Work.Keys.{run-has_row}
use ani_inference_service.Work.History.{run, or_unchanged, upsert}
use ani_inference_service.Work.Recover.{recover, store_ensure, repair}
use ani_inference_service.Work.Settle.{
  ensure_resource_work, insert_row, upsert_resource_work, new_row, notified,
}
use ani_inference_service.Work.Table.{
  Tables, WorkRow, has_row, Service, find_service, update_where, has_key,
}
use ani_inference_service.Prelude.{
  eq_refl, String, if◌then◌else◌, Option, some, ℕ, [], subst, ap, ok, List, ◌++◌, ◌∷◌, ◌≡◌, none,
  true, refl, false, Bool, arith, sym, All,
}
use mathlib.Core.Option.{some-injective}
use ani_inference_service.Work.Recovered.{
  Keeps, HasWork, Lawful, IsCanonical, Keeps-refl, Keeps-trans, for_all-All,
}
use ani_inference_service.Work.Store.{
  answered, refused, unheard, Connection, written, store_notify, Moment, Session,
}

written-eq :
    (c : Connection) (o : Option Tables) (t : Tables) {u : Unit} {t' : Tables}
    → written c o t ≡ (ok u, t')
    → o ≡ some t'
written-eq answered none t h = cc
written-eq answered (some w) t h = ap some (ap (λ x. x.1) h)
written-eq (refused e) o t h = cc
written-eq (unheard e) o t h = cc

module _ (moments : ℕ → Moment) (turn : ℕ) (tenant service : String) (version : ℕ) where
  abbrev now : ℕ
  now = (moments turn).now

  appended-has_row :
      (rows : List WorkRow)
      → has_row tenant service (rows ++ new_row tenant service version now ∷ []) ≡ true
  appended-has_row [] = rw (eq_refl tenant, eq_refl service)
  appended-has_row (r ∷ rs) = ground (arith, appended-has_row rs)

  insert_row-Appends :
      (t t' : Tables)
      → has_row tenant service t.work ≡ false
      → insert_row tenant service version now t ≡ some t'
      → Appends moments t t' × (has_row tenant service t'.work ≡ true)
  unfolding insert_row
  insert_row-Appends t t' missing h = by_service (find_service tenant service t.services) refl h
    where
      after : Tables
      after = record t { work = t.work ++ new_row tenant service version now ∷ [] }

      by_service :
          (o : Option Service)
          → find_service tenant service t.services ≡ o
          → ◌≡◌ {A = Option Tables} (elim o [ none ↦ none | some s ↦ some after ]) (some t')
          → Appends moments t t' × (has_row tenant service t'.work ≡ true)
      by_service none found e = cc
      by_service (some s) found e =
          subst (λ x. Appends moments t x × (has_row tenant service x.work ≡ true))
            (some-injective _ _ e)
            (
              record {
                services_stay = refl;
                more = new_row tenant service version now ∷ [];
                rows_after = refl;
                all_added = (
                  record {
                    is_missing = missing;
                    service = s;
                    is_known = found;
                    turn = turn;
                    is_due = refl;
                    unacknowledged = refl;
                    unleased = (refl, refl, refl);
                  },
                  tt,
                );
              },
              appended-has_row t.work,
            )

  ensure-Appends :
      (t t' : Tables)
      → ensure_resource_work tenant service version now t ≡ some t'
      → Appends moments t t' × (has_row tenant service t'.work ≡ true)
  unfolding ensure_resource_work
  ensure-Appends t t' h = by_row (has_row tenant service t.work) refl h
    where
      by_row :
          (b : Bool)
          → has_row tenant service t.work ≡ b
          → (if b then some t else insert_row tenant service version now t) ≡ some t'
          → Appends moments t t' × (has_row tenant service t'.work ≡ true)
      by_row true there e =
          subst (λ x. Appends moments t x × (has_row tenant service x.work ≡ true))
            (some-injective _ _ e) (Appends-refl moments t, there)
      by_row false gone e = insert_row-Appends t t' gone e

  upsert-Keeps :
      (t t' : Tables)
      → upsert_resource_work tenant service version now t ≡ some t'
      → Keeps t t' × (has_row tenant service t'.work ≡ true)
  unfolding upsert_resource_work run
  upsert-Keeps t t' h = by_row (has_row tenant service t.work) refl h
    where
      stay : (own id : String) → has_row own id t.work ≡ true → has_row own id t'.work ≡ true
      stay own id found =
          subst (λ o. has_row own id (or_unchanged t o).work ≡ true) h
            (run-has_row own id (upsert tenant service version now) t found)

      renotified : Tables
      renotified = record t {
        work = (update_where (has_key tenant service) (notified version now) t.work).0;
      }

      by_row :
          (b : Bool)
          → has_row tenant service t.work ≡ b
          → (if b then some renotified else insert_row tenant service version now t) ≡ some t'
          → Keeps t t' × (has_row tenant service t'.work ≡ true)
      by_row true there e = (
        record {
          same_services = ap (λ x. x.services) (sym (some-injective _ _ e));
          rows_stay = λ v. stay v.tenant_id v.id;
        },
        stay tenant service there,
      )
      by_row false gone e =
          let (appends, there) = insert_row-Appends t t' gone e in
          (Appends-Keeps moments t t' appends, there)

module _ (parse_uuid : String → Option String) (moments : ℕ → Moment) where
  store_notify-Lawful : Lawful parse_uuid moments (store_notify parse_uuid) Keeps
  unfolding store_notify
  store_notify-Lawful = record {
    unchanged = Keeps-refl;
    chained = λ t u v. Keeps-trans;
    keeps = λ t u k. k;
    covers = λ turn v t t' own id h.
        upsert-Keeps moments turn v.tenant_id v.id v.desired_generation t t'
          (written-eq (moments turn).connection _ t (ground (arith, own, id, h)));
  }

  store_ensure-Lawful : Lawful parse_uuid moments (store_ensure parse_uuid) (Appends moments)
  unfolding store_ensure
  store_ensure-Lawful = record {
    unchanged = Appends-refl moments;
    chained = Appends-trans moments;
    keeps = Appends-Keeps moments;
    covers = λ turn v t t' own id h.
        ensure-Appends moments turn v.tenant_id v.id v.desired_generation t t'
          (written-eq (moments turn).connection _ t (ground (arith, own, id, h)));
  }

  -- With nobody else at the tables, whose identifiers print as they are parsed: if a recovery
  -- succeeds, every service that is not deleted has a row of work, no row was lost, and the services are as they were.
  pub recover-HasWork :
      (s s' : Session)
      → IsCanonical parse_uuid s.tables.services
      → recover parse_uuid moments s ≡ (ok tt, s')
      → Keeps s.tables s'.tables
        × All (λ v. v.deleted ≡ false → HasWork s'.tables v) s.tables.services
  unfolding recover
  recover-HasWork s s' canonical h =
      for_all-All parse_uuid moments (store_notify parse_uuid) Keeps store_notify-Lawful s s'
        canonical h

  -- With nobody else at the tables, whose identifiers print as they are parsed: if a repair
  -- succeeds, every service that is not deleted has a row of work, and the rows that were there are
  -- as they were, followed by rows of services that had none, which are under no lease, have nothing
  -- acknowledged and are due at the time of one of the calls of the database.
  pub repair-HasWork :
      (s s' : Session)
      → IsCanonical parse_uuid s.tables.services
      → repair parse_uuid moments s ≡ (ok tt, s')
      → Appends moments s.tables s'.tables
        × All (λ v. v.deleted ≡ false → HasWork s'.tables v) s.tables.services
  unfolding repair
  repair-HasWork s s' canonical h =
      for_all-All parse_uuid moments (store_ensure parse_uuid) (Appends moments) store_ensure-Lawful
        s s' canonical h
