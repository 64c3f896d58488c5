-- ===== src/Operation/Stepped.antt =====
-- Where a step of internal/data/postgres/operation_store.go finds its operation and where it leaves
-- it, written down without the statements.
use ani_inference_service.Work.Table.{
  is_token, is_live, WorkRow, Tables, has_key, Service, find_service,
}
use ani_inference_service.Operation.Store.{
  OperationStepInput, is_leased, OperationRow, is_expected, is_fenced, completion,
}
use ani_inference_service.Prelude.{
  ◌≡◌, &&-eq-true, ◌&&◌, ◌+◌, ℕ, Bool, true, ◌<◌, List, ◌∷◌, some, [], ap, String, false, none,
  Option, refl, ◌||◌, str_eq, ◌++◌, arith, eq_iff, ◌==◌,
}
use ani_inference_service.Operation.Standing.{same_phase-eq}
use ani_inference_service.Operation.Soundness.{same_step-eq}
use ani_inference_service.Operation.{succeeded, failed, pending, same_phase, same_step}
use ani_inference_service.Operation.Audited.{stepped}

-- A row of work under a lease that is live.
pub record IsLeased (now : ℕ) (token tenant service : String) (rows : List WorkRow) : Type 0 where
  pub row : WorkRow
  pub front : List WorkRow
  pub back : List WorkRow
  pub is_there : rows ≡ front ++ row ∷ back
  pub own_row : (row.tenant_id ≡ tenant) × (row.service_id ≡ service)
  pub own_token : row.lease_token ≡ some token
  pub until : ℕ
  pub leased_until : row.lease_until ≡ some until
  pub is_in_time : now < until

-- The operation stands where the input expects it, current for its service and under the lease.
pub record Stands (now : ℕ) (i : OperationStepInput) (t : Tables) (o : OperationRow) : Type 0 where
  pub same_operation : (o.tenant_id ≡ i.tenant_id) × (o.id ≡ i.operation_id)
  pub same_generation : o.target_generation ≡ i.target_generation
  pub at_phase : o.phase ≡ i.expected_phase
  pub at_step : o.step ≡ i.expected_step
  pub service : Service
  pub found : find_service o.tenant_id o.service_id t.services ≡ some service
  pub is_current : service.current_operation_id ≡ o.id
  pub is_desired : service.desired_generation ≡ o.target_generation
  pub lease : IsLeased now i.lease_token o.tenant_id o.service_id t.work

-- An advance leaves the operation at the next phase and step.
pub record Advances (now : ℕ) (i : OperationStepInput) (o o' : OperationRow) : Type 0 where
  pub next : (o'.phase ≡ i.next_phase) × (o'.step ≡ i.next_step)
  pub told : (o'.error_code ≡ i.error_code) × (o'.error_message ≡ i.error_message)
  pub undelayed : o'.retry_at ≡ none
  pub ended_well : i.next_phase ≡ succeeded → o'.completed_at ≡ some now
  pub ended_badly : i.next_phase ≡ failed → o'.completed_at ≡ some now
  pub others_stay : o' ≡ record o {
    phase = o'.phase;
    step = o'.step;
    error_code = o'.error_code;
    error_message = o'.error_message;
    retry_at = o'.retry_at;
    completed_at = o'.completed_at;
    updated_at = now;
  }

-- A retry leaves it pending at its step, one attempt further and for a later time.
pub record Reschedules (delay now : ℕ) (i : OperationStepInput) (o o' : OperationRow) : Type 0 where
  pub is_pending : o'.phase ≡ pending
  pub one_attempt : o'.attempt ≡ o.attempt + 1
  pub delayed : o'.retry_at ≡ some (now + delay)
  pub told : (o'.error_code ≡ i.error_code) × (o'.error_message ≡ i.error_message)
  pub others_stay : o' ≡ record o {
    phase = o'.phase;
    attempt = o'.attempt;
    error_code = o'.error_code;
    error_message = o'.error_message;
    retry_at = o'.retry_at;
    updated_at = now;
  }

abbrev pub Steps : Bool → ℕ → ℕ → OperationStepInput → OperationRow → OperationRow → Type 0
Steps true delay now i o o' = Reschedules delay now i o o'
Steps false delay now i o o' = Advances now i o o'

pub stepped-Steps :
    (retries : Bool) (delay now : ℕ) (i : OperationStepInput) (o : OperationRow)
    → Steps retries delay now i o (stepped retries delay now i o)
stepped-Steps true delay now i o = record {
  is_pending = refl;
  one_attempt = omega arith;
  delayed = refl;
  told = (refl, refl);
  others_stay = refl;
}
stepped-Steps false delay now i o = record {
  next = (refl, refl);
  told = (refl, refl);
  undelayed = refl;
  ended_well = λ e. ap (λ p. completion p now) e;
  ended_badly = λ e. ap (λ p. completion p now) e;
  others_stay = refl;
}

pub str_eq-eq : (s t : String) → str_eq s t ≡ true → s ≡ t
str_eq-eq s t h = ground (arith, eq_iff s t, h)

is_token-some :
    (token : String) (own : Option String) → is_token token own ≡ true → own ≡ some token
is_token-some token none h = cc
is_token-some token (some own) h = ap some (str_eq-eq own token h)

is_live-some :
    (now : ℕ) (end : Option ℕ)
    → is_live now end ≡ true
    → (until : ℕ) × (end ≡ some until) × (now < until)
is_live-some now none h = absurd (ground (arith, h))
is_live-some now (some until) h = (until, refl, ground (arith, h))

is_leased-IsLeased :
    (now : ℕ) (token tenant service : String) (rows : List WorkRow)
    → is_leased now token tenant service rows ≡ true
    → IsLeased now token tenant service rows
unfolding is_leased
is_leased-IsLeased now token tenant service [] h = absurd (ground (arith, h))
is_leased-IsLeased now token tenant service (r ∷ rs) h =
    by_row (has_key tenant service r && is_token token r.lease_token && is_live now r.lease_until)
      refl h (is_leased-IsLeased now token tenant service rs)
  where
    by_row :
        (b : Bool)
        → (has_key tenant service r && is_token token r.lease_token && is_live now r.lease_until)
          ≡ b
        → (b || is_leased now token tenant service rs) ≡ true
        → (is_leased now token tenant service rs ≡ true → IsLeased now token tenant service rs)
        → IsLeased now token tenant service (r ∷ rs)
    by_row false here any later =
        let there = later any in
        record {
          row = there.row;
          front = r ∷ there.front;
          back = there.back;
          is_there = ap (◌∷◌ r) there.is_there;
          own_row = there.own_row;
          own_token = there.own_token;
          until = there.until;
          leased_until = there.leased_until;
          is_in_time = there.is_in_time;
        }
    by_row true here any later =
        let (held, live) =
          &&-eq-true (has_key tenant service r && is_token token r.lease_token) _ here in
        let (key, token') = &&-eq-true (has_key tenant service r) _ held in
        let (own, theirs) = &&-eq-true (str_eq r.tenant_id tenant) _ key in
        let (until, e, time) = is_live-some now r.lease_until live in
        record {
          row = r;
          front = [];
          back = rs;
          is_there = refl;
          own_row = (str_eq-eq r.tenant_id tenant own, str_eq-eq r.service_id service theirs);
          own_token = is_token-some token r.lease_token token';
          until = until;
          leased_until = e;
          is_in_time = time;
        }

fenced_by-Stands :
    (now : ℕ) (i : OperationStepInput) (t : Tables) (o : OperationRow)
    → is_expected i o ≡ true
    → (found : Option Service) → find_service o.tenant_id o.service_id t.services ≡ found
    → (elim found [
      | none ↦ false
      | some s ↦
          str_eq s.current_operation_id o.id
          && s.desired_generation == o.target_generation
          && is_leased now i.lease_token o.tenant_id o.service_id t.work
    ])
      ≡ true
    → Stands now i t o
unfolding is_expected
fenced_by-Stands now i t o expected none missing h = absurd (ground (arith, h))
fenced_by-Stands now i t o expected (some s) found h =
    let (own, lease) =
      &&-eq-true (str_eq s.current_operation_id o.id && s.desired_generation == o.target_generation)
        _ h in
    let (current, desired) = &&-eq-true (str_eq s.current_operation_id o.id) _ own in
    let (e4, step) = &&-eq-true _ (same_step o.step i.expected_step) expected in
    let (e3, phase) = &&-eq-true _ (same_phase o.phase i.expected_phase) e4 in
    let (e2, generation) = &&-eq-true _ (o.target_generation == i.target_generation) e3 in
    let (tenant, id) = &&-eq-true _ (str_eq o.id i.operation_id) e2 in
    record {
      same_operation = (str_eq-eq o.tenant_id i.tenant_id tenant, str_eq-eq o.id i.operation_id id);
      same_generation = ground (arith, generation);
      at_phase = same_phase-eq o.phase i.expected_phase phase;
      at_step = same_step-eq o.step i.expected_step step;
      service = s;
      found = found;
      is_current = str_eq-eq s.current_operation_id o.id current;
      is_desired = ground (arith, desired);
      lease = is_leased-IsLeased now i.lease_token o.tenant_id o.service_id t.work lease;
    }

pub fenced-Stands :
    (now : ℕ) (i : OperationStepInput) (t : Tables) (o : OperationRow)
    → is_expected i o ≡ true
    → is_fenced now i.lease_token t o ≡ true
    → Stands now i t o
unfolding is_fenced
fenced-Stands now i t o expected fenced = fenced_by-Stands now i t o expected _ refl fenced
