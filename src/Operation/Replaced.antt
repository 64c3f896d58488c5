-- ===== src/Operation/Replaced.antt =====
-- What an update that affects one row does to the others, and what is found afterwards.
use ani_inference_service.Command.Database.{is_operation}
use ani_inference_service.Operation.Store.{OperationRow}
use ani_inference_service.Work.Table.{update_where}
use ani_inference_service.Prelude.{
  eq_iff, Bool, List, ◌++◌, arith, some, ◌≡◌, false, refl, true, [], String, any_row, find_row, ◌∷◌,
  subst, sym,
}

-- One row is replaced and the others stay where they are.
pub record Replaces {A : Type 0} (before after : A) (rows rows' : List A) : Type 0 where
  pub front : List A
  pub back : List A
  pub rows_before : rows ≡ front ++ before ∷ back
  pub rows_after : rows' ≡ front ++ after ∷ back

module _ {A : Type 0} (test : A → Bool) (change : A → A) where
  pub update_where-none :
      (rs : List A) → (update_where test change rs).1 ≡ 0 → (update_where test change rs).0 ≡ rs
  unfolding update_where
  update_where-none [] h = refl
  update_where-none (r ∷ rs) h = by_test (test r) refl (update_where-none rs)
    where
      by_test :
          (b : Bool)
          → test r ≡ b
          → ((update_where test change rs).1 ≡ 0 → (update_where test change rs).0 ≡ rs)
          → (update_where test change (r ∷ rs)).0 ≡ r ∷ rs
      by_test true e later = absurd (ground (arith, e, h))
      by_test false e later = ground (arith, e, h, later)

  one_more :
      {rs rs' more : List A} {row : A} (r : A)
      → Replaces row (change row) rs rs'
      → more ≡ r ∷ rs'
      → Replaces row (change row) (r ∷ rs) more
  one_more r replaced e = record {
    front = r ∷ replaced.front;
    back = replaced.back;
    rows_before = cc (replaced.rows_before);
    rows_after = cc (e, replaced.rows_after);
  }

  abbrev pub OneReplaced : List A → List A → Type 0
  OneReplaced rs rs' = (row : A) × (test row ≡ true) × Replaces row (change row) rs rs'

  pub update_where-one :
      (rs : List A)
      → (update_where test change rs).1 ≡ 1
      → OneReplaced rs (update_where test change rs).0
  unfolding update_where
  update_where-one [] h = absurd (ground arith)
  update_where-one (r ∷ rs) h = by_test (test r) refl (update_where-one rs)
    where
      hit :
          test r ≡ true
          → (update_where test change rs).0 ≡ rs
          → (update_where test change (r ∷ rs)).0 ≡ change r ∷ rs
      hit e same = ground (arith, e, same)

      miss :
          test r ≡ false
          → (update_where test change (r ∷ rs)).0 ≡ r ∷ (update_where test change rs).0
      miss e = ground (arith, e)

      by_test :
          (b : Bool)
          → test r ≡ b
          → ((update_where test change rs).1 ≡ 1 → OneReplaced rs (update_where test change rs).0)
          → OneReplaced (r ∷ rs) (update_where test change (r ∷ rs)).0
      by_test true e later = (
        r,
        e,
        record {
          front = [];
          back = rs;
          rows_before = refl;
          rows_after = hit e (update_where-none rs (ground (arith, e, h)));
        },
      )
      by_test false e later =
          let (row, t, replaced) = later (ground (arith, e, h)) in
          (row, t, one_more r replaced (miss e))

-- No two operations have the same key, as the primary key of inference_operations says.
unfoldable pub IsKeyed : List OperationRow → Type 0
IsKeyed [] = Unit
IsKeyed (o ∷ os) = (any_row (is_operation o.tenant_id o.id) os ≡ false) × IsKeyed os

pub any_row-middle :
    {A : Type 0} (test : A → Bool) (front : List A) (row : A) (back : List A)
    → test row ≡ true
    → any_row test (front ++ row ∷ back) ≡ true
unfolding any_row
any_row-middle test [] row back t = rw t
any_row-middle test (x ∷ front) row back t = ground (arith, any_row-middle test front row back t)

-- The replaced operation is what is found under its key.
pub find_row-replaced :
    (tenant id : String) (front : List OperationRow) (row row' : OperationRow)
    (back : List OperationRow)
    → IsKeyed (front ++ row ∷ back)
    → is_operation tenant id row ≡ true
    → is_operation tenant id row' ≡ true
    → find_row (is_operation tenant id) (front ++ row' ∷ back) ≡ some row'
unfolding find_row IsKeyed
find_row-replaced tenant id [] row row' back keyed t t' = rw t'
find_row-replaced tenant id (x ∷ front) row row' back (fresh, keyed) t t' = ground (
  arith,
  eq_iff x.tenant_id tenant,
  eq_iff x.id id,
  t,
  fresh,
  any_row-middle (is_operation x.tenant_id x.id) front row back,
  find_row-replaced tenant id front row row' back keyed t t',
)

pub find_row-Replaces :
    (tenant id : String) {row row' : OperationRow} {rs rs' : List OperationRow}
    → Replaces row row' rs rs'
    → IsKeyed rs
    → is_operation tenant id row ≡ true
    → is_operation tenant id row' ≡ true
    → find_row (is_operation tenant id) rs' ≡ some row'
find_row-Replaces tenant id {row} {row'} replaced keyed t t' =
    subst (λ rows. find_row (is_operation tenant id) rows ≡ some row') (sym replaced.rows_after)
      (find_row-replaced tenant id replaced.front row row' replaced.back
        (subst IsKeyed replaced.rows_before keyed) t t')
