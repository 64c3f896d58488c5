-- ===== src/Work/Rows.antt =====
-- Properties of all rows of the work table under an update, an insertion and a claim.
use ani_inference_service.Work.Claim.{candidate, earlier, is_before}
use ani_inference_service.Work.Table.{update_where, WorkRow, Service}
use ani_inference_service.Prelude.{
  inr, [], some, true, ◌∷◌, ◌≡◌, refl, false, inl, List, ◌++◌, All, Option, Bool, Bool-cases, none,
  subst, unwrap_some,
}

module _ (P : WorkRow → Type 0) where
  pub update_where-All :
      (test : WorkRow → Bool) (change : WorkRow → WorkRow) (rows : List WorkRow)
      → ((r : WorkRow) → test r ≡ true → P r → P (change r))
      → All P rows
      → All P (update_where test change rows).0
  unfolding update_where
  update_where-All test change [] keep all = tt
  update_where-All test change (r ∷ rs) keep (p, ps) =
      let rest = update_where-All test change rs keep ps in
      elim (Bool-cases (test r)) [
        | inl passes ↦ rw passes (keep r passes p, rest)
        | inr fails ↦ rw fails (p, rest)
      ]

  pub append-All : (rows : List WorkRow) (r : WorkRow) → All P rows → P r → All P (rows ++ (r ∷ []))
  append-All [] r all p = (p, tt)
  append-All (q ∷ qs) r (pq, all) p = (pq, append-All qs r all p)

  -- A joined row that satisfies `P`.
  abbrev pub Joined : (WorkRow → Option Service) → WorkRow × Service → Type 0
  Joined pick p = P p.0 × (pick p.0 ≡ some p.1)

  earlier-Joined :
      (pick : WorkRow → Option Service) (a : WorkRow × Service) (o : Option (WorkRow × Service))
      → Joined pick a
      → ((q : WorkRow × Service) → o ≡ some q → Joined pick q)
      → Joined pick (earlier a o)
  unfolding earlier
  earlier-Joined pick a none j rest = j
  earlier-Joined pick a (some q) j rest = elim (Bool-cases (is_before q.0 a.0)) [
    | inl passes ↦ rw passes (rest q refl)
    | inr fails ↦ rw fails j
  ]

  -- A claimed row is a row of the table that `pick` joins with the service.
  pub candidate-All :
      (pick : WorkRow → Option Service) (rows : List WorkRow) (p : WorkRow × Service)
      → All P rows
      → candidate pick rows ≡ some p
      → Joined pick p
  unfolding candidate
  candidate-All pick [] p all e = cc
  candidate-All pick (r ∷ rs) p (pr, all) e =
      go (candidate pick rs) (λ q f. candidate-All pick rs q all f) (pick r) refl e
    where
      go :
          (rest : Option (WorkRow × Service))
          → ((q : WorkRow × Service) → rest ≡ some q → Joined pick q)
          → (o : Option Service) → pick r ≡ o
          → elim o [ none ↦ rest | some s ↦ some (earlier (r, s) rest) ] ≡ some p
          → Joined pick p
      go rest joined none at e = joined p e
      go rest joined (some s) at e =
          subst (Joined pick) (unwrap_some e) (earlier-Joined pick (r, s) rest (pr, at) joined)

-- Rows that pass the test are changed and the others are as they were.
pub update_where-map :
    {A : Type 0} {P Q : A → Type 0} (test : A → Bool) (change : A → A) (rows : List A)
    → ((r : A) → test r ≡ true → P r → Q (change r))
    → ((r : A) → test r ≡ false → P r → Q r)
    → All P rows
    → All Q (update_where test change rows).0
unfolding update_where
update_where-map test change [] changed kept all = tt
update_where-map test change (r ∷ rs) changed kept (p, ps) =
    let rest = update_where-map test change rs changed kept ps in
    elim (Bool-cases (test r)) [
      | inl passes ↦ rw passes (changed r passes p, rest)
      | inr fails ↦ rw fails (kept r fails p, rest)
    ]

-- Without a row that passes the test nothing changes.
pub update_where-none :
    (test : WorkRow → Bool) (change : WorkRow → WorkRow) (rows : List WorkRow)
    → All (λ r. test r ≡ false) rows
    → update_where test change rows ≡ (rows, 0)
unfolding update_where
update_where-none test change [] all = refl
update_where-none test change (r ∷ rs) (fails, all) =
    rw (fails, update_where-none test change rs all)
