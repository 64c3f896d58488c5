-- ===== src/Operation/MergedPods.antt =====
-- What `mergeManagedGPUReleasePods` (internal/data/postgres/operation_store.go) keeps.
use mathlib.Core.List.{append-nil, append_assoc}
use ani_inference_service.Operation.ReleaseScope.{
  same_pod, has_uid, by_uid, merge_release_pods, merge_from, identity_changed,
}
use ani_inference_service.Runner.State.{PodRef}
use ani_inference_service.Prelude.{
  true, ◌≡◌, some, All, ◌++◌, ◌∷◌, find_row, arith, String, any_row, eq_refl, List, [],
  if◌then◌else◌, Bool, subst, eq_iff, refl, err, sym, str_eq, false, &&-eq-true, Option, none,
  unwrap_some, ok-injective, All-map, ok, ◌∙◌,
}

-- The Pod is in the list.
unfoldable pub Has : PodRef → List PodRef → Type 0
Has p ps = any_row (same_pod p) ps ≡ true

same_pod-eq : (a b : PodRef) → same_pod a b ≡ true → a ≡ b
unfolding same_pod
same_pod-eq a b h =
    let (h4, e) = &&-eq-true _ (str_eq a.container_name b.container_name) h in
    let (h3, d) = &&-eq-true _ (str_eq a.uid b.uid) h4 in
    let (h2, c) = &&-eq-true _ (str_eq a.name b.name) h3 in
    let (x, y) =
      &&-eq-true (str_eq a.cluster_id b.cluster_id) (str_eq a.namespace b.namespace) h2 in
    let cluster = (eq_iff a.cluster_id b.cluster_id).0 x in
    let space = (eq_iff a.namespace b.namespace).0 y in
    let named = (eq_iff a.name b.name).0 c in
    let uid = (eq_iff a.uid b.uid).0 d in
    let container = (eq_iff a.container_name b.container_name).0 e in cc

same_pod_refl : (p : PodRef) → same_pod p p ≡ true
unfolding same_pod
same_pod_refl p = rw (
  eq_refl p.cluster_id,
  eq_refl p.namespace,
  eq_refl p.name,
  eq_refl p.uid,
  eq_refl p.container_name,
)

Has-left : (p : PodRef) (ps qs : List PodRef) → Has p ps → Has p (ps ++ qs)
unfolding Has any_row
Has-left p [] qs h = cc
Has-left p (x ∷ ps) qs h = ground (arith, Has-left p ps qs)

Has-last : (p : PodRef) (ps : List PodRef) → Has p (ps ++ p ∷ [])
unfolding Has any_row
Has-last p [] = rw (same_pod_refl p)
Has-last p (x ∷ ps) = ground (arith, Has-last p ps)

-- Every entry of the map is in the merged list.
Tracks : List PodRef → List PodRef → Type 0
Tracks known merged = All (λ p. Has p merged) known

Tracks-found :
    (uid : String) (p : PodRef) (known merged : List PodRef)
    → Tracks known merged
    → find_row (has_uid uid) known ≡ some p
    → Has p merged
unfolding Tracks find_row
Tracks-found uid p [] merged h e = cc
Tracks-found uid p (x ∷ known) merged (hx, h) e =
    if_found (has_uid uid x) (λ later. Tracks-found uid p known merged h later) e
  where
    if_found :
        (b : Bool)
        → (find_row (has_uid uid) known ≡ some p → Has p merged)
        → (if b then some x else find_row (has_uid uid) known) ≡ some p
        → Has p merged
    if_found true next same = subst (λ q. Has q merged) (unwrap_some same) hx
    if_found false next later = next later

by_uid-Tracks :
    (known ps merged : List PodRef)
    → Tracks known merged
    → All (λ p. Has p merged) ps
    → Tracks (by_uid known ps) merged
unfolding Tracks
by_uid-Tracks known [] merged h hs = h
by_uid-Tracks known (p ∷ ps) merged h (hp, hs) = by_uid-Tracks (p ∷ known) ps merged (hp, h) hs

Tracks-append :
    (known merged : List PodRef) (p : PodRef)
    → Tracks known merged
    → Tracks known (merged ++ p ∷ [])
unfolding Tracks
Tracks-append known merged p h = All-map known (λ q hq. Has-left q merged (p ∷ []) hq) h

-- A list that goes on from another one.
pub record Extends (ps : List PodRef) (out : List PodRef) : Type 0 where
  pub rest : List PodRef
  pub split_at : out ≡ ps ++ rest

Has-Extends : (p : PodRef) (ps out : List PodRef) → Extends ps out → Has p ps → Has p out
Has-Extends p ps out e h = subst (Has p) (sym e.split_at) (Has-left p ps e.rest h)

-- What a merge keeps and adds.
pub record Merged (merged incoming out : List PodRef) : Type 0 where
  pub extends : Extends merged out
  pub covers : All (λ p. Has p out) incoming

merge_from-Merged :
    (known merged incoming out : List PodRef)
    → Tracks known merged
    → merge_from known merged incoming ≡ ok out
    → Merged merged incoming out
unfolding merge_from Tracks
merge_from-Merged known merged [] out h e = record {
  extends = record { rest = []; split_at = sym (ok-injective e) ∙ sym (append-nil merged) };
  covers = tt;
}
merge_from-Merged known merged (p ∷ ps) out h e =
    by_entry (find_row (has_uid p.uid) known)
      (λ old found. Tracks-found p.uid old known merged h found) refl
      (λ added.
        merge_from-Merged (p ∷ known) (merged ++ p ∷ []) ps out
          (Has-last p merged, Tracks-append known merged p h) added)
      (λ kept. merge_from-Merged known merged ps out h kept) e
  where
    by_same :
        (same : Bool) (old : PodRef)
        → same_pod old p ≡ same
        → Has old merged
        → (merge_from known merged ps ≡ ok out → Merged merged ps out)
        → (if same then merge_from known merged ps else err (identity_changed p.uid)) ≡ ok out
        → Merged merged (p ∷ ps) out
    by_same true old same has kept done =
        let m = kept done in
        record {
          extends = m.extends;
          covers = (
            Has-Extends p merged out m.extends
                (subst (λ q. Has q merged) (same_pod-eq old p same) has),
            m.covers,
          );
        }
    by_same false old same has kept done = cc

    by_entry :
        (found : Option PodRef)
        → ((old : PodRef) → find_row (has_uid p.uid) known ≡ some old → Has old merged)
        → find_row (has_uid p.uid) known ≡ found
        → (merge_from (p ∷ known) (merged ++ p ∷ []) ps ≡ ok out → Merged (merged ++ p ∷ []) ps out)
        → (merge_from known merged ps ≡ ok out → Merged merged ps out)
        → (elim found [
          | none ↦ merge_from (p ∷ known) (merged ++ p ∷ []) ps
          | some old ↦
              if same_pod old p then merge_from known merged ps else err (identity_changed p.uid)
        ])
          ≡ ok out
        → Merged merged (p ∷ ps) out
    by_entry none has fresh added kept done =
        let m = added done in
        record {
          extends = record {
            rest = p ∷ m.extends.rest;
            split_at = m.extends.split_at ∙ append_assoc merged (p ∷ []) m.extends.rest;
          };
          covers = (Has-Extends p (merged ++ p ∷ []) out m.extends (Has-last p merged), m.covers);
        }
    by_entry (some old) has found added kept done =
        by_same (same_pod old p) old refl (has old found) kept done

pub own_Has : (ps : List PodRef) → All (λ p. Has p ps) ps
unfolding Has any_row
own_Has [] = tt
own_Has (p ∷ ps) = (rw (same_pod_refl p), All-map ps (λ q h. ground (arith, h)) (own_Has ps))

-- A merge that succeeds goes on from the Pods that were there and has every Pod that is given.
pub merge_release_pods-Merged :
    (existing incoming out : List PodRef)
    → merge_release_pods existing incoming ≡ ok out
    → Merged existing incoming out
unfolding merge_release_pods
merge_release_pods-Merged existing incoming out e =
    merge_from-Merged (by_uid [] existing) existing incoming out
      (by_uid-Tracks [] existing existing (unfold Tracks in tt) (own_Has existing)) e
