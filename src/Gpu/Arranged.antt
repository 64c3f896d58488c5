-- ===== src/Gpu/Arranged.antt =====
-- The proof of a release and the order of its Pods.
use ani_inference_service.Gpu.Release.{
  Distinct, ReleaseProofInput, validate_release_proof_input, validate_release_proof_input_iff,
  is_filled_pod,
}
use ani_inference_service.Gpu.Proof.{insert_pod, sort_pods, new_release_proof, Hashes}
use ani_inference_service.Prelude.{
  All, subst, List, str_eq, ◌≡◌, false, [], ◌∷◌, less, less-transitive, Bool, eq_iff, not,
  less-total, String, less-irreflexive, true, arith, refl, ◌∙◌, ok,
}
use mathlib.Core.List.{Permᴰ}
use ani_inference_service.Runner.State.{PodRef}

less-flip : (s t : String) → str_eq s t ≡ false → less t s ≡ not (less s t)
less-flip s t apart = by_tests (less s t) (less t s) refl refl
  where
    by_tests : (a b : Bool) → less s t ≡ a → less t s ≡ b → b ≡ not a
    by_tests true false e f = refl
    by_tests false true e f = refl
    by_tests true true e f = absurd (ground (arith, less-transitive s t s e f, less-irreflexive s))
    by_tests false false e f = absurd (ground (arith, eq_iff s t, less-total s t e f, apart))

insert_comm :
    (x y : PodRef) (ps : List PodRef)
    → str_eq x.uid y.uid ≡ false
    → insert_pod x (insert_pod y ps) ≡ insert_pod y (insert_pod x ps)
unfolding insert_pod
insert_comm x y [] apart = ground (arith, less-flip x.uid y.uid apart)
insert_comm x y (p ∷ ps) apart = ground (
  arith,
  less-flip x.uid y.uid apart,
  less-transitive x.uid y.uid p.uid,
  less-transitive y.uid x.uid p.uid,
  insert_comm x y ps apart,
)

Permᴰ-All : (P : PodRef → Type 0) {ps qs : List PodRef} → Permᴰ ps qs → All P ps → All P qs
Permᴰ-All P Permᴰ.nil all = tt
Permᴰ-All P (Permᴰ.cons e p) (h, all) = (subst P e h, Permᴰ-All P p all)
Permᴰ-All P (Permᴰ.swap e f) (h, (k, all)) = (subst P f k, (subst P e h, all))
Permᴰ-All P (Permᴰ.trans p q) all = Permᴰ-All P q (Permᴰ-All P p all)

-- The UIDs differ.
abbrev Apart : PodRef → PodRef → Type 0
Apart p q = str_eq q.uid p.uid ≡ false

Apart-symmetric : (p q : PodRef) → Apart p q → Apart q p
Apart-symmetric p q apart = ground (arith, eq_iff p.uid q.uid, eq_iff q.uid p.uid, apart)

Permᴰ-Distinct : {ps qs : List PodRef} → Permᴰ ps qs → Distinct ps → Distinct qs
Permᴰ-Distinct Permᴰ.nil distinct = tt
Permᴰ-Distinct (Permᴰ.cons {a = p} {l₂ = qs} e same) (others, distinct) = (
  subst (λ x. All (Apart x) qs) e (Permᴰ-All (Apart p) same others),
  Permᴰ-Distinct same distinct,
)
Permᴰ-Distinct (Permᴰ.swap {a = a} {b = b} {a' = c} {l = l} e f) ((ab, others), (rest, distinct)) =
    (
      (
        subst (λ y. Apart c y) e (subst (λ x. Apart x a) f (Apart-symmetric a b ab)),
        subst (λ x. All (Apart x) l) f rest,
      ),
      (subst (λ x. All (Apart x) l) e others, distinct),
    )
Permᴰ-Distinct (Permᴰ.trans p q) distinct = Permᴰ-Distinct q (Permᴰ-Distinct p distinct)

sort_pods-Permᴰ : {ps qs : List PodRef} → Permᴰ ps qs → Distinct ps → sort_pods ps ≡ sort_pods qs
unfolding sort_pods
sort_pods-Permᴰ Permᴰ.nil distinct = refl
sort_pods-Permᴰ (Permᴰ.cons e p) (others, distinct) =
    let rest = sort_pods-Permᴰ p distinct in cc (e, rest)
sort_pods-Permᴰ (Permᴰ.swap {a = a} {b = b} {l = l} e f) ((ab, others), (rest, distinct)) =
    let swapped = insert_comm a b (sort_pods l) (Apart-symmetric a b ab) in cc (e, f, swapped)
sort_pods-Permᴰ (Permᴰ.trans p q) distinct =
    sort_pods-Permᴰ p distinct ∙ sort_pods-Permᴰ q (Permᴰ-Distinct p distinct)

-- However the Pods of an accepted input are arranged, its proof is the same.
pub new_release_proof-Permᴰ :
    (hashes : Hashes) (is_rfc3339 : String → Bool) (i : ReleaseProofInput) (pods : List PodRef)
    → validate_release_proof_input is_rfc3339 i ≡ ok tt
    → Permᴰ i.pods pods
    → new_release_proof hashes is_rfc3339 (record i { pods = pods })
      ≡ new_release_proof hashes is_rfc3339 i
unfolding new_release_proof
new_release_proof-Permᴰ hashes is_rfc3339 i pods accepted same =
    let (filled, time, complete, distinct) =
      (validate_release_proof_input_iff is_rfc3339 i).0 accepted in
    let other : validate_release_proof_input is_rfc3339 (record i { pods = pods }) ≡ ok tt =
      (validate_release_proof_input_iff is_rfc3339 (record i { pods = pods })).1 (
        filled,
        time,
        Permᴰ-All (λ p. is_filled_pod p ≡ true) same complete,
        Permᴰ-Distinct same distinct,
      ) in
    rw (other, accepted, sort_pods-Permᴰ same distinct)
