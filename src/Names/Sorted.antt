-- ===== src/Names/Sorted.antt =====
-- Sorting names: what is in the sorted list, and that a strictly sorted list is determined by it.
use ani_inference_service.Names.{insert_sorted, contains, less, sort, add_name}
use ani_inference_service.Prelude.{
  refl, String, Bool, [], if◌then◌else◌, true, ◌≡◌, List, arith, false, ◌∷◌, ◌∙◌, ap, eq_refl,
  str_eq, eq_iff, sym, subst, less-irreflexive, less-total, less-transitive,
}

-- All names come after a given one.
pub IsBefore : String → List String → Type 0
IsBefore x [] = Unit
IsBefore x (y ∷ ys) = (less x y ≡ true) × IsBefore x ys

-- Strictly increasing.
unfoldable pub IsSorted : List String → Type 0
unfolding IsBefore
IsSorted [] = Unit
IsSorted (x ∷ xs) = IsBefore x xs × IsSorted xs

contains-insert :
    (m x : String) (ys : List String) → contains m (insert_sorted x ys) ≡ contains m (x ∷ ys)
unfolding contains insert_sorted
contains-insert m x [] = refl
contains-insert m x (y ∷ ys) = ground (arith, contains-insert m x ys)

pub contains-sort : (m : String) (xs : List String) → contains m (sort xs) ≡ contains m xs
unfolding sort contains
contains-sort m [] = refl
contains-sort m (x ∷ xs) = ground (arith, contains-insert m x (sort xs), contains-sort m xs)

IsBefore-earlier :
    (x y : String) (ys : List String) → less x y ≡ true → IsBefore y ys → IsBefore x ys
unfolding IsBefore
IsBefore-earlier x y [] l b = tt
IsBefore-earlier x y (z ∷ zs) l (a, b) = (less-transitive x y z l a, IsBefore-earlier x y zs l b)

IsBefore-insert :
    (z x : String) (ys : List String)
    → less z x ≡ true
    → IsBefore z ys
    → IsBefore z (insert_sorted x ys)
unfolding IsBefore insert_sorted
IsBefore-insert z x [] l b = (l, tt)
IsBefore-insert z x (y ∷ ys) l (a, b) = by_test (IsBefore-insert z x ys l b) (less x y)
  where
    by_test :
        IsBefore z (insert_sorted x ys)
        → (t : Bool) → IsBefore z (if t then x ∷ y ∷ ys else y ∷ insert_sorted x ys)
    by_test later true = (l, (a, b))
    by_test later false = (a, later)

-- No name twice.
unfoldable pub IsDistinct : List String → Type 0
unfolding contains
IsDistinct [] = Unit
IsDistinct (x ∷ xs) = (contains x xs ≡ false) × IsDistinct xs

after_other :
    (x y : String) (ys : List String)
    → contains x (y ∷ ys) ≡ false
    → less x y ≡ false
    → (less y x ≡ true) × (contains x ys ≡ false)
unfolding contains
after_other x y ys absent l = by_test (less y x) refl
  where
    apart : less y x ≡ false → str_eq y x ≡ true
    apart k = ground (arith, eq_iff y x, less-total x y l k)

    by_test : (b : Bool) → less y x ≡ b → (less y x ≡ true) × (contains x ys ≡ false)
    by_test true k = (k, ground (arith, absent))
    by_test false k = absurd (ground (arith, absent, apart k))

insert-IsSorted :
    (x : String) (ys : List String)
    → IsSorted ys
    → contains x ys ≡ false
    → IsSorted (insert_sorted x ys)
unfolding IsSorted IsBefore insert_sorted
insert-IsSorted x [] sorted absent = (tt, tt)
insert-IsSorted x (y ∷ ys) (before, sorted) absent =
    by_test (insert-IsSorted x ys sorted) (less x y) refl
  where
    by_test :
        (contains x ys ≡ false → IsSorted (insert_sorted x ys))
        → (b : Bool) → less x y ≡ b
        → IsSorted (if b then x ∷ y ∷ ys else y ∷ insert_sorted x ys)
    by_test later true l = ((l, IsBefore-earlier x y ys l before), (before, sorted))
    by_test later false l =
        let (k, gone) = after_other x y ys absent l in (IsBefore-insert y x ys k before, later gone)

pub sort-IsSorted : (xs : List String) → IsDistinct xs → IsSorted (sort xs)
unfolding sort IsDistinct IsSorted
sort-IsSorted [] distinct = tt
sort-IsSorted (x ∷ xs) (absent, distinct) =
    insert-IsSorted x (sort xs) (sort-IsSorted xs distinct) (contains-sort x xs ∙ absent)

contains-IsBefore : (x : String) (ys : List String) → IsBefore x ys → contains x ys ≡ false
unfolding IsBefore contains
contains-IsBefore x [] before = refl
contains-IsBefore x (y ∷ ys) (l, before) = ground (
  arith,
  eq_iff y x,
  less-irreflexive x,
  l,
  contains-IsBefore x ys before,
  λ (same : y ≡ x). sym (ap (less x) same) ∙ l,
)

pub contains-head : (x : String) (xs : List String) → contains x (x ∷ xs) ≡ true
unfolding contains
contains-head x xs = ground (arith, eq_refl x)

less-first :
    (x y : String) (ys : List String)
    → IsBefore y ys
    → contains x (y ∷ ys) ≡ true
    → less x y ≡ false
unfolding IsBefore contains
less-first x y ys before there = by_test (less x y) refl
  where
    by_test : (b : Bool) → less x y ≡ b → less x y ≡ false
    by_test false l = l
    by_test true l =
        absurd (
          ground (arith, there, contains-IsBefore x (y ∷ ys) (l, IsBefore-earlier x y ys l before)))

contains-tail :
    (x m : String) (xs ys : List String)
    → IsBefore x xs
    → IsBefore x ys
    → contains m (x ∷ xs) ≡ contains m (x ∷ ys)
    → contains m xs ≡ contains m ys
unfolding contains
contains-tail x m xs ys b c same = ground (
  arith,
  eq_iff x m,
  same,
  λ (e : x ≡ m). subst (λ k. contains k xs ≡ false) e (contains-IsBefore x xs b),
  λ (e : x ≡ m). subst (λ k. contains k ys ≡ false) e (contains-IsBefore x ys c),
)

pub sorted-eq :
    (xs ys : List String)
    → IsSorted xs
    → IsSorted ys
    → ((m : String) → contains m xs ≡ contains m ys)
    → xs ≡ ys
unfolding IsSorted IsBefore contains
sorted-eq [] [] s t same = refl
sorted-eq [] (y ∷ ys) s t same = absurd (ground (arith, same y, contains-head y ys))
sorted-eq (x ∷ xs) [] s t same = absurd (ground (arith, same x, contains-head x xs))
sorted-eq (x ∷ xs) (y ∷ ys) (b, s) (c, t) same =
    let head : x ≡ y =
      less-total x y (less-first x y ys c (sym (same x) ∙ contains-head x xs))
        (less-first y x xs b (same y ∙ contains-head y ys)) in
    let c' = subst (λ k. IsBefore k ys) (sym head) c in
    let same' : (m : String) → contains m (x ∷ xs) ≡ contains m (x ∷ ys) =
      λ m. same m ∙ ap (λ k. contains m (k ∷ ys)) (sym head) in
    let tail = sorted-eq xs ys s t (λ m. contains-tail x m xs ys b c' (same' m)) in cc (head, tail)

pub contains-add :
    (m x : String) (names : List String) → contains m (add_name x names) ≡ contains m (x ∷ names)
unfolding contains add_name
contains-add m x names = ground (arith, eq_iff x m, λ (e : x ≡ m). ap (λ k. contains k names) e)
