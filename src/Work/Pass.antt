-- ===== src/Work/Pass.antt =====
-- Passes of `Loop.RunOnce` (internal/biz/work/loop.go) over the tenants.
use ani_inference_service.Failure.{Error}
use ani_inference_service.Runner.State.{Item, WorkResult}
use ani_inference_service.Prelude.{
  ◌≡◌, Result, ok, ◌∷◌, Option, [], none, refl, String, List, some, err, ◌∙◌, ◌↔◌, sym, ap, Bool,
  str_eq, if◌then◌else◌, false, true,
}
use ani_inference_service.Work.Worker.{
  Store, Scheduler, run_tenants, run_pass, join_error, visit, with_visit, run_close, run_listed,
  run_once, wrap_error,
}

join_error-none :
    (joined more : Option Error) → more ≡ none → (join_error joined more ≡ none) ↔ (joined ≡ none)
join_error-none none more e = (λ h. refl, λ h. e)
join_error-none (some x) none e = (λ h. cc, λ h. cc)
join_error-none (some x) (some y) e = (λ h. cc, λ h. cc)

-- The tenants with a name.
abbrev pub with_name : List String → List String
with_name [] = []
with_name (tenant ∷ tenants) =
    if str_eq tenant "" then with_name tenants else tenant ∷ with_name tenants

module _ {S : Type 0} (store : Store S) (execute : Item → S → Result Error WorkResult × S)
    (scheduler : Scheduler S) where
  -- Every tenant is visited once, in the order of the list.
  abbrev pub visit_all : List String → S → S
  visit_all [] s = s
  visit_all (tenant ∷ tenants) s = visit_all tenants (visit store execute scheduler tenant s).1

  -- All of these visits return nil.
  abbrev pub AllSucceed : List String → S → Type 0
  AllSucceed [] s = Unit
  AllSucceed (tenant ∷ tenants) s =
      ((visit store execute scheduler tenant s).0 ≡ ok tt)
      × AllSucceed tenants (visit store execute scheduler tenant s).1

  -- The context is never cancelled.
  abbrev pub Live : Type 0
  Live = (s : S) → scheduler.cancelled s ≡ none

  run_tenants-next :
      (tenant : String) (tenants : List String) (joined : Option Error) (s : S)
      → scheduler.cancelled s ≡ none
      → run_tenants store execute scheduler (tenant ∷ tenants) joined s
        ≡ run_tenants store execute scheduler tenants
            (with_visit store execute scheduler tenant joined
              (visit store execute scheduler tenant s).0)
            (visit store execute scheduler tenant s).1
  unfolding run_tenants
  run_tenants-next tenant tenants joined s live = rw (live, run_tenants) refl

  run_tenants-visits :
      (tenants : List String) (joined : Option Error) (s : S)
      → Live
      → (run_tenants store execute scheduler tenants joined s).1 ≡ visit_all tenants s
  unfolding run_tenants
  run_tenants-visits [] joined s live = refl
  run_tenants-visits (tenant ∷ tenants) joined s live =
      ap (λ p. p.1) (run_tenants-next tenant tenants joined s (live s))
      ∙ run_tenants-visits tenants _ (visit store execute scheduler tenant s).1 live

  -- Errors only accumulate.
  with_visit-none :
      (tenant : String) (joined : Option Error) (r : Result Error Unit)
      → (with_visit store execute scheduler tenant joined r ≡ none)
        ↔ ((joined ≡ none) × (r ≡ ok tt))
  with_visit-none tenant none (ok u) = (λ h. (refl, refl), λ h. refl)
  with_visit-none tenant none (err e) = (λ h. cc, λ h. cc)
  with_visit-none tenant (some x) (ok u) = (λ h. cc, λ h. cc)
  with_visit-none tenant (some x) (err e) = (λ h. cc, λ h. cc)

  run_tenants-none :
      (tenants : List String) (joined : Option Error) (s : S)
      → Live
      → ((run_tenants store execute scheduler tenants joined s).0 ≡ none)
        ↔ ((joined ≡ none) × AllSucceed tenants s)
  unfolding run_tenants
  run_tenants-none [] joined s live =
      let e = join_error-none joined (scheduler.cancelled s) (live s) in
      (λ h. (e.0 h, tt), λ h. e.1 h.0)
  run_tenants-none (tenant ∷ tenants) joined s live =
      let (result, after) = visit store execute scheduler tenant s in
      let more = with_visit store execute scheduler tenant joined result in
      let next = run_tenants-next tenant tenants joined s (live s) in
      let rest = run_tenants-none tenants more after live in
      let here = with_visit-none tenant joined result in
      (
        λ h.
            let (a, b) = rest.0 (sym (ap (λ p. p.0) next) ∙ h) in
            let (c, d) = here.0 a in (c, (d, b)),
        λ h. ap (λ p. p.0) next ∙ rest.1 (here.1 (h.0, h.1.0), h.1.1),
      )

  -- The worker's runs for some tenants, one after the other.
  abbrev pub run_each : List String → S → S
  run_each [] s = s
  run_each (tenant ∷ tenants) s = run_each tenants (run_once store execute tenant s).1

  -- All of these runs return nil.
  abbrev pub AllReturnNil : List String → S → Type 0
  AllReturnNil [] s = Unit
  AllReturnNil (tenant ∷ tenants) s =
      ((run_once store execute tenant s).0 ≡ ok tt)
      × AllReturnNil tenants (run_once store execute tenant s).1

  visit_all-run_each :
      (tenants : List String) (s : S) → visit_all tenants s ≡ run_each (with_name tenants) s
  unfolding visit
  visit_all-run_each [] s = refl
  visit_all-run_each (tenant ∷ tenants) s = by_name (str_eq tenant "") (visit_all-run_each tenants)
    where
      by_name :
          (b : Bool)
          → ((s' : S) → visit_all tenants s' ≡ run_each (with_name tenants) s')
          → visit_all tenants (if b then (ok tt, s) else run_once store execute tenant s).1
            ≡ run_each (if b then with_name tenants else tenant ∷ with_name tenants) s
      by_name true rest = rest s
      by_name false rest = rest (run_once store execute tenant s).1

  AllSucceed-AllReturnNil :
      (tenants : List String) (s : S) → AllSucceed tenants s ↔ AllReturnNil (with_name tenants) s
  unfolding visit
  AllSucceed-AllReturnNil [] s = (λ h. h, λ h. h)
  AllSucceed-AllReturnNil (tenant ∷ tenants) s =
      by_name (str_eq tenant "") (AllSucceed-AllReturnNil tenants)
    where
      by_name :
          (b : Bool)
          → ((s' : S) → AllSucceed tenants s' ↔ AllReturnNil (with_name tenants) s')
          → (((if b then (ok tt, s) else run_once store execute tenant s).0 ≡ ok tt)
              × AllSucceed tenants (if b then (ok tt, s) else run_once store execute tenant s).1)
            ↔ AllReturnNil (if b then with_name tenants else tenant ∷ with_name tenants) s
      by_name true rest = (λ h. (rest s).0 h.1, λ h. (refl, (rest s).1 h))
      by_name false rest =
          let (there, back) = rest (run_once store execute tenant s).1 in
          (λ h. (h.0, there h.1), λ h. (h.0, back h.1))

  -- The close scan, where there is one, and the tenants that are listed behind it.
  abbrev pub close_scan : Option (S → Result Error Unit × S) → S → Result Error Unit × S
  close_scan none s = (ok tt, s)
  close_scan (some close) s = close s

  abbrev pub listing : S → Result Error (List String) × S
  listing s = scheduler.list_tenants (close_scan scheduler.close s).1

  run_close-close_scan :
      (close : Option (S → Result Error Unit × S)) (s : S)
      → run_close store execute scheduler close s
        ≡ (wrap_error "managed close" (close_scan close s).0, (close_scan close s).1)
  run_close-close_scan none s = refl
  run_close-close_scan (some close) s = refl

  wrap_error-none :
      (text : String) (r : Result Error Unit) → (wrap_error text r ≡ none) ↔ (r ≡ ok tt)
  wrap_error-none text (ok u) = (λ h. refl, λ h. refl)
  wrap_error-none text (err e) = (λ h. cc, λ h. cc)

  abbrev close_error : S → Option Error
  close_error s = wrap_error "managed close" (close_scan scheduler.close s).0

  run_pass-listed :
      (s : S) (tenants : List String)
      → Live
      → (listing s).0 ≡ ok tenants
      → run_pass store execute scheduler s
        ≡ run_tenants store execute scheduler tenants (close_error s) (listing s).1
  unfolding run_pass
  run_pass-listed s tenants live e =
      rw (live s, run_pass)
        (ap behind (run_close-close_scan scheduler.close s)
          ∙ ap (λ r. run_listed store execute scheduler (close_error s) r (listing s).1) e)
    where
      behind : Option Error × S → Option Error × S
      behind p =
          run_listed store execute scheduler p.0 (scheduler.list_tenants p.1).0
            (scheduler.list_tenants p.1).1

  -- While the context is not cancelled and the tenants can be listed behind the close scan, if there
  -- is one: one pass runs the worker once for every tenant with a name, in the order of the list and
  -- whichever of them fail, and for no other; and it returns nil exactly if the close scan and all
  -- of these runs do.
  pub run_pass-visits :
      (s : S) (tenants : List String)
      → Live
      → (listing s).0 ≡ ok tenants
      → ((run_pass store execute scheduler s).1 ≡ run_each (with_name tenants) (listing s).1)
        × (((run_pass store execute scheduler s).0 ≡ none) ↔ (
            ((close_scan scheduler.close s).0 ≡ ok tt)
            × AllReturnNil (with_name tenants) (listing s).1))
  run_pass-visits s tenants live e =
      let same = run_pass-listed s tenants live e in
      let closed = wrap_error-none "managed close" (close_scan scheduler.close s).0 in
      let nil = run_tenants-none tenants (close_error s) (listing s).1 live in
      let runs = AllSucceed-AllReturnNil tenants (listing s).1 in
      (
        ap (λ p. p.1) same
            ∙ run_tenants-visits tenants (close_error s) (listing s).1 live
            ∙ visit_all-run_each tenants (listing s).1,
        (
          λ h. let (a, b) = nil.0 (sym (ap (λ p. p.0) same) ∙ h) in (closed.0 a, runs.0 b),
          λ h. ap (λ p. p.0) same ∙ nil.1 (closed.1 h.0, runs.1 h.1),
        ),
      )
