-- ===== src/Resources/Settled.antt =====
-- What `Normalize` says of each resource.
use ani_inference_service.Prelude.{
  none, List, false, trim_space, str_eq, true, or_fail, some, Result, if◌then◌else◌, ok-injective,
  >>=-eq-ok, refl, Option, or_fail-eq-ok, subst, String, ok, ◌≡◌, Bool, ap, not-eq-true, arith,
  ◌&&◌, sym, ◌>>=◌, not, guard-then-eq-ok, ◌∙◌,
}
use ani_inference_service.Resources.{Spec}
use ani_inference_service.Resources.Normalize.{
  Quantities, non_negative, parse_quantity, parse_raw, lookup, ResourceError, effective, with_entry,
  is_extended, exceeds, differ, settle_resource, fit, invalid_limit, invalid_request,
}

module _ (q : Quantities) where
  -- A quantity as it stands in a map.
  abbrev pub printed : Option q.Quantity → Option String
  printed none = none
  printed (some a) = some (q.print a)

  -- The text is absent, or a quantity that is not negative.
  pub data IsParsed : Option String → Option q.Quantity → Type 0 where
    absent : IsParsed none none
    parsed :
        (raw : String) (a : q.Quantity)
        → q.parse (trim_space raw) ≡ some a
        → q.is_negative a ≡ false
        → IsParsed (some raw) (some a)

  -- The entries of a name in the normal form, and how they come from those in the specification.
  pub record IsSettled (s n : Spec) (name : String) : Type 0 where
    pub own : Option q.Quantity
    pub limit : Option q.Quantity
    pub own_parsed : IsParsed (lookup name s.requests) own
    pub limit_parsed : IsParsed (lookup name s.limits) limit
    pub request_stored : lookup name n.requests ≡ printed (effective q (is_extended name) own limit)
    pub limit_stored : lookup name n.limits ≡ printed limit
    pub bounded : exceeds q (effective q (is_extended name) own limit) limit ≡ false
    pub extended_equal : is_extended name ≡ true → differ q own limit ≡ false

  kept_if :
      (b c : q.Quantity) (negative : Bool)
      → ◌≡◌ {A = Option q.Quantity} (if negative then none else some b) (some c)
      → (b ≡ c) × (negative ≡ false)
  kept_if b c true e = cc
  kept_if b c false e = (cc, refl)

  non_negative-some :
      (o : Option q.Quantity) (a : q.Quantity)
      → non_negative q o ≡ some a
      → (o ≡ some a) × (q.is_negative a ≡ false)
  non_negative-some none a e = cc
  non_negative-some (some b) a e =
      let (same_quantity, sign) = kept_if b a (q.is_negative b) e in
      (ap some same_quantity, subst (λ x. q.is_negative x ≡ false) same_quantity sign)

  parse_quantity-some :
      (raw : String) (a : q.Quantity)
      → parse_quantity q raw ≡ some a
      → (q.parse (trim_space raw) ≡ some a) × (q.is_negative a ≡ false)
  unfolding parse_quantity
  parse_quantity-some raw a h =
      non_negative-some (q.parse (trim_space raw)) a (by_blank (str_eq (trim_space raw) "") h)
    where
      by_blank :
          (b : Bool)
          → (if b then none else non_negative q (q.parse (trim_space raw))) ≡ some a
          → non_negative q (q.parse (trim_space raw)) ≡ some a
      by_blank true e = cc
      by_blank false e = e

  pub parse_raw-IsParsed :
      (raw : Option String) (e : ResourceError) (o : Option q.Quantity)
      → parse_raw q raw e ≡ ok o
      → IsParsed raw o
  unfolding parse_raw
  parse_raw-IsParsed none e o h = subst (IsParsed none) (ok-injective h) absent
  parse_raw-IsParsed (some raw) e o h =
      let last : q.Quantity → Result ResourceError (Option q.Quantity) = λ a. ok (some a) in
      let (a, found, h1) = >>=-eq-ok last (or_fail (parse_quantity q raw) e) h in
      let (p, sign) = parse_quantity-some raw a (or_fail-eq-ok _ _ found) in
      subst (IsParsed (some raw)) (ok-injective h1) (parsed raw a p sign)

  pub lookup-own_entry :
      (m name : String) (o : Option q.Quantity) (rest : List (String × String)) (b : Bool)
      → lookup m rest ≡ (if b then printed o else none)
      → str_eq name m ≡ true
      → lookup m (with_entry q name o rest) ≡ printed o
  unfolding lookup with_entry
  lookup-own_entry m name none rest true h found = h
  lookup-own_entry m name none rest false h found = h
  lookup-own_entry m name (some a) rest b h found = rw found

  pub lookup-other_entry :
      (m name : String) (o : Option q.Quantity) (rest : List (String × String))
      → str_eq name m ≡ false
      → lookup m (with_entry q name o rest) ≡ lookup m rest
  unfolding lookup with_entry
  lookup-other_entry m name none rest other = refl
  lookup-other_entry m name (some a) rest other = rw other

  abbrev pub Entry : Type 0
  Entry = Option q.Quantity × Option q.Quantity

  pub settle_resource-IsSettled :
      (s n : Spec) (m : String) (e : Entry)
      → settle_resource q s m ≡ ok e
      → lookup m n.requests ≡ printed e.0
      → lookup m n.limits ≡ printed e.1
      → IsSettled s n m
  unfolding settle_resource fit
  settle_resource-IsSettled s n m e h request limit =
      let extended = is_extended m in
      let last : Option q.Quantity → Option q.Quantity → Result ResourceError Entry =
        fit q extended m in
      let limited : Option q.Quantity → Result ResourceError Entry =
        λ r. parse_raw q (lookup m s.limits) (invalid_limit m) >>= last r in
      let (r, own, h1) =
        >>=-eq-ok limited (parse_raw q (lookup m s.requests) (invalid_request m)) h in
      let (l, bound, h2) =
        >>=-eq-ok (last r) (parse_raw q (lookup m s.limits) (invalid_limit m)) h1 in
      let (within, h3) = guard-then-eq-ok (not (exceeds q (effective q extended r l) l)) _ _ h2 in
      let (alike, h4) = guard-then-eq-ok (not (extended && differ q r l)) _ _ h3 in
      let whole = ok-injective h4 in
      record {
        own = r;
        limit = l;
        own_parsed = parse_raw-IsParsed (lookup m s.requests) (invalid_request m) r own;
        limit_parsed = parse_raw-IsParsed (lookup m s.limits) (invalid_limit m) l bound;
        request_stored = request ∙ ap (λ x. printed x.0) (sym whole);
        limit_stored = limit ∙ ap (λ x. printed x.1) (sym whole);
        bounded = not-eq-true _ within;
        extended_equal = λ ext. ground (arith, alike, ext);
      }

  fit-absent : (extended : Bool) (m : String) → fit q extended m none none ≡ ok (none, none)
  unfolding fit effective exceeds differ
  fit-absent true m = refl
  fit-absent false m = refl

  pub settle_resource-absent :
      (s : Spec) (m : String)
      → lookup m s.requests ≡ none
      → lookup m s.limits ≡ none
      → settle_resource q s m ≡ ok (none, none)
  unfolding settle_resource parse_raw
  settle_resource-absent s m r l = rw (r, l) (fit-absent (is_extended m) m)
