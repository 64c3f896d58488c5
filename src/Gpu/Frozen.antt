-- ===== src/Gpu/Frozen.antt =====
-- `ValidateSnapshot` (internal/biz/gpu/gpu.go) on the snapshot that it has filled in.
use ani_inference_service.Prelude.{
  guard-eq-ok, false, ok, String, str_eq, guard, if◌then◌else◌, refl, true, ◌&&◌, or_fail,
  or_fail-eq-ok, ok-injective, ◌≡◌, not, >>=-eq-ok, some, ap, and3-eq-true, subst, ◌∙◌, sym,
  not-eq-true,
}
use ani_inference_service.Gpu.{
  validate_snapshot, validate_request, validate_execution, validate_display, filled_digest,
  same_request, Snapshot, GpuRequest, Execution, Display, digest_required,
}

-- A digest that is filled in stays.
filled_once :
    (own digest : String)
    → str_eq (if str_eq own "" then digest else own) "" ≡ false
    → (if str_eq (if str_eq own "" then digest else own) ""
        then digest
        else (if str_eq own "" then digest else own))
      ≡ (if str_eq own "" then digest else own)
filled_once own digest h = rw h refl

-- The parts of a snapshot that pass, and what they are tested for.
record Accepted (s : Snapshot) (request : GpuRequest) (filled : Snapshot) : Type 0 where
  own : GpuRequest
  execution : Execution
  display : Display
  has_request : s.request ≡ some own
  same : same_request own request ≡ true
  has_execution : s.execution ≡ some execution
  has_display : s.display ≡ some display
  request_valid : validate_request request ≡ ok tt
  execution_valid : validate_execution execution ≡ ok tt
  display_valid : validate_display display request ≡ ok tt
  digests :
      (not (str_eq (filled_digest s execution) "")
        && not (str_eq execution.execution_digest "")
        && str_eq (filled_digest s execution) execution.execution_digest)
      ≡ true
  result : record s { execution_digest = filled_digest s execution } ≡ filled

validate_snapshot-Accepted :
    (s filled : Snapshot) (request : GpuRequest)
    → validate_snapshot s request ≡ ok filled
    → Accepted s request filled
unfolding validate_snapshot
validate_snapshot-Accepted s filled request e =
    let (own, p₁, e₁) = >>=-eq-ok _ (or_fail s.request _) e in
    let (u₂, p₂, e₂) = >>=-eq-ok _ (guard (same_request own request) _) e₁ in
    let (x, p₃, e₃) = >>=-eq-ok _ (or_fail s.execution _) e₂ in
    let (d, p₄, e₄) = >>=-eq-ok _ (or_fail s.display _) e₃ in
    let (u₅, p₅, e₅) = >>=-eq-ok _ (validate_request request) e₄ in
    let (u₆, p₆, e₆) = >>=-eq-ok _ (validate_execution x) e₅ in
    let (u₇, p₇, e₇) = >>=-eq-ok _ (validate_display d request) e₆ in
    let (u₈, p₈, e₈) = >>=-eq-ok _ (guard _ digest_required) e₇ in
    record {
      own = own;
      execution = x;
      display = d;
      has_request = or_fail-eq-ok s.request _ p₁;
      same = guard-eq-ok (same_request own request) _ p₂;
      has_execution = or_fail-eq-ok s.execution _ p₃;
      has_display = or_fail-eq-ok s.display _ p₄;
      request_valid = p₅;
      execution_valid = p₆;
      display_valid = p₇;
      digests = guard-eq-ok _ digest_required p₈;
      result = ok-injective e₈;
    }

-- A snapshot whose parts pass is accepted.
accepts :
    (s : Snapshot) (request own : GpuRequest) (x : Execution) (d : Display)
    → s.request ≡ some own
    → same_request own request ≡ true
    → s.execution ≡ some x
    → s.display ≡ some d
    → validate_request request ≡ ok tt
    → validate_execution x ≡ ok tt
    → validate_display d request ≡ ok tt
    → (not (str_eq (filled_digest s x) "")
        && not (str_eq x.execution_digest "")
        && str_eq (filled_digest s x) x.execution_digest)
      ≡ true
    → validate_snapshot s request ≡ ok (record s { execution_digest = filled_digest s x })
unfolding validate_snapshot
accepts s request own x d a b c d' f g h i = rw (a, b, c, d', f, g, h, i) refl

-- A snapshot that was accepted is accepted again as it was stored, and stays as it is.
pub validate_snapshot_idempotent :
    (s filled : Snapshot) (request : GpuRequest)
    → validate_snapshot s request ≡ ok filled
    → validate_snapshot filled request ≡ ok filled
unfolding filled_digest
validate_snapshot_idempotent s filled request e =
    let a = validate_snapshot-Accepted s filled request e in
    let x = a.execution in
    let (present, named, equal) =
      and3-eq-true (not (str_eq (filled_digest s x) "")) (not (str_eq x.execution_digest ""))
        (str_eq (filled_digest s x) x.execution_digest) a.digests in
    let once : filled_digest (record s { execution_digest = filled_digest s x }) x
        ≡ filled_digest s x =
      filled_once s.execution_digest x.execution_digest (not-eq-true _ present) in
    subst (λ u. validate_snapshot u request ≡ ok u) a.result
      (accepts (record s { execution_digest = filled_digest s x }) request a.own x a.display
          a.has_request a.same a.has_execution a.has_display a.request_valid a.execution_valid
          a.display_valid
          (subst
            (λ f.
              (not (str_eq f "")
                && not (str_eq x.execution_digest "")
                && str_eq f x.execution_digest)
              ≡ true)
            (sym once) a.digests)
        ∙ ap (λ f. ok (record s { execution_digest = f })) once)
