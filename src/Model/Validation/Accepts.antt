-- ===== src/Model/Validation/Accepts.antt =====
-- Which requests pass validation.
use golang_assignment.Model.Validation.Errors.{
  has_errors-set_field_if, has_errors-validate_payload, has_errors-validate_type,
  has_errors-no_errors, clean_before, required_keys, IsSupported, HasKeys,
}
use mathlib.Core.Path.{subst}
use golang_assignment.Prelude.{
  length, ◌&&◌, ltb, ◌⊎◌, ◌≢◌, eq_iff, ◌==◌, Option, String, ◌≡◌, ◌↔◌, refl, true, false, not, none,
  some, [], arith, is_some, Bool-cases, inl, inr,
}
use golang_assignment.Prelude.Int.{ℤ, is_negative, negsuc, pos, ◌≤ℤ◌}
use golang_assignment.GoText.{trim_space}
use golang_assignment.GoText.Blank.{trim_space-eq-empty_iff, IsBlank}
use golang_assignment.Model.Dto.{RegisterAgentRequest, JobResultRequest, CreateJobRequest}
use golang_assignment.Model.Status.{
  is_success, is_failed, job_status, is_success-job_status, is_failed-job_status,
}
use golang_assignment.Model.Validation.{
  validate_register_agent, validate_job_result, no_errors, validate_optional_payload,
  validate_create_job, ValidationError, has_errors, set_field_if, validate_type, result,
}
use golang_assignment.Model.Value.{Payload}

-- What a job request must be to be accepted.
pub record IsAcceptable (r : CreateJobRequest) : Type 0 where
  pub named : ¬ IsBlank r.name
  pub supported : IsSupported r.type
  pub payload : (p : Payload) × (r.payload ≡ some p) × HasKeys p (required_keys r.type)
  pub timeout : pos 0 ≤ℤ r.timeout_seconds
  pub retries : pos 0 ≤ℤ r.max_retries

result-eq-none_iff : (ve : ValidationError) → (result ve ≡ none) ↔ (has_errors ve ≡ false)
result-eq-none_iff ve = ground arith

nonneg_iff : (a : ℤ) → (is_negative a ≡ false) ↔ (pos 0 ≤ℤ a)
nonneg_iff (pos n) = (λ h. omega arith, λ h. refl)
nonneg_iff (negsuc n) = (λ h. cc, λ h. absurd (omega arith))

pub named_iff : (s : String) → ((trim_space s == "") ≡ false) ↔ ¬ (IsBlank s)
named_iff s = (
  λ h blank. let e = (eq_iff (trim_space s) "").1 ((trim_space-eq-empty_iff s).1 blank) in cc,
  λ h. elim (Bool-cases (trim_space s == "")) [
    | inl e ↦ absurd (h ((trim_space-eq-empty_iff s).0 ((eq_iff _ _).0 e)))
    | inr e ↦ e
  ],
)

module _ (r : CreateJobRequest) where
  -- The checks before the payload's, as one value.
  checked : ValidationError
  checked = set_field_if (is_negative r.max_retries) "max_retries" "must be >= 0" (
      set_field_if (is_negative r.timeout_seconds) "timeout_seconds" "must be >= 0" (
        set_field_if (not (is_some r.payload)) "payload" "must not be null" (
          validate_type r.type
            (set_field_if (trim_space r.name == "") "name" "must not be empty" no_errors))))

  has_errors-checked : (has_errors checked ≡ false) ↔ (
      (is_negative r.max_retries ≡ false)
      × (is_negative r.timeout_seconds ≡ false)
      × (is_some r.payload ≡ true)
      × IsSupported r.type
      × ((trim_space r.name == "") ≡ false))
  unfolding checked
  has_errors-checked =
      let named = set_field_if (trim_space r.name == "") "name" "must not be empty" no_errors in
      let typed = has_errors-validate_type r.type named in
      rw (has_errors-set_field_if, has_errors-set_field_if, has_errors-set_field_if)
        (let blank =
            has_errors-set_field_if (trim_space r.name == "") "name" "must not be empty"
              no_errors in
          ground (arith, typed, blank, has_errors-no_errors))

  optional_payload :
      (p : Option Payload) (ve : ValidationError)
      → is_some p ≡ true
      → (has_errors (validate_optional_payload r.type p ve) ≡ false) ↔ (
          (has_errors ve ≡ false)
          × ((q : Payload) × (p ≡ some q) × HasKeys q (required_keys r.type)))
  unfolding validate_optional_payload
  optional_payload none ve h = cc
  optional_payload (some q) ve h = (
    λ e.
        let (clean, keys) = (has_errors-validate_payload r.type q ve).0 e in
        (clean, (q, refl, keys)),
    λ (clean, (x, e, keys)).
        let same : x ≡ q = cc in
        (has_errors-validate_payload r.type q ve).1
          (clean, subst (λ y. HasKeys y (required_keys r.type)) same keys),
  )

-- A job request passes validation exactly when its name is not blank, its type is supported, its
-- payload is there and has the keys that the type needs, and neither its timeout nor its number of
-- retries is negative.
pub validate_create_job_iff :
    (r : CreateJobRequest) → (validate_create_job r ≡ none) ↔ IsAcceptable r
unfolding validate_create_job checked
validate_create_job_iff r = (
  λ e.
      let errs = (result-eq-none_iff _).0 e in
      let clean = clean_before r.type r.payload (checked r) errs in
      let facts = (has_errors-checked r).0 clean in
      record {
        named = (named_iff r.name).0 facts.4;
        supported = facts.3;
        payload = ((optional_payload r r.payload (checked r) facts.2).0 errs).1;
        timeout = (nonneg_iff r.timeout_seconds).0 facts.1;
        retries = (nonneg_iff r.max_retries).0 facts.0;
      },
  λ a.
      let (p, e, keys) = a.payload in
      (result-eq-none_iff _).1 (
        (optional_payload r r.payload (checked r) (rw e refl)).1 (
          (has_errors-checked r).1 (
            (nonneg_iff _).1 a.retries,
            (nonneg_iff _).1 a.timeout,
            (rw e refl),
            a.supported,
            (named_iff _).1 a.named,
          ),
          a.payload,
        )),
)

-- A registration passes validation exactly when its id is not blank and it names a capability.
pub validate_register_agent_iff :
    (r : RegisterAgentRequest)
    → (validate_register_agent r ≡ none) ↔ ((¬ (IsBlank r.id)) × (r.capabilities ≢ []))
unfolding validate_register_agent
validate_register_agent_iff r =
    let named = set_field_if (trim_space r.id == "") "id" "must not be empty" no_errors in
    let empty = not (ltb 0 (length r.capabilities)) in
    let listed =
      has_errors-set_field_if empty "capabilities" "must include at least one capability" named in
    let blank =
      has_errors-set_field_if (trim_space r.id == "") "id" "must not be empty" no_errors in
    ground (arith, listed, blank, has_errors-no_errors, named_iff r.id)

-- A result passes validation exactly when its status is SUCCESS or FAILED.
pub validate_job_result_iff :
    (r : JobResultRequest)
    → (validate_job_result r ≡ none) ↔ ((r.status ≡ "SUCCESS") ⊎ (r.status ≡ "FAILED"))
unfolding validate_job_result
validate_job_result_iff r =
    let s = job_status r.status in
    let errs =
      has_errors-set_field_if (not (is_success s) && not (is_failed s)) "status"
        "must be SUCCESS or FAILED" no_errors in
    ground (
      arith,
      errs,
      has_errors-no_errors,
      is_success-job_status r.status,
      is_failed-job_status r.status,
      eq_iff r.status "SUCCESS",
      eq_iff r.status "FAILED",
    )
