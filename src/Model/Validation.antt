-- ===== src/Model/Validation.antt =====
-- internal/model/validation.go. A `Validate` returns `none` for a nil error.
pub mod Errors
pub mod Accepts
mod Tests
use golang_assignment.Prelude.{
  String, Bool, true, false, not, ◌&&◌, ◌==◌, Option, none, some, List, [], ◌∷◌, ltb, length,
  if◌then◌else◌, is_some, map,
}
use golang_assignment.Prelude.Int.{ℤ, is_negative}
use golang_assignment.GoMap.{GoMap, lookup, insert}
use golang_assignment.GoText.{concat, trim_space, quote}
use golang_assignment.Model.Dto.{CreateJobRequest, RegisterAgentRequest, JobResultRequest}
use golang_assignment.Model.Status.{
  JobStatus, JobType, http_check, tcp_check, file_exists, checksum, copy_file, write_file, wait,
  is_known_type, type_text, job_status, is_success, is_failed,
}
use golang_assignment.Model.Value.{Payload}

pub record ValidationError : Type 0 where
  pub fields : GoMap String

-- the texts of the fields, in the order in which `range` visits them
field_texts : GoMap String → List String
field_texts [] = []
field_texts ((k, msg) ∷ m) = concat (k ∷ ": " ∷ msg ∷ []) ∷ field_texts m

-- strings.Join
unfoldable pub join : String → List String → String
join sep [] = ""
join sep (s ∷ []) = s
join sep (s ∷ t ∷ ss) = concat (s ∷ sep ∷ join sep (t ∷ ss) ∷ [])

unfoldable pub error_text : ValidationError → String
unfolding field_texts join
error_text v = concat ("validation failed: " ∷ join "; " (field_texts v.fields) ∷ [])

unfoldable pub has_errors : ValidationError → Bool
has_errors v = ltb 0 (length v.fields)

-- ve.Fields[key] = msg
abbrev set_field : String → String → ValidationError → ValidationError
set_field key msg ve = record { fields = insert key msg ve.fields }

-- ve.Fields[key] = msg, under a test
abbrev set_field_if : Bool → String → String → ValidationError → ValidationError
set_field_if test key msg ve = if test then set_field key msg ve else ve

abbrev pub no_errors : ValidationError
no_errors = record { fields = [] }

unfoldable pub validate_payload_key : ValidationError → Payload → String → ValidationError
validate_payload_key ve payload key =
    if is_some (lookup key payload)
    then ve
    else set_field (concat ("payload." ∷ key ∷ [])) "required field missing" ve

-- the `switch` on the type
pub validate_payload : JobType → Payload → ValidationError → ValidationError
validate_payload http_check p ve = validate_payload_key ve p "url"
validate_payload tcp_check p ve = validate_payload_key ve p "address"
validate_payload file_exists p ve = validate_payload_key ve p "path"
validate_payload checksum p ve = validate_payload_key ve p "path"
validate_payload copy_file p ve =
    validate_payload_key (validate_payload_key ve p "source") p "destination"
validate_payload write_file p ve =
    validate_payload_key (validate_payload_key ve p "path") p "content"
validate_payload wait p ve = validate_payload_key ve p "duration_seconds"
validate_payload (JobType.other s) p ve = ve

-- `if r.Payload != nil`
pub validate_optional_payload : JobType → Option Payload → ValidationError → ValidationError
validate_optional_payload t none ve = ve
validate_optional_payload t (some p) ve = validate_payload t p ve

-- if ve.HasErrors() { return ve }; return nil
abbrev result : ValidationError → Option ValidationError
result ve = if has_errors ve then some ve else none

pub validate_type : JobType → ValidationError → ValidationError
validate_type t ve =
    if type_text t == ""
    then set_field "type" "must not be empty" ve
    else if not (is_known_type t)
    then set_field "type" (concat ("unsupported job type " ∷ quote (type_text t) ∷ [])) ve
    else ve

unfoldable pub validate_create_job : CreateJobRequest → Option ValidationError
unfolding validate_payload validate_optional_payload validate_type
validate_create_job r =
    let v1 = set_field_if (trim_space r.name == "") "name" "must not be empty" no_errors in
    let v2 = validate_type r.type v1 in
    let v3 = set_field_if (not (is_some r.payload)) "payload" "must not be null" v2 in
    let v4 = set_field_if (is_negative r.timeout_seconds) "timeout_seconds" "must be >= 0" v3 in
    let v5 = set_field_if (is_negative r.max_retries) "max_retries" "must be >= 0" v4 in
    result (validate_optional_payload r.type r.payload v5)

unfoldable pub validate_register_agent : RegisterAgentRequest → Option ValidationError
validate_register_agent r =
    let v1 = set_field_if (trim_space r.id == "") "id" "must not be empty" no_errors in
    let v2 =
      set_field_if (not (ltb 0 (length r.capabilities))) "capabilities"
        "must include at least one capability" v1 in
    result v2

unfoldable pub validate_job_result : JobResultRequest → Option ValidationError
validate_job_result r =
    let status = job_status r.status in
    result (
      set_field_if (not (is_success status) && not (is_failed status)) "status"
        "must be SUCCESS or FAILED" no_errors)
