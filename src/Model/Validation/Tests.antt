-- ===== src/Model/Validation/Tests.antt =====
-- Validation on concrete requests, and the theorems about it at those.
use golang_assignment.Prelude.{◌≡◌, ◌≢◌, ◌↔◌, refl, none, some, [], ◌∷◌}
use golang_assignment.Prelude.Int.{pos, negsuc}
use golang_assignment.GoMap.{lookup, insert}
use golang_assignment.GoText.{concat, trim_space}
use golang_assignment.GoText.Blank.{IsBlank}
use golang_assignment.Model.Dto.{CreateJobRequest, RegisterAgentRequest, JobResultRequest}
use golang_assignment.Model.Status.{copy_file, is_known_type, type_text}
use golang_assignment.Model.Validation.{
  has_errors, validate_payload_key, error_text, validate_create_job, validate_register_agent,
}
use golang_assignment.Model.Validation.Accepts.{
  IsAcceptable, validate_create_job_iff, validate_register_agent_iff,
}
use golang_assignment.Model.Value.{str}

abbrev half_copy : CreateJobRequest
half_copy = record {
  name = " ";
  type = copy_file;
  payload = some (("source", str "/a") ∷ []);
  timeout_seconds = pos 5;
  max_retries = negsuc 0;
}

half_copy_test :
    validate_create_job half_copy
    ≡ some (record {
      fields =
          ("name", "must not be empty")
          ∷ ("max_retries", "must be >= 0")
          ∷ ("payload.destination", "required field missing")
          ∷ [];
    })
unfolding validate_create_job validate_payload_key has_errors trim_space concat lookup insert
    is_known_type type_text
half_copy_test = refl

unknown_type_text :
    error_text (record {
      fields = ("type", "unsupported job type \"x\"") ∷ ("payload", "must not be null") ∷ [];
    })
    ≡ "validation failed: type: unsupported job type \"x\"; payload: must not be null"
unfolding error_text concat
unknown_type_text = refl

validate_create_job_iff_example : (validate_create_job half_copy ≡ none) ↔ IsAcceptable half_copy
validate_create_job_iff_example = validate_create_job_iff half_copy

abbrev nobody : RegisterAgentRequest
nobody = record { id = ""; hostname = ""; os = ""; arch = ""; version = ""; capabilities = [] }

validate_register_agent_iff_example :
    (validate_register_agent nobody ≡ none) ↔ ((¬ (IsBlank nobody.id)) × (nobody.capabilities ≢ []))
validate_register_agent_iff_example = validate_register_agent_iff nobody

abbrev running_result : JobResultRequest
running_result = record { status = "RUNNING"; logs = []; result = none; error = "" }
