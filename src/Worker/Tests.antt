-- ===== src/Worker/Tests.antt =====
-- A worker that can wait, against a server whose store has jobs; bodies are not encoded.
use golang_assignment.Prelude.{◌*◌, ◌≡◌, refl, none, [], ◌∷◌, arith, false}
use golang_assignment.Prelude.Int.{pos}
use golang_assignment.Prelude.Result.{Result, ok, err}
use golang_assignment.Model.Dto.{JobResultRequest}
use golang_assignment.Model.Entity.{Job, Agent}
use golang_assignment.Model.Status.{job_status, status_text, type_eq}
use golang_assignment.Model.Validation.{has_errors, validate_job_result}
use golang_assignment.Store.Memory.Fixture.{store_code, j1_running}
use golang_assignment.Api.Http.{Decoder, Reader, json_reader, read_json, ResponseBody}
use golang_assignment.Executor.{get_executor}
use golang_assignment.Worker.{seconds, timeout_of}
use golang_assignment.Worker.Fixture.{test_worker}
use golang_assignment.Worker.Requests.{
  ClientBody, capabilities, outcome, registration, result_request,
}
use golang_assignment.Worker.Rounds.{execution}
use golang_assignment.Worker.Timeouts.{timeout_of_exact}

-- what a body is decoded to, if it is of the type wanted
abbrev plain_decoder : Decoder
plain_decoder = record {
  Body = ClientBody;
  Rest = Unit {0};
  more = λ rest. false;
  decode_create_job = λ limit body. err "no job";
  decode_register_agent =
      λ limit body. elim body [ registration r ↦ ok (r, tt) | _ ↦ err "no registration" ];
  decode_job_result = λ limit body. elim body [ outcome r ↦ ok (r, tt) | _ ↦ err "no result" ];
  decode_capabilities =
      λ limit body. elim body [ capabilities l ↦ ok (l, tt) | _ ↦ err "no capabilities" ];
}

abbrev plain_reader : Reader
plain_reader = json_reader plain_decoder

abbrev decode_agent : ResponseBody → Result Agent
decode_agent (ResponseBody.agent a) = ok a
decode_agent _ = err "no agent"

abbrev decode_job : ResponseBody → Result Job
decode_job (ResponseBody.job j) = ok j
decode_job _ = err "no job"

abbrev same_body : ClientBody → ClientBody
same_body body = body

abbrev success_request : JobResultRequest
success_request = record { status = "SUCCESS"; logs = "done" ∷ []; result = none; error = "" }

wants-read : plain_reader.read_capabilities (capabilities ("wait" ∷ [])) ≡ ok ("wait" ∷ [])
unfolding read_json
wants-read = refl

result-read :
    plain_reader.read_job_result (outcome (result_request (execution test_worker j1_running 0).0))
    ≡ ok success_request
unfolding read_json get_executor type_eq status_text
result-read = refl

success_request-IsValid : validate_job_result success_request ≡ none
unfolding validate_job_result store_code has_errors job_status
success_request-IsValid = refl

timeout_of_exact_example : timeout_of (pos 45) ≡ 45 * 1000000000
timeout_of_exact_example = timeout_of_exact 45 (omega arith) (omega arith)

-- A product that wraps around, to less than a third of a second.
timeout_wraps : timeout_of (pos 18446744074) ≡ 290448384
unfolding timeout_of seconds
timeout_wraps = refl
