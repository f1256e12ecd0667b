-- ===== src/Api/Server/Tests.antt =====
-- A server with a token, over bodies that either fail to decode or hold the sample of their type.
use golang_assignment.Prelude.{
  false, ℕ, ◌≤◌, String, ◌≡◌, ◌≢◌, ◌↔◌, refl, none, some, List, [], ◌∷◌, arith,
}
use golang_assignment.Prelude.Int.{pos, max_int, pos_part}
use golang_assignment.Prelude.Result.{Result, ok, err}
use golang_assignment.GoMap.{lookup}
use golang_assignment.GoText.{concat, hex_digit, trim_space}
use golang_assignment.Model.Dto.{CreateJobRequest, JobResultRequest}
use golang_assignment.Model.Entity.{Job}
use golang_assignment.Model.Status.{wait, running, is_known_type, job_status, job_type, type_text}
use golang_assignment.Model.Validation.{
  validate_create_job, validate_job_result, validate_register_agent, has_errors,
  validate_payload_key,
}
use golang_assignment.Model.Value.{number}
use golang_assignment.Store.Memory.{memory_store, new_memory_store, get_job, completed_job}
use golang_assignment.Store.Memory.Fixture.{store_code, ready}
use golang_assignment.Api.Agents.{new_agent, handle_register_agent}
use golang_assignment.Api.Assignment.{handle_next_job, handle_job_result}
use golang_assignment.Api.Http.{
  Decoder, DecodesInt64, json_reader, json_reader-IsInRange, read_json, Env, Reader,
}
use golang_assignment.Api.Jobs.{
  hex, generate_id, new_job, handle_create_job, handle_get_job, handle_cancel_job,
}
use golang_assignment.Api.Server.{Request, serve, dispatch, route, health_tick}
use golang_assignment.Api.Server.Auth.{serve_unauthorized_iff}
use golang_assignment.Api.Server.Calls.{serve-IsOneCall, IsOneCall}
use golang_assignment.Api.Server.Runs.{Event, request, tick, after_event, after_events}

pub data Body : Type 0 where
  broken : Body
  sample : Body

-- what `Decode` makes of a body, with no rest
abbrev pub sample_of {ℓ} : {A : Type ℓ} → A → ℕ → Body → Result (A × Unit {0})
sample_of a limit broken = err "unexpected EOF"
sample_of a limit sample = ok (a, tt)

abbrev pub new_job_request : CreateJobRequest
new_job_request = record {
  name = "n";
  type = wait;
  payload = some (
      ("duration_seconds", number (record { negative = false; mantissa = 1; exponent = pos 0 }))
      ∷ []);
  timeout_seconds = pos 0;
  max_retries = pos 2;
}

abbrev pub result_request : JobResultRequest
result_request = record { status = "FAILED"; logs = []; result = none; error = "boom" }

abbrev pub test_decoder : Decoder
test_decoder = record {
  Body = Body;
  Rest = Unit {0};
  more = λ rest. false;
  decode_create_job = sample_of new_job_request;
  decode_register_agent = sample_of (record {
    id = "a";
    hostname = "h";
    os = "linux";
    arch = "amd64";
    version = "1.0.0";
    capabilities = "wait" ∷ [];
  });
  decode_job_result = sample_of result_request;
  decode_capabilities = sample_of ("wait" ∷ []);
}

abbrev pub test_reader : Reader
test_reader = json_reader test_decoder

test_decoder-DecodesInt64 : DecodesInt64 test_decoder
test_decoder-DecodesInt64 = record { retries = small }
  where
    small :
        (limit : ℕ) (b : Body) (r : CreateJobRequest) (rest : Unit {0})
        → sample_of new_job_request limit b ≡ ok (r, rest)
        → pos_part r.max_retries ≤ max_int
    small limit broken r rest e = ground arith
    small limit sample r rest e = ground arith

abbrev pub env_at : ℕ → Env
env_at now = record {
  now = now;
  random = some (1 ∷ 255 ∷ []);
  stamp = "20260101000000";
  go_version = "go1.22";
}

abbrev post : String → String → Request test_reader
post path token = record { method = "POST"; path = path; authorization = token; body = sample }

abbrev events : List (Event test_reader)
events =
    request (env_at 1) (post "/agents/register" "Bearer secret")
    ∷ request (env_at 2) (post "/jobs" "Bearer secret")
    ∷ request (env_at 3) (post "/agents/a/next-job" "Bearer secret")
    ∷ request (env_at 4) (post "/jobs/job-01ff/result" "Bearer secret")
    ∷ tick (env_at 5) 30
    ∷ request (env_at 6) (post "/agents/a/next-job" "wrong")
    ∷ request (env_at 7) (post "/agents/a/next-job" "Bearer secret")
    ∷ []

-- the server's code, opened for the tests
unfoldable pub server_code : Unit {0}
unfolding store_code serve dispatch route handle_create_job handle_next_job handle_job_result
    handle_register_agent handle_cancel_job handle_get_job after_event after_events health_tick
    validate_create_job validate_register_agent validate_job_result new_job new_agent generate_id
    hex hex_digit trim_space is_known_type job_status job_type completed_job read_json has_errors
    get_job validate_payload_key type_text
server_code = tt

abbrev server_job : Job
server_job = record (new_job (env_at 2) new_job_request) {
  status = running;
  assigned_agent_id = "a";
  started_at = some 7;
  attempt_count = pos 2;
  error = "boom";
}

server_job-stored :
    lookup "job-01ff" (after_events test_reader "secret" events new_memory_store).jobs
    ≡ some server_job
unfolding server_code
server_job-stored = refl

abbrev ask : Request test_reader
ask = post "/agents/a/next-job" "Bearer secret"

serve-IsOneCall_example :
    IsOneCall ready (serve memory_store test_reader "secret" (env_at 7) ask ready).1
serve-IsOneCall_example =
    serve-IsOneCall test_reader "secret" (env_at 7) ask ready
      (json_reader-IsInRange test_decoder test_decoder-DecodesInt64)

abbrev intrude : Request test_reader
intrude = post "/jobs" "Bearer wrong"

serve_unauthorized_iff_example :
    ((serve memory_store test_reader "secret" (env_at 7) intrude ready).0.status ≡ 401) ↔ (
      ◌≢◌ {A = String} "secret" ""
      × ◌≢◌ {A = String} "/jobs" "/health"
      × ◌≢◌ {A = String} "Bearer wrong" (concat ("Bearer " ∷ "secret" ∷ [])))
serve_unauthorized_iff_example =
    serve_unauthorized_iff memory_store test_reader "secret" (env_at 7) intrude ready

intrude-refused : (serve memory_store test_reader "secret" (env_at 7) intrude ready).0.status ≡ 401
unfolding server_code
intrude-refused = refl
