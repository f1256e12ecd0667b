-- ===== src/Wire/Tests.antt =====
-- A worker and a server with JSON between them, in a notation of their own: a `float64` is printed by its
-- parts, a time in strokes.
use golang_assignment.Prelude.{◌^◌, ◌≤◌, ◌<◌, ◌≡◌, refl, true, some, [], ◌∷◌, arith, inl}
use golang_assignment.Prelude.Int.{pos}
use golang_assignment.Prelude.Result.{ok}
use golang_assignment.GoMap.{lookup}
use golang_assignment.Model.Dto.{JobResultRequest}
use golang_assignment.Model.Entity.{Agent}
use golang_assignment.Model.Status.{
  running, type_eq, status_text, job_status, agent_status_text, agent_status, type_text, job_type,
}
use golang_assignment.Model.Value.{Value}
use golang_assignment.Store.Memory.{complete_job}
use golang_assignment.Store.Memory.Fixture.{
  ready-IsWellFormed, quiet, agent, store_code, ready, j1_running, after_first,
}
use golang_assignment.Store.Memory.Steps.{run}
use golang_assignment.Api.Http.{max_body_size, read_json}
use golang_assignment.Executor.{get_executor, ExecutionResult}
use golang_assignment.Executor.Reports.{IsReported}
use golang_assignment.Worker.{poll_and_execute}
use golang_assignment.Worker.Delivery.{deployment}
use golang_assignment.Worker.Fixture.{
  test_worker-IsClientOf, env_at, test_worker, agent_id-named, job_id-named, j1-assigned,
}
use golang_assignment.Worker.Requests.{result_request}
use golang_assignment.Worker.Rounds.{execution}
use golang_assignment.Wire.{
  decode_strings, same_key, decode_members, decode_struct, Json, Items, Members, Notation,
}
use golang_assignment.Wire.Accepted.{accepts, accepted_lem, poll_kind, keys_of, IsProper}
use golang_assignment.Wire.AgentTrips.{IsWritableAgent}
use golang_assignment.Wire.Body.{finished, has_more, broken, first_value, limited, value, Body}
use golang_assignment.Wire.EntityTrips.{IsWritableJob, received_job}
use golang_assignment.Wire.Fixture.{notation, notation_of, notation_of-IsLossless}
use golang_assignment.Wire.Oversized.{oversized_result_lost}
use golang_assignment.Wire.Payloads.{received_if_any, IsWritablePayload}
use golang_assignment.Wire.RequestTrips.{decode_job_result-encode_job_result, received_result}
use golang_assignment.Wire.Requests.{
  set_capabilities, decode_capabilities, encode_job_result, decode_job_result, encode_capabilities,
}
use golang_assignment.Wire.Rounds.{wire_network, wire_round}
use golang_assignment.Wire.Values.{IsWritable, HasWritableFields}

j1-IsWritableJob : IsWritableJob j1_running
unfolding store_code HasWritableFields job_type type_text job_status status_text
j1-IsWritableJob = record {
  type = refl;
  status = refl;
  payload = tt;
  result = tt;
  attempt_count = omega arith;
  max_retries = omega arith;
  timeout_seconds = omega arith;
}

abbrev with_map : JobResultRequest
with_map = record {
  status = "SUCCESS";
  logs = "a" ∷ "b" ∷ [];
  result = some (("bytes", Value.int (pos 7)) ∷ ("ok", Value.bool true) ∷ []);
  error = "";
}

with_map-IsWritable : IsWritablePayload with_map.result
unfolding HasWritableFields IsWritable
with_map-IsWritable = (refl, (omega arith, omega arith), (refl, tt, tt))

decode_job_result-encode_job_result_example :
    decode_job_result notation (encode_job_result notation with_map)
    ≡ ok (received_result notation with_map)
decode_job_result-encode_job_result_example =
    decode_job_result-encode_job_result notation (notation_of-IsLossless 8) with_map
      with_map-IsWritable

abbrev written_agent : Agent
written_agent = agent "a"

written_agent-IsWritableAgent : IsWritableAgent written_agent
unfolding job_type type_text agent_status agent_status_text
written_agent-IsWritableAgent = record { capabilities = (refl, tt); status = refl }

-- a body that is followed by a closing bracket is accepted, as `More` takes that for an end
abbrev bracketed : Body
bracketed = record {
  size = 20;
  gap = 1;
  text =
      value
        (Json.obj (
          Members.member "Capabilities" (Json.arr (Items.cons (Json.str "wait") Items.nil))
            Members.end))
        (broken true "invalid character '}' looking for beginning of value");
}

bracketed-accepted : accepts notation poll_kind bracketed ≡ true
unfolding read_json limited first_value has_more decode_capabilities decode_struct decode_members
    set_capabilities same_key decode_strings
bracketed-accepted = refl

accepted_lem_example : IsProper (keys_of poll_kind) bracketed
accepted_lem_example = accepted_lem notation poll_kind bracketed bracketed-accepted

-- So is one whose second value comes after more spaces than may be read.
abbrev spaced : Body
spaced = record {
  size = 2;
  gap = 2 ^ 20;
  text = value (Json.obj Members.end) (value (Json.obj Members.end) finished);
}

spaced-accepted : accepts notation poll_kind spaced ≡ true
unfolding read_json limited first_value has_more decode_capabilities decode_struct decode_members
spaced-accepted = refl

capabilities-small : notation.size (encode_capabilities notation ("wait" ∷ [])) ≤ max_body_size
unfolding encode_capabilities
capabilities-small = omega arith

abbrev run_result : ExecutionResult
run_result = (execution test_worker (received_job notation j1_running) 0).0

run_result-small :
    notation.size (encode_job_result notation (result_request run_result)) ≤ max_body_size
unfolding encode_job_result get_executor type_eq
run_result-small = omega arith

run_result-IsReported : IsReported run_result.status
unfolding get_executor type_eq
run_result-IsReported = inl refl

run_result-IsWritable : IsWritablePayload run_result.result
unfolding get_executor type_eq
run_result-IsWritable = tt

wire_round_example :
    poll_and_execute (wire_network notation "secret" env_at) test_worker (deployment ready 0) 0 ≡ (
      record {
        store =
            (complete_job 8 "j1" run_result.status run_result.logs
              (received_if_any notation run_result.result)
              run_result.error
              after_first).1;
        served = 2;
      },
      (execution test_worker (received_job notation j1_running) 0).1,
    )
unfolding store_code
wire_round_example =
    wire_round notation "secret" env_at (notation_of-IsLossless 8) test_worker 0
      (deployment ready 0) j1_running after_first test_worker-IsClientOf (refl, tt) agent_id-named
      capabilities-small j1-assigned j1-IsWritableJob (refl, (refl, tt)) job_id-named
      run_result-IsReported run_result-IsWritable run_result-small

-- a notation in which each member of an object takes as much as a body may take
abbrev wide : Notation
wide = notation_of (2 ^ 20)

wide-capabilities : wide.size (encode_capabilities wide ("wait" ∷ [])) ≤ max_body_size
unfolding encode_capabilities
wide-capabilities = omega arith

wide_result-large :
    max_body_size
    < wide.size (
        encode_job_result wide
          (result_request (execution test_worker (received_job wide j1_running) 0).0))
unfolding encode_job_result get_executor type_eq
wide_result-large = omega arith

oversized_result_lost_example :
    (poll_and_execute (wire_network wide "secret" env_at) test_worker (deployment ready 0) 0
      ≡ (deployment after_first 2, (execution test_worker (received_job wide j1_running) 0).1))
    × (lookup "j1" (run quiet after_first).jobs ≡ some j1_running)
    × (j1_running.status ≡ running)
unfolding store_code
oversized_result_lost_example =
    oversized_result_lost wide "secret" env_at test_worker 0 (deployment ready 0) j1_running
      after_first quiet (notation_of-IsLossless (2 ^ 20)) ready-IsWellFormed test_worker-IsClientOf
      (refl, tt) agent_id-named wide-capabilities j1-assigned j1-IsWritableJob (refl, (refl, tt))
      job_id-named wide_result-large (tt, (tt, (tt, tt)))
