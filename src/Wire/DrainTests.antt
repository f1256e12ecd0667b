-- ===== src/Wire/DrainTests.antt =====
-- A worker that can wait, and a server with three jobs, two of them for it.
use golang_assignment.Prelude.{some, List, [], ◌∷◌, String}
use golang_assignment.Prelude.Int.{pos}
use golang_assignment.GoMap.{lookup, insert}
use golang_assignment.GoText.{concat, trim_space}
use golang_assignment.Model.Entity.{Job}
use golang_assignment.Model.Status.{is_known_type, type_eq, type_text, job_type, wait}
use golang_assignment.Model.Validation.{
  validate_create_job, validate_register_agent, validate_payload_key, has_errors,
}
use golang_assignment.Model.Value.{Value}
use golang_assignment.Store.Memory.{MemoryStore, create_job}
use golang_assignment.Store.Memory.Fixture.{store_code, job}
use golang_assignment.Api.Agents.{new_agent, handle_register_agent}
use golang_assignment.Api.Http.{read_json}
use golang_assignment.Api.Jobs.{new_job, created, handle_create_job, generate_id}
use golang_assignment.Api.Server.{
  Request, serve, auth_middleware, route, segments, split_from, route_of, dispatch, health_tick,
}
use golang_assignment.Api.Server.Runs.{Event, request, tick, after_event, after_events}
use golang_assignment.Worker.{Tick, poll, beat}
use golang_assignment.Worker.Fixture.{env_at}
use golang_assignment.Wire.{
  Json, Members, Items, decode_struct, decode_members, decode_string, decode_int, int_of,
  decode_strings, same_key,
}
use golang_assignment.Wire.Body.{Body, value, finished, limited, first_value, has_more}
use golang_assignment.Wire.Drained.{store_after}
use golang_assignment.Wire.Fixture.{notation, create_body}
use golang_assignment.Wire.Payloads.{decode_payload}
use golang_assignment.Wire.Requests.{
  decode_create_job, set_create_job, decode_register_agent, set_register_agent,
}
use golang_assignment.Wire.Rounds.{server_reader}
use golang_assignment.Wire.Values.{decode_value, decode_fields}

abbrev register_body : Body
register_body = record {
  size = 9;
  gap = 0;
  text =
      value
        (Json.obj (
          Members.member "id" (Json.str "a") (
            Members.member "hostname" (Json.str "h") (
              Members.member "capabilities" (Json.arr (Items.cons (Json.str "wait") Items.nil))
                Members.end))))
        finished;
}

abbrev post : String → Body → Request (server_reader notation)
post path body = record {
  method = "POST";
  path = path;
  authorization = "Bearer secret";
  body = body;
}

-- the agent registers, and a job is made
abbrev events : List (Event (server_reader notation))
events =
    request (env_at 0) (post "/agents/register" register_body)
    ∷ tick (env_at 1) 30
    ∷ request (env_at 2) (post "/jobs" create_body)
    ∷ []

abbrev filled : MemoryStore
filled = store_after notation "secret" events

abbrev waiting_job : Job
waiting_job = record (job "job-" wait) {
  created_at = 9;
  payload = some (("duration_seconds", Value.str "1") ∷ []);
  max_retries = pos 3;
}

unfoldable server_code : Unit {0}
unfolding store_code after_events after_event serve auth_middleware route segments split_from
    route_of dispatch handle_create_job handle_register_agent new_agent health_tick created
    read_json limited first_value has_more decode_create_job decode_struct decode_members
    set_create_job decode_value decode_fields decode_payload decode_string decode_int int_of
    decode_register_agent set_register_agent decode_strings same_key job_type validate_create_job
    validate_payload_key has_errors trim_space is_known_type type_eq new_job generate_id concat
    create_job lookup insert type_text validate_register_agent
server_code = tt

abbrev ticks : List Tick
ticks = poll ∷ beat ∷ poll ∷ poll ∷ []
