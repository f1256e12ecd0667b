-- ===== src/Command/Tests.antt =====
-- The two processes on small inputs.
use golang_assignment.Prelude.{
  true, ℕ, ◌+◌, String, ◌≡◌, refl, Option, none, some, List, [], ◌∷◌, arith, ◌↔◌, ◌⊎◌,
  if◌then◌else◌, ◌==◌, map,
}
use golang_assignment.Prelude.Int.{ℤ, pos, ◌≤ℤ◌, is_positive}
use golang_assignment.Prelude.Result.{ok}
use golang_assignment.GoMap.{insert, lookup}
use golang_assignment.GoText.{trim_space, concat}
use golang_assignment.Model.Entity.{Job}
use golang_assignment.Model.Status.{
  type_text, type_eq, is_known_type, pending, all_job_types, wait, job_type,
}
use golang_assignment.Model.Validation.{has_errors, validate_payload_key, validate_create_job}
use golang_assignment.Model.Value.{Value}
use golang_assignment.Store.Memory.{create_job, new_memory_store, MemoryStore}
use golang_assignment.Store.Memory.Invariant.{IsWellFormed}
use golang_assignment.Api.Http.{read_json, Env}
use golang_assignment.Api.Jobs.{generate_id, new_job, created, handle_create_job}
use golang_assignment.Api.Server.{
  dispatch, route_of, split_from, segments, route, auth_middleware, serve, Request,
}
use golang_assignment.Executor.Machine.{Machine}
use golang_assignment.Executor.Probes.{elapsed}
use golang_assignment.Executor.Standard.{Site}
use golang_assignment.Worker.{after_ticks, Platform}
use golang_assignment.Worker.Delivery.{deployment}
use golang_assignment.Worker.Fixture.{local-IsServerUrl}
use golang_assignment.Wire.{
  same_key, int_of, decode_int, decode_string, decode_members, decode_struct,
}
use golang_assignment.Wire.Body.{has_more, first_value, limited}
use golang_assignment.Wire.Entities.{encode_job, decode_job}
use golang_assignment.Wire.Fixture.{create_body, notation_of-IsLossless, notation}
use golang_assignment.Wire.Payloads.{decode_payload}
use golang_assignment.Wire.Requests.{set_create_job, decode_create_job, encode_register_agent}
use golang_assignment.Wire.Rounds.{wire_network, server_reader}
use golang_assignment.Wire.Values.{decode_fields, decode_value}
use golang_assignment.GoFlag.{failed, undefined, argument, find_flag, parsed, parse}
use golang_assignment.Command.Agent.{worker_of, split_commas}
use golang_assignment.Command.Arguments.{settings_of-arguments, server_arguments, agent_arguments}
use golang_assignment.Command.Jobs.{main_attempts_bounded}
use golang_assignment.Command.Readable.{main_jobs_readable, without_empty}
use golang_assignment.Command.Server.{request}
use golang_assignment.Command.Shutdown.{exit_zero_iff, IsGraceful}
use golang_assignment.Command.Start.{taken, main_starts}
use golang_assignment.Command.Agent
use golang_assignment.Command.Server

abbrev parse_duration : String → Option ℤ
parse_duration s = if s == "5s" then some (pos 5000000000) else none

abbrev print_duration : ℤ → String
print_duration d = "5s"

abbrev agent_settings : Agent.Settings
agent_settings = record Agent.defaults {
  id = "--id";
  auth_token = "secret";
  poll_interval = pos 5000000000;
  log_json = true;
}

abbrev server_settings : Server.Settings
server_settings = record Server.defaults { auth_token = "-addr" }

settings_of-arguments_example :
    (Agent.settings_of parse_duration (agent_arguments print_duration agent_settings)
      ≡ parsed agent_settings [])
    × (Server.settings_of (server_arguments server_settings) ≡ parsed server_settings [])
settings_of-arguments_example =
    settings_of-arguments parse_duration print_duration agent_settings server_settings refl

unknown_flag :
    Server.settings_of ("-port" ∷ "1" ∷ []) ≡ failed "flag provided but not defined: -port"
unfolding Server.settings_of parse find_flag argument undefined concat
unknown_flag = refl

no_value : Server.settings_of ("-addr" ∷ []) ≡ failed "flag needs an argument: -addr"
unfolding Server.settings_of parse find_flag argument concat
no_value = refl

-- The default of the flag is the seven types that the registry has executors for.
default_capabilities : map job_type (split_commas (Agent.defaults).capabilities) ≡ all_job_types
unfolding split_commas job_type
default_capabilities = refl

abbrev env : Env
env = record { now = 7; random = none; stamp = "s"; go_version = "go1.22" }

-- a signal during a run, and a second one that has no effect
abbrev events : List (Server.Event (server_reader notation))
events =
    Server.tick env
    ∷ Server.signal
    ∷ Server.signal
    ∷ Server.listen_failed
    ∷ Server.drained
    ∷ Server.tick env
    ∷ []

exit_zero_iff_example :
    ((Server.steps (server_reader notation) "" events Server.started).phase ≡ Server.exited 0)
    ↔ IsGraceful (server_reader notation) events
exit_zero_iff_example = exit_zero_iff (server_reader notation) "" events

abbrev create_request : Request (server_reader notation)
create_request = record { method = "POST"; path = "/jobs"; authorization = ""; body = create_body }

abbrev created_store : MemoryStore
created_store =
    (Server.main (server_reader notation) [] (Server.request env create_request ∷ [])).store

abbrev created_job : Job
created_job = record {
  id = "job-s";
  name = "n";
  type = wait;
  payload = some (("duration_seconds", Value.str "1") ∷ []);
  status = pending;
  assigned_agent_id = "";
  created_at = 7;
  started_at = none;
  finished_at = none;
  attempt_count = pos 0;
  max_retries = pos 3;
  timeout_seconds = pos 30;
  logs = [];
  error = "";
  result = none;
}

created_job-stored : lookup "job-s" created_store.jobs ≡ some created_job
unfolding Server.main Server.launched Server.settings_of Server.steps Server.step Server.after_event
    parse serve auth_middleware route segments split_from route_of dispatch handle_create_job
    created read_json limited first_value has_more decode_create_job decode_struct decode_members
    set_create_job decode_value decode_fields decode_payload decode_string decode_int int_of
    same_key job_type validate_create_job validate_payload_key has_errors trim_space is_known_type
    type_eq new_job generate_id concat create_job lookup insert type_text
created_job-stored = refl

main_attempts_bounded_example :
    IsWellFormed created_store
    × (pos 0 ≤ℤ created_job.attempt_count)
    × ((created_job.attempt_count ≤ℤ created_job.max_retries)
        ⊎ (created_job.attempt_count ≤ℤ pos 1))
main_attempts_bounded_example =
    main_attempts_bounded notation [] (Server.request env create_request ∷ []) "job-s" created_job
      created_job-stored

abbrev env_at : ℕ → Env
env_at n = record { now = 7 + n; random = none; stamp = "s"; go_version = "go1.22" }

abbrev platform : Platform
platform = record { hostname = "h"; os = "linux"; arch = "amd64" }

abbrev machine : Machine
machine = record {
  locate = λ path. path;
  nodes = [];
  now = "t";
  done = none;
  denied = λ operation path. none;
  sha256 = λ content. content;
}

abbrev site : Site
site = (
  machine,
  λ timeout. record {
    dial = λ address. none;
    bad_url = λ url. none;
    fetch = λ url. ok 200;
    duration = λ d. "";
    wait_for = λ d. elapsed "" d;
  },
)

main_starts_example :
    Agent.main
      (wire_network notation "" env_at)
      parse_duration
      platform
      []
      []
      (deployment new_memory_store 0)
      site
    ≡ (if trim_space (Agent.defaults).id == ""
        then (1, (deployment new_memory_store 1, site))
        else if is_positive (Agent.defaults).poll_interval
        then (
          0,
          after_ticks (wire_network notation "" env_at) (worker_of Agent.defaults) [] (
            taken notation "" env_at parse_duration platform Agent.defaults
                (deployment new_memory_store 0),
            site,
          ),
        )
        else (
          2,
          (
            taken notation "" env_at parse_duration platform Agent.defaults
                (deployment new_memory_store 0),
            site,
          ),
        ))
unfolding Agent.settings_of parse encode_register_agent
main_starts_example =
    main_starts notation "" env_at parse_duration platform [] [] Agent.defaults []
      (deployment new_memory_store 0) site (notation_of-IsLossless 8) refl refl tt local-IsServerUrl
      (omega arith)

main_jobs_readable_example :
    decode_job notation (encode_job notation created_job)
    ≡ ok (record created_job { result = without_empty created_job.result })
main_jobs_readable_example =
    main_jobs_readable notation [] (Server.request env create_request ∷ []) "job-s" created_job
      (notation_of-IsLossless 8) created_job-stored
