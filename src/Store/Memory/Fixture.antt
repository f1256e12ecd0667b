-- ===== src/Store/Memory/Fixture.antt =====
-- Jobs, agents and stores for the tests, and the store's code opened for them.

use golang_assignment.Prelude.{refl, ◌≢◌, All, arith, String, none, some, List, [], ◌∷◌}
use golang_assignment.Prelude.Int.{pos, incr}
use golang_assignment.GoMap.{lookup, insert}
use golang_assignment.GoText.{concat, quote}
use golang_assignment.Model.Entity.{Job, Agent}
use golang_assignment.Model.Status.{
  JobType, pending, running, wait, http_check, online, is_terminal, type_eq,
}
use golang_assignment.Store.Memory.{
  MemoryStore, new_memory_store, create_job, update_job, cancel_job, register_agent, heartbeat,
  list_jobs, list_agents, assign_next_job, in_capabilities, complete_job, mark_stale_agents_offline,
}
use golang_assignment.Store.Memory.Attempts.{IsApiCall, IsFresh}
use golang_assignment.Store.Memory.Invariant.{IsWellFormed}
use golang_assignment.Store.Memory.Steps.{Op, create, register, beat, mark_stale, apply, run}
use golang_assignment.Store.Memory.WellFormed.{run-IsWellFormed}

-- the store's code, opened for the tests
unfoldable pub store_code : Unit {0}
unfolding create_job update_job cancel_job register_agent heartbeat list_jobs list_agents
    assign_next_job in_capabilities type_eq complete_job mark_stale_agents_offline lookup insert run
    apply incr concat quote is_terminal
store_code = tt

abbrev pub job : String → JobType → Job
job id type = record {
  id = id;
  name = "n";
  type = type;
  payload = some [];
  status = pending;
  assigned_agent_id = "";
  created_at = 1;
  started_at = none;
  finished_at = none;
  attempt_count = pos 0;
  max_retries = pos 2;
  timeout_seconds = pos 30;
  logs = [];
  error = "";
  result = none;
}

abbrev pub agent : String → Agent
agent id = record {
  id = id;
  hostname = "h";
  os = "linux";
  arch = "amd64";
  version = "1.0.0";
  capabilities = wait ∷ [];
  last_seen = 100;
  status = online;
}

-- two agents and three jobs, the second of which no agent of the tests can take
abbrev pub setup : List Op
setup =
    register (agent "b")
    ∷ register (agent "a")
    ∷ create (job "j1" wait)
    ∷ create (job "j2" http_check)
    ∷ create (job "j3" wait)
    ∷ []

abbrev pub ready : MemoryStore
ready = run setup new_memory_store

abbrev pub j1_running : Job
j1_running = record (job "j1" wait) {
  status = running;
  assigned_agent_id = "a";
  started_at = some 7;
  attempt_count = pos 1;
}

abbrev pub after_first : MemoryStore
after_first = (assign_next_job 7 "a" (wait ∷ []) ready).1

abbrev pub j3_running : Job
j3_running = record (job "j3" wait) {
  status = running;
  assigned_agent_id = "b";
  started_at = some 9;
  attempt_count = pos 1;
}

-- between the two assignments: a new job, a heartbeat, a health check
abbrev pub quiet : List Op
quiet = create (job "j4" wait) ∷ beat 8 "b" ∷ mark_stale 9 5 ∷ []

pub ready-IsWellFormed : IsWellFormed ready
ready-IsWellFormed = run-IsWellFormed setup

pub job-IsFresh : (type : JobType) (id : String) → IsFresh (job id type)
job-IsFresh type id = record {
  waiting = refl;
  untried = refl;
  retries_low = omega arith;
  retries_high = omega arith;
}

pub setup-IsApiCall : All IsApiCall setup
setup-IsApiCall =
    (tt, (tt, (job-IsFresh wait "j1", (job-IsFresh http_check "j2", (job-IsFresh wait "j3", tt)))))

pub a-known : lookup "a" ready.agents ≢ none
unfolding store_code
a-known e = cc
