-- ===== src/Worker/Fixture.antt =====
-- A worker that can wait, and what its first poll gets.
use golang_assignment.Prelude.{
  ℕ, ◌+◌, String, ◌≡◌, ◌≢◌, refl, none, some, [], ◌∷◌, map, arith, eq_iff,
}
use golang_assignment.Prelude.Int.{pos}
use golang_assignment.Prelude.Result.{ok}
use golang_assignment.GoUrl.Plain.{IsServerUrl, with_port}
use golang_assignment.Model.Status.{success, wait, job_type}
use golang_assignment.Store.Memory.{assign_next_job}
use golang_assignment.Store.Memory.Fixture.{store_code, ready, j1_running, after_first}
use golang_assignment.Api.Http.{Env}
use golang_assignment.Executor.{Executor}
use golang_assignment.Worker.{Worker}
use golang_assignment.Worker.Delivery.{IsClientOf}

abbrev pub env_at : ℕ → Env
env_at n = record { now = 7 + n; random = none; stamp = ""; go_version = "go1.22" }

-- counts the executions
abbrev pub counting : Executor ℕ
counting = record {
  type = wait;
  execute = λ timeout job n.
      (record { status = success; logs = "done" ∷ []; result = none; error = "" }, n + 1);
}

pub local-IsServerUrl : IsServerUrl "http://localhost:8080"
local-IsServerUrl = record {
  host = "localhost:8080";
  shape = with_port "localhost" "8080" (ground arith) (ground arith) refl;
  named = λ e. ground (arith, eq_iff "localhost:8080" "");
  text = refl;
}

abbrev pub test_worker : Worker ℕ
test_worker = record {
  client = record { server_url = "http://localhost:8080"; agent_id = "a"; auth_token = "secret" };
  registry = (wait, counting) ∷ [];
  capabilities = "wait" ∷ [];
  poll_interval = pos 3000000000;
}

pub agent_id-named : ◌≢◌ {A = String} "a" ""
agent_id-named e = ground (arith, eq_iff "a" "")

pub job_id-named : ◌≢◌ {A = String} "j1" ""
job_id-named e = ground (arith, eq_iff "j1" "")

pub j1-assigned :
    assign_next_job 7 "a" (map job_type ("wait" ∷ [])) ready ≡ (ok (some j1_running), after_first)
unfolding store_code job_type
j1-assigned = refl

pub test_worker-IsClientOf : IsClientOf "secret" test_worker.client
test_worker-IsClientOf = record { same = refl; visible = ground arith; server = local-IsServerUrl }
