-- ===== src/Executor/Tests.antt =====
-- A machine with two files, and a network with one service.
use golang_assignment.Prelude.{
  true, ◌==◌, if◌then◌else◌, is_some, ℕ, String, ◌≡◌, ◌≢◌, ◌↔◌, refl, arith, eq_iff, false, none,
  some, List, [], ◌∷◌,
}
use golang_assignment.Prelude.Int.{pos}
use golang_assignment.Prelude.Result.{ok}
use golang_assignment.GoMap.{lookup, insert}
use golang_assignment.GoText.{decimal}
use golang_assignment.Model.Entity.{Job}
use golang_assignment.Model.Status.{success, copy_file, write_file, http_check}
use golang_assignment.Model.Validation.{validate_job_result}
use golang_assignment.Model.Value.{Value, str}
use golang_assignment.Store.Memory.Fixture.{job}
use golang_assignment.Executor.Copies.{content_at, copy_file_copies, copy_file_onto_itself}
use golang_assignment.Executor.Files.{
  payload_value, payload_string, execute_file_exists, execute_checksum, execute_copy_file,
  execute_write_file, copy_opened, copy_into, copy_result, write_result,
}
use golang_assignment.Executor.Machine.{
  Machine, Node, bytes, utf8, open_file, read_file, create_file, write_bytes, copy_bytes,
}
use golang_assignment.Executor.Probes.{
  Surroundings, interrupted, execute_http_check, expected_status,
}
use golang_assignment.Executor.Probes.Digits.{expected_status-decimal}
use golang_assignment.Executor.Reports.{http_check_iff}
use golang_assignment.Executor.Standard.{Site, standard_registry, execution_valid}
use golang_assignment.Worker.{Worker}
use golang_assignment.Worker.Requests.{result_request}
use golang_assignment.Worker.Rounds.{execution}
use golang_assignment.Executor.Machine

abbrev node : List ℕ → Node
node content = record { is_dir = false; content = content; mod_time = "t0" }

-- two names of one file
abbrev locate_alias : String → String
locate_alias path = if path == "./a" then "/a" else path

abbrev machine : Machine
machine = record {
  locate = locate_alias;
  nodes = ("/a", node (1 ∷ 2 ∷ [])) ∷ ("/b", node (3 ∷ [])) ∷ [];
  now = "t1";
  done = none;
  denied = λ operation path. none;
  sha256 = λ content. content;
}

abbrev copy_job : String → Job
copy_job destination = record (job "c" copy_file) {
  payload = some (("source", str "/a") ∷ ("destination", str destination) ∷ []);
}

abbrev write_job : Job
write_job = record (job "w" write_file) {
  payload = some (("path", str "/c") ∷ ("content", str "hi") ∷ []);
}

abbrev around : Surroundings
around = record {
  dial = λ address. none;
  bad_url = λ url. none;
  fetch = λ url. ok 200;
  duration = λ secs. "1s";
  wait_for = λ secs. interrupted "context deadline exceeded" "1s" secs;
}

abbrev http_job : Job
http_job = record (job "h" http_check) { payload = some (("url", str "http://localhost") ∷ []) }

unfoldable executor_code : Unit {0}
unfolding lookup insert open_file read_file create_file write_bytes copy_bytes bytes utf8
    Machine.write_file execute_file_exists execute_checksum execute_copy_file execute_write_file
    copy_opened copy_into copy_result write_result
executor_code = tt

copied : (execute_copy_file (copy_job "/b") machine).0.status ≡ success
unfolding executor_code
copied = refl

copied-apart :
    machine.locate (payload_string "source" (copy_job "/b"))
    ≢ machine.locate (payload_string "destination" (copy_job "/b"))
unfolding executor_code
copied-apart e = ground (arith, eq_iff "/a" "/b")

copy_file_copies_example :
    (is_some (content_at (payload_string "source" (copy_job "/b")) machine) ≡ true)
    × (content_at "/b" (execute_copy_file (copy_job "/b") machine).1 ≡ (
        if machine.locate (payload_string "destination" (copy_job "/b")) == machine.locate "/b"
        then content_at (payload_string "source" (copy_job "/b")) machine
        else content_at "/b" machine))
copy_file_copies_example = copy_file_copies (copy_job "/b") machine "/b" copied-apart copied

lost : (execute_copy_file (copy_job "./a") machine).0.status ≡ success
unfolding executor_code
lost = refl

lost-same :
    machine.locate (payload_string "source" (copy_job "./a"))
    ≡ machine.locate (payload_string "destination" (copy_job "./a"))
unfolding executor_code
lost-same = refl

copy_file_onto_itself_example :
    content_at
      (payload_string "source" (copy_job "./a"))
      (execute_copy_file (copy_job "./a") machine).1
    ≡ some []
copy_file_onto_itself_example = copy_file_onto_itself (copy_job "./a") machine lost-same lost

written : (execute_write_file write_job machine).0.status ≡ success
unfolding executor_code
written = refl

abbrev site : Site
site = (machine, λ timeout. around)

abbrev standard_worker : Worker Site
standard_worker = record {
  client = record { server_url = "http://localhost:8080"; agent_id = "a"; auth_token = "" };
  registry = standard_registry;
  capabilities = "http_check" ∷ [];
  poll_interval = pos 3000000000;
}

execution_valid_example :
    validate_job_result (result_request (execution standard_worker http_job site).0) ≡ none
execution_valid_example = execution_valid standard_worker http_job site refl

http_check_iff_example : ((execute_http_check http_job around).status ≡ success) ↔ (
    (payload_string "url" http_job ≢ "")
    × (around.bad_url (payload_string "url" http_job) ≡ none)
    × ((status : ℕ) × (around.fetch (payload_string "url" http_job) ≡ ok status)
        × (expected_status (payload_value "expected_status" http_job) ≡ pos status)))
http_check_iff_example = http_check_iff http_job around

expected_status-decimal_example : expected_status (some (Value.str (decimal (pos 418)))) ≡ pos 418
expected_status-decimal_example = expected_status-decimal (pos 418) (omega arith) (omega arith)
