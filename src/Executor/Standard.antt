-- ===== src/Executor/Standard.antt =====
-- The registry that cmd/agent/main.go fills.
use mathlib.Core.Path.{subst}
use golang_assignment.Prelude.{sym, inr, ℕ, ◌≡◌, refl, arith, true, none, some, []}
use golang_assignment.Model.Entity.{Job}
use golang_assignment.Model.Status.{
  JobType, http_check, tcp_check, file_exists, checksum, copy_file, write_file, wait, is_known_type,
  type_eq,
}
use golang_assignment.Model.Validation.{validate_job_result}
use golang_assignment.Executor.{
  ExecutionResult, Executor, Registry, put_executor, register_executor, get_executor,
}
use golang_assignment.Executor.Files.{
  execute_file_exists, execute_checksum, execute_copy_file, execute_write_file,
}
use golang_assignment.Executor.Machine.{Machine}
use golang_assignment.Executor.Probes.{
  Surroundings, execute_http_check, execute_tcp_check, execute_wait,
}
use golang_assignment.Executor.Reports.{
  IsReported, IsReported-IsValid, file_exists-IsReported, checksum-IsReported, copy_file-IsReported,
  write_file-IsReported, http_check-IsReported, tcp_check-IsReported, wait-IsReported,
}
use golang_assignment.Worker.{Worker}
use golang_assignment.Worker.Requests.{result_request}
use golang_assignment.Worker.Rounds.{executed, execution}

-- the machine, and how it finds the network and the clock under a timeout
abbrev pub Site : Type 0
Site = Machine × (ℕ → Surroundings)

abbrev on_machine : JobType → (Job → Machine → ExecutionResult × Machine) → Executor Site
on_machine type run = record {
  type = type;
  execute = λ timeout job (h, around). let (result, h') = run job h in (result, (h', around));
}

abbrev on_network : JobType → (Job → Surroundings → ExecutionResult) → Executor Site
on_network type run = record {
  type = type;
  execute = λ timeout job (h, around). (run job (around timeout), (h, around));
}

unfoldable pub standard_registry : Registry Site
unfolding register_executor
standard_registry = register_executor (on_network wait execute_wait) (
    register_executor (on_machine write_file execute_write_file) (
      register_executor (on_machine copy_file execute_copy_file) (
        register_executor (on_machine checksum execute_checksum) (
          register_executor (on_machine file_exists execute_file_exists) (
            register_executor (on_network tcp_check execute_tcp_check)
              (register_executor (on_network http_check execute_http_check) []))))))

-- Each type of job that the server accepts has an executor of this type in the agent's registry.
pub standard_registry-covers :
    (t : JobType)
    → is_known_type t ≡ true
    → (ex : Executor Site) × (get_executor t standard_registry ≡ some ex) × (ex.type ≡ t)
unfolding standard_registry get_executor put_executor type_eq is_known_type
standard_registry-covers http_check known = (_, refl, refl)
standard_registry-covers tcp_check known = (_, refl, refl)
standard_registry-covers file_exists known = (_, refl, refl)
standard_registry-covers checksum known = (_, refl, refl)
standard_registry-covers copy_file known = (_, refl, refl)
standard_registry-covers write_file known = (_, refl, refl)
standard_registry-covers wait known = (_, refl, refl)
standard_registry-covers (JobType.other s) known = ground arith

executed-IsReported :
    (t : JobType) (j : Job) (site : Site)
    → IsReported (executed (get_executor t standard_registry) j site).0.status
unfolding standard_registry get_executor put_executor type_eq
executed-IsReported http_check j (h, around) = http_check-IsReported j (around _)
executed-IsReported tcp_check j (h, around) = tcp_check-IsReported j (around _)
executed-IsReported file_exists j (h, around) = file_exists-IsReported j h
executed-IsReported checksum j (h, around) = checksum-IsReported j h
executed-IsReported copy_file j (h, around) = copy_file-IsReported j h
executed-IsReported write_file j (h, around) = write_file-IsReported j h
executed-IsReported wait j (h, around) = wait-IsReported j (around _)
executed-IsReported (JobType.other s) j site = inr refl

-- Whatever job a worker with the registry of cmd/agent gets, of a known type or not, and whatever its
-- machine and network: the server finds the request valid in which the worker reports the result.
pub execution_valid :
    (worker : Worker Site) (j : Job) (site : Site)
    → worker.registry ≡ standard_registry
    → validate_job_result (result_request (execution worker j site).0) ≡ none
execution_valid worker j site same = IsReported-IsValid (execution worker j site).0 (
    subst (λ r. IsReported (executed (get_executor j.type r) j site).0.status) (sym same)
      (executed-IsReported j.type j site))
