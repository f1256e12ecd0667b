-- ===== src/Store/Memory/Tests.antt =====
-- Assignment on concrete inputs: tests, and the theorems at inputs that meet their hypotheses.

use golang_assignment.Prelude.{String, ◌≡◌, ◌≢◌, refl, some, [], ◌∷◌, ◌++◌}
use golang_assignment.Prelude.Result.{ok, err}
use golang_assignment.Model.Status.{wait}
use golang_assignment.Store.Memory.{new_memory_store, assign_next_job}
use golang_assignment.Store.Memory.Assign.{NextJob, assign_next_job-NextJob}
use golang_assignment.Store.Memory.Exclusive.{assign_next_job_exclusive}
use golang_assignment.Store.Memory.Fixture.{
  store_code, setup, ready, j1_running, after_first, j3_running, quiet, ready-IsWellFormed,
}
use golang_assignment.Store.Memory.Invariant.{IsWellFormed}
use golang_assignment.Store.Memory.Steps.{run}
use golang_assignment.Store.Memory.WellFormed.{run-IsWellFormed}

first_assignment : (assign_next_job 7 "a" (wait ∷ []) ready).0 ≡ ok (some j1_running)
unfolding store_code
first_assignment = refl

unknown_agent : (assign_next_job 7 "c" (wait ∷ []) ready).0 ≡ err "agent \"c\" not found"
unfolding store_code
unknown_agent = refl

second_assignment :
    (assign_next_job 9 "b" (wait ∷ []) (run quiet after_first)).0 ≡ ok (some j3_running)
unfolding store_code
second_assignment = refl

assign_next_job-NextJob_example :
    NextJob 7 "a" (wait ∷ []) ready (assign_next_job 7 "a" (wait ∷ []) ready)
assign_next_job-NextJob_example = assign_next_job-NextJob 7 "a" (wait ∷ []) ready

run-IsWellFormed_example : IsWellFormed (run (setup ++ quiet) new_memory_store)
run-IsWellFormed_example = run-IsWellFormed (setup ++ quiet)

assign_next_job_exclusive_example : ◌≢◌ {A = String} "j3" "j1"
unfolding store_code
assign_next_job_exclusive_example =
    assign_next_job_exclusive 7 9 "a" "b" (wait ∷ []) (wait ∷ []) ready after_first
      (assign_next_job 9 "b" (wait ∷ []) (run quiet after_first)).1 j1_running j3_running quiet
      ready-IsWellFormed refl (tt, (tt, (tt, tt))) refl
