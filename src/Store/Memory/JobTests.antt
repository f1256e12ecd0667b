-- ===== src/Store/Memory/JobTests.antt =====
-- Jobs on concrete inputs: tests, and the theorems at inputs that meet their hypotheses.

use golang_assignment.Prelude.{String, ◌≡◌, refl, ◌⊎◌, inr, none, some, List, [], ◌∷◌, map, arith}
use golang_assignment.Prelude.Int.{pos, ◌≤ℤ◌}
use golang_assignment.Prelude.Result.{ok}
use golang_assignment.GoMap.{lookup}
use golang_assignment.Model.Entity.{Job}
use golang_assignment.Model.Status.{JobType, pending, failed, canceled, wait, is_terminal}
use golang_assignment.Store.Memory.{
  MemoryStore, new_memory_store, cancel_job, list_jobs, complete_job,
}
use golang_assignment.Store.Memory.Attempts.{run-attempts_bounded, IsFresh}
use golang_assignment.Store.Memory.Fixture.{
  store_code, job, agent, ready, j1_running, after_first, quiet, ready-IsWellFormed,
}
use golang_assignment.Store.Memory.Held.{run-held, run-terminal}
use golang_assignment.Store.Memory.Lifecycle.{Effect, apply-Effect}
use golang_assignment.Store.Memory.Listing.{list_jobs_ids}
use golang_assignment.Store.Memory.Outcomes.{error_changes_nothing, complete_job_revives}
use golang_assignment.Store.Memory.Polls.{served, served-eq-take, take}
use golang_assignment.Store.Memory.Queue.{queue}
use golang_assignment.Store.Memory.Steps.{
  error_of, Op, create, cancel, register, assign, complete, apply, run,
}

apply-Effect_example :
    Effect
      (cancel 8 "j1")
      "j1"
      (lookup "j1" after_first.jobs)
      (lookup "j1" (apply (cancel 8 "j1") after_first).jobs)
apply-Effect_example = apply-Effect (cancel 8 "j1") "j1" after_first

job-IsFresh : (id : String) (type : JobType) → IsFresh (job id type)
job-IsFresh id type = record {
  waiting = refl;
  untried = refl;
  retries_low = omega arith;
  retries_high = omega arith;
}

-- The job fails twice, which is all that its two retries allow.
abbrev failing : List Op
failing =
    register (agent "a")
    ∷ create (job "j1" wait)
    ∷ assign 2 "a" (wait ∷ [])
    ∷ complete 3 "j1" failed ("x" ∷ []) none "e"
    ∷ assign 4 "a" (wait ∷ [])
    ∷ complete 5 "j1" failed ("y" ∷ []) none "e"
    ∷ assign 6 "a" (wait ∷ [])
    ∷ []

abbrev j1_failed : Job
j1_failed = record (job "j1" wait) {
  status = failed;
  assigned_agent_id = "a";
  started_at = some 4;
  finished_at = some 5;
  attempt_count = pos 2;
  logs = "x" ∷ "y" ∷ [];
  error = "e";
}

exhausted : lookup "j1" (run failing new_memory_store).jobs ≡ some j1_failed
unfolding store_code
exhausted = refl

run-attempts_bounded_example :
    (pos 0 ≤ℤ j1_failed.attempt_count)
    × ((j1_failed.attempt_count ≤ℤ j1_failed.max_retries) ⊎ (j1_failed.attempt_count ≤ℤ pos 1))
run-attempts_bounded_example =
    run-attempts_bounded failing "j1" j1_failed
      (tt, (job-IsFresh "j1" wait, (tt, (inr refl, (tt, (inr refl, (tt, tt))))))) exhausted

j1_stored : lookup "j1" after_first.jobs ≡ some j1_running
unfolding store_code
j1_stored = refl

run-held_example : lookup "j1" (run quiet after_first).jobs ≡ some j1_running
run-held_example = run-held quiet "j1" j1_running after_first j1_stored refl (tt, (tt, (tt, tt)))

abbrev canceled_store : MemoryStore
canceled_store = (cancel_job 8 "j1" after_first).1

abbrev j1_canceled : Job
j1_canceled = record j1_running { status = canceled; finished_at = some 8 }

j1_canceled_stored : lookup "j1" canceled_store.jobs ≡ some j1_canceled
unfolding store_code
j1_canceled_stored = refl

run-terminal_example :
    lookup "j1" (run (cancel 9 "j1" ∷ quiet) canceled_store).jobs ≡ some j1_canceled
unfolding is_terminal
run-terminal_example =
    run-terminal (cancel 9 "j1" ∷ quiet) "j1" j1_canceled canceled_store j1_canceled_stored refl
      (tt, (tt, (tt, (tt, tt))))

complete_job_revives_example :
    (job' : Job) × (lookup "j1" (complete_job 9 "j1" failed [] none "late" canceled_store).1.jobs
      ≡ some job')
    × (job'.status ≡ pending)
    × (job'.finished_at ≡ some 8)
    × (job'.assigned_agent_id ≡ "")
unfolding is_terminal
complete_job_revives_example =
    complete_job_revives 9 "j1" "late" [] none j1_canceled canceled_store j1_canceled_stored refl
      refl

abbrev taken : String
taken = "job \"j1\" already exists"

taken_error : error_of (create (job "j1" wait)) ready ≡ some taken
unfolding store_code error_of
taken_error = refl

error_changes_nothing_example : apply (create (job "j1" wait)) ready ≡ ready
error_changes_nothing_example =
    error_changes_nothing (create (job "j1" wait)) ready taken taken_error

list_jobs_ids_example :
    (jobs : List Job) × (list_jobs ready ≡ ok jobs)
    × (map (λ (j : Job). j.id) jobs ≡ "j1" ∷ "j2" ∷ "j3" ∷ [])
unfolding store_code
list_jobs_ids_example = list_jobs_ids ready ready-IsWellFormed

served-eq-take_example :
    served (wait ∷ []) ((7, "a") ∷ (8, "b") ∷ (9, "a") ∷ []) ready
    ≡ take 3 (queue (wait ∷ []) ready)
unfolding store_code
served-eq-take_example =
    served-eq-take (wait ∷ []) ((7, "a") ∷ (8, "b") ∷ (9, "a") ∷ []) ready ready-IsWellFormed
      ((λ e. cc), ((λ e. cc), ((λ e. cc), tt)))

queue_test : queue (wait ∷ []) ready ≡ "j1" ∷ "j3" ∷ []
unfolding store_code
queue_test = refl
