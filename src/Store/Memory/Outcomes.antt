-- ===== src/Store/Memory/Outcomes.antt =====
-- The results of the operations on one job: errors change nothing, and `CompleteJob` looks only at
-- the counts of the job, not at its state.
use golang_assignment.Prelude.{
  ◌↔◌, String, ◌≡◌, ap, inl, inr, true, false, Option, some, List, arith, Option-cases, Bool-cases,
}
use golang_assignment.Prelude.Int.{ltb_ℤ}
use golang_assignment.Prelude.Result.{Result, ok, err}
use golang_assignment.GoMap.{lookup, lookup-insert_self}
use golang_assignment.Model.Entity.{Time, Job}
use golang_assignment.Model.Status.{JobType, pending, failed, is_terminal}
use golang_assignment.Model.Value.{Payload}
use golang_assignment.Store.Memory.{
  register_agent, MemoryStore, create_job, update_job, cancel_job, heartbeat, complete_job,
  completed_job,
}
use golang_assignment.Store.Memory.Assign.{
  NextJob, unregistered, no_job, next_job, assign_next_job-NextJob,
}
use golang_assignment.Store.Memory.Steps.{Op, assign, mark_stale, apply, error_of}

NextJob-Rejects :
    {now : Time} {agent_id : String} {capabilities : List JobType} {m : MemoryStore}
    {r : Result (Option Job) × MemoryStore}
    → NextJob now agent_id capabilities m r
    → (e : String) → r.0 ≡ err e
    → r.1 ≡ m
NextJob-Rejects (unregistered missing q) e p = ap (λ (r : Result (Option Job) × MemoryStore). r.1) q
NextJob-Rejects (no_job known rest q) e p = ap (λ (r : Result (Option Job) × MemoryStore). r.1) q
NextJob-Rejects (next_job id job known first q) e p = cc

-- Whichever operation returns an error, it leaves the store exactly as it was.
pub error_changes_nothing :
    (op : Op) (m : MemoryStore) (e : String) → error_of op m ≡ some e → apply op m ≡ m
unfolding error_of apply create_job update_job cancel_job register_agent heartbeat complete_job
error_changes_nothing (assign now id capabilities) m e p =
    NextJob-Rejects (assign_next_job-NextJob now id capabilities m) e (ground arith)
error_changes_nothing (mark_stale now threshold) m e p = cc
error_changes_nothing op m e p = ground arith

-- `CancelJob` succeeds exactly on a stored job that is not in a terminal state.
pub cancel_job_iff :
    (now : Time) (id : String) (m : MemoryStore)
    → ((cancel_job now id m).0 ≡ ok tt)
      ↔ ((job : Job) × (lookup id m.jobs ≡ some job) × (is_terminal job.status ≡ false))
unfolding cancel_job
cancel_job_iff now id m = elim (Option-cases (lookup id m.jobs)) [
  | inl missing ↦ (λ e. ground arith, λ (job, stored, unfinished). cc)
  | inr (job, stored) ↦ elim (Bool-cases (is_terminal job.status)) [
    | inl final ↦ (λ e. ground arith, λ (old, same, unfinished). ground arith)
    | inr unfinished ↦ (λ e. (job, stored, unfinished), λ _. ground arith)
  ]
]

-- `CompleteJob` does not look at the state of the job: a FAILED result for a stored job with attempts
-- left makes it PENDING again, keeps its time of finish, and frees it, also if it was CANCELED, or in
-- another state that `IsTerminal` calls final.
pub complete_job_revives :
    (now : Time) (id error : String) (logs : List String) (result : Option Payload) (job : Job)
    (m : MemoryStore)
    → lookup id m.jobs ≡ some job
    → is_terminal job.status ≡ true
    → ltb_ℤ job.attempt_count job.max_retries ≡ true
    → (job' : Job) × (lookup id (complete_job now id failed logs result error m).1.jobs ≡ some job')
      × (job'.status ≡ pending)
      × (job'.finished_at ≡ job.finished_at)
      × (job'.assigned_agent_id ≡ "")
unfolding complete_job
complete_job_revives now id error logs result job m stored final left = (
  completed_job now failed logs result error job,
  rw (stored, complete_job) (lookup-insert_self id _ m.jobs),
  unfold completed_job in ground arith,
  unfold completed_job in ground arith,
  unfold completed_job in ground arith,
)
