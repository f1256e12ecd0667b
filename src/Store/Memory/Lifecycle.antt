-- ===== src/Store/Memory/Lifecycle.antt =====
-- What one operation can do to one job: the edges of its life.
use mathlib.Core.Bool.{and-eq-true_iff}
use golang_assignment.Prelude.{
  ◌∙◌, String, ◌≡◌, refl, inl, inr, true, false, ◌&&◌, Option, none, some, List, ◌++◌, arith, ◌==◌,
  eq_iff, Option-cases, Bool-cases,
}
use golang_assignment.Prelude.Int.{ltb_ℤ}
use golang_assignment.Prelude.Result.{Result}
use golang_assignment.GoMap.{GoMap, lookup, insert, lookup-insert}
use golang_assignment.Model.Entity.{Time, Job}
use golang_assignment.Model.Status.{JobStatus, JobType, pending, canceled, is_failed, is_terminal}
use golang_assignment.Model.Value.{Payload}
use golang_assignment.Store.Memory.{
  MemoryStore, create_job, update_job, cancel_job, canceled_job, register_agent, heartbeat,
  complete_job, completed_job,
}
use golang_assignment.Store.Memory.Assign.{
  NextJob, unregistered, no_job, next_job, is_eligible, assignment, assign_next_job-NextJob,
}
use golang_assignment.Store.Memory.Health.{jobs-mark_stale}
use golang_assignment.Store.Memory.Steps.{
  Op, create, update, cancel, register, beat, assign, complete, mark_stale, apply,
}

-- how an operation moves the job stored under `k`
pub data Edge : Op → String → Job → Job → Type 0 where
  start :
      {now : Time} {agent_id k : String} {capabilities : List JobType} {job : Job}
      → is_eligible capabilities job ≡ true
      → Edge (assign now agent_id capabilities) k job (assignment now agent_id job)
  stop :
      {now : Time} {id k : String} {job : Job}
      → id ≡ k
      → is_terminal job.status ≡ false
      → Edge (cancel now id) k job (record job { status = canceled; finished_at = some now })
  requeue :
      {now : Time} {id k : String} {status : JobStatus} {logs : List String}
      {result : Option Payload} {error : String} {job : Job}
      → id ≡ k
      → is_failed status ≡ true
      → ltb_ℤ job.attempt_count job.max_retries ≡ true
      → Edge (complete now id status logs result error) k job (record job {
        logs = job.logs ++ logs;
        result = result;
        error = error;
        status = pending;
        assigned_agent_id = "";
        started_at = none;
      })
  finish :
      {now : Time} {id k : String} {status : JobStatus} {logs : List String}
      {result : Option Payload} {error : String} {job : Job}
      → id ≡ k
      → (is_failed status && ltb_ℤ job.attempt_count job.max_retries) ≡ false
      → Edge (complete now id status logs result error) k job (record job {
        logs = job.logs ++ logs;
        result = result;
        error = error;
        status = status;
        finished_at = some now;
      })
  replace : {k : String} {job job' : Job} → job'.id ≡ k → Edge (update job') k job job'

-- what an operation does to the entry of `k`: nothing, or it creates the job, or moves it
pub data Effect (op : Op) (k : String) (before after : Option Job) : Type 0 where
  kept : after ≡ before → Effect op k before after
  born :
      (job : Job)
      → op ≡ create job
      → job.id ≡ k
      → before ≡ none
      → after ≡ some job
      → Effect op k before after
  moved :
      (job job' : Job)
      → before ≡ some job
      → Edge op k job job'
      → after ≡ some job'
      → Effect op k before after

module _ {op : Op} (k : String) (jobs : GoMap Job) where
  -- A write to the entry of `id`, which moves that job, moves no other.
  write-Effect :
      (id : String) (job job' : Job)
      → lookup id jobs ≡ some job
      → (id ≡ k → Edge op k job job')
      → Effect op k (lookup k jobs) (lookup k (insert id job' jobs))
  write-Effect id job job' stored edge = elim (Bool-cases (id == k)) [
    | inl same ↦
        let e = (eq_iff id k).0 same in
        moved job job' (rw (← e) stored) (edge e) (lookup-insert id k job' jobs ∙ (rw same refl))
    | inr other ↦ kept (lookup-insert id k job' jobs ∙ (rw other refl))
  ]

complete-Edge :
    (now : Time) (id : String) (status : JobStatus) (logs : List String) (result : Option Payload)
    (error : String) (job : Job) {k : String}
    → id ≡ k
    → Edge
        (complete now id status logs result error)
        k
        job
        (completed_job now status logs result error job)
unfolding completed_job
complete-Edge now id status logs result error job e =
    elim (Bool-cases (is_failed status && ltb_ℤ job.attempt_count job.max_retries)) [
      | inl again ↦ let (bad, left) = (and-eq-true_iff _ _).0 again in rw again (requeue e bad left)
      | inr final ↦ rw final (finish e final)
    ]

module _ (k : String) (m : MemoryStore) where
  create-Effect :
      (job : Job) → Effect (create job) k (lookup k m.jobs) (lookup k (create_job job m).1.jobs)
  unfolding create_job
  create-Effect job = elim (Option-cases (lookup job.id m.jobs)) [
    | inr (old, taken) ↦ kept (ground arith)
    | inl fresh ↦ elim (Bool-cases (job.id == k)) [
      | inl same ↦
          let e = (eq_iff job.id k).0 same in
          born job refl e (rw (← e) fresh) (ground (arith, lookup-insert job.id k job m.jobs))
      | inr other ↦ kept (ground (arith, lookup-insert job.id k job m.jobs))
    ]
  ]

  update-Effect :
      (job : Job) → Effect (update job) k (lookup k m.jobs) (lookup k (update_job job m).1.jobs)
  unfolding update_job
  update-Effect job = elim (Option-cases (lookup job.id m.jobs)) [
    | inl missing ↦ kept (ground arith)
    | inr (old, there) ↦ rw there (write-Effect k m.jobs job.id old job there (λ e. replace e))
  ]

  cancel-Effect :
      (now : Time) (id : String)
      → Effect (cancel now id) k (lookup k m.jobs) (lookup k (cancel_job now id m).1.jobs)
  unfolding cancel_job
  cancel-Effect now id = elim (Option-cases (lookup id m.jobs)) [
    | inl missing ↦ kept (ground arith)
    | inr (job, stored) ↦ elim (Bool-cases (is_terminal job.status)) [
      | inl final ↦ kept (ground arith)
      | inr unfinished ↦
          rw (stored, cancel_job, unfinished)
            (write-Effect k m.jobs id job (canceled_job now job) stored (λ e. stop e unfinished))
    ]
  ]

  NextJob-Effect :
      {now : Time} {agent_id : String} {capabilities : List JobType}
      {r : Result (Option Job) × MemoryStore}
      → NextJob now agent_id capabilities m r
      → Effect (assign now agent_id capabilities) k (lookup k m.jobs) (lookup k r.1.jobs)
  NextJob-Effect (unregistered missing e) = kept (rw e refl)
  NextJob-Effect (no_job known rest e) = kept (rw e refl)
  NextJob-Effect {now} {agent_id} (next_job id job known first e) = rw e (
      write-Effect k m.jobs id job (assignment now agent_id job) first.stored
        (λ _. start first.eligible))

  complete-Effect :
      (now : Time) (id : String) (status : JobStatus) (logs : List String) (result : Option Payload)
      (error : String)
      → Effect
          (complete now id status logs result error)
          k
          (lookup k m.jobs)
          (lookup k (complete_job now id status logs result error m).1.jobs)
  unfolding complete_job
  complete-Effect now id status logs result error = elim (Option-cases (lookup id m.jobs)) [
    | inl missing ↦ kept (ground arith)
    | inr (job, stored) ↦
        rw (stored, complete_job)
          (write-Effect k m.jobs id job (completed_job now status logs result error job) stored
            (complete-Edge now id status logs result error job))
  ]

-- One operation, whatever it is, leaves the job under `k` as it was, or creates it, or moves it along
-- an edge that belongs to that operation.
pub apply-Effect :
    (op : Op) (k : String) (m : MemoryStore)
    → Effect op k (lookup k m.jobs) (lookup k (apply op m).jobs)
unfolding apply register_agent heartbeat
apply-Effect (create job) k m = create-Effect k m job
apply-Effect (update job) k m = update-Effect k m job
apply-Effect (cancel now id) k m = cancel-Effect k m now id
apply-Effect (register agent) k m = kept refl
apply-Effect (beat now id) k m = kept (ground arith)
apply-Effect (assign now id capabilities) k m =
    NextJob-Effect k m (assign_next_job-NextJob now id capabilities m)
apply-Effect (complete now id status logs result error) k m =
    complete-Effect k m now id status logs result error
apply-Effect (mark_stale now threshold) k m = kept (rw (jobs-mark_stale now threshold m) refl)
