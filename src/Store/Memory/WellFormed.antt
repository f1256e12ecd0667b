-- ===== src/Store/Memory/WellFormed.antt =====
-- Every operation keeps the invariant.
use golang_assignment.Prelude.{
  sym, ◌-◌, ◌∙◌, Bool-cases, ℕ, String, ◌≡◌, Option, some, List, arith, Option-cases, is_some, inl,
  inr, refl,
}
use golang_assignment.Prelude.Result.{Result}
use golang_assignment.GoMap.{lookup}
use golang_assignment.Model.Entity.{Time, Job}
use golang_assignment.Model.Status.{is_terminal, JobStatus, JobType, online}
use golang_assignment.Model.Value.{Payload}
use golang_assignment.Store.Memory.{
  canceled_job, put_job, MemoryStore, new_memory_store, update_job, cancel_job, register_agent,
  heartbeat, complete_job, mark_stale_agents_offline, completed_job,
}
use golang_assignment.Store.Memory.Assign.{
  NextJob, unregistered, no_job, next_job, assignment, assign_next_job-NextJob,
}
use golang_assignment.Store.Memory.Health.{
  jobs-mark_stale, job_order-mark_stale, mark_stale-HasDistinctKeys, lookup-mark_stale, id-marked,
}
use golang_assignment.Store.Memory.Invariant.{
  IsWellFormed, new-IsWellFormed, put_job-IsWellFormed, put_agent-IsWellFormed,
  create_job-IsWellFormed,
}
use golang_assignment.Store.Memory.Steps.{
  Op, create, update, cancel, register, beat, assign, complete, mark_stale, apply, run,
  run_induction,
}

module _ {m : MemoryStore} (h : IsWellFormed m) where
  update_job-IsWellFormed : (job : Job) → IsWellFormed (update_job job m).1
  unfolding update_job
  update_job-IsWellFormed job = elim (Bool-cases (is_some (lookup job.id m.jobs))) [
    | inl there ↦ rw there (put_job-IsWellFormed h job.id job there refl)
    | inr missing ↦ rw missing h
  ]

  -- A stored job's entry stays well-formed under any write that keeps the job's ID.
  stored-IsWellFormed :
      (k : String) (job job' : Job)
      → lookup k m.jobs ≡ some job
      → job'.id ≡ job.id
      → IsWellFormed (put_job k job' m)
  stored-IsWellFormed k job job' e same =
      put_job-IsWellFormed h k job' (rw e refl) (same ∙ h.job_ids k job e)

  cancel_job-IsWellFormed : (now : Time) (id : String) → IsWellFormed (cancel_job now id m).1
  unfolding cancel_job
  cancel_job-IsWellFormed now id = elim (Option-cases (lookup id m.jobs)) [
    | inl missing ↦ rw (missing, cancel_job) h
    | inr (job, stored) ↦ elim (Bool-cases (is_terminal job.status)) [
      | inl final ↦ rw (stored, cancel_job, final) h
      | inr open_still ↦
          rw (stored, cancel_job, open_still)
            (stored-IsWellFormed id job (canceled_job now job) stored refl)
    ]
  ]

  heartbeat-IsWellFormed : (now : Time) (id : String) → IsWellFormed (heartbeat now id m).1
  unfolding heartbeat
  heartbeat-IsWellFormed now id = elim (Option-cases (lookup id m.agents)) [
    | inl missing ↦ rw (missing, heartbeat) h
    | inr (agent, found) ↦
        rw (found, heartbeat)
          (put_agent-IsWellFormed h id (record agent { last_seen = now; status = online })
            (h.agent_ids id agent found))
  ]

  complete_job-IsWellFormed :
      (now : Time) (id : String) (status : JobStatus) (logs : List String) (result : Option Payload)
      (error : String)
      → IsWellFormed (complete_job now id status logs result error m).1
  unfolding complete_job
  complete_job-IsWellFormed now id status logs result error =
      elim (Option-cases (lookup id m.jobs)) [
        | inl missing ↦ rw (missing, complete_job) h
        | inr (job, stored) ↦
            rw (stored, complete_job)
              (stored-IsWellFormed id job (completed_job now status logs result error job) stored
                (ground arith))
      ]

  NextJob-IsWellFormed :
      {now : Time} {agent_id : String} {capabilities : List JobType}
      {r : Result (Option Job) × MemoryStore}
      → NextJob now agent_id capabilities m r
      → IsWellFormed r.1
  NextJob-IsWellFormed (unregistered missing e) = rw e h
  NextJob-IsWellFormed (no_job known rest e) = rw e h
  NextJob-IsWellFormed {now} {agent_id} (next_job id job known first e) =
      rw e (stored-IsWellFormed id job (assignment now agent_id job) first.stored refl)

  mark_stale-IsWellFormed :
      (now : Time) (threshold : ℕ) → IsWellFormed (mark_stale_agents_offline now threshold m).1
  mark_stale-IsWellFormed now threshold = record {
    listed = rw (jobs-mark_stale now threshold m, job_order-mark_stale now threshold m) h.listed;
    ordered_once = rw (job_order-mark_stale now threshold m) h.ordered_once;
    jobs_distinct = rw (jobs-mark_stale now threshold m) h.jobs_distinct;
    agents_distinct = mark_stale-HasDistinctKeys now threshold m h.agents_distinct;
    job_ids = rw (jobs-mark_stale now threshold m) h.job_ids;
    agent_ids = λ k a e.
        id-marked (now - threshold) (lookup k m.agents) k a (h.agent_ids k)
          (sym (lookup-mark_stale now threshold m k h.agents_distinct) ∙ e);
  }

-- Every operation, on every input and in every branch, keeps the invariant.
pub apply-IsWellFormed : (op : Op) (m : MemoryStore) → IsWellFormed m → IsWellFormed (apply op m)
unfolding apply register_agent
apply-IsWellFormed (create job) m h = create_job-IsWellFormed h job
apply-IsWellFormed (update job) m h = update_job-IsWellFormed h job
apply-IsWellFormed (cancel now id) m h = cancel_job-IsWellFormed h now id
apply-IsWellFormed (register agent) m h = put_agent-IsWellFormed h agent.id agent refl
apply-IsWellFormed (beat now id) m h = heartbeat-IsWellFormed h now id
apply-IsWellFormed (assign now id capabilities) m h =
    NextJob-IsWellFormed h (assign_next_job-NextJob now id capabilities m)
apply-IsWellFormed (complete now id status logs result error) m h =
    complete_job-IsWellFormed h now id status logs result error
apply-IsWellFormed (mark_stale now threshold) m h = mark_stale-IsWellFormed h now threshold

-- Whatever operations are called on a new store, in any order and with any arguments, the store is
-- well-formed: the job order lists each stored job exactly once, no key occurs twice, and each job
-- and agent is stored under its own ID.
pub run-IsWellFormed : (ops : List Op) → IsWellFormed (run ops new_memory_store)
run-IsWellFormed ops =
    run_induction IsWellFormed apply-IsWellFormed ops new_memory_store new-IsWellFormed
