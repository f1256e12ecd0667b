-- ===== src/Store/Memory/Invariant.antt =====
-- What holds of a store between two operations: the job order lists each stored job once, and every
-- job and agent is stored under its own ID.
use golang_assignment.Prelude.{
  inr, inl, ◌∙◌, [], ◌∷◌, ◌++◌, Bool-cases, String, ◌≡◌, refl, true, false, some, arith, is_some,
  eq_iff,
}
use golang_assignment.GoMap.{lookup, lookup-insert, HasDistinctKeys, insert-HasDistinctKeys}
use golang_assignment.Model.Entity.{Job, Agent}
use golang_assignment.Store.Memory.{MemoryStore, new_memory_store, put_job, put_agent, create_job}
use golang_assignment.Store.Memory.Names.{contains, IsDistinct, contains-append, append-IsDistinct}

pub record IsWellFormed (m : MemoryStore) : Type 0 where
  pub listed : (k : String) → contains m.job_order k ≡ is_some (lookup k m.jobs)
  pub ordered_once : IsDistinct m.job_order
  pub jobs_distinct : HasDistinctKeys m.jobs
  pub agents_distinct : HasDistinctKeys m.agents
  pub job_ids : (k : String) (j : Job) → lookup k m.jobs ≡ some j → j.id ≡ k
  pub agent_ids : (k : String) (a : Agent) → lookup k m.agents ≡ some a → a.id ≡ k

pub new-IsWellFormed : IsWellFormed new_memory_store
unfolding lookup
new-IsWellFormed = record {
  listed = λ k. refl;
  ordered_once = tt;
  jobs_distinct = tt;
  agents_distinct = tt;
  job_ids = λ k j e. cc;
  agent_ids = λ k a e. cc;
}

module _ {m : MemoryStore} (h : IsWellFormed m) where
  -- A write to a stored job's entry, under its own ID.
  pub put_job-IsWellFormed :
      (k : String) (job : Job)
      → is_some (lookup k m.jobs) ≡ true
      → job.id ≡ k
      → IsWellFormed (put_job k job m)
  put_job-IsWellFormed k job stored own = record {
    listed = λ x. ground (arith, h.listed x, lookup-insert k x job m.jobs, eq_iff k x);
    ordered_once = h.ordered_once;
    jobs_distinct = insert-HasDistinctKeys k job m.jobs h.jobs_distinct;
    agents_distinct = h.agents_distinct;
    job_ids = λ x j e. ground (arith, h.job_ids x j, lookup-insert k x job m.jobs, eq_iff k x);
    agent_ids = h.agent_ids;
  }

  pub put_agent-IsWellFormed :
      (k : String) (agent : Agent) → agent.id ≡ k → IsWellFormed (put_agent k agent m)
  put_agent-IsWellFormed k agent own = record {
    listed = h.listed;
    ordered_once = h.ordered_once;
    jobs_distinct = h.jobs_distinct;
    agents_distinct = insert-HasDistinctKeys k agent m.agents h.agents_distinct;
    job_ids = h.job_ids;
    agent_ids =
        λ x a e. ground (arith, h.agent_ids x a, lookup-insert k x agent m.agents, eq_iff k x);
  }

  appended-IsWellFormed :
      (job : Job)
      → is_some (lookup job.id m.jobs) ≡ false
      → IsWellFormed (record (put_job job.id job m) { job_order = m.job_order ++ job.id ∷ [] })
  appended-IsWellFormed job fresh = record {
    listed = λ x. ground (
      arith,
      h.listed x,
      contains-append m.job_order (job.id ∷ []) x,
      lookup-insert job.id x job m.jobs,
      eq_iff job.id x,
    );
    ordered_once = append-IsDistinct m.job_order job.id h.ordered_once (h.listed job.id ∙ fresh);
    jobs_distinct = insert-HasDistinctKeys job.id job m.jobs h.jobs_distinct;
    agents_distinct = h.agents_distinct;
    job_ids =
        λ x j e. ground (arith, h.job_ids x j, lookup-insert job.id x job m.jobs, eq_iff job.id x);
    agent_ids = h.agent_ids;
  }

  -- A new job joins at the end of the order; a job whose ID is taken changes nothing.
  pub create_job-IsWellFormed : (job : Job) → IsWellFormed (create_job job m).1
  unfolding create_job
  create_job-IsWellFormed job = elim (Bool-cases (is_some (lookup job.id m.jobs))) [
    | inl taken ↦ rw taken h
    | inr fresh ↦ rw fresh (appended-IsWellFormed job fresh)
  ]
