-- ===== src/Store/Memory.antt =====
-- internal/store/memory.go. Each operation holds `mu` from its first line to its last, so an
-- operation is one step on the state, and concurrent calls are some sequence of such steps.
pub mod Names
pub mod Invariant
pub mod Health
pub mod Assign
pub mod Steps
pub mod WellFormed
pub mod Lifecycle
pub mod Kept
pub mod Attempts
pub mod Held
pub mod Exclusive
pub mod Queue
pub mod Polls
pub mod Rounds
pub mod Workload
pub mod Drain
pub mod Listing
pub mod AgentList
pub mod Liveness
pub mod Online
pub mod Outcomes
pub mod Fixture
mod Tests
mod JobTests
mod DrainTests
mod AgentTests
use Prim.Native.String.{compare}
use text.Mathlib.Text.{is_lt}
use golang_assignment.Prelude.{
  ℕ, ◌+◌, ◌-◌, String, Bool, not, ◌&&◌, Option, none, some, List, [], ◌∷◌, ◌++◌, ltb, if◌then◌else◌,
  is_some, any, filter_map,
}
use golang_assignment.Prelude.Int.{ltb_ℤ, incr}
use golang_assignment.Prelude.Result.{Result, ok, err}
use golang_assignment.GoMap.{GoMap, lookup, insert}
use golang_assignment.GoText.{concat, quote}
use golang_assignment.Model.Entity.{Time, Job, Agent}
use golang_assignment.Model.Status.{
  JobStatus, pending, running, retrying, canceled, JobType, online, offline, is_pending, is_failed,
  is_terminal, is_online, status_text, type_eq,
}
use golang_assignment.Model.Value.{Payload}
use golang_assignment.Store.Interface.{Store}

pub record MemoryStore : Type 0 where
  pub jobs : GoMap Job
  pub agents : GoMap Agent
  pub job_order : List String

abbrev pub new_memory_store : MemoryStore
new_memory_store = record { jobs = []; agents = []; job_order = [] }

abbrev pub job_not_found : String → String
job_not_found id = concat ("job " ∷ quote id ∷ " not found" ∷ [])

abbrev pub agent_not_found : String → String
agent_not_found id = concat ("agent " ∷ quote id ∷ " not found" ∷ [])

-- m.jobs[id] = job
abbrev pub put_job : String → Job → MemoryStore → MemoryStore
put_job id job m = record m { jobs = insert id job m.jobs }

-- m.agents[id] = agent
abbrev pub put_agent : String → Agent → MemoryStore → MemoryStore
put_agent id agent m = record m { agents = insert id agent m.agents }

unfoldable pub create_job : Job → MemoryStore → Result Job × MemoryStore
create_job job m =
    if is_some (lookup job.id m.jobs)
    then (err (concat ("job " ∷ quote job.id ∷ " already exists" ∷ [])), m)
    else (ok job, record (put_job job.id job m) { job_order = m.job_order ++ job.id ∷ [] })

unfoldable pub list_jobs : MemoryStore → Result (List Job)
list_jobs m = ok (filter_map (λ id. lookup id m.jobs) m.job_order)

unfoldable pub get_job : String → MemoryStore → Result (Option Job)
get_job id m = ok (lookup id m.jobs)

unfoldable pub update_job : Job → MemoryStore → Result (Unit {0}) × MemoryStore
update_job job m =
    if is_some (lookup job.id m.jobs)
    then (ok tt, put_job job.id job m)
    else (err (job_not_found job.id), m)

-- the job that `CancelJob` writes back
unfoldable pub canceled_job : Time → Job → Job
canceled_job now job = record job { status = canceled; finished_at = some now }

unfoldable pub cancel_job : Time → String → MemoryStore → Result (Unit {0}) × MemoryStore
unfolding canceled_job
cancel_job now id m = elim (lookup id m.jobs) [
  | none ↦ (err (job_not_found id), m)
  | some job ↦
      if is_terminal job.status
      then (
        err (
            concat
              ("job " ∷ quote id ∷ " is already in terminal state " ∷ status_text job.status ∷ [])),
        m,
      )
      else (ok tt, put_job id (canceled_job now job) m)
]

unfoldable pub register_agent : Agent → MemoryStore → Result Agent × MemoryStore
register_agent agent m = (ok agent, put_agent agent.id agent m)

unfoldable pub heartbeat : Time → String → MemoryStore → Result (Unit {0}) × MemoryStore
heartbeat now id m = elim (lookup id m.agents) [
  | none ↦ (err (agent_not_found id), m)
  | some agent ↦ (ok tt, put_agent id (record agent { last_seen = now; status = online }) m)
]

-- the values of a map, in the order in which `range` visits them
unfoldable pub values {ℓ} : {V : Type ℓ} → GoMap V → List V
values [] = []
values ((k, v) ∷ m) = v ∷ values m

-- sort.Slice by ID; the algorithm is the library's, and where IDs differ the result is one
insert_by_id : Agent → List Agent → List Agent
insert_by_id a [] = a ∷ []
insert_by_id a (b ∷ bs) = if is_lt (compare b.id a.id) then b ∷ insert_by_id a bs else a ∷ b ∷ bs

sort_by_id : List Agent → List Agent
sort_by_id [] = []
sort_by_id (a ∷ rest) = insert_by_id a (sort_by_id rest)

unfoldable pub list_agents : MemoryStore → Result (List Agent)
unfolding values insert_by_id sort_by_id
list_agents m = ok (sort_by_id (values m.agents))

-- capSet[t]
unfoldable pub in_capabilities : List JobType → JobType → Bool
in_capabilities capabilities t = any (type_eq t) capabilities

-- the job that `AssignNextJob` writes back
unfoldable pub assigned_job : Time → String → Job → Job
assigned_job now agent_id job = record job {
  status = running;
  assigned_agent_id = agent_id;
  started_at = some now;
  attempt_count = incr job.attempt_count;
}

-- the loop over `jobOrder`
unfoldable pub assign_from :
    Time → String → List JobType → List String → MemoryStore → Option Job × MemoryStore
unfolding assigned_job
assign_from now agent_id capabilities [] m = (none, m)
assign_from now agent_id capabilities (id ∷ ids) m =
    let rest = assign_from now agent_id capabilities ids m in
    elim (lookup id m.jobs) [
      | none ↦ rest
      | some job ↦
          if not (is_pending job.status)
          then rest
          else if not (in_capabilities capabilities job.type)
          then rest
          else (some (assigned_job now agent_id job), put_job id (assigned_job now agent_id job) m)
    ]

unfoldable pub assign_next_job :
    Time → String → List JobType → MemoryStore → Result (Option Job) × MemoryStore
unfolding assign_from
assign_next_job now agent_id capabilities m = elim (lookup agent_id m.agents) [
  | none ↦ (err (agent_not_found agent_id), m)
  | some _ ↦ let (found, m') = assign_from now agent_id capabilities m.job_order m in (ok found, m')
]

-- the job that `CompleteJob` writes back: queued again, or with its final status
unfoldable pub completed_job : Time → JobStatus → List String → Option Payload → String → Job → Job
completed_job now status logs result error job =
    let noted = record job { logs = job.logs ++ logs; result = result; error = error } in
    if is_failed status && ltb_ℤ job.attempt_count job.max_retries
    then (let reset = record noted {
      status = retrying;
      assigned_agent_id = "";
      started_at = none;
    } in
        record reset { status = pending })
    else record noted { status = status; finished_at = some now }

unfoldable pub complete_job :
    Time
    → String
    → JobStatus
    → List String
    → Option Payload
    → String
    → MemoryStore
    → Result (Unit {0}) × MemoryStore
unfolding completed_job
complete_job now id status logs result error m = elim (lookup id m.jobs) [
  | none ↦ (err (job_not_found id), m)
  | some job ↦ (ok tt, put_job id (completed_job now status logs result error job) m)
]

-- the loop over `m.agents`: the entries still to visit, the map and the count so far
mark_from : Time → GoMap Agent → GoMap Agent → ℕ → ℕ × GoMap Agent
mark_from cutoff [] agents count = (count, agents)
mark_from cutoff ((id, agent) ∷ rest) agents count =
    let stale = is_online agent.status && ltb agent.last_seen cutoff in
    mark_from cutoff rest
      (if stale then insert id (record agent { status = offline }) agents else agents)
      (if stale then count + 1 else count)

-- `now - threshold` stops at the zero time, before which no agent was seen; the threshold, 30 seconds in
-- cmd/server/main.go, is not negative
unfoldable pub mark_stale_agents_offline : Time → ℕ → MemoryStore → ℕ × MemoryStore
unfolding mark_from
mark_stale_agents_offline now threshold m =
    let (count, agents) = mark_from (now - threshold) m.agents m.agents 0 in
    (count, record m { agents = agents })

-- `*MemoryStore` implements the interface.
abbrev pub memory_store : Store
memory_store = record {
  State = MemoryStore;
  create_job = create_job;
  list_jobs = list_jobs;
  get_job = get_job;
  update_job = update_job;
  cancel_job = cancel_job;
  register_agent = register_agent;
  heartbeat = heartbeat;
  list_agents = list_agents;
  assign_next_job = assign_next_job;
  complete_job = complete_job;
  mark_stale_agents_offline = mark_stale_agents_offline;
}
