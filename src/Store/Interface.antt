-- ===== src/Store/Interface.antt =====
-- internal/store/store.go: what the API needs of a store. An operation takes the store's state and
-- returns it beside its result. Operations that read the clock take the time of the call.
use golang_assignment.Prelude.{ℕ, String, Option, List}
use golang_assignment.Prelude.Result.{Result}
use golang_assignment.Model.Entity.{Time, Job, Agent}
use golang_assignment.Model.Status.{JobStatus, JobType}
use golang_assignment.Model.Value.{Payload}

pub record Store : Type 1 where
  pub State : Type 0
  pub create_job : Job → State → Result Job × State
  pub list_jobs : State → Result (List Job)
  pub get_job : String → State → Result (Option Job)
  pub update_job : Job → State → Result (Unit {0}) × State
  pub cancel_job : Time → String → State → Result (Unit {0}) × State
  pub register_agent : Agent → State → Result Agent × State
  pub heartbeat : Time → String → State → Result (Unit {0}) × State
  pub list_agents : State → Result (List Agent)
  pub assign_next_job : Time → String → List JobType → State → Result (Option Job) × State
  pub complete_job :
      Time
      → String
      → JobStatus
      → List String
      → Option Payload
      → String
      → State
      → Result (Unit {0}) × State
  pub mark_stale_agents_offline : Time → ℕ → State → ℕ × State
