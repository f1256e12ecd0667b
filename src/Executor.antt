-- ===== src/Executor.antt =====
-- internal/executor/executor.go: an executor works on the agent's host, whose state is `Host`; the
-- registry maps types of jobs to executors.
pub mod Machine
pub mod Files
pub mod Probes
pub mod Standard
pub mod Copies
pub mod Reports
mod Tests
use golang_assignment.Prelude.{ℕ, String, Option, none, some, List, [], ◌∷◌, if◌then◌else◌}
use golang_assignment.Model.Entity.{Job}
use golang_assignment.Model.Status.{JobStatus, JobType, type_eq}
use golang_assignment.Model.Value.{Payload}

pub record ExecutionResult : Type 0 where
  pub status : JobStatus
  pub logs : List String
  pub result : Option Payload
  pub error : String

-- `Execute` under a context with a timeout in nanoseconds
pub record Executor (Host : Type 0) : Type 0 where
  pub type : JobType
  pub execute : ℕ → Job → Host → ExecutionResult × Host

abbrev pub Registry : Type 0 → Type 0
Registry Host = List (JobType × Executor Host)

module _ {Host : Type 0} where
  -- r.executors[t] = ex
  unfoldable pub put_executor : JobType → Executor Host → Registry Host → Registry Host
  put_executor t ex [] = (t, ex) ∷ []
  put_executor t ex ((u, old) ∷ rest) =
      let later = put_executor t ex rest in if type_eq u t then (u, ex) ∷ rest else (u, old) ∷ later

  unfoldable pub register_executor : Executor Host → Registry Host → Registry Host
  unfolding put_executor
  register_executor ex r = put_executor ex.type ex r

  unfoldable pub get_executor : JobType → Registry Host → Option (Executor Host)
  get_executor t [] = none
  get_executor t ((u, ex) ∷ rest) =
      let later = get_executor t rest in if type_eq u t then some ex else later
