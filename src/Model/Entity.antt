-- ===== src/Model/Entity.antt =====
-- The structs of internal/model/model.go. A `time.Time` is a number of nanoseconds since the zero
-- time, a pointer an `Option`; the zero string and the nil map are "" and `none`.
use golang_assignment.Prelude.{ℕ, String, Option, none, List, []}
use golang_assignment.Prelude.Int.{ℤ, pos}
use golang_assignment.Model.Status.{JobStatus, JobType, AgentStatus}
use golang_assignment.Model.Value.{Payload}

abbrev pub Time : Type 0
Time = ℕ

pub record Job : Type 0 where
  pub id : String
  pub name : String
  pub type : JobType
  pub payload : Option Payload
  pub status : JobStatus
  pub assigned_agent_id : String
  pub created_at : Time
  pub started_at : Option Time
  pub finished_at : Option Time
  pub attempt_count : ℤ
  pub max_retries : ℤ
  pub timeout_seconds : ℤ
  pub logs : List String
  pub error : String
  pub result : Option Payload

-- model.Job{}
abbrev pub zero_job : Job
zero_job = record {
  id = "";
  name = "";
  type = JobType.other "";
  payload = none;
  status = JobStatus.other "";
  assigned_agent_id = "";
  created_at = 0;
  started_at = none;
  finished_at = none;
  attempt_count = pos 0;
  max_retries = pos 0;
  timeout_seconds = pos 0;
  logs = [];
  error = "";
  result = none;
}

pub record Agent : Type 0 where
  pub id : String
  pub hostname : String
  pub os : String
  pub arch : String
  pub version : String
  pub capabilities : List JobType
  pub last_seen : Time
  pub status : AgentStatus
