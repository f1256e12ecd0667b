-- ===== src/Model/Dto.antt =====
-- The requests and responses of internal/model/dto.go.
use golang_assignment.Prelude.{ℕ, String, Option, List}
use golang_assignment.Prelude.Int.{ℤ}
use golang_assignment.Model.Entity.{Job, Agent}
use golang_assignment.Model.Status.{JobType}
use golang_assignment.Model.Value.{Payload}

pub record CreateJobRequest : Type 0 where
  pub name : String
  pub type : JobType
  pub payload : Option Payload
  pub timeout_seconds : ℤ
  pub max_retries : ℤ

pub record RegisterAgentRequest : Type 0 where
  pub id : String
  pub hostname : String
  pub os : String
  pub arch : String
  pub version : String
  pub capabilities : List String

pub record JobResultRequest : Type 0 where
  pub status : String
  pub logs : List String
  pub result : Option Payload
  pub error : String

pub record ErrorResponse : Type 0 where
  pub error : String
  pub code : ℕ
  pub details : String

pub record ListJobsResponse : Type 0 where
  pub jobs : List Job
  pub total : ℕ

pub record ListAgentsResponse : Type 0 where
  pub agents : List Agent
  pub total : ℕ
