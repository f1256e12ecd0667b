-- ===== src/Model/Status.antt =====
-- The named string types of internal/model/model.go. `other` holds a string that is no constant of
-- the type: the conversions `JobStatus(s)` and `JobType(s)` are `job_status` and `job_type`.
use golang_assignment.Prelude.{
  String, Bool, true, false, ◌||◌, ◌==◌, if◌then◌else◌, List, [], ◌∷◌, any, ◌≡◌, arith, eq_iff, ◌↔◌,
}

pub data JobStatus : Type 0 where
  pending running retrying success failed canceled : JobStatus
  other : String → JobStatus

pub data JobType : Type 0 where
  http_check tcp_check file_exists checksum copy_file write_file wait : JobType
  other : String → JobType

pub data AgentStatus : Type 0 where
  online offline : AgentStatus
  other : String → AgentStatus

-- JobStatus(s)
unfoldable pub job_status : String → JobStatus
job_status s =
    if s == "PENDING"
    then pending
    else if s == "RUNNING"
    then running
    else if s == "RETRYING"
    then retrying
    else if s == "SUCCESS"
    then success
    else if s == "FAILED"
    then failed
    else if s == "CANCELED"
    then canceled
    else JobStatus.other s

-- string(s)
unfoldable pub status_text : JobStatus → String
status_text pending = "PENDING"
status_text running = "RUNNING"
status_text retrying = "RETRYING"
status_text success = "SUCCESS"
status_text failed = "FAILED"
status_text canceled = "CANCELED"
status_text (JobStatus.other s) = s

abbrev pub is_pending : JobStatus → Bool
is_pending pending = true
is_pending _ = false

abbrev pub is_success : JobStatus → Bool
is_success success = true
is_success _ = false

abbrev pub is_failed : JobStatus → Bool
is_failed failed = true
is_failed _ = false

abbrev pub is_canceled : JobStatus → Bool
is_canceled canceled = true
is_canceled _ = false

unfoldable pub is_terminal : JobStatus → Bool
is_terminal s = is_success s || is_failed s || is_canceled s

abbrev pub is_online : AgentStatus → Bool
is_online online = true
is_online _ = false

-- AgentStatus(s)
unfoldable pub agent_status : String → AgentStatus
agent_status s =
    if s == "online" then online else if s == "offline" then offline else AgentStatus.other s

-- string(s)
unfoldable pub agent_status_text : AgentStatus → String
agent_status_text online = "online"
agent_status_text offline = "offline"
agent_status_text (AgentStatus.other s) = s

-- JobType(s)
unfoldable pub job_type : String → JobType
job_type s =
    if s == "http_check"
    then http_check
    else if s == "tcp_check"
    then tcp_check
    else if s == "file_exists"
    then file_exists
    else if s == "checksum"
    then checksum
    else if s == "copy_file"
    then copy_file
    else if s == "write_file"
    then write_file
    else if s == "wait"
    then wait
    else JobType.other s

-- string(t)
unfoldable pub type_text : JobType → String
type_text http_check = "http_check"
type_text tcp_check = "tcp_check"
type_text file_exists = "file_exists"
type_text checksum = "checksum"
type_text copy_file = "copy_file"
type_text write_file = "write_file"
type_text wait = "wait"
type_text (JobType.other s) = s

-- a == b
unfoldable pub type_eq : JobType → JobType → Bool
type_eq http_check http_check = true
type_eq tcp_check tcp_check = true
type_eq file_exists file_exists = true
type_eq checksum checksum = true
type_eq copy_file copy_file = true
type_eq write_file write_file = true
type_eq wait wait = true
type_eq (JobType.other s) (JobType.other t) = s == t
type_eq _ _ = false

abbrev pub all_job_types : List JobType
all_job_types = http_check ∷ tcp_check ∷ file_exists ∷ checksum ∷ copy_file ∷ write_file ∷ wait ∷ []

-- AllJobTypes[t]
unfoldable pub is_known_type : JobType → Bool
unfolding type_eq
is_known_type t = any (type_eq t) all_job_types

-- A conversion to the named type and back is the text.
pub status_text-job_status : (s : String) → status_text (job_status s) ≡ s
unfolding status_text job_status
status_text-job_status s = ground (
  arith,
  eq_iff s "PENDING",
  eq_iff s "RUNNING",
  eq_iff s "RETRYING",
  eq_iff s "SUCCESS",
  eq_iff s "FAILED",
  eq_iff s "CANCELED",
)

pub type_text-job_type : (s : String) → type_text (job_type s) ≡ s
unfolding type_text job_type
type_text-job_type s = ground (
  arith,
  eq_iff s "http_check",
  eq_iff s "tcp_check",
  eq_iff s "file_exists",
  eq_iff s "checksum",
  eq_iff s "copy_file",
  eq_iff s "write_file",
  eq_iff s "wait",
)

-- Two types are equal exactly when the test says so.
pub type_eq_iff : (a b : JobType) → (type_eq a b ≡ true) ↔ (a ≡ b)
unfolding type_eq
type_eq_iff (JobType.other s) (JobType.other t) = ground (arith, eq_iff s t)
type_eq_iff a b = ground arith

-- The two tests on a converted text are tests on the text.
pub is_success-job_status : (s : String) → is_success (job_status s) ≡ (s == "SUCCESS")
unfolding job_status
is_success-job_status s = ground (
  arith,
  eq_iff s "PENDING",
  eq_iff s "RUNNING",
  eq_iff s "RETRYING",
  eq_iff s "SUCCESS",
  eq_iff "PENDING" "SUCCESS",
  eq_iff "RUNNING" "SUCCESS",
  eq_iff "RETRYING" "SUCCESS",
)

pub is_failed-job_status : (s : String) → is_failed (job_status s) ≡ (s == "FAILED")
unfolding job_status
is_failed-job_status s = ground (
  arith,
  eq_iff s "PENDING",
  eq_iff s "RUNNING",
  eq_iff s "RETRYING",
  eq_iff s "SUCCESS",
  eq_iff s "FAILED",
  eq_iff "PENDING" "FAILED",
  eq_iff "RUNNING" "FAILED",
  eq_iff "RETRYING" "FAILED",
  eq_iff "SUCCESS" "FAILED",
)
