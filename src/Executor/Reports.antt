-- ===== src/Executor/Reports.antt =====
-- Every executor reports one of the two statuses that the server takes, and when an HTTP check passes.
use golang_assignment.Prelude.{ℕ, ◌≡◌, refl, ap, ◌⊎◌, inl, inr, arith, none, true, ◌↔◌, ◌≢◌, eq_iff}
use golang_assignment.Prelude.Int.{ℤ, pos, negsuc}
use golang_assignment.Prelude.Result.{ok, Result-cases}
use golang_assignment.Model.Entity.{Job}
use golang_assignment.Model.Status.{JobStatus, success, failed, status_text}
use golang_assignment.Model.Validation.{validate_job_result}
use golang_assignment.Model.Validation.Accepts.{validate_job_result_iff}
use golang_assignment.Executor.{ExecutionResult}
use golang_assignment.Executor.Files.{
  execute_file_exists, execute_checksum, execute_copy_file, execute_write_file, stat_result,
  checksum_result, compared, copy_opened, copy_into, copy_result, write_result, payload_value,
  payload_string,
}
use golang_assignment.Executor.Machine.{Machine}
use golang_assignment.Executor.Probes.{
  Surroundings, execute_http_check, execute_tcp_check, execute_wait, fetched, waited, is_status,
  expected_status,
}
use golang_assignment.Worker.Requests.{result_request}

abbrev pub IsReported : JobStatus → Type 0
IsReported s = (s ≡ success) ⊎ (s ≡ failed)

pub IsReported-IsValid :
    (r : ExecutionResult) → IsReported r.status → validate_job_result (result_request r) ≡ none
unfolding status_text
IsReported-IsValid r (inl e) = (validate_job_result_iff (result_request r)).1 (inl (rw e refl))
IsReported-IsValid r (inr e) = (validate_job_result_iff (result_request r)).1 (inr (rw e refl))

pub file_exists-IsReported :
    (job : Job) (h : Machine) → IsReported (execute_file_exists job h).0.status
unfolding execute_file_exists stat_result
file_exists-IsReported job h = ground arith

pub checksum-IsReported : (job : Job) (h : Machine) → IsReported (execute_checksum job h).0.status
unfolding execute_checksum checksum_result compared
checksum-IsReported job h = ground arith

pub copy_file-IsReported : (job : Job) (h : Machine) → IsReported (execute_copy_file job h).0.status
unfolding execute_copy_file copy_opened copy_into copy_result
copy_file-IsReported job h = ground arith

pub write_file-IsReported :
    (job : Job) (h : Machine) → IsReported (execute_write_file job h).0.status
unfolding execute_write_file write_result
write_file-IsReported job h = ground arith

pub http_check-IsReported :
    (job : Job) (around : Surroundings) → IsReported (execute_http_check job around).status
unfolding execute_http_check fetched
http_check-IsReported job around = ground arith

pub tcp_check-IsReported :
    (job : Job) (around : Surroundings) → IsReported (execute_tcp_check job around).status
unfolding execute_tcp_check
tcp_check-IsReported job around = ground arith

pub wait-IsReported :
    (job : Job) (around : Surroundings) → IsReported (execute_wait job around).status
unfolding execute_wait waited
wait-IsReported job around = ground arith

is_status-eq :
    (expected : ℤ) (status : ℕ) → is_status expected status ≡ true → expected ≡ pos status
unfolding is_status
is_status-eq (pos n) status e = ap pos (ground arith)
is_status-eq (negsuc n) status e = ground arith

is_status_refl : (status : ℕ) → is_status (pos status) status ≡ true
unfolding is_status
is_status_refl status = ground arith

-- An HTTP check succeeds exactly if there is a URL of which a request can be made, the request gets a
-- response, and the status of this is the one that the payload expects.
pub http_check_iff :
    (job : Job) (around : Surroundings)
    → ((execute_http_check job around).status ≡ success) ↔ (
        (payload_string "url" job ≢ "")
        × (around.bad_url (payload_string "url" job) ≡ none)
        × ((status : ℕ) × (around.fetch (payload_string "url" job) ≡ ok status)
            × (expected_status (payload_value "expected_status" job) ≡ pos status)))
unfolding execute_http_check fetched
http_check_iff job around =
    let url = payload_string "url" job in
    let expected = expected_status (payload_value "expected_status" job) in
    elim (Result-cases (around.fetch url)) [
      | inr (e, failing) ↦
          (λ h. ground (arith, eq_iff url ""), λ (named, good, (status, got, same)). cc)
      | inl (status, got) ↦ (
        λ h. (
          ground (arith, eq_iff url ""),
          ground (arith, eq_iff url ""),
          (status, got, ground (arith, is_status-eq expected status)),
        ),
        λ (named, good, (status', got', same)).
            ground (arith, eq_iff url "", is_status_refl status),
      )
    ]
