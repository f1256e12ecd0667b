-- ===== src/Api/Jobs.antt =====
-- internal/api/jobs.go
use golang_assignment.Prelude.{
  ℕ, ◌/◌, ◌%◌, String, Option, none, some, List, [], ◌∷◌, ◌==◌, if◌then◌else◌, length,
}
use golang_assignment.Prelude.Int.{pos, is_zero}
use golang_assignment.Prelude.Result.{Result, ok, err}
use golang_assignment.GoText.{concat, hex_digit}
use golang_assignment.Model.Dto.{CreateJobRequest}
use golang_assignment.Model.Entity.{Job}
use golang_assignment.Model.Status.{pending, is_terminal, status_text}
use golang_assignment.Model.Validation.{validate_create_job, error_text}
use golang_assignment.Store.Interface.{Store}
use golang_assignment.Api.Http.{Env, Response, ResponseBody, write_json, write_error}

-- hex.EncodeToString
unfoldable pub hex : List ℕ → String
hex [] = ""
hex (b ∷ bs) = concat (hex_digit (b / 16) ∷ hex_digit (b % 16) ∷ hex bs ∷ [])

unfoldable pub generate_id : String → Env → String
unfolding hex
generate_id prefix env = elim env.random [
  | none ↦ concat (prefix ∷ "-" ∷ env.stamp ∷ [])
  | some bytes ↦ concat (prefix ∷ "-" ∷ hex bytes ∷ [])
]

-- the job that `handleCreateJob` builds of a valid request
unfoldable pub new_job : Env → CreateJobRequest → Job
new_job env req = record {
  id = generate_id "job" env;
  name = req.name;
  type = req.type;
  payload = req.payload;
  status = pending;
  assigned_agent_id = "";
  created_at = env.now;
  started_at = none;
  finished_at = none;
  attempt_count = pos 0;
  max_retries = req.max_retries;
  timeout_seconds = if is_zero req.timeout_seconds then pos 30 else req.timeout_seconds;
  logs = [];
  error = "";
  result = none;
}

module _ (S : Store) where
  unfoldable pub created : Result Job × S.State → Response × S.State
  created (ok job, s) = (write_json 201 (ResponseBody.job job), s)
  created (err e, s) = (write_error 500 "failed to create job" e, s)

  unfoldable pub handle_create_job : Env → Result CreateJobRequest → S.State → Response × S.State
  unfolding created new_job
  handle_create_job env (err e) s = (write_error 400 "invalid request body" e, s)
  handle_create_job env (ok req) s = elim (validate_create_job req) [
    | some ve ↦ (write_error 400 "validation failed" (error_text ve), s)
    | none ↦ created (S.create_job (new_job env req) s)
  ]

  unfoldable pub handle_list_jobs : S.State → Response × S.State
  handle_list_jobs s = elim (S.list_jobs s) [
    | err e ↦ (write_error 500 "failed to list jobs" e, s)
    | ok jobs ↦
        (write_json 200 (ResponseBody.jobs (record { jobs = jobs; total = length jobs })), s)
  ]

  unfoldable pub handle_get_job : String → S.State → Response × S.State
  handle_get_job job_id s =
      if job_id == "" then (write_error 400 "missing job ID" "", s) else elim (S.get_job job_id s) [
        | err e ↦ (write_error 500 "failed to get job" e, s)
        | ok none ↦ (write_error 404 "job not found" job_id, s)
        | ok (some job) ↦ (write_json 200 (ResponseBody.job job), s)
      ]

  -- the error branch of `handleCancelJob`: an error of `GetJob` counts as a job that is not found
  unfoldable pub cancel_refused : String → String → Result (Option Job) → Response
  cancel_refused job_id e (ok (some job)) =
      if is_terminal job.status
      then write_error 409 "job already in terminal state" (status_text job.status)
      else write_error 500 "failed to cancel job" e
  cancel_refused job_id e _ = write_error 404 "job not found" job_id

  unfoldable pub after_cancel : String → Result (Unit {0}) × S.State → Response × S.State
  after_cancel job_id (err e, s) = (cancel_refused job_id e (S.get_job job_id s), s)
  after_cancel job_id (ok _, s) =
      (write_json 200 (ResponseBody.fields (("status", "canceled") ∷ ("job_id", job_id) ∷ [])), s)

  unfoldable pub handle_cancel_job : Env → String → S.State → Response × S.State
  unfolding cancel_refused after_cancel
  handle_cancel_job env job_id s =
      if job_id == ""
      then (write_error 400 "missing job ID" "", s)
      else after_cancel job_id (S.cancel_job env.now job_id s)
