-- ===== src/Api/Assignment.antt =====
-- internal/api/assignment.go
use golang_assignment.Prelude.{String, List, map, Option, none, some, ◌==◌, if◌then◌else◌}
use golang_assignment.Prelude.Result.{Result, ok, err}
use golang_assignment.Model.Dto.{JobResultRequest}
use golang_assignment.Model.Entity.{Job, zero_job}
use golang_assignment.Model.Status.{job_type, job_status}
use golang_assignment.Model.Validation.{validate_job_result, error_text}
use golang_assignment.Store.Interface.{Store}
use golang_assignment.Api.Http.{Env, Response, ResponseBody, write_json, write_error}

module _ (S : Store) where
  unfoldable pub after_assign : Result (Option Job) × S.State → Response × S.State
  after_assign (err e, s) = (write_error 500 "failed to assign job" e, s)
  after_assign (ok none, s) = (record { status = 204; body = ResponseBody.empty }, s)
  after_assign (ok (some job), s) = (write_json 200 (ResponseBody.job job), s)

  unfoldable pub handle_next_job :
      Env → String → Result (List String) → S.State → Response × S.State
  unfolding after_assign
  handle_next_job env agent_id body s =
      if agent_id == "" then (write_error 400 "missing agent ID" "", s) else elim body [
        | err e ↦ (write_error 400 "invalid request body" e, s)
        | ok capabilities ↦
            after_assign (S.assign_next_job env.now agent_id (map job_type capabilities) s)
      ]

  -- the job that is fetched again; Go's zero value if it is not there any more
  unfoldable pub refetched : Result (Option Job) → ResponseBody
  refetched (ok (some job)) = ResponseBody.job job
  refetched _ = ResponseBody.job zero_job

  unfoldable pub after_complete : String → Result (Unit {0}) × S.State → Response × S.State
  after_complete job_id (err e, s) = (write_error 500 "failed to complete job" e, s)
  after_complete job_id (ok _, s) = (write_json 200 (refetched (S.get_job job_id s)), s)

  unfoldable pub submit :
      Env → String → JobResultRequest → Result (Option Job) → S.State → Response × S.State
  submit env job_id req (err e) s = (write_error 500 "failed to get job" e, s)
  submit env job_id req (ok none) s = (write_error 404 "job not found" job_id, s)
  submit env job_id req (ok (some _)) s =
      after_complete job_id
        (S.complete_job env.now job_id (job_status req.status) req.logs req.result req.error s)

  unfoldable pub handle_job_result :
      Env → String → Result JobResultRequest → S.State → Response × S.State
  unfolding refetched after_complete submit
  handle_job_result env job_id body s =
      if job_id == "" then (write_error 400 "missing job ID" "", s) else elim body [
        | err e ↦ (write_error 400 "invalid request body" e, s)
        | ok req ↦ elim (validate_job_result req) [
          | some ve ↦ (write_error 400 "validation failed" (error_text ve), s)
          | none ↦ submit env job_id req (S.get_job job_id s) s
        ]
      ]
