-- ===== src/Api/Server/ResponseTests.antt =====
-- What the test server answers.
use golang_assignment.Prelude.{String, ◌≡◌, ◌≢◌, ◌↔◌, refl, true, none, some, arith, eq_iff}
use golang_assignment.Prelude.Result.{ok}
use golang_assignment.GoMap.{lookup}
use golang_assignment.Model.Entity.{Job}
use golang_assignment.Model.Status.{job_status}
use golang_assignment.Model.Validation.{validate_create_job, validate_job_result}
use golang_assignment.Store.Memory.{memory_store, completed_job}
use golang_assignment.Store.Memory.Fixture.{ready, j1_running, after_first}
use golang_assignment.Api.Assignment.{handle_job_result}
use golang_assignment.Api.Http.{ResponseBody, write_json}
use golang_assignment.Api.Jobs.{generate_id, new_job, handle_create_job, handle_get_job}
use golang_assignment.Api.Server.{Route, dispatch}
use golang_assignment.Api.Server.Responses.{
  server_error_iff, handle_job_result_lem, created_is_served, is_internal_error,
}
use golang_assignment.Api.Server.Tests.{
  test_reader, env_at, server_code, new_job_request, result_request, sample,
}

server_error_iff_example :
    ((dispatch memory_store test_reader (env_at 7) (Route.next_job "zz") sample ready).0.status
      ≡ 500)
    ↔ (is_internal_error test_reader (env_at 7) sample ready (Route.next_job "zz") ≡ true)
server_error_iff_example =
    server_error_iff test_reader (env_at 7) sample ready (Route.next_job "zz")

server_error_happens :
    (dispatch memory_store test_reader (env_at 7) (Route.next_job "zz") sample ready).0.status ≡ 500
unfolding server_code
server_error_happens = refl

j1-named : ◌≢◌ {A = String} "j1" ""
j1-named e = ground (arith, eq_iff "j1" "")

result_request-IsValid : validate_job_result result_request ≡ none
unfolding server_code
result_request-IsValid = refl

j1-running : lookup "j1" after_first.jobs ≡ some j1_running
unfolding server_code
j1-running = refl

abbrev j1_again : Job
j1_again =
    completed_job 9 (job_status result_request.status) result_request.logs result_request.result
      result_request.error j1_running

handle_job_result_lem_example :
    ((handle_job_result memory_store (env_at 9) "j1" (ok result_request) after_first).0
      ≡ write_json 200 (ResponseBody.job j1_again))
    × (lookup "j1"
          (handle_job_result memory_store (env_at 9) "j1" (ok result_request) after_first).1.jobs
        ≡ some j1_again)
handle_job_result_lem_example =
    handle_job_result_lem (env_at 9) "j1" result_request after_first j1_running j1-named
      result_request-IsValid j1-running

new_job_request-IsValid : validate_create_job new_job_request ≡ none
unfolding server_code
new_job_request-IsValid = refl

new_id-free : lookup (generate_id "job" (env_at 2)) ready.jobs ≡ none
unfolding server_code
new_id-free = refl

created_is_served_example :
    let (answer, after) = handle_create_job memory_store (env_at 2) (ok new_job_request) ready in
    (answer ≡ write_json 201 (ResponseBody.job (new_job (env_at 2) new_job_request)))
    × (handle_get_job memory_store (generate_id "job" (env_at 2)) after
        ≡ (write_json 200 (ResponseBody.job (new_job (env_at 2) new_job_request)), after))
created_is_served_example =
    created_is_served (env_at 2) new_job_request ready new_job_request-IsValid new_id-free
