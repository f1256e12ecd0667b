-- ===== src/Api/Server/Responses.antt =====
-- What the handlers answer over the store in memory.
use Prim.Native.String
use Prim.Native.String.{String, len}
use text.Mathlib.TextPositions.{len-append}
use golang_assignment.Prelude.{
  Bool-cases, inl, inr, ◌⊎◌, ℕ, ◌≡◌, ◌≢◌, ◌↔◌, ap, Bool, true, false, not, ◌&&◌, Option, none, some,
  [], ◌∷◌, arith, ◌==◌, eq_iff, Option-cases, is_some, if◌then◌else◌,
}
use golang_assignment.Prelude.Result.{Result, ok, err}
use golang_assignment.GoMap.{lookup, lookup-insert_self}
use golang_assignment.GoText.{concat}
use golang_assignment.Model.Dto.{CreateJobRequest, JobResultRequest}
use golang_assignment.Model.Entity.{Job}
use golang_assignment.Model.Status.{is_terminal, job_status}
use golang_assignment.Model.Validation.{validate_create_job, validate_job_result}
use golang_assignment.Store.Memory.{
  MemoryStore, memory_store, get_job, create_job, cancel_job, complete_job, completed_job,
  list_jobs, list_agents, register_agent, heartbeat, assign_next_job,
}
use golang_assignment.Api.Agents.{
  handle_register_agent, handle_heartbeat, handle_list_agents, handle_health,
}
use golang_assignment.Api.Assignment.{handle_next_job, handle_job_result}
use golang_assignment.Api.Http.{Env, Reader, ResponseBody, write_json}
use golang_assignment.Api.Jobs.{
  hex, generate_id, new_job, handle_create_job, handle_list_jobs, handle_get_job, handle_cancel_job,
}
use golang_assignment.Api.Server.{Route, dispatch}

abbrev pub is_ok {ℓ} : {A : Type ℓ} → Result A → Bool
is_ok (ok a) = true
is_ok (err e) = false

abbrev pub is_valid_job : Result CreateJobRequest → Bool
is_valid_job (ok req) = not (is_some (validate_create_job req))
is_valid_job (err e) = false

module _ (reader : Reader) (env : Env) (body : reader.Body) (s : MemoryStore) where
  -- a valid new job whose generated ID is taken, or a poll by an agent that is not registered
  abbrev pub is_internal_error : Route → Bool
  is_internal_error Route.create_job =
      is_valid_job (reader.read_create_job body) && is_some (lookup (generate_id "job" env) s.jobs)
  is_internal_error (Route.next_job id) =
      not (id == "") && is_ok (reader.read_capabilities body) && not (is_some (lookup id s.agents))
  is_internal_error _ = false

  -- Over the store in memory a route answers 500 exactly in two cases: a valid new job gets an ID that
  -- is taken, or an agent that is not registered asks, in a body that decodes, for its next job.
  pub server_error_iff :
      (r : Route)
      → ((dispatch memory_store reader env r body s).0.status ≡ 500) ↔ (is_internal_error r ≡ true)
  unfolding dispatch handle_create_job handle_list_jobs handle_get_job handle_cancel_job
      handle_register_agent handle_heartbeat handle_list_agents handle_health handle_next_job
      handle_job_result get_job create_job cancel_job complete_job list_jobs list_agents
      register_agent heartbeat assign_next_job new_job
  server_error_iff Route.health = ground arith
  server_error_iff r = ground arith

-- 404 for a job that is not there, 409 for one that is final, and else 200
abbrev pub cancel_answer : Option Job → ℕ
cancel_answer none = 404
cancel_answer (some job) = if is_terminal job.status then 409 else 200

-- A cancel of a job ID that is not empty is answered 404, 409 or 200 by the job that is stored, and
-- never 500; the answer is 200, or the store is unchanged.
pub handle_cancel_job_lem :
    (env : Env) (id : String) (s : MemoryStore)
    → id ≢ ""
    → ((handle_cancel_job memory_store env id s).0.status ≡ cancel_answer (lookup id s.jobs))
      × (((handle_cancel_job memory_store env id s).0.status ≡ 200)
          ⊎ ((handle_cancel_job memory_store env id s).1 ≡ s))
unfolding handle_cancel_job cancel_job get_job
handle_cancel_job_lem env id s given = (
  ground (arith, eq_iff id ""),
  elim (Option-cases (lookup id s.jobs)) [
    | inl missing ↦ inr (ground (arith, eq_iff id ""))
    | inr (job, stored) ↦ elim (Bool-cases (is_terminal job.status)) [
      | inl final ↦ inr (ground (arith, eq_iff id ""))
      | inr unfinished ↦ inl (ground (arith, eq_iff id ""))
    ]
  ],
)

-- A valid result for a job that is stored under an ID that is not empty is answered 200, with the job
-- as `CompleteJob` has left it, and this is the job that is stored then.
pub handle_job_result_lem :
    (env : Env) (id : String) (req : JobResultRequest) (s : MemoryStore) (job : Job)
    → id ≢ ""
    → validate_job_result req ≡ none
    → lookup id s.jobs ≡ some job
    → let after = completed_job env.now (job_status req.status) req.logs req.result req.error job in
      ((handle_job_result memory_store env id (ok req) s).0
        ≡ write_json 200 (ResponseBody.job after))
      × (lookup id (handle_job_result memory_store env id (ok req) s).1.jobs ≡ some after)
unfolding handle_job_result complete_job get_job
handle_job_result_lem env id req s job given valid stored =
    let after = completed_job env.now (job_status req.status) req.logs req.result req.error job in
    (
      ground (arith, eq_iff id "", lookup-insert_self id after s.jobs),
      ground (arith, eq_iff id "", lookup-insert_self id after s.jobs),
    )

job_prefix-ne-empty : (rest : String) → String.◌++◌ "job" rest ≢ ""
job_prefix-ne-empty rest e = omega (arith, len-append "job" rest, ap len e)

pub generate_id-ne-empty : (env : Env) → generate_id "job" env ≢ ""
unfolding generate_id concat
generate_id-ne-empty env e = elim (Option-cases env.random) [
  | inl missing ↦ ground (arith, job_prefix-ne-empty (concat ("-" ∷ env.stamp ∷ [])))
  | inr (bytes, given) ↦ ground (arith, job_prefix-ne-empty (concat ("-" ∷ hex bytes ∷ [])))
]

-- If the generated ID is free, a valid new job is answered 201, and the server then answers a request
-- for this ID with 200 and the same job.
pub created_is_served :
    (env : Env) (req : CreateJobRequest) (s : MemoryStore)
    → validate_create_job req ≡ none
    → lookup (generate_id "job" env) s.jobs ≡ none
    → let (answer, after) = handle_create_job memory_store env (ok req) s in
      (answer ≡ write_json 201 (ResponseBody.job (new_job env req)))
      × (handle_get_job memory_store (generate_id "job" env) after
          ≡ (write_json 200 (ResponseBody.job (new_job env req)), after))
unfolding handle_create_job handle_get_job create_job get_job new_job
created_is_served env req s valid fresh =
    let named = generate_id-ne-empty env in
    (
      ground arith,
      ground (
        arith,
        eq_iff (generate_id "job" env) "",
        lookup-insert_self (generate_id "job" env) (new_job env req) s.jobs,
      ),
    )
