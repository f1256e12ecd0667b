-- ===== src/Api/Server/Calls.antt =====
-- What a request does to the store in memory: at most one call, and one that the bound on attempts
-- allows.
use golang_assignment.Prelude.{
  ℕ, not, if_keeps, ◌==◌, ◌≤◌, String, ◌≡◌, refl, ◌⊎◌, inl, inr, none, List, [], ◌∷◌, map, arith,
  Bool-cases, Option-cases,
}
use golang_assignment.Prelude.Int.{max_int, pos_part}
use golang_assignment.Prelude.Result.{Result, ok, err}
use golang_assignment.GoMap.{lookup}
use golang_assignment.GoText.{concat}
use golang_assignment.Model.Dto.{CreateJobRequest, RegisterAgentRequest, JobResultRequest}
use golang_assignment.Model.Entity.{Time}
use golang_assignment.Model.Status.{JobType, success, failed, job_status, job_type}
use golang_assignment.Model.Validation.{
  validate_create_job, validate_register_agent, validate_job_result,
}
use golang_assignment.Model.Validation.Accepts.{validate_create_job_iff, validate_job_result_iff}
use golang_assignment.Store.Memory.{MemoryStore, memory_store, get_job}
use golang_assignment.Store.Memory.Attempts.{IsFresh, IsApiCall}
use golang_assignment.Store.Memory.Steps.{
  mark_stale, Op, create, cancel, register, beat, assign, complete, apply,
}
use golang_assignment.Api.Agents.{
  new_agent, handle_register_agent, handle_heartbeat, handle_list_agents, handle_health,
}
use golang_assignment.Api.Assignment.{handle_next_job, handle_job_result}
use golang_assignment.Api.Http.{Env, Reader, IsInRange, Response}
use golang_assignment.Api.Jobs.{
  new_job, handle_create_job, handle_list_jobs, handle_get_job, handle_cancel_job,
}
use golang_assignment.Api.Server.{Request, Route, dispatch, serve, route}

-- the state after at most one call, of a certain kind
pub data IsCallOf (Allowed : Op → Type 0) (s s' : MemoryStore) : Type 0 where
  no_call : s' ≡ s → IsCallOf Allowed s s'
  one_call : (op : Op) → Allowed op → s' ≡ apply op s → IsCallOf Allowed s s'

abbrev pub IsOneCall : MemoryStore → MemoryStore → Type 0
IsOneCall = IsCallOf IsApiCall

-- The calls that the server makes of its store, for requests that a reader gives in environments of a
-- kind.
pub record AllowsServer (reader : Reader) (Usual : Env → Type 0) (Allowed : Op → Type 0)
    : Type 0 where
  pub creates :
      (env : Env) (b : reader.Body) (r : CreateJobRequest)
      → Usual env
      → reader.read_create_job b ≡ ok r
      → validate_create_job r ≡ none
      → Allowed (create (new_job env r))
  pub completes :
      (now : Time) (id : String) (b : reader.Body) (r : JobResultRequest)
      → reader.read_job_result b ≡ ok r
      → validate_job_result r ≡ none
      → Allowed (complete now id (job_status r.status) r.logs r.result r.error)
  pub cancels : (now : Time) (id : String) → Allowed (cancel now id)
  pub registers : (env : Env) (r : RegisterAgentRequest) → Allowed (register (new_agent env r))
  pub beats : (now : Time) (id : String) → Allowed (beat now id)
  pub assigns :
      (now : Time) (id : String) (capabilities : List JobType)
      → Allowed (assign now id capabilities)
  pub checks : (now : Time) (threshold : ℕ) → Allowed (mark_stale now threshold)

new_job-IsFresh :
    (env : Env) (req : CreateJobRequest)
    → validate_create_job req ≡ none
    → pos_part req.max_retries ≤ max_int
    → IsFresh (new_job env req)
unfolding new_job
new_job-IsFresh env req valid small =
    let a = (validate_create_job_iff req).0 valid in
    record { waiting = refl; untried = refl; retries_low = a.retries; retries_high = small }

module _ (reader : Reader) (Usual : Env → Type 0) (Allowed : Op → Type 0)
    (h : AllowsServer reader Usual Allowed) where
  create_job-IsCallOf :
      (env : Env) (body : Result CreateJobRequest) (s : MemoryStore)
      → ((r : CreateJobRequest)
          → body ≡ ok r
          → validate_create_job r ≡ none
          → Allowed (create (new_job env r)))
      → IsCallOf Allowed s (handle_create_job memory_store env body s).1
  unfolding handle_create_job apply
  create_job-IsCallOf env (err e) s allowed = no_call refl
  create_job-IsCallOf env (ok req) s allowed = elim (Option-cases (validate_create_job req)) [
    | inr (ve, invalid) ↦ no_call (ground arith)
    | inl valid ↦ one_call (create (new_job env req)) (allowed req refl valid) (ground arith)
  ]

  cancel_job-IsCallOf :
      (env : Env) (id : String) (s : MemoryStore)
      → IsCallOf Allowed s (handle_cancel_job memory_store env id s).1
  unfolding handle_cancel_job apply
  cancel_job-IsCallOf env id s = elim (Bool-cases (id == "")) [
    | inl missing ↦ no_call (ground arith)
    | inr given ↦ one_call (cancel env.now id) (h.cancels env.now id) (ground arith)
  ]

  register_agent-IsCallOf :
      (env : Env) (body : Result RegisterAgentRequest) (s : MemoryStore)
      → IsCallOf Allowed s (handle_register_agent memory_store env body s).1
  unfolding handle_register_agent apply
  register_agent-IsCallOf env (err e) s = no_call refl
  register_agent-IsCallOf env (ok req) s = elim (Option-cases (validate_register_agent req)) [
    | inr (ve, invalid) ↦ no_call (ground arith)
    | inl valid ↦ one_call (register (new_agent env req)) (h.registers env req) (ground arith)
  ]

  heartbeat-IsCallOf :
      (env : Env) (id : String) (s : MemoryStore)
      → IsCallOf Allowed s (handle_heartbeat memory_store env id s).1
  unfolding handle_heartbeat apply
  heartbeat-IsCallOf env id s = elim (Bool-cases (id == "")) [
    | inl missing ↦ no_call (ground arith)
    | inr given ↦ one_call (beat env.now id) (h.beats env.now id) (ground arith)
  ]

  next_job-IsCallOf :
      (env : Env) (id : String) (body : Result (List String)) (s : MemoryStore)
      → IsCallOf Allowed s (handle_next_job memory_store env id body s).1
  unfolding handle_next_job apply
  next_job-IsCallOf env id (err e) s = no_call (ground arith)
  next_job-IsCallOf env id (ok capabilities) s = elim (Bool-cases (id == "")) [
    | inl missing ↦ no_call (ground arith)
    | inr given ↦
        one_call (assign env.now id (map job_type capabilities))
          (h.assigns env.now id (map job_type capabilities)) (ground arith)
  ]

  job_result-IsCallOf :
      (env : Env) (id : String) (body : Result JobResultRequest) (s : MemoryStore)
      → ((r : JobResultRequest)
          → body ≡ ok r
          → validate_job_result r ≡ none
          → Allowed (complete env.now id (job_status r.status) r.logs r.result r.error))
      → IsCallOf Allowed s (handle_job_result memory_store env id body s).1
  unfolding handle_job_result apply get_job
  job_result-IsCallOf env id (err e) s allowed = no_call (ground arith)
  job_result-IsCallOf env id (ok req) s allowed = elim (Bool-cases (id == "")) [
    | inl missing ↦ no_call (ground arith)
    | inr given ↦ elim (Option-cases (validate_job_result req)) [
      | inr (ve, invalid) ↦ no_call (ground arith)
      | inl valid ↦ elim (Option-cases (lookup id s.jobs)) [
        | inl missing ↦ no_call (ground arith)
        | inr (job, stored) ↦
            one_call (complete env.now id (job_status req.status) req.logs req.result req.error)
              (allowed req refl valid) (ground arith)
      ]
    ]
  ]

  dispatch-IsCallOf :
      (env : Env) (r : Route) (body : reader.Body) (s : MemoryStore)
      → Usual env
      → IsCallOf Allowed s (dispatch memory_store reader env r body s).1
  unfolding dispatch handle_health handle_list_jobs handle_get_job handle_list_agents
  dispatch-IsCallOf env Route.health body s usual = no_call refl
  dispatch-IsCallOf env Route.create_job body s usual =
      create_job-IsCallOf env (reader.read_create_job body) s
        (λ r read valid. h.creates env body r usual read valid)
  dispatch-IsCallOf env Route.list_jobs body s usual = no_call (ground arith)
  dispatch-IsCallOf env (Route.get_job id) body s usual = no_call (ground arith)
  dispatch-IsCallOf env (Route.cancel_job id) body s usual = cancel_job-IsCallOf env id s
  dispatch-IsCallOf env (Route.job_result id) body s usual =
      job_result-IsCallOf env id (reader.read_job_result body) s (h.completes env.now id body)
  dispatch-IsCallOf env Route.register_agent body s usual =
      register_agent-IsCallOf env (reader.read_register_agent body) s
  dispatch-IsCallOf env (Route.heartbeat id) body s usual = heartbeat-IsCallOf env id s
  dispatch-IsCallOf env (Route.next_job id) body s usual =
      next_job-IsCallOf env id (reader.read_capabilities body) s
  dispatch-IsCallOf env Route.list_agents body s usual = no_call (ground arith)
  dispatch-IsCallOf env Route.not_allowed body s usual = no_call refl
  dispatch-IsCallOf env Route.not_found body s usual = no_call refl
  dispatch-IsCallOf env Route.moved body s usual = no_call refl

  pub serve-IsCallOf :
      (token : String) (env : Env) (r : Request reader) (s : MemoryStore)
      → Usual env
      → IsCallOf Allowed s (serve memory_store reader token env r s).1
  unfolding serve
  serve-IsCallOf token env r s usual =
      let after = dispatch-IsCallOf env (route r.method r.path) r.body s usual in
      let Q = λ (p : Response × MemoryStore). IsCallOf Allowed s p.1 in
      if_keeps Q (token == "") after (
        if_keeps Q (r.path == "/health") after (
          if_keeps Q (not (r.authorization == concat ("Bearer " ∷ token ∷ []))) (no_call refl)
            after))

-- A validated status is SUCCESS or FAILED.
final_status :
    (r : JobResultRequest)
    → validate_job_result r ≡ none
    → (job_status r.status ≡ success) ⊎ (job_status r.status ≡ failed)
unfolding job_status
final_status r valid = elim ((validate_job_result_iff r).0 valid) [
  | inl good ↦ inl (rw good refl)
  | inr bad ↦ inr (rw bad refl)
]

-- any environment
abbrev pub AnyEnv : Env → Type 0
AnyEnv env = Unit

-- They keep the bound on attempts, if a decoded `int` fits.
pub api_calls : (reader : Reader) → IsInRange reader → AllowsServer reader AnyEnv IsApiCall
api_calls reader small = record {
  creates = λ env b r usual read valid. new_job-IsFresh env r valid (small.retries b r read);
  completes = λ now id b r read valid. final_status r valid;
  cancels = λ now id. tt;
  registers = λ env r. tt;
  beats = λ now id. tt;
  assigns = λ now id capabilities. tt;
  checks = λ now threshold. tt;
}

-- A request to the server, with or without its token and to whatever route, leaves the store as it was
-- or as one call of it does, and that call creates a fresh job, or submits a result that is SUCCESS or
-- FAILED, or is another one that replaces no job. It is assumed that the `max_retries` of a decoded
-- request fits an `int`.
pub serve-IsOneCall :
    (reader : Reader) (token : String) (env : Env) (r : Request reader) (s : MemoryStore)
    → IsInRange reader
    → IsOneCall s (serve memory_store reader token env r s).1
serve-IsOneCall reader token env r s small =
    serve-IsCallOf reader AnyEnv IsApiCall (api_calls reader small) token env r s tt
