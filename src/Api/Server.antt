-- ===== src/Api/Server.antt =====
-- internal/api/server.go and `AuthMiddleware` of internal/api/middleware.go: a request is checked for
-- its token, then handed to the handler of its route. The logging and the recovery middleware are in
-- Middleware.
pub mod Calls
pub mod Auth
pub mod Runs
pub mod Responses
pub mod Paths
pub mod Ids
mod Tests
mod ResponseTests
use Prim.Native.Char.{Char, code}
use golang_assignment.Prelude.{
  ℕ, String, Bool, true, ◌||◌, ◌&&◌, not, List, [], ◌∷◌, ◌==◌, if◌then◌else◌, nat_eq,
}
use golang_assignment.GoText.{concat}
use golang_assignment.Store.Interface.{Store}
use golang_assignment.Api.Agents.{
  handle_register_agent, handle_heartbeat, handle_list_agents, handle_health,
}
use golang_assignment.Api.Assignment.{handle_next_job, handle_job_result}
use golang_assignment.Api.Http.{Env, Reader, Response, ResponseBody, write_error}
use golang_assignment.Api.Jobs.{
  handle_create_job, handle_list_jobs, handle_get_job, handle_cancel_job,
}
use Prim.Native.String

pub record Request (reader : Reader) : Type 0 where
  pub method : String
  pub path : String
  -- r.Header.Get("Authorization"), "" if it is missing
  pub authorization : String
  pub body : reader.Body

pub data Route : Type 0 where
  health create_job list_jobs register_agent list_agents : Route
  get_job cancel_job job_result heartbeat next_job : String → Route
  not_allowed not_found moved : Route

-- the segments of a path after its leading slash
unfoldable pub split_from : String → String → List String
split_from segment String.[] = segment ∷ []
split_from segment (String.◌∷◌ c rest) =
    let closed = segment ∷ split_from "" rest in
    let longer = split_from (String.◌++◌ segment (String.◌∷◌ c "")) rest in
    if nat_eq (code c) 47 then closed else longer

unfoldable pub segments : String → List String
unfolding split_from
segments String.[] = []
segments (String.◌∷◌ c rest) = split_from "" rest

-- a pattern for GET serves HEAD too
is_get : String → Bool
is_get method = method == "GET" || method == "HEAD"

when_get : String → Route → Route
when_get method route = if is_get method then route else not_allowed

unfoldable pub when_post : String → Route → Route
when_post method route = if method == "POST" then route else not_allowed

-- POST and GET patterns on one path
get_or_post : String → Route → Route → Route
get_or_post method getting posting =
    if is_get method then getting else if method == "POST" then posting else not_allowed

-- the patterns under /jobs/{jobId}/ and /agents/{agentId}/
unfoldable pub job_action : String → String → String → Route
job_action method id action =
    if action == "cancel"
    then when_post method (cancel_job id)
    else if action == "result"
    then when_post method (job_result id)
    else not_found

unfoldable pub agent_action : String → String → String → Route
agent_action method id action =
    if action == "heartbeat"
    then when_post method (heartbeat id)
    else if action == "next-job"
    then when_post method (next_job id)
    else not_found

-- `registerRoutes`; a wildcard matches one segment that is not empty
unfoldable pub route_of : String → List String → Route
unfolding job_action agent_action when_get when_post get_or_post is_get
route_of method (a ∷ []) =
    if a == "health"
    then when_get method health
    else if a == "jobs"
    then get_or_post method list_jobs create_job
    else if a == "agents"
    then when_get method list_agents
    else not_found
route_of method (a ∷ b ∷ []) =
    if a == "jobs" && not (b == "")
    then when_get method (get_job b)
    else if a == "agents" && b == "register"
    then when_post method register_agent
    else not_found
route_of method (a ∷ b ∷ c ∷ []) =
    if a == "jobs" && not (b == "")
    then job_action method b c
    else if a == "agents" && not (b == "")
    then agent_action method b c
    else not_found
route_of method _ = not_found

abbrev is_dots : String → Bool
is_dots s = s == "." || s == ".."

-- what `ServeMux` takes for a clean path: no segment is "." or "..", and none but the last is empty
unfoldable pub is_clean : List String → Bool
is_clean [] = true
is_clean (a ∷ []) = not (is_dots a)
is_clean (a ∷ b ∷ rest) = not (a == "") && not (is_dots a) && is_clean (b ∷ rest)

-- another path is redirected
unfoldable pub route : String → String → Route
unfolding segments route_of is_clean
route method path = if is_clean (segments path) then route_of method (segments path) else moved

module _ (S : Store) (reader : Reader) where
  -- what the mux does with a route
  unfoldable pub dispatch : Env → Route → reader.Body → S.State → Response × S.State
  dispatch env health body s = handle_health S env s
  dispatch env create_job body s = handle_create_job S env (reader.read_create_job body) s
  dispatch env list_jobs body s = handle_list_jobs S s
  dispatch env (get_job id) body s = handle_get_job S id s
  dispatch env (cancel_job id) body s = handle_cancel_job S env id s
  dispatch env (job_result id) body s = handle_job_result S env id (reader.read_job_result body) s
  dispatch env register_agent body s =
      handle_register_agent S env (reader.read_register_agent body) s
  dispatch env (heartbeat id) body s = handle_heartbeat S env id s
  dispatch env (next_job id) body s = handle_next_job S env id (reader.read_capabilities body) s
  dispatch env list_agents body s = handle_list_agents S s
  dispatch env not_allowed body s =
      (record { status = 405; body = ResponseBody.plain "Method Not Allowed\n" }, s)
  dispatch env not_found body s =
      (record { status = 404; body = ResponseBody.plain "404 page not found\n" }, s)
  -- the location, and the text for a GET, are left out
  dispatch env moved body s = (record { status = 301; body = ResponseBody.empty }, s)

  mux : Env → Request reader → S.State → Response × S.State
  unfolding dispatch
  mux env r s = dispatch env (route r.method r.path) r.body s

  unfoldable pub auth_middleware :
      String
      → (Request reader → S.State → Response × S.State)
      → Request reader
      → S.State
      → Response × S.State
  auth_middleware token next r s =
      if token == ""
      then next r s
      else if r.path == "/health"
      then next r s
      else if not (r.authorization == concat ("Bearer " ∷ token ∷ []))
      then (write_error 401 "unauthorized" "invalid or missing Authorization header", s)
      else next r s

  -- `Handler`, for a request that does not panic
  unfoldable pub serve : String → Env → Request reader → S.State → Response × S.State
  unfolding auth_middleware mux
  serve token env r s = auth_middleware token (mux env) r s

module _ (S : Store) where
  -- one tick of `StartAgentHealthChecker`
  unfoldable pub health_tick : Env → ℕ → S.State → S.State
  health_tick env threshold s = (S.mark_stale_agents_offline env.now threshold s).1
