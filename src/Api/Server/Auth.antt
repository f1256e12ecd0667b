-- ===== src/Api/Server/Auth.antt =====
-- When a request is refused for its token.
use golang_assignment.Prelude.{
  ◌&&◌, if◌then◌else◌, not, String, ◌≡◌, ◌≢◌, ◌↔◌, Bool, true, [], ◌∷◌, arith, ◌==◌, eq_iff,
}
use golang_assignment.GoText.{concat}
use golang_assignment.Store.Interface.{Store}
use golang_assignment.Api.Agents.{
  handle_register_agent, handle_heartbeat, handle_list_agents, handle_health,
}
use golang_assignment.Api.Assignment.{handle_next_job, handle_job_result}
use golang_assignment.Api.Http.{Env, Reader, write_error}
use golang_assignment.Api.Jobs.{
  handle_create_job, handle_list_jobs, handle_get_job, handle_cancel_job,
}
use golang_assignment.Api.Server.{Request, Route, dispatch, route, serve}

module _ (S : Store) (reader : Reader) (env : Env) (body : reader.Body) (s : S.State) where
  -- No handler answers 401.
  dispatch-ne-401 : (r : Route) → (dispatch S reader env r body s).0.status ≢ 401
  unfolding dispatch handle_create_job handle_list_jobs handle_get_job handle_cancel_job
      handle_register_agent handle_heartbeat handle_list_agents handle_health handle_next_job
      handle_job_result
  dispatch-ne-401 Route.health = ground arith
  dispatch-ne-401 r = ground arith

-- The token is wanted, the path is not /health, and the header does not have it.
abbrev pub is_refused : String → String → String → Bool
is_refused token path authorization =
    not (token == "")
    && not (path == "/health")
    && not (authorization == concat ("Bearer " ∷ token ∷ []))

pub serve_cases :
    (S : Store) (reader : Reader) (token : String) (env : Env) (r : Request reader) (s : S.State)
    → serve S reader token env r s ≡ (
        if is_refused token r.path r.authorization
        then (write_error 401 "unauthorized" "invalid or missing Authorization header", s)
        else dispatch S reader env (route r.method r.path) r.body s)
unfolding serve
serve_cases S reader token env r s = ground arith

is_refused_iff :
    (token path authorization : String)
    → (is_refused token path authorization ≡ true)
      ↔ ((token ≢ "") × (path ≢ "/health") × (authorization ≢ concat ("Bearer " ∷ token ∷ [])))
is_refused_iff token path authorization = ground (
  arith,
  eq_iff token "",
  eq_iff path "/health",
  eq_iff authorization (concat ("Bearer " ∷ token ∷ [])),
)

-- Over any store, a request is answered 401 exactly if the server has a token, the path is not
-- /health, and the Authorization header is not that token as a bearer.
pub serve_unauthorized_iff :
    (S : Store) (reader : Reader) (token : String) (env : Env) (r : Request reader) (s : S.State)
    → ((serve S reader token env r s).0.status ≡ 401)
      ↔ ((token ≢ "") × (r.path ≢ "/health") × (r.authorization ≢ concat ("Bearer " ∷ token ∷ [])))
serve_unauthorized_iff S reader token env r s =
    let (to, from) = is_refused_iff token r.path r.authorization in
    ground (
      arith,
      serve_cases S reader token env r s,
      to,
      from,
      dispatch-ne-401 S reader env r.body s (route r.method r.path),
    )

-- A request that is answered 401 has not changed the state of the store.
pub serve_unauthorized_unchanged :
    (S : Store) (reader : Reader) (token : String) (env : Env) (r : Request reader) (s : S.State)
    → (serve S reader token env r s).0.status ≡ 401
    → (serve S reader token env r s).1 ≡ s
serve_unauthorized_unchanged S reader token env r s h = ground (
  arith,
  serve_cases S reader token env r s,
  dispatch-ne-401 S reader env r.body s (route r.method r.path),
)
