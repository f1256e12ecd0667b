-- ===== src/Wire/Registration.antt =====
-- The registration of an agent, with JSON between it and the server.
use golang_assignment.Prelude.{
  refl, ap, none, All, List, ℕ, ◌+◌, ◌≤◌, String, ◌≡◌, some, ◌∷◌, [], map, arith,
}
use golang_assignment.Prelude.Result.{ok, err}
use golang_assignment.GoUrl.Plain.{IsUrlPath}
use golang_assignment.Model.Dto.{RegisterAgentRequest}
use golang_assignment.Model.Entity.{Agent}
use golang_assignment.Model.Status.{
  type_text-job_type, agent_status_text, type_text, agent_status, job_type,
}
use golang_assignment.Model.Validation.{ValidationError, validate_register_agent}
use golang_assignment.Store.Memory.{put_agent, MemoryStore, assign_next_job}
use golang_assignment.Api.Agents.{handle_register_agent, new_agent}
use golang_assignment.Api.Http.{ResponseBody, Env, max_body_size}
use golang_assignment.Api.Server.{Route, route, dispatch}
use golang_assignment.Worker.Delivery.{IsClientOf, Deployment, deployment, admitted}
use golang_assignment.Worker.Requests.{failed_status, registration, send_registration, Client}
use golang_assignment.Wire.{Notation, IsLossless}
use golang_assignment.Wire.AgentTrips.{decode_agent-encode_agent, IsWritableAgent}
use golang_assignment.Wire.Body.{marshal, read_agent, read_job}
use golang_assignment.Wire.RequestTrips.{decode_register_agent-encode_register_agent}
use golang_assignment.Wire.Requests.{decode_register_agent, encode_register_agent}
use golang_assignment.Wire.Rounds.{read_within, server_reader, wire_network}
use golang_assignment.Store.Memory

types-kept : (l : List String) → All (λ t. job_type (type_text t) ≡ t) (map job_type l)
types-kept [] = tt
types-kept (s ∷ ss) = (ap job_type (type_text-job_type s), types-kept ss)

module _ (n : Notation) (token : String) (env : ℕ → Env) (lossless : IsLossless n) where
  read_register_agent-marshal :
      (r : RegisterAgentRequest)
      → n.size (encode_register_agent n r) ≤ max_body_size
      → (server_reader n).read_register_agent (marshal n (registration r)) ≡ ok r
  unfolding marshal
  read_register_agent-marshal r within =
      read_within (decode_register_agent n) (n.size (encode_register_agent n r))
        (encode_register_agent n r) r within (decode_register_agent-encode_register_agent n r)

  new_agent-IsWritableAgent : (e : Env) (r : RegisterAgentRequest) → IsWritableAgent (new_agent e r)
  unfolding new_agent agent_status agent_status_text
  new_agent-IsWritableAgent e r = record { capabilities = types-kept r.capabilities; status = refl }

  read_agent-agent : (a : Agent) → IsWritableAgent a → read_agent n (ResponseBody.agent a) ≡ ok a
  unfolding read_agent
  read_agent-agent a writable = rw (decode_agent-encode_agent n a lossless writable) refl

  register_path : IsUrlPath "/agents/register"
  register_path = record { rest = "agents/register"; runes = ground arith; text = refl }

  register_route : route "POST" "/agents/register" ≡ Route.register_agent
  unfolding route
  register_route = refl

  -- A valid registration is stored, and the agent gets the entry that is stored.
  pub registered_lem :
      (c : Client) (r : RegisterAgentRequest) (w : Deployment)
      → IsClientOf token c
      → n.size (encode_register_agent n r) ≤ max_body_size
      → validate_register_agent r ≡ none
      → send_registration (wire_network n token env) c r w ≡ (
        ok (new_agent (env w.served) r),
        deployment (put_agent r.id (new_agent (env w.served) r) w.store) (w.served + 1),
      )
  unfolding send_registration dispatch handle_register_agent Memory.register_agent
  registered_lem c r w same within valid = ground (
    arith,
    admitted (server_reader n) token env (marshal n) (read_agent n) (read_job n) n.unescape c
        "/agents/register" (registration r) w same register_path,
    register_route,
    read_register_agent-marshal r within,
    read_agent-agent (new_agent (env w.served) r) (new_agent-IsWritableAgent (env w.served) r),
  )

  -- One that is not valid is refused, and changes nothing.
  pub refused_lem :
      (c : Client) (r : RegisterAgentRequest) (w : Deployment) (ve : ValidationError)
      → IsClientOf token c
      → n.size (encode_register_agent n r) ≤ max_body_size
      → validate_register_agent r ≡ some ve
      → send_registration (wire_network n token env) c r w
        ≡ (err (failed_status "register" 400), deployment w.store (w.served + 1))
  unfolding send_registration dispatch handle_register_agent
  refused_lem c r w ve same within invalid = ground (
    arith,
    admitted (server_reader n) token env (marshal n) (read_agent n) (read_job n) n.unescape c
        "/agents/register" (registration r) w same register_path,
    register_route,
    read_register_agent-marshal r within,
  )
