-- ===== src/Api/Agents.antt =====
-- internal/api/agents.go and internal/api/health.go
use golang_assignment.Prelude.{String, [], ◌∷◌, map, none, some, ◌==◌, if◌then◌else◌, length}
use golang_assignment.Prelude.Result.{Result, ok, err}
use golang_assignment.Model.Dto.{RegisterAgentRequest}
use golang_assignment.Model.Entity.{Agent}
use golang_assignment.Model.Status.{online, job_type}
use golang_assignment.Model.Validation.{validate_register_agent, error_text}
use golang_assignment.Store.Interface.{Store}
use golang_assignment.Api.Http.{Env, Response, ResponseBody, write_json, write_error}

-- the agent that `handleRegisterAgent` builds of a valid request
unfoldable pub new_agent : Env → RegisterAgentRequest → Agent
new_agent env req = record {
  id = req.id;
  hostname = req.hostname;
  os = req.os;
  arch = req.arch;
  version = req.version;
  capabilities = map job_type req.capabilities;
  last_seen = env.now;
  status = online;
}

module _ (S : Store) where
  unfoldable pub registered : Result Agent × S.State → Response × S.State
  registered (ok agent, s) = (write_json 201 (ResponseBody.agent agent), s)
  registered (err e, s) = (write_error 500 "failed to register agent" e, s)

  unfoldable pub handle_register_agent :
      Env → Result RegisterAgentRequest → S.State → Response × S.State
  unfolding registered new_agent
  handle_register_agent env (err e) s = (write_error 400 "invalid request body" e, s)
  handle_register_agent env (ok req) s = elim (validate_register_agent req) [
    | some ve ↦ (write_error 400 "validation failed" (error_text ve), s)
    | none ↦ registered (S.register_agent (new_agent env req) s)
  ]

  unfoldable pub after_heartbeat : String → Result (Unit {0}) × S.State → Response × S.State
  after_heartbeat agent_id (err e, s) = (write_error 404 "agent not found" agent_id, s)
  after_heartbeat agent_id (ok _, s) =
      (write_json 200 (ResponseBody.fields (("status", "ok") ∷ ("agent_id", agent_id) ∷ [])), s)

  unfoldable pub handle_heartbeat : Env → String → S.State → Response × S.State
  unfolding after_heartbeat
  handle_heartbeat env agent_id s =
      if agent_id == ""
      then (write_error 400 "missing agent ID" "", s)
      else after_heartbeat agent_id (S.heartbeat env.now agent_id s)

  unfoldable pub handle_list_agents : S.State → Response × S.State
  handle_list_agents s = elim (S.list_agents s) [
    | err e ↦ (write_error 500 "failed to list agents" e, s)
    | ok agents ↦ (
      write_json 200 (ResponseBody.agents (record { agents = agents; total = length agents })),
      s,
    )
  ]

  unfoldable pub handle_health : Env → S.State → Response × S.State
  handle_health env s = (
    write_json 200 (
        ResponseBody.fields (
          ("status", "ok")
          ∷ ("service", "taskbridge-server")
          ∷ ("go_version", env.go_version)
          ∷ [])),
    s,
  )
