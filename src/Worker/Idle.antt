-- ===== src/Worker/Idle.antt =====
-- A poll that finds no job, and a heartbeat, over the same network as in Rounds.
use golang_assignment.Prelude.{◌+◌, ◌≡◌, ◌≢◌, String, [], ◌∷◌, map, none, ℕ, arith, eq_iff, ◌∙◌}
use golang_assignment.Prelude.Result.{Result, ok}
use golang_assignment.GoText.{concat}
use golang_assignment.GoUrl.Plain.{IsPlainId, item_path}
use golang_assignment.Model.Entity.{Job, Agent}
use golang_assignment.Model.Status.{job_type}
use golang_assignment.Store.Memory.{MemoryStore, assign_next_job, heartbeat}
use golang_assignment.Api.Agents.{handle_heartbeat}
use golang_assignment.Api.Assignment.{handle_next_job}
use golang_assignment.Api.Http.{Env, Reader, ResponseBody}
use golang_assignment.Api.Server.{dispatch}
use golang_assignment.Api.Server.Paths.{route_heartbeat, route_next_job}
use golang_assignment.Worker.{Worker, poll_and_execute, after_polling}
use golang_assignment.Worker.Delivery.{
  Deployment, deployment, direct, admitted, IsClientOf, next_job_runes,
}
use golang_assignment.Worker.Requests.{
  Client, ClientBody, capabilities, nothing, do_request, after_poll, poll_next_job, send_heartbeat,
}
use golang_assignment.Worker.Rounds.{after_post-world}

module _ (reader : Reader) (token : String) (env : ℕ → Env) (encode : ClientBody → reader.Body)
    (decode_agent : ResponseBody → Result Agent) (decode_job : ResponseBody → Result Job)
    (unescape : String → Result String) where
  pub unassigned :
      {Host : Type 0} (worker : Worker Host) (host : Host) (w : Deployment) (m : MemoryStore)
      → IsClientOf token worker.client
      → IsPlainId worker.client.agent_id
      → worker.client.agent_id ≢ ""
      → reader.read_capabilities (encode (capabilities worker.capabilities))
        ≡ ok worker.capabilities
      → assign_next_job
          (env w.served).now
          worker.client.agent_id
          (map job_type worker.capabilities)
          w.store
        ≡ (ok none, m)
      → poll_and_execute
          (direct reader token env encode decode_agent decode_job unescape)
          worker
          w
          host
        ≡ (deployment m (w.served + 1), host)
  unfolding poll_and_execute after_polling poll_next_job after_poll dispatch handle_next_job
  unassigned worker host w m same plain named reads assigns =
      let c = worker.client in
      let path = concat ("/agents/" ∷ c.agent_id ∷ "/next-job" ∷ []) in
      ground (
        arith,
        admitted reader token env encode decode_agent decode_job unescape c path
            (capabilities worker.capabilities) w same
            (item_path "agents/" c.agent_id "/next-job" next_job_runes.0 plain next_job_runes.1),
        route_next_job c.agent_id plain named,
        eq_iff c.agent_id "",
      )

  pub beaten :
      (c : Client) (w : Deployment)
      → IsClientOf token c
      → IsPlainId c.agent_id
      → c.agent_id ≢ ""
      → (send_heartbeat (direct reader token env encode decode_agent decode_job unescape) c w).1
        ≡ deployment (heartbeat (env w.served).now c.agent_id w.store).1 (w.served + 1)
  unfolding send_heartbeat dispatch handle_heartbeat
  beaten c w same plain named =
      let path = concat ("/agents/" ∷ c.agent_id ∷ "/heartbeat" ∷ []) in
      let net = direct reader token env encode decode_agent decode_job unescape in
      after_post-world reader token env encode decode_agent decode_job unescape "heartbeat"
        "heartbeat" (do_request net c "POST" path nothing w)
      ∙ ground (
        arith,
        admitted reader token env encode decode_agent decode_job unescape c path nothing w same
            (item_path "agents/" c.agent_id "/heartbeat" next_job_runes.0 plain (ground arith)),
        route_heartbeat c.agent_id plain named,
        eq_iff c.agent_id "",
      )
