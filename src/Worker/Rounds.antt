-- ===== src/Worker/Rounds.antt =====
-- A round of the worker against the server: polling, execution and the report, over a network that
-- delivers every request.
use golang_assignment.Prelude.{
  ℕ, ◌+◌, String, ◌≡◌, ◌≢◌, refl, ◌∙◌, Option, none, some, List, [], ◌∷◌, map, eq_iff, arith,
}
use golang_assignment.Prelude.Result.{Result, ok, err}
use golang_assignment.GoText.{concat}
use golang_assignment.GoUrl.Plain.{IsPlainId, item_path}
use golang_assignment.Model.Dto.{JobResultRequest}
use golang_assignment.Model.Entity.{Job, Agent}
use golang_assignment.Model.Status.{job_status, job_type}
use golang_assignment.Model.Validation.{validate_job_result}
use golang_assignment.Store.Memory.{MemoryStore, get_job, assign_next_job, complete_job}
use golang_assignment.Api.Assignment.{handle_next_job, handle_job_result}
use golang_assignment.Api.Http.{Env, Reader, ResponseBody}
use golang_assignment.Api.Server.{dispatch}
use golang_assignment.Api.Server.Paths.{route_next_job, route_result}
use golang_assignment.Executor.{ExecutionResult, Executor, get_executor}
use golang_assignment.Worker.{
  Worker, unsupported, timeout_of, run_job, after_polling, poll_and_execute,
}
use golang_assignment.Worker.Delivery.{
  next_job_runes, result_runes, Deployment, deployment, IsClientOf, direct, admitted,
}
use golang_assignment.Worker.Requests.{
  Client, ClientBody, Network, do_request, after_poll, after_post, capabilities, outcome,
  poll_next_job, submit_result, result_request,
}

-- what a worker makes of a job: its executor's result, or a failure if it has none for the type
abbrev pub executed : {Host : Type 0} → Option (Executor Host) → Job → Host → ExecutionResult × Host
executed none j host = (unsupported j.type, host)
executed (some ex) j host = ex.execute (timeout_of j.timeout_seconds) j host

abbrev pub execution : {Host : Type 0} → Worker Host → Job → Host → ExecutionResult × Host
execution worker j host = executed (get_executor j.type worker.registry) j host

module _ (reader : Reader) (token : String) (env : ℕ → Env) (encode : ClientBody → reader.Body)
    (decode_agent : ResponseBody → Result Agent) (decode_job : ResponseBody → Result Job)
    (unescape : String → Result String) where
  abbrev net : Network
  net = direct reader token env encode decode_agent decode_job unescape

  pub polled :
      (c : Client) (wanted : List String) (w : Deployment) (j seen : Job) (m : MemoryStore)
      → IsClientOf token c
      → IsPlainId c.agent_id
      → c.agent_id ≢ ""
      → reader.read_capabilities (encode (capabilities wanted)) ≡ ok wanted
      → assign_next_job (env w.served).now c.agent_id (map job_type wanted) w.store
        ≡ (ok (some j), m)
      → decode_job (ResponseBody.job j) ≡ ok seen
      → poll_next_job net c wanted w ≡ (ok (some seen), record { store = m; served = w.served + 1 })
  unfolding poll_next_job after_poll dispatch handle_next_job
  polled c wanted w j seen m same plain named reads assigns decodes =
      let path = concat ("/agents/" ∷ c.agent_id ∷ "/next-job" ∷ []) in
      ground (
        arith,
        admitted reader token env encode decode_agent decode_job unescape c path
            (capabilities wanted) w same
            (item_path "agents/" c.agent_id "/next-job" (next_job_runes.0) plain next_job_runes.1),
        route_next_job c.agent_id plain named,
        eq_iff c.agent_id "",
      )

  pub after_post-world :
      (sent what : String) (r : Result (ℕ × ResponseBody) × Deployment)
      → (after_post net sent what r).1 ≡ r.1
  unfolding after_post
  after_post-world sent what (err e, w) = refl
  after_post-world sent what (ok (status, answer), w) = ground arith

  -- A result that the server decodes and finds valid reaches `CompleteJob`.
  pub reported :
      (c : Client) (id : String) (r : ExecutionResult) (req : JobResultRequest) (w : Deployment)
      → IsClientOf token c
      → IsPlainId id
      → id ≢ ""
      → reader.read_job_result (encode (outcome (result_request r))) ≡ ok req
      → validate_job_result req ≡ none
      → (submit_result net c id r w).1 ≡ record {
        store =
            (complete_job
              (env w.served).now
              id
              (job_status req.status)
              req.logs
              req.result
              req.error
              w.store).1;
        served = w.served + 1;
      }
  unfolding submit_result dispatch handle_job_result get_job complete_job
  reported c id r req w same plain named reads valid =
      let path = concat ("/jobs/" ∷ id ∷ "/result" ∷ []) in
      after_post-world "submit result" "submit result"
        (do_request net c "POST" path (outcome (result_request r)) w)
      ∙ ground (
        arith,
        admitted reader token env encode decode_agent decode_job unescape c path
            (outcome (result_request r)) w same
            (item_path "jobs/" id "/result" result_runes.0 plain result_runes.1),
        route_result id plain named,
        eq_iff id "",
      )

  -- One round of a worker whose URL and token are the server's, over a network that delivers its requests:
  -- the store assigns a job to the agent, the executor of its type runs the job as the worker decodes it, and
  -- its result completes it. It is assumed that the IDs in the paths are plain and not empty,
  -- that the server decodes the capabilities that the worker has marshaled, that the worker decodes the
  -- job and the server the result, and that the request that it decodes is valid.
  pub poll_and_execute_lem :
      {Host : Type 0} (worker : Worker Host) (host : Host) (w : Deployment) (j seen : Job)
      (m : MemoryStore) (req : JobResultRequest)
      → IsClientOf token worker.client
      → IsPlainId worker.client.agent_id
      → worker.client.agent_id ≢ ""
      → reader.read_capabilities (encode (capabilities worker.capabilities))
        ≡ ok worker.capabilities
      → assign_next_job
          (env w.served).now
          worker.client.agent_id
          (map job_type worker.capabilities)
          w.store
        ≡ (ok (some j), m)
      → decode_job (ResponseBody.job j) ≡ ok seen
      → IsPlainId seen.id
      → seen.id ≢ ""
      → reader.read_job_result (encode (outcome (result_request (execution worker seen host).0)))
        ≡ ok req
      → validate_job_result req ≡ none
      → poll_and_execute net worker w host ≡ (
        record {
          store =
              (complete_job
                (env (w.served + 1)).now
                seen.id
                (job_status req.status)
                req.logs
                req.result
                req.error
                m).1;
          served = w.served + 2;
        },
        (execution worker seen host).1,
      )
  unfolding poll_and_execute after_polling run_job
  poll_and_execute_lem worker host w j seen m req same plain named reads assigns decodes plain'
        named' reads' valid =
      let after = deployment m (w.served + 1) in
      ground (
        arith,
        polled worker.client worker.capabilities w j seen m same plain named reads assigns decodes,
        reported worker.client seen.id (execution worker seen host).0 req after same plain' named'
            reads' valid,
      )
