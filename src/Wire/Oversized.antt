-- ===== src/Wire/Oversized.antt =====
-- A result that is larger than what `readJSON` reads.

use golang_assignment.Prelude.{
  refl, All, List, ℕ, ◌+◌, ◌≤◌, ◌<◌, String, ◌≡◌, ◌≢◌, ◌∙◌, some, ◌∷◌, [], map, arith, eq_iff,
}
use golang_assignment.Prelude.Result.{Result, ok, err}
use golang_assignment.GoMap.{lookup}
use golang_assignment.GoText.{concat}
use golang_assignment.GoUrl.Plain.{item_path, IsPlainId}
use golang_assignment.Model.Dto.{JobResultRequest}
use golang_assignment.Model.Entity.{Job}
use golang_assignment.Model.Status.{running, job_type}
use golang_assignment.Store.Memory.{MemoryStore, assign_next_job}
use golang_assignment.Store.Memory.Assign.{assign_next_job-NextJob}
use golang_assignment.Store.Memory.Exclusive.{NextJob-IsHandedOut}
use golang_assignment.Store.Memory.Held.{run-held, LeavesAlone}
use golang_assignment.Store.Memory.Invariant.{IsWellFormed}
use golang_assignment.Store.Memory.Steps.{run, Op}
use golang_assignment.Api.Assignment.{handle_job_result}
use golang_assignment.Api.Http.{Env, read_json, max_body_size}
use golang_assignment.Api.Server.{dispatch}
use golang_assignment.Api.Server.Paths.{route_result}
use golang_assignment.Executor.{ExecutionResult}
use golang_assignment.Worker.{Worker, poll_and_execute, after_polling, run_job}
use golang_assignment.Worker.Delivery.{result_runes, IsClientOf, Deployment, deployment, admitted}
use golang_assignment.Worker.Requests.{Client, outcome, result_request, submit_result, do_request}
use golang_assignment.Worker.Rounds.{execution, polled, after_post-world}
use golang_assignment.Wire.{Json, Notation, IsLossless}
use golang_assignment.Wire.Body.{limited, has_more, marshal, read_agent, read_job}
use golang_assignment.Wire.EntityTrips.{IsWritableJob, received_job}
use golang_assignment.Wire.Requests.{decode_job_result, encode_job_result, encode_capabilities}
use golang_assignment.Wire.Rounds.{
  one_value, server_reader, wire_network, read_job-job, read_capabilities-marshal,
}

read_beyond :
    {A : Type 0} (decode : Json → Result A) (size : ℕ) (j : Json)
    → max_body_size < size
    → read_json has_more (limited decode) (one_value size j)
      ≡ err "invalid JSON: http: request body too large"
unfolding read_json limited concat
read_beyond decode size j beyond = ground arith

module _ (n : Notation) (token : String) (env : ℕ → Env) where
  -- A result that the server does not read changes nothing.
  dropped :
      (c : Client) (id : String) (r : ExecutionResult) (w : Deployment) (e : String)
      → IsClientOf token c
      → IsPlainId id
      → id ≢ ""
      → (server_reader n).read_job_result (marshal n (outcome (result_request r))) ≡ err e
      → (submit_result (wire_network n token env) c id r w).1 ≡ deployment w.store (w.served + 1)
  unfolding submit_result dispatch handle_job_result
  dropped c id r w e same plain named reads =
      let path = concat ("/jobs/" ∷ id ∷ "/result" ∷ []) in
      let net = wire_network n token env in
      after_post-world (server_reader n) token env (marshal n) (read_agent n) (read_job n)
        n.unescape "submit result" "submit result"
        (do_request net c "POST" path (outcome (result_request r)) w)
      ∙ ground (
        arith,
        admitted (server_reader n) token env (marshal n) (read_agent n) (read_job n) n.unescape c
            path (outcome (result_request r)) w same
            (item_path "jobs/" id "/result" result_runes.0 plain result_runes.1),
        route_result id plain named,
        eq_iff id "",
      )

  read_job_result-oversized :
      (r : JobResultRequest)
      → max_body_size < n.size (encode_job_result n r)
      → (server_reader n).read_job_result (marshal n (outcome r))
        ≡ err "invalid JSON: http: request body too large"
  unfolding marshal
  read_job_result-oversized r =
      read_beyond (decode_job_result n) (n.size (encode_job_result n r)) (encode_job_result n r)

  -- The round of such a result leaves the store as the assignment of the job has left it.
  oversized-round :
      {Host : Type 0} (worker : Worker Host) (host : Host) (w : Deployment) (j : Job)
      (m : MemoryStore)
      → IsLossless n
      → IsClientOf token worker.client
      → IsPlainId worker.client.agent_id
      → worker.client.agent_id ≢ ""
      → n.size (encode_capabilities n worker.capabilities) ≤ max_body_size
      → assign_next_job
          (env w.served).now
          worker.client.agent_id
          (map job_type worker.capabilities)
          w.store
        ≡ (ok (some j), m)
      → IsWritableJob j
      → IsPlainId j.id
      → j.id ≢ ""
      → max_body_size
        < n.size (encode_job_result n (result_request (execution worker (received_job n j) host).0))
      → poll_and_execute (wire_network n token env) worker w host
        ≡ (deployment m (w.served + 2), (execution worker (received_job n j) host).1)
  unfolding poll_and_execute after_polling run_job
  oversized-round worker host w j m lossless same plain named small assigns writable plain' named'
        large =
      let r : ExecutionResult = (execution worker (received_job n j) host).0 in
      ground (
        arith,
        polled (server_reader n) token env (marshal n) (read_agent n) (read_job n) n.unescape
            worker.client worker.capabilities w j (received_job n j) m same plain named
            (read_capabilities-marshal n token env lossless worker.capabilities small) assigns
            (read_job-job n token env lossless j writable),
        dropped worker.client j.id r (deployment m (w.served + 1))
            "invalid JSON: http: request body too large" same plain' named'
            (read_job_result-oversized (result_request r) large),
      )

  -- A result that takes more than 2 ^ 20 bytes is lost, and its job stays RUNNING: the executor has run
  -- the job, but the store stays as the assignment of the job has left it, and after every sequence of
  -- calls that does not complete, cancel or replace the job, it is stored as it was, RUNNING. It is
  -- assumed that the network leads to the server and delivers every request; that the store is
  -- well-formed; that the worker's URL is "http://" and a host, and its token the server's, without spaces
  -- and control characters; that the IDs in the paths are not empty and have only letters and digits of
  -- ASCII, "-" and "_"; that a `float64`, an `int` and a time are read as they were printed; that JSON can
  -- carry the job; and that the poll takes at most 2 ^ 20 bytes.
  pub oversized_result_lost :
      {Host : Type 0} (worker : Worker Host) (host : Host) (w : Deployment) (j : Job)
      (m : MemoryStore) (ops : List Op)
      → IsLossless n
      → IsWellFormed w.store
      → IsClientOf token worker.client
      → IsPlainId worker.client.agent_id
      → worker.client.agent_id ≢ ""
      → n.size (encode_capabilities n worker.capabilities) ≤ max_body_size
      → assign_next_job
          (env w.served).now
          worker.client.agent_id
          (map job_type worker.capabilities)
          w.store
        ≡ (ok (some j), m)
      → IsWritableJob j
      → IsPlainId j.id
      → j.id ≢ ""
      → max_body_size
        < n.size (encode_job_result n (result_request (execution worker (received_job n j) host).0))
      → All (LeavesAlone j.id) ops
      → (poll_and_execute (wire_network n token env) worker w host
          ≡ (deployment m (w.served + 2), (execution worker (received_job n j) host).1))
        × (lookup j.id (run ops m).jobs ≡ some j)
        × (j.status ≡ running)
  oversized_result_lost worker host w j m ops lossless sound same plain named small assigns writable
        plain' named' large quiet =
      let a =
        NextJob-IsHandedOut sound
          (assign_next_job-NextJob (env w.served).now worker.client.agent_id
            (map job_type worker.capabilities) w.store)
          assigns in
      (
        oversized-round worker host w j m lossless same plain named small assigns writable plain'
            named' large,
        run-held ops j.id j m a.stored_after (rw a.running_now refl) quiet,
        a.running_now,
      )
