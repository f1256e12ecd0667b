-- ===== src/Wire/Polled.antt =====
-- A poll of a worker that is registered, with JSON between it and the server, as a round on the store.

use golang_assignment.Prelude.{ℕ, ◌+◌, ◌≤◌, String, ◌≡◌, ◌≢◌, refl, ap, ◌∙◌, true, none, List, map}
use golang_assignment.GoMap.{lookup}
use golang_assignment.GoUrl.Plain.{IsPlainId}
use golang_assignment.Model.Entity.{Job}
use golang_assignment.Model.Status.{job_type, JobType}
use golang_assignment.Store.Memory.{put_job, assign_next_job}
use golang_assignment.Store.Memory.Assign.{
  next_job, no_job, unregistered, NextJob, assignment, is_eligible,
}
use golang_assignment.Store.Memory.Lifecycle.{start}
use golang_assignment.Store.Memory.Rounds.{
  submitted, after_round, IsAnswered, Reports, Round, work, Report,
}
use golang_assignment.Store.Memory.Steps.{assign}
use golang_assignment.Api.Http.{max_body_size, Env}
use golang_assignment.Executor.{ExecutionResult}
use golang_assignment.Executor.Reports.{IsReported}
use golang_assignment.Worker.{poll_and_execute, Worker}
use golang_assignment.Worker.Delivery.{IsClientOf, Deployment}
use golang_assignment.Worker.Idle.{unassigned}
use golang_assignment.Worker.Requests.{result_request}
use golang_assignment.Worker.Rounds.{execution}
use golang_assignment.Wire.{Time, IsLossless, Notation}
use golang_assignment.Wire.Body.{read_job, read_agent, marshal}
use golang_assignment.Wire.EntityTrips.{received_job}
use golang_assignment.Wire.Payloads.{IsWritablePayload, received_if_any}
use golang_assignment.Wire.Portable.{
  Edge-IsPortable, received_if_any-IsPlainPayload, IsPortable, apply-IsPortableStore, IsPortableOp,
  IsPortableStore,
}
use golang_assignment.Wire.Requests.{encode_job_result, encode_capabilities}
use golang_assignment.Wire.Rounds.{
  wire_round, read_capabilities-marshal, server_reader, wire_network, kept_status,
}
use golang_assignment.Wire.Stored.{plain-IsWritableJob}

-- What JSON can carry back of an execution.
pub record IsCarried (n : Notation) (r : ExecutionResult) : Type 0 where
  pub reported : IsReported r.status
  pub writable : IsWritablePayload r.result
  pub small : n.size (encode_job_result n (result_request r)) ≤ max_body_size

-- a worker that the server at its other end takes requests of, and answers
pub record IsConnected {Host : Type 0} (n : Notation) (token : String) (worker : Worker Host)
    : Type 0 where
  pub client : IsClientOf token worker.client
  pub segment : IsPlainId worker.client.agent_id
  pub named : worker.client.agent_id ≢ ""
  pub small : n.size (encode_capabilities n worker.capabilities) ≤ max_body_size
  pub carried : (j : Job) (host : Host) → IsCarried n (execution worker j host).0

abbrev report_of : Notation → ExecutionResult → Report
report_of n r = record {
  status = r.status;
  logs = r.logs;
  result = received_if_any n r.result;
  error = r.error;
}

module _ (n : Notation) (lossless : IsLossless n) (token : String) (env : ℕ → Env) {Host : Type 0}
    (worker : Worker Host) (connected : IsConnected n token worker) where
  abbrev pub agent_id : String
  agent_id = worker.client.agent_id

  abbrev pub wanted : List JobType
  wanted = map job_type worker.capabilities

  -- a poll, as a round on the store
  abbrev pub round_at : ℕ → Host → Round
  round_at served host = record {
    asked = (env served).now;
    reported = (env (served + 1)).now;
    report = λ j. report_of n (execution worker (received_job n j) host).0;
  }

  pub round_at-IsAnswered : (served : ℕ) (host : Host) → IsAnswered (round_at served host)
  round_at-IsAnswered served host j = (connected.carried (received_job n j) host).reported

  pub round_at-Reports :
      (served : ℕ) (host : Host)
      → Reports IsPortableStore IsPortableOp apply-IsPortableStore (round_at served host)
  round_at-Reports served host j =
      let c = connected.carried (received_job n j) host in
      (
        c.reported,
        (
          (
            kept_status (execution worker (received_job n j) host).0.status c.reported,
            received_if_any-IsPlainPayload n (execution worker (received_job n j) host).0.result
                lossless c.writable,
          ),
          tt,
        ),
      )

  assignment-IsPortable :
      (now : Time) (job : Job)
      → is_eligible wanted job ≡ true
      → IsPortable job
      → IsPortable (assignment now agent_id job)
  assignment-IsPortable now job fit h =
      Edge-IsPortable {op = assign now agent_id wanted} {k = job.id} (start fit) (tt, (tt, tt)) h

  -- A poll of a registered worker is a round of its agent on the store.
  pub poll-work :
      (w : Deployment) (host : Host)
      → IsPortableStore w.store
      → lookup agent_id w.store.agents ≢ none
      → NextJob
          (env w.served).now
          agent_id
          wanted
          w.store
          (assign_next_job (env w.served).now agent_id wanted w.store)
      → (poll_and_execute (wire_network n token env) worker w host).0.store
        ≡ work agent_id wanted (round_at w.served host) w.store
  unfolding work after_round submitted
  poll-work w host h known (unregistered missing e) = absurd (known missing)
  poll-work w host h known (no_job _ rest e) =
      ap (λ (p : Deployment × Host). p.0.store)
        (unassigned (server_reader n) token env (marshal n) (read_agent n) (read_job n) n.unescape
          worker host w w.store connected.client connected.segment connected.named
          (read_capabilities-marshal n token env lossless worker.capabilities connected.small) e)
      ∙ rw e refl
  poll-work w host h known (next_job id job _ first e) =
      let j = assignment (env w.served).now agent_id job in
      let p =
        assignment-IsPortable (env w.served).now job first.eligible (h.jobs id job first.stored) in
      let c = connected.carried (received_job n j) host in
      ap (λ (p : Deployment × Host). p.0.store)
        (wire_round n token env lossless worker host w j (put_job id j w.store) connected.client
          connected.segment connected.named connected.small e (plain-IsWritableJob j p.plain)
          p.segment p.named c.reported c.writable c.small)
      ∙ rw e refl
