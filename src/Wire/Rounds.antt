-- ===== src/Wire/Rounds.antt =====
-- A round of the worker against the server with JSON between them: Worker/Rounds over the decoders and
-- the encoders of this component.
use golang_assignment.Prelude.{
  inr, inl, ℕ, ◌+◌, ◌≤◌, String, ◌≡◌, ◌≢◌, refl, ◌∙◌, none, some, List, map, arith,
}
use golang_assignment.Prelude.Result.{Result, ok}
use golang_assignment.GoUrl.Plain.{IsPlainId}
use golang_assignment.Model.Dto.{JobResultRequest}
use golang_assignment.Model.Entity.{Job}
use golang_assignment.Model.Status.{JobStatus, job_status, status_text, job_type}
use golang_assignment.Model.Validation.{validate_job_result}
use golang_assignment.Store.Memory.{MemoryStore, assign_next_job, complete_job}
use golang_assignment.Api.Http.{Env, Reader, ResponseBody, json_reader, read_json, max_body_size}
use golang_assignment.Executor.{ExecutionResult}
use golang_assignment.Executor.Reports.{IsReported, IsReported-IsValid}
use golang_assignment.Worker.{Worker, poll_and_execute}
use golang_assignment.Worker.Delivery.{IsClientOf, Deployment, direct}
use golang_assignment.Worker.Requests.{Network, capabilities, outcome, result_request}
use golang_assignment.Worker.Rounds.{reported, execution, poll_and_execute_lem}
use golang_assignment.Wire.{Json, Notation, IsLossless}
use golang_assignment.Wire.Body.{
  Body, value, finished, limited, first_value, has_more, marshal, read_agent, read_job,
  wire_decoder,
}
use golang_assignment.Wire.EntityTrips.{IsWritableJob, received_job, decode_job-encode_job}
use golang_assignment.Wire.Payloads.{IsWritablePayload, received_if_any}
use golang_assignment.Wire.RequestTrips.{
  received_result, decode_job_result-encode_job_result, decode_capabilities-encode_capabilities,
}
use golang_assignment.Wire.Requests.{
  decode_job_result, decode_capabilities, encode_job_result, encode_capabilities,
}

abbrev pub one_value : ℕ → Json → Body
one_value size j = record { size = size; gap = 0; text = value j finished }

-- A value that is not too large is read as it is decoded.
pub read_within :
    {A : Type 0} (decode : Json → Result A) (size : ℕ) (j : Json) (a : A)
    → size ≤ max_body_size
    → decode j ≡ ok a
    → read_json has_more (limited decode) (one_value size j) ≡ ok a
unfolding read_json limited first_value has_more
read_within decode size j a within decodes = ground (arith, decodes)

-- A result that is SUCCESS or FAILED passes the validation as it is read.
result-IsValid :
    (n : Notation) (r : ExecutionResult)
    → IsReported r.status
    → validate_job_result (received_result n (result_request r)) ≡ none
unfolding validate_job_result
result-IsValid n r = IsReported-IsValid r

pub kept_status : (s : JobStatus) → IsReported s → job_status (status_text s) ≡ s
unfolding job_status status_text
kept_status s (inl e) = rw e refl
kept_status s (inr e) = rw e refl

abbrev pub server_reader : Notation → Reader
server_reader n = json_reader (wire_decoder n)

module _ (n : Notation) (token : String) (env : ℕ → Env) where
  -- the server behind JSON
  abbrev pub wire_network : Network
  wire_network =
      direct (server_reader n) token env (marshal n) (read_agent n) (read_job n) n.unescape

  module _ (lossless : IsLossless n) where
    pub read_job-job :
        (j : Job) → IsWritableJob j → read_job n (ResponseBody.job j) ≡ ok (received_job n j)
    unfolding read_job
    read_job-job j writable = rw (decode_job-encode_job n lossless j writable) refl

    pub read_capabilities-marshal :
        (l : List String)
        → n.size (encode_capabilities n l) ≤ max_body_size
        → (server_reader n).read_capabilities (marshal n (capabilities l)) ≡ ok l
    unfolding marshal
    read_capabilities-marshal l within =
        read_within (decode_capabilities n) (n.size (encode_capabilities n l))
          (encode_capabilities n l) l within (decode_capabilities-encode_capabilities n l)

    read_job_result-marshal :
        (r : JobResultRequest)
        → IsWritablePayload r.result
        → n.size (encode_job_result n r) ≤ max_body_size
        → (server_reader n).read_job_result (marshal n (outcome r)) ≡ ok (received_result n r)
    unfolding marshal
    read_job_result-marshal r writable within =
        read_within (decode_job_result n) (n.size (encode_job_result n r)) (encode_job_result n r)
          (received_result n r) within (decode_job_result-encode_job_result n lossless r writable)

    -- One round of a worker with JSON between it and the server, over a network that leads to the server
    -- and delivers every request: the store assigns a job to the agent, the executor of its type runs the
    -- job, and the result completes it, with its status, logs and error as they are and its map as JSON
    -- carries it. It is assumed that the worker's URL is "http://" and a host, and its token the server's,
    -- without spaces and control characters; that the IDs in the paths are not empty and have only
    -- letters and digits of ASCII, "-" and "_"; that a `float64`, an `int` and a time are read as they
    -- were printed; that JSON can carry the job and the map; that the result is SUCCESS or FAILED; and
    -- that neither body takes more than 2 ^ 20 bytes.
    pub wire_round :
        {Host : Type 0} (worker : Worker Host) (host : Host) (w : Deployment) (j : Job)
        (m : MemoryStore)
        → IsClientOf token worker.client
        → IsPlainId worker.client.agent_id
        → worker.client.agent_id ≢ ""
        → n.size (encode_capabilities n worker.capabilities) ≤ max_body_size
        → assign_next_job
            (env w.served).now
            worker.client.agent_id
            (map job_type worker.capabilities)
            w.store
          ≡ (ok (some j), m)
        → IsWritableJob j
        → IsPlainId j.id
        → j.id ≢ ""
        → IsReported (execution worker (received_job n j) host).0.status
        → IsWritablePayload (execution worker (received_job n j) host).0.result
        → n.size (encode_job_result n (result_request (execution worker (received_job n j) host).0))
          ≤ max_body_size
        → poll_and_execute wire_network worker w host ≡ (
          record {
            store =
                (complete_job
                  (env (w.served + 1)).now
                  j.id
                  (execution worker (received_job n j) host).0.status
                  (execution worker (received_job n j) host).0.logs
                  (received_if_any n (execution worker (received_job n j) host).0.result)
                  (execution worker (received_job n j) host).0.error
                  m).1;
            served = w.served + 2;
          },
          (execution worker (received_job n j) host).1,
        )
    wire_round worker host w j m same plain named small assigns writable plain' named' reported
          writable' small' =
        let r : ExecutionResult = (execution worker (received_job n j) host).0 in
        poll_and_execute_lem (server_reader n) token env (marshal n) (read_agent n) (read_job n)
          n.unescape worker host w j (received_job n j) m (received_result n (result_request r))
          same plain named (read_capabilities-marshal worker.capabilities small) assigns
          (read_job-job j writable) plain' named'
          (read_job_result-marshal (result_request r) writable' small')
          (result-IsValid n r reported)
        ∙ rw (kept_status r.status reported) refl
