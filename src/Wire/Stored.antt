-- ===== src/Wire/Stored.antt =====
-- The jobs in the store of a server that reads JSON can be written as JSON.
use golang_assignment.Prelude.{
  Option, none, if_keeps, ◌≡◌, refl, ap, String, some, List, All, arith, zero, suc,
}
use golang_assignment.Prelude.Int.{is_zero, ℤ, pos, negsuc, incr}
use golang_assignment.GoMap.{lookup}
use golang_assignment.Model.Dto.{CreateJobRequest}
use golang_assignment.Model.Entity.{Job}
use golang_assignment.Model.Status.{
  job_type, type_text, job_status, status_text, status_text-job_status,
}
use golang_assignment.Model.Value.{Payload}
use golang_assignment.Store.Memory.{new_memory_store}
use golang_assignment.Store.Memory.Attempts.{none_stored}
use golang_assignment.Store.Memory.Kept.{run_keeps}
use golang_assignment.Store.Memory.Lifecycle.{Edge, start, stop, requeue, finish, replace}
use golang_assignment.Store.Memory.Steps.{Op, create, update, complete, run}
use golang_assignment.Api.Http.{Env, json_reader}
use golang_assignment.Api.Jobs.{new_job}
use golang_assignment.Api.Server.Calls.{AnyEnv, AllowsServer}
use golang_assignment.Wire.{Notation, FitsInt}
use golang_assignment.Wire.Body.{wire_decoder}
use golang_assignment.Wire.Decoded.{
  IsDecodedJob, read_create_job-IsDecodedJob, read_job_result-IsDecodedResult,
}
use golang_assignment.Wire.EntityTrips.{IsWritableJob}
use golang_assignment.Wire.Payloads.{fields_of, IsWritablePayload}
use golang_assignment.Wire.Plain.{plain-HasWritableFields}
use golang_assignment.Wire.PlainRequests.{IsPlainPayload}

-- a job whose maps came out of a decoder, with texts that are those of its type and its status, and
-- numbers of 64 bits
pub record IsPlainJob (j : Job) : Type 0 where
  pub type : job_type (type_text j.type) ≡ j.type
  pub status : job_status (status_text j.status) ≡ j.status
  pub payload : IsPlainPayload j.payload
  pub result : IsPlainPayload j.result
  pub attempt_count : FitsInt j.attempt_count
  pub max_retries : FitsInt j.max_retries
  pub timeout_seconds : FitsInt j.timeout_seconds

abbrev pub IsPlainOp : Op → Type 0
IsPlainOp (create job) = IsPlainJob job
IsPlainOp (update job) = IsPlainJob job
IsPlainOp (complete now id status logs result error) =
    (job_status (status_text status) ≡ status) × IsPlainPayload result
IsPlainOp _ = Unit

incr-FitsInt : (i : ℤ) → FitsInt i → FitsInt (incr i)
unfolding incr
incr-FitsInt (pos n) h = ground arith
incr-FitsInt (negsuc zero) h = ground arith
incr-FitsInt (negsuc (suc n)) h = ground arith

pub Edge-IsPlainJob :
    {op : Op} {k : String} {job job' : Job}
    → Edge op k job job'
    → IsPlainOp op
    → IsPlainJob job
    → IsPlainJob job'
unfolding job_status status_text
Edge-IsPlainJob (start eligible) allowed h = record {
  type = h.type;
  status = refl;
  payload = h.payload;
  result = h.result;
  attempt_count = incr-FitsInt _ h.attempt_count;
  max_retries = h.max_retries;
  timeout_seconds = h.timeout_seconds;
}
Edge-IsPlainJob (stop same unfinished) allowed h = record {
  type = h.type;
  status = refl;
  payload = h.payload;
  result = h.result;
  attempt_count = h.attempt_count;
  max_retries = h.max_retries;
  timeout_seconds = h.timeout_seconds;
}
Edge-IsPlainJob (requeue same bad left) (kept_status, plain) h = record {
  type = h.type;
  status = refl;
  payload = h.payload;
  result = plain;
  attempt_count = h.attempt_count;
  max_retries = h.max_retries;
  timeout_seconds = h.timeout_seconds;
}
Edge-IsPlainJob (finish same final) (kept_status, plain) h = record {
  type = h.type;
  status = kept_status;
  payload = h.payload;
  result = plain;
  attempt_count = h.attempt_count;
  max_retries = h.max_retries;
  timeout_seconds = h.timeout_seconds;
}
Edge-IsPlainJob (replace same) allowed h = allowed

-- JSON can carry them.
pub plain-IsWritablePayload : (p : Option Payload) → IsPlainPayload p → IsWritablePayload p
plain-IsWritablePayload none h = tt
plain-IsWritablePayload (some p) h = plain-HasWritableFields (fields_of p) h

pub plain-IsWritableJob : (j : Job) → IsPlainJob j → IsWritableJob j
plain-IsWritableJob j h = record {
  type = h.type;
  status = h.status;
  payload = plain-IsWritablePayload j.payload h.payload;
  result = plain-IsWritablePayload j.result h.result;
  attempt_count = h.attempt_count;
  max_retries = h.max_retries;
  timeout_seconds = h.timeout_seconds;
}

-- Calls that bring plain jobs and plain results leave only plain jobs in a new store.
pub run-IsPlainJob :
    (ops : List Op) (k : String) (j : Job)
    → All IsPlainOp ops
    → lookup k (run ops new_memory_store).jobs ≡ some j
    → IsPlainJob j
run-IsPlainJob ops k j allowed =
    run_keeps IsPlainJob IsPlainOp (λ job h. h) (λ op i job job' edge. Edge-IsPlainJob edge) ops
      new_memory_store allowed (λ i job stored. absurd (none_stored i job stored)) k j

new_job-IsPlainJob :
    (env : Env) (r : CreateJobRequest) → IsDecodedJob r → IsPlainJob (new_job env r)
unfolding new_job job_status status_text
new_job-IsPlainJob env r h = record {
  type = h.type;
  status = refl;
  payload = h.payload;
  result = tt;
  attempt_count = omega arith;
  max_retries = h.max_retries;
  timeout_seconds = if_keeps FitsInt (is_zero r.timeout_seconds) (omega arith) h.timeout_seconds;
}

pub plain_calls : (n : Notation) → AllowsServer (json_reader (wire_decoder n)) AnyEnv IsPlainOp
plain_calls n = record {
  creates = λ env b r usual read valid.
      new_job-IsPlainJob env r (read_create_job-IsDecodedJob n b r read);
  completes = λ now id b r read valid.
      (ap job_status (status_text-job_status r.status), read_job_result-IsDecodedResult n b r read);
  cancels = λ now id. tt;
  registers = λ env r. tt;
  beats = λ now id. tt;
  assigns = λ now id capabilities. tt;
  checks = λ now threshold. tt;
}
