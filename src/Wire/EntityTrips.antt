-- ===== src/Wire/EntityTrips.antt =====
-- The agent reads of an entity what the server has written.
use golang_assignment.Prelude.{
  ◌≡◌, refl, ◌∙◌, String, Option, none, some, List, [], ◌∷◌, ◌==◌, not, is_some, arith, eq_iff,
}
use golang_assignment.Prelude.Result.{ok}
use golang_assignment.Model.Entity.{Time, Job, zero_job}
use golang_assignment.Model.Status.{job_type, type_text, job_status, status_text}
use golang_assignment.Model.Value.{Payload}
use golang_assignment.Wire.{
  Json, Members, Notation, IsLossless, FitsInt, omit_if, same_key, decode_string, decode_struct,
  decode_members, decode_time, decode_time_pointer, encode_strings, decode_strings-encode_strings,
  decode_int-literal_of,
}
use golang_assignment.Wire.Entities.{
  set_job, decode_job, encode_job, encode_time_pointer, is_nil, outcome_members,
}
use golang_assignment.Wire.Payloads.{
  IsWritablePayload, received_payload, received_if_any, is_empty, encode_payload,
  decode_payload-encode_payload,
}

-- a job that JSON can carry: its texts are those of its type and its status, its numbers fit 64 bits
pub record IsWritableJob (j : Job) : Type 0 where
  pub type : job_type (type_text j.type) ≡ j.type
  pub status : job_status (status_text j.status) ≡ j.status
  pub payload : IsWritablePayload j.payload
  pub result : IsWritablePayload j.result
  pub attempt_count : FitsInt j.attempt_count
  pub max_retries : FitsInt j.max_retries
  pub timeout_seconds : FitsInt j.timeout_seconds

-- a job as the agent reads it
abbrev pub received_job : Notation → Job → Job
received_job n j = record j {
  payload = received_payload n j.payload;
  result = received_if_any n j.result;
}

module _ (n : Notation) (lossless : IsLossless n) where
  decode_agent_id :
      (id : String) (rest : Members) (r : Job)
      → r.assigned_agent_id ≡ ""
      → decode_members (set_job n) (omit_if (id == "") "assigned_agent_id" (Json.str id) rest) r
        ≡ decode_members (set_job n) rest (record r { assigned_agent_id = id })
  unfolding decode_members set_job same_key decode_string
  decode_agent_id id rest r unset = ground (arith, eq_iff id "")

  decode_error :
      (e : String) (rest : Members) (r : Job)
      → r.error ≡ ""
      → decode_members (set_job n) (omit_if (e == "") "error" (Json.str e) rest) r
        ≡ decode_members (set_job n) rest (record r { error = e })
  unfolding decode_members set_job same_key decode_string
  decode_error e rest r unset = ground (arith, eq_iff e "")

  decode_started :
      (t : Option Time) (rest : Members) (r : Job)
      → r.started_at ≡ none
      → decode_members
          (set_job n)
          (omit_if (not (is_some t)) "started_at" (encode_time_pointer n t) rest)
          r
        ≡ decode_members (set_job n) rest (record r { started_at = t })
  unfolding decode_members set_job same_key decode_time_pointer
  decode_started none rest r unset = ground arith
  decode_started (some t) rest r unset = rw (lossless.times t) refl

  decode_finished :
      (t : Option Time) (rest : Members) (r : Job)
      → r.finished_at ≡ none
      → decode_members
          (set_job n)
          (omit_if (not (is_some t)) "finished_at" (encode_time_pointer n t) rest)
          r
        ≡ decode_members (set_job n) rest (record r { finished_at = t })
  unfolding decode_members set_job same_key decode_time_pointer
  decode_finished none rest r unset = ground arith
  decode_finished (some t) rest r unset = rw (lossless.times t) refl

  decode_logs :
      (l : List String) (rest : Members) (r : Job)
      → r.logs ≡ []
      → decode_members (set_job n) (omit_if (is_nil l) "logs" (Json.arr (encode_strings l)) rest) r
        ≡ decode_members (set_job n) rest (record r { logs = l })
  unfolding decode_members set_job same_key
  decode_logs [] rest r unset = ground arith
  decode_logs (s ∷ ss) rest r unset =
      rw (decode_strings-encode_strings n "logs" (s ∷ ss) r.logs) refl

  decode_result :
      (p : Option Payload) (rest : Members) (r : Job)
      → IsWritablePayload p
      → r.result ≡ none
      → decode_members (set_job n) (omit_if (is_empty p) "result" (encode_payload n p) rest) r
        ≡ decode_members (set_job n) rest (record r { result = received_if_any n p })
  unfolding decode_members set_job same_key received_if_any
  decode_result none rest r h unset = ground arith
  decode_result (some []) rest r h unset = ground arith
  decode_result (some (entry ∷ p)) rest r h unset =
      rw (unset, decode_payload-encode_payload n lossless "result" (some (entry ∷ p)) h) refl

  decode_outcome :
      (j r : Job)
      → IsWritableJob j
      → r.logs ≡ []
      → r.error ≡ ""
      → r.result ≡ none
      → decode_members (set_job n) (outcome_members n j) r
        ≡ ok (record r {
          attempt_count = j.attempt_count;
          max_retries = j.max_retries;
          timeout_seconds = j.timeout_seconds;
          logs = j.logs;
          error = j.error;
          result = received_if_any n j.result;
        })
  unfolding decode_members set_job same_key
  decode_outcome j r h no_logs no_error no_result =
      let r1 : Job = record r {
        attempt_count = j.attempt_count;
        max_retries = j.max_retries;
        timeout_seconds = j.timeout_seconds;
      } in
      let r2 : Job = record r1 { logs = j.logs } in
      let r3 : Job = record r2 { error = j.error } in
      let last = omit_if (is_empty j.result) "result" (encode_payload n j.result) Members.end in
      rw
        (
          decode_int-literal_of n "attempt_count" j.attempt_count r.attempt_count h.attempt_count,
          decode_int-literal_of n "max_retries" j.max_retries r.max_retries h.max_retries,
          decode_int-literal_of n "timeout_seconds" j.timeout_seconds r.timeout_seconds
              h.timeout_seconds,
        )
        (decode_logs j.logs (omit_if (j.error == "") "error" (Json.str j.error) last) r1 no_logs
          ∙ decode_error j.error last r2 no_error
          ∙ decode_result j.result Members.end r3 h.result no_result)

  -- The agent decodes of a response the job that the server has written, but for its two maps, which are
  -- as JSON carries them: an `int` in them comes back as the nearest `float64`, and an empty result as
  -- none. It is assumed that a `float64`, an `int` in a map and a time are read as they were printed,
  -- that the job's type and status are the constants of their texts, that its numbers fit 64 bits, and
  -- that no object in its maps has a key twice.
  pub decode_job-encode_job :
      (j : Job) → IsWritableJob j → decode_job n (encode_job n j) ≡ ok (received_job n j)
  unfolding decode_job encode_job decode_struct decode_members set_job same_key decode_string
      decode_time
  decode_job-encode_job j h =
      let r1 : Job = record zero_job {
        id = j.id;
        name = j.name;
        type = j.type;
        payload = received_payload n j.payload;
        status = j.status;
      } in
      let r2 : Job = record r1 {
        assigned_agent_id = j.assigned_agent_id;
        created_at = j.created_at;
      } in
      let r3 : Job = record r2 { started_at = j.started_at } in
      let r4 : Job = record r3 { finished_at = j.finished_at } in
      let last = outcome_members n j in
      let fourth =
        omit_if (not (is_some j.finished_at)) "finished_at" (encode_time_pointer n j.finished_at)
          last in
      let third =
        omit_if (not (is_some j.started_at)) "started_at" (encode_time_pointer n j.started_at)
          fourth in
      let second = Members.member "created_at" (Json.str (n.print_time j.created_at)) third in
      rw (h.type, h.status, decode_payload-encode_payload n lossless "payload" j.payload h.payload)
        (decode_agent_id j.assigned_agent_id second r1 refl
          ∙ rw (lossless.times j.created_at) (
              decode_started j.started_at fourth r2 refl
              ∙ decode_finished j.finished_at last r3 refl
              ∙ decode_outcome j r4 h refl refl refl))
