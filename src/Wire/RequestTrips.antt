-- ===== src/Wire/RequestTrips.antt =====
-- The server reads of a request what the agent has written.
use golang_assignment.Prelude.{
  ◌∷◌, some, ◌∙◌, eq_iff, none, arith, ◌==◌, Option, [], String, ◌≡◌, refl, List,
}
use golang_assignment.Prelude.Result.{ok}
use golang_assignment.Model.Dto.{RegisterAgentRequest, JobResultRequest}
use golang_assignment.Model.Value.{Payload}
use golang_assignment.Wire.{
  Members, Json, omit_if, Notation, IsLossless, same_key, decode_string, decode_struct,
  decode_members, decode_strings-encode_strings,
}
use golang_assignment.Wire.Payloads.{
  decode_payload-encode_payload, encode_payload, is_empty, IsWritablePayload, received_if_any,
}
use golang_assignment.Wire.Requests.{
  set_register_agent, set_job_result, set_capabilities, decode_register_agent, decode_job_result,
  decode_capabilities, encode_register_agent, encode_job_result, encode_capabilities,
}

module _ (n : Notation) where
  pub decode_capabilities-encode_capabilities :
      (l : List String) → decode_capabilities n (encode_capabilities n l) ≡ ok l
  unfolding decode_capabilities encode_capabilities decode_struct decode_members set_capabilities
      same_key
  decode_capabilities-encode_capabilities l =
      rw (decode_strings-encode_strings n "capabilities" l []) refl

  pub decode_register_agent-encode_register_agent :
      (r : RegisterAgentRequest) → decode_register_agent n (encode_register_agent n r) ≡ ok r
  unfolding decode_register_agent encode_register_agent decode_struct decode_members
      set_register_agent same_key decode_string
  decode_register_agent-encode_register_agent r =
      rw (decode_strings-encode_strings n "capabilities" r.capabilities []) refl

-- a result as the server reads it
abbrev pub received_result : Notation → JobResultRequest → JobResultRequest
received_result n r = record r { result = received_if_any n r.result }

module _ (n : Notation) (lossless : IsLossless n) where
  decode_error :
      (e : String) (r : JobResultRequest)
      → r.error ≡ ""
      → decode_members (set_job_result n) (omit_if (e == "") "error" (Json.str e) Members.end) r
        ≡ ok (record r { error = e })
  unfolding decode_members set_job_result same_key decode_string
  decode_error e r unset = ground (arith, eq_iff e "")

  decode_map :
      (p : Option Payload) (rest : Members) (r : JobResultRequest)
      → IsWritablePayload p
      → r.result ≡ none
      → decode_members
          (set_job_result n)
          (omit_if (is_empty p) "result" (encode_payload n p) rest)
          r
        ≡ decode_members (set_job_result n) rest (record r { result = received_if_any n p })
  unfolding decode_members set_job_result same_key received_if_any
  decode_map none rest r h unset = ground arith
  decode_map (some []) rest r h unset = ground arith
  decode_map (some (entry ∷ p)) rest r h unset =
      rw (unset, decode_payload-encode_payload n lossless "result" (some (entry ∷ p)) h) refl

  -- The server decodes the result that the agent has marshaled, but for its map, in which an `int` comes
  -- back as the nearest `float64`, and which is none if it is empty. It is assumed that a `float64` and
  -- an `int` are read as they were printed, and that in the map no object has a key twice and each `int`
  -- fits 64 bits.
  pub decode_job_result-encode_job_result :
      (r : JobResultRequest)
      → IsWritablePayload r.result
      → decode_job_result n (encode_job_result n r) ≡ ok (received_result n r)
  unfolding decode_job_result encode_job_result decode_struct decode_members set_job_result same_key
      decode_string
  decode_job_result-encode_job_result r h = rw (decode_strings-encode_strings n "logs" r.logs []) (
      decode_map r.result (omit_if (r.error == "") "error" (Json.str r.error) Members.end)
        (record { status = r.status; logs = r.logs; result = none; error = "" }) h refl
      ∙ decode_error r.error
          (record {
            status = r.status;
            logs = r.logs;
            result = received_if_any n r.result;
            error = "";
          })
          refl)
