-- ===== src/Command/Readable.antt =====
-- The agent reads each job of the server's process as it is stored.
use golang_assignment.Prelude.{◌≡◌, refl, sym, ap, ◌∙◌, String, Option, none, some, List, [], ◌∷◌}
use golang_assignment.Prelude.Result.{ok}
use golang_assignment.GoMap.{lookup}
use golang_assignment.Model.Entity.{Job}
use golang_assignment.Model.Value.{Payload}
use golang_assignment.Store.Memory.{MemoryStore, new_memory_store}
use golang_assignment.Api.Http.{json_reader}
use golang_assignment.Api.Server.Calls.{AnyEnv}
use golang_assignment.Api.Server.Runs.{AnyEnv-IsUsual, after_events-IsCallsOf}
use golang_assignment.Wire.{Notation, IsLossless}
use golang_assignment.Wire.Body.{wire_decoder}
use golang_assignment.Wire.Entities.{decode_job, encode_job}
use golang_assignment.Wire.EntityTrips.{decode_job-encode_job}
use golang_assignment.Wire.Payloads.{fields_of, entries, received_payload, received_if_any}
use golang_assignment.Wire.Plain.{received_fields-plain}
use golang_assignment.Wire.PlainRequests.{IsPlainPayload}
use golang_assignment.Wire.Stored.{
  plain-IsWritableJob, IsPlainJob, IsPlainOp, plain_calls, run-IsPlainJob,
}
use golang_assignment.Command.Jobs.{launched-IsServed}
use golang_assignment.Command.Server.{Event, main, settings_of}

entries-fields_of : (p : Payload) → entries (fields_of p) ≡ p
entries-fields_of [] = refl
entries-fields_of ((key, v) ∷ p) = ap (λ rest. (key, v) ∷ rest) (entries-fields_of p)

received_payload-plain :
    (n : Notation) (p : Option Payload) → IsPlainPayload p → received_payload n p ≡ p
unfolding received_payload
received_payload-plain n none h = refl
received_payload-plain n (some p) h =
    ap (λ fields. some (entries fields)) (received_fields-plain n (fields_of p) h)
    ∙ ap some (entries-fields_of p)

-- `omitempty` does not tell an empty map from none.
abbrev pub without_empty : Option Payload → Option Payload
without_empty (some []) = none
without_empty p = p

received_if_any-plain :
    (n : Notation) (p : Option Payload) → IsPlainPayload p → received_if_any n p ≡ without_empty p
unfolding received_if_any
received_if_any-plain n none h = refl
received_if_any-plain n (some []) h = refl
received_if_any-plain n (some (entry ∷ p)) h = received_payload-plain n (some (entry ∷ p)) h

plain_is_read :
    (n : Notation) (j : Job)
    → IsLossless n
    → IsPlainJob j
    → decode_job n (encode_job n j) ≡ ok (record j { result = without_empty j.result })
plain_is_read n j lossless h =
    decode_job-encode_job n lossless j (plain-IsWritableJob j h)
    ∙ rw (received_payload-plain n j.payload h.payload, received_if_any-plain n j.result h.result)
        refl

-- Whatever the arguments of the server's process, and whatever has happened to it: the agent's client
-- decodes of the JSON of a stored job this job, as it is stored, but for a result that is an empty map,
-- which is none then. It is assumed that a `float64`, an `int` and a time are read as they were printed.
pub main_jobs_readable :
    (n : Notation) (arguments : List String) (events : List (Event (json_reader (wire_decoder n))))
    (k : String) (j : Job)
    → IsLossless n
    → lookup k (main (json_reader (wire_decoder n)) arguments events).store.jobs ≡ some j
    → decode_job n (encode_job n j) ≡ ok (record j { result = without_empty j.result })
unfolding main
main_jobs_readable n arguments events k j lossless stored =
    let reader = json_reader (wire_decoder n) in
    let (token, s) = launched-IsServed reader (settings_of arguments) events in
    let c =
      after_events-IsCallsOf reader AnyEnv IsPlainOp (plain_calls n) token s.events new_memory_store
        (AnyEnv-IsUsual s.events) in
    plain_is_read n j lossless (
      run-IsPlainJob c.calls k j c.allowed
        (ap (λ (m : MemoryStore). lookup k m.jobs) (sym (s.reached ∙ c.reached)) ∙ stored))
