-- ===== src/Wire/Portable.antt =====
-- Stores whose jobs JSON carries between the server and the agent.
use mathlib.Core.Path.{subst, sym}
use golang_assignment.Prelude.{String, ◌≡◌, ◌≢◌, Option, none, some, List, [], ◌∷◌, All}
use golang_assignment.Prelude.Result.{Ensures-ok}
use golang_assignment.GoMap.{lookup}
use golang_assignment.GoUrl.Plain.{IsPlainId}
use golang_assignment.Model.Dto.{CreateJobRequest}
use golang_assignment.Model.Entity.{Job}
use golang_assignment.Model.Value.{Payload}
use golang_assignment.Store.Memory.{new_memory_store, MemoryStore}
use golang_assignment.Store.Memory.Attempts.{none_stored, IsApiCall}
use golang_assignment.Store.Memory.Drain.{run-IsServed, apply-IsServed, IsServed}
use golang_assignment.Store.Memory.Kept.{run_keeps, apply_keeps}
use golang_assignment.Store.Memory.Lifecycle.{requeue, finish, replace, stop, start, Edge}
use golang_assignment.Store.Memory.Steps.{run, apply, create, Op}
use golang_assignment.Api.Http.{Env, json_reader, json_reader-IsInRange}
use golang_assignment.Api.Jobs.{new_job}
use golang_assignment.Api.Server.Calls.{AllowsServer, api_calls}
use golang_assignment.Api.Server.Ids.{generate_id-IsPlainId, HasPlainStamp}
use golang_assignment.Api.Server.Responses.{generate_id-ne-empty}
use golang_assignment.Api.Server.Runs.{Event, IsUsual, after_events, after_events-IsCallsOf}
use golang_assignment.Wire.{IsLossless, Notation}
use golang_assignment.Wire.Body.{wire_decoder}
use golang_assignment.Wire.Decoded.{wire_decoder-DecodesInt64}
use golang_assignment.Wire.Payloads.{
  decode_payload-encode_payload, encode_payload, decode_payload, received_payload,
  IsWritablePayload, received_if_any,
}
use golang_assignment.Wire.PlainRequests.{decode_payload-IsPlainPayload, IsPlainPayload}
use golang_assignment.Wire.Stored.{Edge-IsPlainJob, IsPlainOp, IsPlainJob, plain_calls}

-- a job that JSON carries, with an ID that stands in a path
pub record IsPortable (j : Job) : Type 0 where
  pub plain : IsPlainJob j
  pub segment : IsPlainId j.id
  pub named : j.id ≢ ""

abbrev pub HasPath : Op → Type 0
HasPath (create job) = IsPlainId job.id × (job.id ≢ "")
HasPath _ = Unit

-- a call of the API that brings only such jobs, and only results that came out of a decoder
abbrev pub IsPortableOp : Op → Type 0
IsPortableOp op = IsApiCall op × (IsPlainOp op × HasPath op)

-- No edge of the API changes the ID.
Edge-path :
    {op : Op} {k : String} {job job' : Job}
    → Edge op k job job'
    → IsApiCall op
    → IsPlainId job.id × (job.id ≢ "")
    → IsPlainId job'.id × (job'.id ≢ "")
Edge-path (start e) call h = h
Edge-path (stop e u) call h = h
Edge-path (requeue e bad left) call h = h
Edge-path (finish e final) call h = h
Edge-path (replace e) call h = absurd call

pub Edge-IsPortable :
    {op : Op} {k : String} {job job' : Job}
    → Edge op k job job'
    → IsPortableOp op
    → IsPortable job
    → IsPortable job'
Edge-IsPortable e allowed h =
    let path = Edge-path e allowed.0 (h.segment, h.named) in
    record { plain = Edge-IsPlainJob e allowed.1.0 h.plain; segment = path.0; named = path.1 }

created-IsPortable : (job : Job) → IsPortableOp (create job) → IsPortable job
created-IsPortable job (call, (plain, (segment, named))) = record {
  plain = plain;
  segment = segment;
  named = named;
}

pub record IsPortableStore (m : MemoryStore) : Type 0 where
  pub served : IsServed m
  pub jobs : (k : String) (j : Job) → lookup k m.jobs ≡ some j → IsPortable j

pub apply-IsPortableStore :
    (op : Op) (m : MemoryStore) → IsPortableOp op → IsPortableStore m → IsPortableStore (apply op m)
apply-IsPortableStore op m allowed h = record {
  served = apply-IsServed op m allowed.0 h.served;
  jobs =
      apply_keeps IsPortable IsPortableOp created-IsPortable
        (λ op k job job' edge. Edge-IsPortable edge) op m allowed h.jobs;
}

api_parts : (ops : List Op) → All IsPortableOp ops → All IsApiCall ops
api_parts [] h = tt
api_parts (op ∷ ops) (first, rest) = (first.0, api_parts ops rest)

pub run-IsPortableStore :
    (ops : List Op) → All IsPortableOp ops → IsPortableStore (run ops new_memory_store)
run-IsPortableStore ops allowed = record {
  served = run-IsServed ops (api_parts ops allowed);
  jobs =
      run_keeps IsPortable IsPortableOp created-IsPortable
        (λ op k job job' edge. Edge-IsPortable edge) ops new_memory_store allowed
        (λ k j stored. absurd (none_stored k j stored));
}

-- A map that a reader gets has come out of a decoder.
received_payload-IsPlainPayload :
    (n : Notation) (p : Option Payload)
    → IsLossless n
    → IsWritablePayload p
    → IsPlainPayload (received_payload n p)
received_payload-IsPlainPayload n p lossless h =
    Ensures-ok IsPlainPayload (decode_payload n "" (encode_payload n p) none) (received_payload n p)
      (decode_payload-IsPlainPayload n "" (encode_payload n p) none tt)
      (decode_payload-encode_payload n lossless "" p h)

pub received_if_any-IsPlainPayload :
    (n : Notation) (p : Option Payload)
    → IsLossless n
    → IsWritablePayload p
    → IsPlainPayload (received_if_any n p)
unfolding received_if_any
received_if_any-IsPlainPayload n none lossless h = tt
received_if_any-IsPlainPayload n (some []) lossless h = tt
received_if_any-IsPlainPayload n (some (entry ∷ p)) lossless h =
    received_payload-IsPlainPayload n (some (entry ∷ p)) lossless h

generated-HasPath :
    (env : Env) (r : CreateJobRequest) → HasPlainStamp env → HasPath (create (new_job env r))
unfolding new_job
generated-HasPath env r plain = (generate_id-IsPlainId env plain, generate_id-ne-empty env)

pub portable_calls :
    (n : Notation) → AllowsServer (json_reader (wire_decoder n)) HasPlainStamp IsPortableOp
portable_calls n =
    let reader = json_reader (wire_decoder n) in
    let api =
      api_calls reader (json_reader-IsInRange (wire_decoder n) (wire_decoder-DecodesInt64 n)) in
    let plain = plain_calls n in
    record {
      creates = λ env b r usual read valid. (
        api.creates env b r tt read valid,
        (plain.creates env b r tt read valid, generated-HasPath env r usual),
      );
      completes = λ now id b r read valid.
          (api.completes now id b r read valid, (plain.completes now id b r read valid, tt));
      cancels = λ now id. (tt, (tt, tt));
      registers = λ env r. (tt, (tt, tt));
      beats = λ now id. (tt, (tt, tt));
      assigns = λ now id capabilities. (tt, (tt, tt));
      checks = λ now threshold. (tt, (tt, tt));
    }

-- Whatever a server is sent after its start, its store is one.
pub after_events-IsPortableStore :
    (n : Notation) (token : String) (events : List (Event (json_reader (wire_decoder n))))
    → All (IsUsual HasPlainStamp) events
    → IsPortableStore (after_events (json_reader (wire_decoder n)) token events new_memory_store)
after_events-IsPortableStore n token events usual =
    let c =
      after_events-IsCallsOf (json_reader (wire_decoder n)) HasPlainStamp IsPortableOp
        (portable_calls n) token events new_memory_store usual in
    subst IsPortableStore (sym c.reached) (run-IsPortableStore c.calls c.allowed)
