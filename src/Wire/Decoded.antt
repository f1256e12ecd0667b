-- ===== src/Wire/Decoded.antt =====
-- What is true of every request that the server has decoded.
use golang_assignment.Prelude.{Option, ◌≡◌, ap, String, if_keeps, arith, ℕ}
use golang_assignment.Prelude.Result.{
  Result, ok, map_ok, Ensures, map_ok-Ensures, and_then-Ensures, trivial-Ensures, Ensures-ok,
}
use golang_assignment.Model.Dto.{CreateJobRequest, JobResultRequest}
use golang_assignment.Model.Status.{job_type, type_text, type_text-job_type}
use golang_assignment.Api.Http.{DecodesInt64, json_reader, read_json-ok, max_body_size}
use golang_assignment.Wire.{
  Json, Members, Notation, FitsInt, same_key, decode_members, decode_struct,
}
use golang_assignment.Wire.Accepted.{limited-ok}
use golang_assignment.Wire.Body.{Body, Text, limited, has_more, wire_decoder}
use golang_assignment.Wire.Payloads.{decode_payload}
use golang_assignment.Wire.PlainRequests.{
  IsPlainPayload, decode_int-FitsInt, decode_payload-IsPlainPayload,
}
use golang_assignment.Wire.Requests.{
  set_create_job, set_job_result, decode_create_job, decode_job_result,
}

-- a type that is the constant of its text, numbers of 64 bits, and a plain map
pub record IsDecodedJob (r : CreateJobRequest) : Type 0 where
  pub type : job_type (type_text r.type) ≡ r.type
  pub payload : IsPlainPayload r.payload
  pub timeout_seconds : FitsInt r.timeout_seconds
  pub max_retries : FitsInt r.max_retries

abbrev pub IsDecodedResult : JobResultRequest → Type 0
IsDecodedResult r = IsPlainPayload r.result

-- What the setters of a struct keep, the decoder gives.
module _ {A : Type 0} (n : Notation) (P : A → Type 0) (set : String → Json → A → Result A)
    (keeps : (key : String) (j : Json) (a : A) → P a → Ensures P (set key j a)) where
  decode_members-Ensures : (m : Members) (a : A) → P a → Ensures P (decode_members set m a)
  unfolding decode_members
  decode_members-Ensures Members.end a h = h
  decode_members-Ensures (Members.member key j rest) a h =
      and_then-Ensures P (λ b. decode_members set rest b) (set key j a)
        (λ b kept. decode_members-Ensures rest b kept) (keeps key j a h)

  decode_struct-Ensures : (j : Json) (a : A) → P a → Ensures P (decode_struct n set j a)
  unfolding decode_struct
  decode_struct-Ensures Json.null a h = h
  decode_struct-Ensures (Json.obj m) a h = decode_members-Ensures m a h
  decode_struct-Ensures (Json.bool b) a h = tt
  decode_struct-Ensures (Json.number l) a h = tt
  decode_struct-Ensures (Json.str s) a h = tt
  decode_struct-Ensures (Json.arr items) a h = tt

-- A field that the predicate does not read.
other_field :
    {A B : Type 0} (P : B → Type 0) (f : A → B) (r : Result A)
    → ((a : A) → P (f a))
    → Ensures P (map_ok f r)
other_field P f r h = map_ok-Ensures P f r (λ a _. h a) (trivial-Ensures r)

module _ (n : Notation) where
  set_create_job-IsDecodedJob :
      (key : String) (j : Json) (r : CreateJobRequest)
      → IsDecodedJob r
      → Ensures IsDecodedJob (set_create_job n key j r)
  unfolding set_create_job
  set_create_job-IsDecodedJob key j r h =
      if_keeps (Ensures IsDecodedJob) (same_key "name" key)
        (other_field IsDecodedJob _ _ (λ v. record {
          type = h.type;
          payload = h.payload;
          timeout_seconds = h.timeout_seconds;
          max_retries = h.max_retries;
        }))
        (if_keeps (Ensures IsDecodedJob) (same_key "type" key)
          (other_field IsDecodedJob _ _ (λ v. record {
            type = ap job_type (type_text-job_type v);
            payload = h.payload;
            timeout_seconds = h.timeout_seconds;
            max_retries = h.max_retries;
          }))
          (if_keeps (Ensures IsDecodedJob) (same_key "payload" key)
            (map_ok-Ensures IsDecodedJob _ _
              (λ v plain. record {
                type = h.type;
                payload = plain;
                timeout_seconds = h.timeout_seconds;
                max_retries = h.max_retries;
              })
              (decode_payload-IsPlainPayload n "payload" j r.payload h.payload))
            (if_keeps (Ensures IsDecodedJob) (same_key "timeout_seconds" key)
              (map_ok-Ensures IsDecodedJob _ _
                (λ v fits. record {
                  type = h.type;
                  payload = h.payload;
                  timeout_seconds = fits;
                  max_retries = h.max_retries;
                })
                (decode_int-FitsInt n "timeout_seconds" j r.timeout_seconds h.timeout_seconds))
              (if_keeps (Ensures IsDecodedJob) (same_key "max_retries" key)
                (map_ok-Ensures IsDecodedJob _ _
                  (λ v fits. record {
                    type = h.type;
                    payload = h.payload;
                    timeout_seconds = h.timeout_seconds;
                    max_retries = fits;
                  })
                  (decode_int-FitsInt n "max_retries" j r.max_retries h.max_retries))
                tt))))

  set_job_result-IsDecodedResult :
      (key : String) (j : Json) (r : JobResultRequest)
      → IsDecodedResult r
      → Ensures IsDecodedResult (set_job_result n key j r)
  unfolding set_job_result
  set_job_result-IsDecodedResult key j r h =
      if_keeps (Ensures IsDecodedResult) (same_key "status" key)
        (other_field IsDecodedResult _ _ (λ v. h))
        (if_keeps (Ensures IsDecodedResult) (same_key "logs" key)
          (other_field IsDecodedResult _ _ (λ v. h))
          (if_keeps (Ensures IsDecodedResult) (same_key "result" key)
            (map_ok-Ensures {P = IsPlainPayload} IsDecodedResult (λ v. record r { result = v })
              (decode_payload n "result" j r.result) (λ v plain. plain)
              (decode_payload-IsPlainPayload n "result" j r.result h))
            (if_keeps (Ensures IsDecodedResult) (same_key "error" key)
              (other_field IsDecodedResult _ _ (λ v. h)) tt)))

  decode_create_job-IsDecodedJob : (j : Json) → Ensures IsDecodedJob (decode_create_job n j)
  unfolding decode_create_job job_type
  decode_create_job-IsDecodedJob j =
      decode_struct-Ensures n IsDecodedJob (set_create_job n) set_create_job-IsDecodedJob j _
        (record {
          type = ap job_type (type_text-job_type "");
          payload = tt;
          timeout_seconds = omega arith;
          max_retries = omega arith;
        })

  decode_job_result-IsDecodedResult : (j : Json) → Ensures IsDecodedResult (decode_job_result n j)
  unfolding decode_job_result
  decode_job_result-IsDecodedResult j =
      decode_struct-Ensures n IsDecodedResult (set_job_result n) set_job_result-IsDecodedResult j _
        tt

-- What the decoder gives for each value, it gives for each body.
limited-Ensures :
    {A : Type 0} (P : A → Type 0) (decode : Json → Result A)
    (every : (j : Json) → Ensures P (decode j)) (limit : ℕ) (body : Body) (a : A)
    (rest : Option Text)
    → limited decode limit body ≡ ok (a, rest)
    → P a
limited-Ensures P decode every limit body a rest e =
    let (j, later, text, decoded, within, seen) = limited-ok decode limit body a rest e in
    Ensures-ok P (decode j) a (every j) decoded

module _ (n : Notation) where
  pub read_create_job-IsDecodedJob :
      (body : Body) (r : CreateJobRequest)
      → (json_reader (wire_decoder n)).read_create_job body ≡ ok r
      → IsDecodedJob r
  read_create_job-IsDecodedJob body r e =
      let (rest, decoded, done) = read_json-ok has_more (limited (decode_create_job n)) body r e in
      limited-Ensures IsDecodedJob (decode_create_job n) (decode_create_job-IsDecodedJob n)
        max_body_size body r rest decoded

  pub read_job_result-IsDecodedResult :
      (body : Body) (r : JobResultRequest)
      → (json_reader (wire_decoder n)).read_job_result body ≡ ok r
      → IsDecodedResult r
  read_job_result-IsDecodedResult body r e =
      let (rest, decoded, done) = read_json-ok has_more (limited (decode_job_result n)) body r e in
      limited-Ensures IsDecodedResult (decode_job_result n) (decode_job_result-IsDecodedResult n)
        max_body_size body r rest decoded

  -- A decoded `int` fits its 64 bits, as the server assumes of its decoder.
  pub wire_decoder-DecodesInt64 : DecodesInt64 (wire_decoder n)
  wire_decoder-DecodesInt64 = record {
    retries = λ limit b r rest e.
        (limited-Ensures IsDecodedJob (decode_create_job n) (decode_create_job-IsDecodedJob n) limit
          b r rest e).max_retries.0;
  }
