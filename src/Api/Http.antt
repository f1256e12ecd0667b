-- ===== src/Api/Http.antt =====
-- What the handlers see of a request and leave as a response; internal/api/helpers.go.
-- A handler's writes are one response: a status and a body. JSON values are not flattened to bytes.
use golang_assignment.Prelude.{
  none, some, ◌==◌, inr, arith, ◌∷◌, ◌^◌, inl, ◌≤◌, Bool, false, [], ◌≡◌, ℕ, String, Option, List,
  if◌then◌else◌,
}
use golang_assignment.Prelude.Int.{max_int, pos_part}
use golang_assignment.Prelude.Result.{Result, ok, err, Result-cases}
use golang_assignment.GoText.{concat}
use golang_assignment.Model.Dto.{
  CreateJobRequest, RegisterAgentRequest, JobResultRequest, ErrorResponse, ListJobsResponse,
  ListAgentsResponse,
}
use golang_assignment.Model.Entity.{Time, Job, Agent}

-- what a handler reads of the clock, of `crypto/rand` and of the runtime; `stamp` is the time in
-- the layout 20060102150405, `random` the eight bytes, or `none` if `rand.Read` fails
pub record Env : Type 0 where
  pub now : Time
  pub random : Option (List ℕ)
  pub stamp : String
  pub go_version : String

-- what the handlers see of `readJSON`, at each type that they read
pub record Reader : Type 1 where
  pub Body : Type 0
  pub read_create_job : Body → Result CreateJobRequest
  pub read_register_agent : Body → Result RegisterAgentRequest
  pub read_job_result : Body → Result JobResultRequest
  pub read_capabilities : Body → Result (List String)

-- a `json.Decoder` that disallows unknown fields, on a body behind a `MaxBytesReader` of a given size:
-- what `Decode` makes of the body, what is left then, and `More`
pub record Decoder : Type 1 where
  pub Body : Type 0
  pub Rest : Type 0
  pub decode_create_job : ℕ → Body → Result (CreateJobRequest × Rest)
  pub decode_register_agent : ℕ → Body → Result (RegisterAgentRequest × Rest)
  pub decode_job_result : ℕ → Body → Result (JobResultRequest × Rest)
  pub decode_capabilities : ℕ → Body → Result (List String × Rest)
  pub more : Rest → Bool

abbrev pub max_body_size : ℕ
max_body_size = 2 ^ 20

unfoldable pub read_json :
    {Body A Rest : Type 0} → (Rest → Bool) → (ℕ → Body → Result (A × Rest)) → Body → Result A
read_json more decode body = elim (decode max_body_size body) [
  | err e ↦ err (concat ("invalid JSON: " ∷ e ∷ []))
  | ok (a, rest) ↦ if more rest then err "request body must contain a single JSON object" else ok a
]

abbrev pub json_reader : Decoder → Reader
json_reader d = record {
  Body = d.Body;
  read_create_job = read_json d.more d.decode_create_job;
  read_register_agent = read_json d.more d.decode_register_agent;
  read_job_result = read_json d.more d.decode_job_result;
  read_capabilities = read_json d.more d.decode_capabilities;
}

-- a decoded `int` fits its 64 bits
pub record IsInRange (reader : Reader) : Type 0 where
  pub retries :
      (b : reader.Body) (r : CreateJobRequest)
      → reader.read_create_job b ≡ ok r
      → pos_part r.max_retries ≤ max_int

pub record DecodesInt64 (d : Decoder) : Type 0 where
  pub retries :
      (limit : ℕ) (b : d.Body) (r : CreateJobRequest) (rest : d.Rest)
      → d.decode_create_job limit b ≡ ok (r, rest)
      → pos_part r.max_retries ≤ max_int

-- What `readJSON` accepts is what the decoder has decoded.
pub read_json-ok :
    {Body A Rest : Type 0} (more : Rest → Bool) (decode : ℕ → Body → Result (A × Rest))
    (body : Body) (a : A)
    → read_json more decode body ≡ ok a
    → (rest : Rest) × (decode max_body_size body ≡ ok (a, rest)) × (more rest ≡ false)
unfolding read_json
read_json-ok more decode body a read = elim (Result-cases (decode max_body_size body)) [
  | inl ((b, rest), decoded) ↦ (rest, ground arith, ground arith)
  | inr (e, failed) ↦ ground arith
]

pub json_reader-IsInRange : (d : Decoder) → DecodesInt64 d → IsInRange (json_reader d)
json_reader-IsInRange d fits = record { retries = within }
  where
    within :
        (b : d.Body) (r : CreateJobRequest)
        → read_json d.more d.decode_create_job b ≡ ok r
        → pos_part r.max_retries ≤ max_int
    within b r read =
        let (rest, decoded, done) = read_json-ok d.more d.decode_create_job b r read in
        fits.retries max_body_size b r rest decoded

pub data ResponseBody : Type 0 where
  empty : ResponseBody
  plain : String → ResponseBody
  error : ErrorResponse → ResponseBody
  fields : List (String × String) → ResponseBody
  job : Job → ResponseBody
  jobs : ListJobsResponse → ResponseBody
  agent : Agent → ResponseBody
  agents : ListAgentsResponse → ResponseBody

pub record Response : Type 0 where
  pub status : ℕ
  pub body : ResponseBody

abbrev pub write_json : ℕ → ResponseBody → Response
write_json code body = record { status = code; body = body }

abbrev pub write_error : ℕ → String → String → Response
write_error code message details =
    write_json code (error (record { error = message; code = code; details = details }))

-- requireMethod: nothing if the method is the one wanted; no route calls it
unfoldable pub require_method : String → String → Option Response
require_method wanted method =
    if method == wanted
    then none
    else some (write_error 405 "method not allowed" (concat ("expected " ∷ wanted ∷ [])))
