-- ===== src/Wire/Body.antt =====
-- Bodies as streams of JSON values: the decoder of the server (internal/api/helpers.go) and that of the
-- agent (internal/agent/client.go) on them, what the agent marshals, and what `writeJSON` encodes.
use golang_assignment.Prelude.{
  ℕ, ◌+◌, Option, none, some, String, Bool, not, true, false, List, [], ◌∷◌, ◌==◌, if◌then◌else◌,
  ltb,
}
use golang_assignment.Prelude.Result.{Result, err, map_ok}
use golang_assignment.Model.Dto.{ErrorResponse, ListJobsResponse, ListAgentsResponse}
use golang_assignment.Model.Entity.{Job, Agent}
use golang_assignment.Api.Http.{Decoder, ResponseBody}
use golang_assignment.Worker.Requests.{ClientBody}
use golang_assignment.Wire.{Literal, Json, Items, Members, Notation, omit_if}
use golang_assignment.Wire.Entities.{encode_job, encode_agent, decode_job, decode_agent}
use golang_assignment.Wire.Requests.{
  decode_create_job, decode_register_agent, decode_job_result, decode_capabilities,
  encode_register_agent, encode_job_result, encode_capabilities,
}

-- A text as a decoder reads it: values, then its end, or something that is no JSON, with the error
-- that it gives; the flag says whether that begins with a closing bracket.
pub data Text : Type 0 where
  finished : Text
  value : Json → Text → Text
  broken : Bool → String → Text

-- A text, the bytes that a decoder takes to see the end of its first value, and those that it takes from
-- there, over spaces, to see what follows.
pub record Body : Type 0 where
  pub size : ℕ
  pub gap : ℕ
  pub text : Text

-- `Decode`: the first value
unfoldable pub first_value {ℓ} : {A : Type ℓ} → (Json → Result A) → Text → Result (A × Text)
first_value decode finished = err "EOF"
first_value decode (broken closing e) = err e
first_value decode (value j rest) = map_ok (λ a. (a, rest)) (decode j)

-- what follows the first value, unless a `MaxBytesReader` fails before that
abbrev pub within_limit : ℕ → Body → Text → Option Text
within_limit limit body rest = if ltb limit (body.size + body.gap) then none else some rest

-- `Decode` behind a `MaxBytesReader`
unfoldable pub limited {ℓ} : {A : Type ℓ} → (Json → Result A) → ℕ → Body → Result (A × Option Text)
unfolding first_value
limited decode limit body =
    if ltb limit body.size
    then err "http: request body too large"
    else map_ok (λ p. (p.0, within_limit limit body p.1)) (first_value decode body.text)

-- `More`: neither the end of the text nor a closing bracket is next, nor does reading fail
unfoldable pub has_more : Option Text → Bool
has_more none = false
has_more (some finished) = false
has_more (some (value j rest)) = true
has_more (some (broken closing e)) = not closing

module _ (n : Notation) where
  abbrev pub wire_decoder : Decoder
  wire_decoder = record {
    Body = Body;
    Rest = Option Text;
    decode_create_job = limited (decode_create_job n);
    decode_register_agent = limited (decode_register_agent n);
    decode_job_result = limited (decode_job_result n);
    decode_capabilities = limited (decode_capabilities n);
    more = has_more;
  }

  abbrev one_value : Json → Body
  one_value j = record { size = n.size j; gap = 0; text = value j finished }

  -- the body of a request of the agent
  unfoldable pub marshal : ClientBody → Body
  marshal ClientBody.nothing = record { size = 0; gap = 0; text = finished }
  marshal (ClientBody.registration r) = one_value (encode_register_agent n r)
  marshal (ClientBody.capabilities l) = one_value (encode_capabilities n l)
  marshal (ClientBody.outcome r) = one_value (encode_job_result n r)

  -- map[string]string
  abbrev encode_texts : List (String × String) → Members
  encode_texts [] = Members.end
  encode_texts ((key, s) ∷ rest) = Members.member key (Json.str s) (encode_texts rest)

  abbrev encode_jobs : List Job → Items
  encode_jobs [] = Items.nil
  encode_jobs (j ∷ js) = Items.cons (encode_job n j) (encode_jobs js)

  abbrev encode_agents : List Agent → Items
  encode_agents [] = Items.nil
  encode_agents (a ∷ rest) = Items.cons (encode_agent n a) (encode_agents rest)

  unfoldable pub encode_error : ErrorResponse → Json
  encode_error e = Json.obj (
      Members.member "error" (Json.str e.error) (
        Members.member "code" (Json.number (Literal.integer false e.code))
          (omit_if (e.details == "") "details" (Json.str e.details) Members.end)))

  unfoldable pub encode_job_list : ListJobsResponse → Json
  encode_job_list r = Json.obj (
      Members.member "jobs" (Json.arr (encode_jobs r.jobs))
        (Members.member "total" (Json.number (Literal.integer false r.total)) Members.end))

  unfoldable pub encode_agent_list : ListAgentsResponse → Json
  encode_agent_list r = Json.obj (
      Members.member "agents" (Json.arr (encode_agents r.agents))
        (Members.member "total" (Json.number (Literal.integer false r.total)) Members.end))

  -- the body of a response; a plain text, which the agent never decodes, is no JSON
  unfoldable pub written : ResponseBody → Text
  unfolding encode_error encode_job_list encode_agent_list
  written ResponseBody.empty = finished
  written (ResponseBody.plain s) = broken false s
  written (ResponseBody.error e) = value (encode_error e) finished
  written (ResponseBody.fields l) = value (Json.obj (encode_texts l)) finished
  written (ResponseBody.job j) = value (encode_job n j) finished
  written (ResponseBody.jobs l) = value (encode_job_list l) finished
  written (ResponseBody.agent a) = value (encode_agent n a) finished
  written (ResponseBody.agents l) = value (encode_agent_list l) finished

  -- what the agent decodes of a response
  unfoldable pub read_agent : ResponseBody → Result Agent
  unfolding written first_value
  read_agent body = map_ok (λ p. p.0) (first_value (decode_agent n) (written body))

  unfoldable pub read_job : ResponseBody → Result Job
  unfolding written first_value
  read_job body = map_ok (λ p. p.0) (first_value (decode_job n) (written body))
