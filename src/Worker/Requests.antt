-- ===== src/Worker/Requests.antt =====
-- internal/agent/client.go: the calls of an agent over a network that takes a request to the server
-- and brings back the status and the body of its response, or an error.
use golang_assignment.Prelude.{
  ℕ, String, not, Option, none, some, List, [], ◌∷◌, ◌==◌, if◌then◌else◌, nat_eq,
}
use golang_assignment.Prelude.Int.{pos}
use golang_assignment.Prelude.Result.{Result, ok, err}
use golang_assignment.GoText.{concat, decimal}
use golang_assignment.GoUrl.{Url, parse_url, any_rune, is_bad_header}
use golang_assignment.Model.Dto.{RegisterAgentRequest, JobResultRequest}
use golang_assignment.Model.Entity.{Job, Agent}
use golang_assignment.Model.Status.{status_text}
use golang_assignment.Executor.{ExecutionResult}

-- what the client marshals into a request's body
pub data ClientBody : Type 0 where
  nothing : ClientBody
  registration : RegisterAgentRequest → ClientBody
  capabilities : List String → ClientBody
  outcome : JobResultRequest → ClientBody

pub record ClientRequest : Type 0 where
  pub method : String
  pub url : Url
  pub authorization : String
  pub body : ClientBody

-- the network, the server behind it, and `encoding/json` at the types of the responses; `unescape` decodes
-- the percent sequences of a URL
pub record Network : Type 1 where
  pub World : Type 0
  pub unescape : String → Result String
  pub Answer : Type 0
  pub send : ClientRequest → World → Result (ℕ × Answer) × World
  pub decode_agent : Answer → Result Agent
  pub decode_job : Answer → Result Job

-- the timeout of its `http.Client` is the network's
pub record Client : Type 0 where
  pub server_url : String
  pub agent_id : String
  pub auth_token : String

-- an error that says the status
abbrev pub failed_status : String → ℕ → String
failed_status what status = concat (what ∷ " failed: status " ∷ decimal (pos status) ∷ [])

-- the header of a client, "" if it sends none
abbrev pub authorization_of : Client → String
authorization_of c = if c.auth_token == "" then "" else concat ("Bearer " ∷ c.auth_token ∷ [])

-- the request of `doRequest`
unfoldable pub request_of : Client → String → Url → ClientBody → ClientRequest
request_of c method url body = record {
  method = method;
  url = url;
  authorization = authorization_of c;
  body = body;
}

abbrev pub result_request : ExecutionResult → JobResultRequest
result_request result = record {
  status = status_text result.status;
  logs = result.logs;
  result = result.result;
  error = result.error;
}

module _ (net : Network) where
  -- what follows `http.NewRequest`: `Do` refuses a bad header, and sends
  unfoldable pub send_to :
      Client → String → ClientBody → Result Url → net.World → Result (ℕ × net.Answer) × net.World
  send_to c method body (err e) w = (err e, w)
  send_to c method body (ok url) w =
      if any_rune is_bad_header (authorization_of c)
      then (err "net/http: invalid header field value for \"Authorization\"", w)
      else net.send (request_of c method url body) w

  unfoldable pub do_request :
      Client → String → String → ClientBody → net.World → Result (ℕ × net.Answer) × net.World
  do_request c method path body w =
      send_to c method body (parse_url net.unescape (concat (c.server_url ∷ path ∷ []))) w

  unfoldable pub after_register : Result (ℕ × net.Answer) × net.World → Result Agent × net.World
  after_register (err e, w) = (err (concat ("register request failed: " ∷ e ∷ [])), w)
  after_register (ok (status, answer), w) =
      if not (nat_eq status 201)
      then (err (failed_status "register" status), w)
      else elim (net.decode_agent answer) [
        | err e ↦ (err (concat ("decode register response: " ∷ e ∷ [])), w)
        | ok agent ↦ (ok agent, w)
      ]

  unfoldable pub send_registration :
      Client → RegisterAgentRequest → net.World → Result Agent × net.World
  unfolding after_register
  send_registration c req w =
      after_register (do_request c "POST" "/agents/register" (registration req) w)

  -- `Heartbeat` and `SubmitResult` look only at the status
  unfoldable pub after_post :
      String → String → Result (ℕ × net.Answer) × net.World → Result (Unit {0}) × net.World
  after_post sent what (err e, w) = (err (concat (sent ∷ " request failed: " ∷ e ∷ [])), w)
  after_post sent what (ok (status, answer), w) =
      if not (nat_eq status 200) then (err (failed_status what status), w) else (ok tt, w)

  unfoldable pub send_heartbeat : Client → net.World → Result (Unit {0}) × net.World
  unfolding after_post
  send_heartbeat c w =
      after_post "heartbeat" "heartbeat"
        (do_request c "POST" (concat ("/agents/" ∷ c.agent_id ∷ "/heartbeat" ∷ [])) nothing w)

  unfoldable pub after_poll : Result (ℕ × net.Answer) × net.World → Result (Option Job) × net.World
  after_poll (err e, w) = (err (concat ("poll request failed: " ∷ e ∷ [])), w)
  after_poll (ok (status, answer), w) =
      if nat_eq status 204
      then (ok none, w)
      else if not (nat_eq status 200)
      then (err (failed_status "poll" status), w)
      else elim (net.decode_job answer) [
        | err e ↦ (err (concat ("decode poll response: " ∷ e ∷ [])), w)
        | ok job ↦ (ok (some job), w)
      ]

  unfoldable pub poll_next_job : Client → List String → net.World → Result (Option Job) × net.World
  unfolding after_poll
  poll_next_job c wanted w = after_poll (
      do_request c "POST" (concat ("/agents/" ∷ c.agent_id ∷ "/next-job" ∷ []))
        (capabilities wanted) w)

  unfoldable pub submit_result :
      Client → String → ExecutionResult → net.World → Result (Unit {0}) × net.World
  unfolding after_post
  submit_result c job_id result w = after_post "submit result" "submit result" (
      do_request c "POST" (concat ("/jobs/" ∷ job_id ∷ "/result" ∷ []))
        (outcome (result_request result)) w)
