-- ===== src/Wire/Requests.antt =====
-- The requests of internal/model/dto.go, and the anonymous struct of handleNextJob in
-- internal/api/assignment.go, by their JSON tags: what internal/agent/client.go marshals of them, and what
-- `readJSON` makes of a JSON value.
use golang_assignment.Prelude.{String, none, List, [], ◌==◌, if◌then◌else◌}
use golang_assignment.Prelude.Int.{pos}
use golang_assignment.Prelude.Result.{Result, map_ok}
use golang_assignment.Model.Dto.{CreateJobRequest, RegisterAgentRequest, JobResultRequest}
use golang_assignment.Model.Status.{JobType, job_type, type_text}
use golang_assignment.Wire.{
  Json, Members, Notation, same_key, decode_string, decode_int, decode_strings, decode_struct,
  disallow_unknown, encode_strings, omit_if,
}
use golang_assignment.Wire.Payloads.{decode_payload, encode_payload, is_empty}

module _ (n : Notation) where
  -- the fields of CreateJobRequest
  unfoldable pub set_create_job : String → Json → CreateJobRequest → Result CreateJobRequest
  set_create_job key j r =
      if same_key "name" key
      then map_ok (λ v. record r { name = v }) (decode_string n "name" j r.name)
      else if same_key "type" key
      then map_ok (λ v. record r { type = job_type v })
          (decode_string n "type" j (type_text r.type))
      else if same_key "payload" key
      then map_ok (λ v. record r { payload = v }) (decode_payload n "payload" j r.payload)
      else if same_key "timeout_seconds" key
      then map_ok (λ v. record r { timeout_seconds = v })
          (decode_int n "timeout_seconds" j r.timeout_seconds)
      else if same_key "max_retries" key
      then map_ok (λ v. record r { max_retries = v }) (decode_int n "max_retries" j r.max_retries)
      else disallow_unknown key r

  -- the fields of RegisterAgentRequest
  unfoldable pub set_register_agent :
      String → Json → RegisterAgentRequest → Result RegisterAgentRequest
  set_register_agent key j r =
      if same_key "id" key
      then map_ok (λ v. record r { id = v }) (decode_string n "id" j r.id)
      else if same_key "hostname" key
      then map_ok (λ v. record r { hostname = v }) (decode_string n "hostname" j r.hostname)
      else if same_key "os" key
      then map_ok (λ v. record r { os = v }) (decode_string n "os" j r.os)
      else if same_key "arch" key
      then map_ok (λ v. record r { arch = v }) (decode_string n "arch" j r.arch)
      else if same_key "version" key
      then map_ok (λ v. record r { version = v }) (decode_string n "version" j r.version)
      else if same_key "capabilities" key
      then map_ok (λ v. record r { capabilities = v })
          (decode_strings n "capabilities" j r.capabilities)
      else disallow_unknown key r

  -- the fields of JobResultRequest
  unfoldable pub set_job_result : String → Json → JobResultRequest → Result JobResultRequest
  set_job_result key j r =
      if same_key "status" key
      then map_ok (λ v. record r { status = v }) (decode_string n "status" j r.status)
      else if same_key "logs" key
      then map_ok (λ v. record r { logs = v }) (decode_strings n "logs" j r.logs)
      else if same_key "result" key
      then map_ok (λ v. record r { result = v }) (decode_payload n "result" j r.result)
      else if same_key "error" key
      then map_ok (λ v. record r { error = v }) (decode_string n "error" j r.error)
      else disallow_unknown key r

  -- the one field of the struct in handleNextJob
  unfoldable pub set_capabilities : String → Json → List String → Result (List String)
  set_capabilities key j l =
      if same_key "capabilities" key
      then decode_strings n "capabilities" j l
      else disallow_unknown key l

  unfoldable pub decode_create_job : Json → Result CreateJobRequest
  decode_create_job j = decode_struct n set_create_job j (record {
    name = "";
    type = JobType.other "";
    payload = none;
    timeout_seconds = pos 0;
    max_retries = pos 0;
  })

  unfoldable pub decode_register_agent : Json → Result RegisterAgentRequest
  decode_register_agent j =
      decode_struct n set_register_agent j
        (record { id = ""; hostname = ""; os = ""; arch = ""; version = ""; capabilities = [] })

  unfoldable pub decode_job_result : Json → Result JobResultRequest
  decode_job_result j =
      decode_struct n set_job_result j
        (record { status = ""; logs = []; result = none; error = "" })

  unfoldable pub decode_capabilities : Json → Result (List String)
  decode_capabilities j = decode_struct n set_capabilities j []

  -- json.Marshal
  unfoldable pub encode_register_agent : RegisterAgentRequest → Json
  encode_register_agent r = Json.obj (
      Members.member "id" (Json.str r.id) (
        Members.member "hostname" (Json.str r.hostname) (
          Members.member "os" (Json.str r.os) (
            Members.member "arch" (Json.str r.arch) (
              Members.member "version" (Json.str r.version) (
                Members.member "capabilities" (Json.arr (encode_strings r.capabilities))
                  Members.end))))))

  unfoldable pub encode_job_result : JobResultRequest → Json
  encode_job_result r = Json.obj (
      Members.member "status" (Json.str r.status) (
        Members.member "logs" (Json.arr (encode_strings r.logs)) (
          omit_if (is_empty r.result) "result" (encode_payload n r.result)
            (omit_if (r.error == "") "error" (Json.str r.error) Members.end))))

  -- the map in PollNextJob
  unfoldable pub encode_capabilities : List String → Json
  encode_capabilities l =
      Json.obj (Members.member "capabilities" (Json.arr (encode_strings l)) Members.end)
