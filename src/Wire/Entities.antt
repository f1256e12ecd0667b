-- ===== src/Wire/Entities.antt =====
-- The structs of internal/model/model.go by their JSON tags: what the server writes of them, and what the
-- agent's decoder, which ignores keys that it does not know, makes of a JSON value.
use golang_assignment.Prelude.{
  false, ◌∷◌, true, String, Bool, not, Option, none, some, List, [], map, ◌==◌, if◌then◌else◌,
  is_some,
}
use golang_assignment.Prelude.Result.{Result, map_ok}
use golang_assignment.Model.Entity.{Time, Job, Agent, zero_job}
use golang_assignment.Model.Status.{
  job_type, type_text, job_status, status_text, AgentStatus, agent_status, agent_status_text,
}
use golang_assignment.Wire.{
  Json, Members, Notation, literal_of, same_key, decode_string, decode_int, decode_time,
  decode_time_pointer, decode_strings, decode_struct, ignore_unknown, encode_strings, omit_if,
}
use golang_assignment.Wire.Payloads.{decode_payload, encode_payload, is_empty}

abbrev pub zero_agent : Agent
zero_agent = record {
  id = "";
  hostname = "";
  os = "";
  arch = "";
  version = "";
  capabilities = [];
  last_seen = 0;
  status = AgentStatus.other "";
}

-- what `omitempty` leaves out of a slice
abbrev pub is_nil : List String → Bool
is_nil [] = true
is_nil (s ∷ ss) = false

module _ (n : Notation) where
  -- the fields of Job
  unfoldable pub set_job : String → Json → Job → Result Job
  set_job key j r =
      if same_key "id" key
      then map_ok (λ v. record r { id = v }) (decode_string n "id" j r.id)
      else if same_key "name" key
      then map_ok (λ v. record r { name = v }) (decode_string n "name" j r.name)
      else if same_key "type" key
      then map_ok (λ v. record r { type = job_type v })
          (decode_string n "type" j (type_text r.type))
      else if same_key "payload" key
      then map_ok (λ v. record r { payload = v }) (decode_payload n "payload" j r.payload)
      else if same_key "status" key
      then map_ok (λ v. record r { status = job_status v })
          (decode_string n "status" j (status_text r.status))
      else if same_key "assigned_agent_id" key
      then map_ok (λ v. record r { assigned_agent_id = v })
          (decode_string n "assigned_agent_id" j r.assigned_agent_id)
      else if same_key "created_at" key
      then map_ok (λ v. record r { created_at = v }) (decode_time n "created_at" j r.created_at)
      else if same_key "started_at" key
      then map_ok (λ v. record r { started_at = v }) (decode_time_pointer n "started_at" j)
      else if same_key "finished_at" key
      then map_ok (λ v. record r { finished_at = v }) (decode_time_pointer n "finished_at" j)
      else if same_key "attempt_count" key
      then map_ok (λ v. record r { attempt_count = v })
          (decode_int n "attempt_count" j r.attempt_count)
      else if same_key "max_retries" key
      then map_ok (λ v. record r { max_retries = v }) (decode_int n "max_retries" j r.max_retries)
      else if same_key "timeout_seconds" key
      then map_ok (λ v. record r { timeout_seconds = v })
          (decode_int n "timeout_seconds" j r.timeout_seconds)
      else if same_key "logs" key
      then map_ok (λ v. record r { logs = v }) (decode_strings n "logs" j r.logs)
      else if same_key "error" key
      then map_ok (λ v. record r { error = v }) (decode_string n "error" j r.error)
      else if same_key "result" key
      then map_ok (λ v. record r { result = v }) (decode_payload n "result" j r.result)
      else ignore_unknown key r

  unfoldable pub decode_job : Json → Result Job
  decode_job j = decode_struct n set_job j zero_job

  -- the fields of Agent
  unfoldable pub set_agent : String → Json → Agent → Result Agent
  set_agent key j a =
      if same_key "id" key
      then map_ok (λ v. record a { id = v }) (decode_string n "id" j a.id)
      else if same_key "hostname" key
      then map_ok (λ v. record a { hostname = v }) (decode_string n "hostname" j a.hostname)
      else if same_key "os" key
      then map_ok (λ v. record a { os = v }) (decode_string n "os" j a.os)
      else if same_key "arch" key
      then map_ok (λ v. record a { arch = v }) (decode_string n "arch" j a.arch)
      else if same_key "version" key
      then map_ok (λ v. record a { version = v }) (decode_string n "version" j a.version)
      else if same_key "capabilities" key
      then map_ok (λ v. record a { capabilities = map job_type v })
          (decode_strings n "capabilities" j (map type_text a.capabilities))
      else if same_key "last_seen" key
      then map_ok (λ v. record a { last_seen = v }) (decode_time n "last_seen" j a.last_seen)
      else if same_key "status" key
      then map_ok (λ v. record a { status = agent_status v })
          (decode_string n "status" j (agent_status_text a.status))
      else ignore_unknown key a

  unfoldable pub decode_agent : Json → Result Agent
  decode_agent j = decode_struct n set_agent j zero_agent

  -- *time.Time
  abbrev pub encode_time_pointer : Option Time → Json
  encode_time_pointer none = Json.null
  encode_time_pointer (some t) = Json.str (n.print_time t)

  -- the members of a Job, in two parts
  abbrev pub outcome_members : Job → Members
  outcome_members r = Members.member "attempt_count" (Json.number (literal_of r.attempt_count)) (
      Members.member "max_retries" (Json.number (literal_of r.max_retries)) (
        Members.member "timeout_seconds" (Json.number (literal_of r.timeout_seconds)) (
          omit_if (is_nil r.logs) "logs" (Json.arr (encode_strings r.logs)) (
            omit_if (r.error == "") "error" (Json.str r.error)
              (omit_if (is_empty r.result) "result" (encode_payload n r.result) (Members.end))))))

  abbrev pub job_members : Job → Members
  job_members r = Members.member "id" (Json.str r.id) (
      Members.member "name" (Json.str r.name) (
        Members.member "type" (Json.str (type_text r.type)) (
          Members.member "payload" (encode_payload n r.payload) (
            Members.member "status" (Json.str (status_text r.status)) (
              omit_if (r.assigned_agent_id == "") "assigned_agent_id" (Json.str r.assigned_agent_id)
                (Members.member "created_at" (Json.str (n.print_time r.created_at)) (
                  omit_if (not (is_some r.started_at)) "started_at"
                    (encode_time_pointer r.started_at)
                    (omit_if (not (is_some r.finished_at)) "finished_at"
                      (encode_time_pointer r.finished_at) (outcome_members r)))))))))

  unfoldable pub encode_job : Job → Json
  encode_job r = Json.obj (job_members r)

  unfoldable pub encode_agent : Agent → Json
  encode_agent a = Json.obj (
      Members.member "id" (Json.str a.id) (
        Members.member "hostname" (Json.str a.hostname) (
          Members.member "os" (Json.str a.os) (
            Members.member "arch" (Json.str a.arch) (
              Members.member "version" (Json.str a.version) (
                Members.member "capabilities"
                  (Json.arr (encode_strings (map type_text a.capabilities)))
                  (Members.member "last_seen" (Json.str (n.print_time a.last_seen)) (
                    Members.member "status" (Json.str (agent_status_text a.status))
                      (Members.end)))))))))
