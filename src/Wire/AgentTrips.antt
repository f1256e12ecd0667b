-- ===== src/Wire/AgentTrips.antt =====
-- The agent reads of its own entry what the server has written.
use golang_assignment.Prelude.{◌≡◌, refl, List, [], ◌∷◌, map, All}
use golang_assignment.Prelude.Result.{ok}
use golang_assignment.Model.Entity.{Agent}
use golang_assignment.Model.Status.{JobType, job_type, type_text, agent_status, agent_status_text}
use golang_assignment.Wire.{
  Notation, IsLossless, same_key, decode_string, decode_struct, decode_members, decode_time,
  decode_strings-encode_strings,
}
use golang_assignment.Wire.Entities.{set_agent, decode_agent, encode_agent}

-- an agent whose texts are those of its capabilities and its status
pub record IsWritableAgent (a : Agent) : Type 0 where
  pub capabilities : All (λ t. job_type (type_text t) ≡ t) a.capabilities
  pub status : agent_status (agent_status_text a.status) ≡ a.status

map-type_text :
    (l : List JobType)
    → All (λ t. job_type (type_text t) ≡ t) l
    → map job_type (map type_text l) ≡ l
map-type_text [] h = refl
map-type_text (t ∷ ts) (same, h) = rw (same, map-type_text ts h) refl

-- The agent's client decodes of the response to a registration the agent that the server has stored. It is
-- assumed that a time is read as it was printed, and that the texts of the capabilities and of the
-- status are those of their constants.
pub decode_agent-encode_agent :
    (n : Notation) (a : Agent)
    → IsLossless n
    → IsWritableAgent a
    → decode_agent n (encode_agent n a) ≡ ok a
unfolding decode_agent encode_agent decode_struct decode_members set_agent same_key decode_string
    decode_time
decode_agent-encode_agent n a lossless h =
    rw
      (
        decode_strings-encode_strings n "capabilities" (map type_text a.capabilities) [],
        lossless.times a.last_seen,
        map-type_text a.capabilities h.capabilities,
        h.status,
      )
      refl
