-- ===== src/Wire/Accepted.antt =====
-- Which bodies `readJSON` accepts.
use golang_assignment.Prelude.{
  ◌≡◌, refl, ◌≤◌, ◌<◌, ◌+◌, ◌⊎◌, ℕ, ap, sym, ◌∙◌, Option, String, Bool, true, false, List, [], ◌∷◌,
  any, arith, inl, inr,
}
use golang_assignment.Prelude.Result.{Result, ok, err, and_then, Result-cases}
use golang_assignment.Model.Dto.{CreateJobRequest, RegisterAgentRequest, JobResultRequest}
use golang_assignment.Api.Http.{json_reader, max_body_size, read_json, read_json-ok}
use golang_assignment.Wire.{Json, Members, Notation, same_key, decode_members, decode_struct}
use golang_assignment.Wire.Body.{
  Body, Text, within_limit, value, limited, first_value, has_more, wire_decoder,
}
use golang_assignment.Wire.Requests.{
  set_create_job, set_register_agent, set_job_result, set_capabilities, decode_create_job,
  decode_register_agent, decode_job_result, decode_capabilities,
}

abbrev pub is_known_key : List String → String → Bool
is_known_key names key = any (λ name. same_key name key) names

-- `null`, or an object with known keys only
abbrev pub HasKnownKeys : List String → Members → Type 0
HasKnownKeys names Members.end = Unit
HasKnownKeys names (Members.member key j rest) =
    (is_known_key names key ≡ true) × HasKnownKeys names rest

pub data HasOnlyKeys (names : List String) : Json → Type 0 where
  no_value : HasOnlyKeys names Json.null
  members : (m : Members) → HasKnownKeys names m → HasOnlyKeys names (Json.obj m)

and_then-ok {ℓ κ} :
    {A : Type ℓ} {B : Type κ} (r : Result A) (f : A → Result B) (b : B)
    → and_then r f ≡ ok b
    → (a : A) × (r ≡ ok a) × (f a ≡ ok b)
and_then-ok (ok a) f b e = (a, refl, e)
and_then-ok (err t) f b e = ground arith

module _ {A : Type 0} (names : List String) (set : String → Json → A → Result A)
    (strict : (key : String) (j : Json) (a b : A)
      → set key j a ≡ ok b
      → is_known_key names key ≡ true) where
  decode_members-HasKnownKeys :
      (m : Members) (a b : A) → decode_members set m a ≡ ok b → HasKnownKeys names m
  unfolding decode_members
  decode_members-HasKnownKeys Members.end a b e = tt
  decode_members-HasKnownKeys (Members.member key j rest) a b e =
      let (c, first, later) = and_then-ok (set key j a) (λ c. decode_members set rest c) b e in
      (strict key j a c first, decode_members-HasKnownKeys rest c b later)

  decode_struct-HasOnlyKeys :
      (n : Notation) (j : Json) (a b : A) → decode_struct n set j a ≡ ok b → HasOnlyKeys names j
  unfolding decode_struct
  decode_struct-HasOnlyKeys n Json.null a b e = no_value
  decode_struct-HasOnlyKeys n (Json.obj m) a b e = members m (decode_members-HasKnownKeys m a b e)
  decode_struct-HasOnlyKeys n j a b e = ground arith

abbrev pub create_job_keys : List String
create_job_keys = "name" ∷ "type" ∷ "payload" ∷ "timeout_seconds" ∷ "max_retries" ∷ []

abbrev pub register_agent_keys : List String
register_agent_keys = "id" ∷ "hostname" ∷ "os" ∷ "arch" ∷ "version" ∷ "capabilities" ∷ []

abbrev pub job_result_keys : List String
job_result_keys = "status" ∷ "logs" ∷ "result" ∷ "error" ∷ []

module _ (n : Notation) where
  set_create_job-strict :
      (key : String) (j : Json) (a b : CreateJobRequest)
      → set_create_job n key j a ≡ ok b
      → is_known_key create_job_keys key ≡ true
  unfolding set_create_job
  set_create_job-strict key j a b e = ground arith

  set_register_agent-strict :
      (key : String) (j : Json) (a b : RegisterAgentRequest)
      → set_register_agent n key j a ≡ ok b
      → is_known_key register_agent_keys key ≡ true
  unfolding set_register_agent
  set_register_agent-strict key j a b e = ground arith

  set_job_result-strict :
      (key : String) (j : Json) (a b : JobResultRequest)
      → set_job_result n key j a ≡ ok b
      → is_known_key job_result_keys key ≡ true
  unfolding set_job_result
  set_job_result-strict key j a b e = ground arith

  set_capabilities-strict :
      (key : String) (j : Json) (a b : List String)
      → set_capabilities n key j a ≡ ok b
      → is_known_key ("capabilities" ∷ []) key ≡ true
  unfolding set_capabilities
  set_capabilities-strict key j a b e = ground arith

-- the four requests that have a body
pub data Kind : Type 0 where
  job_kind agent_kind result_kind poll_kind : Kind

abbrev pub keys_of : Kind → List String
keys_of job_kind = create_job_keys
keys_of agent_kind = register_agent_keys
keys_of result_kind = job_result_keys
keys_of poll_kind = "capabilities" ∷ []

abbrev is_ok : {A : Type 0} → Result A → Bool
is_ok (ok a) = true
is_ok (err e) = false

-- what `readJSON` says of a body, for the request of a kind
abbrev pub accepts : Notation → Kind → Body → Bool
accepts n job_kind body = is_ok ((json_reader (wire_decoder n)).read_create_job body)
accepts n agent_kind body = is_ok ((json_reader (wire_decoder n)).read_register_agent body)
accepts n result_kind body = is_ok ((json_reader (wire_decoder n)).read_job_result body)
accepts n poll_kind body = is_ok ((json_reader (wire_decoder n)).read_capabilities body)

-- the end, or what begins with a closing bracket
pub data IsEnd : Text → Type 0 where
  at_end : IsEnd Text.finished
  at_bracket : (e : String) → IsEnd (Text.broken true e)

-- A body whose first value lies within the limit and has only these keys. After it comes the end or a
-- closing bracket, or nothing but spaces up to the limit.
pub record IsProper (names : List String) (body : Body) : Type 0 where
  pub json : Json
  pub rest : Text
  pub text : body.text ≡ value json rest
  pub within : body.size ≤ max_body_size
  pub keys : HasOnlyKeys names json
  pub done : (max_body_size < body.size + body.gap) ⊎ IsEnd rest

no_more-IsEnd :
    (limit : ℕ) (body : Body) (rest : Text)
    → has_more (within_limit limit body rest) ≡ false
    → (limit < body.size + body.gap) ⊎ IsEnd rest
unfolding has_more
no_more-IsEnd limit body Text.finished h = inr at_end
no_more-IsEnd limit body (value j rest) h = inl (ground arith)
no_more-IsEnd limit body (Text.broken true e) h = inr (at_bracket e)
no_more-IsEnd limit body (Text.broken false e) h = inl (ground arith)

pub first_value-ok :
    {A : Type 0} (decode : Json → Result A) (text rest : Text) (a : A)
    → first_value decode text ≡ ok (a, rest)
    → (j : Json) × (text ≡ value j rest) × (decode j ≡ ok a)
unfolding first_value
first_value-ok decode Text.finished rest a e = ground arith
first_value-ok decode (Text.broken closing t) rest a e = ground arith
first_value-ok decode (value j later) rest a e = elim (Result-cases (decode j)) [
  | inl (b, decoded) ↦ (j, ground arith, ground arith)
  | inr (t, failed) ↦ ground arith
]

-- What `limited` gives is the first value, and what is seen after it.
pub limited-ok :
    {A : Type 0} (decode : Json → Result A) (limit : ℕ) (body : Body) (a : A) (rest : Option Text)
    → limited decode limit body ≡ ok (a, rest)
    → (j : Json) × (later : Text) × (body.text ≡ value j later)
      × (decode j ≡ ok a)
      × (body.size ≤ limit)
      × (rest ≡ within_limit limit body later)
unfolding limited
limited-ok decode limit body a rest e = elim (Result-cases (first_value decode body.text)) [
  | inr (t, failed) ↦ ground arith
  | inl ((b, later), first) ↦
      let (j, text, made) = first_value-ok decode body.text later b first in
      (j, later, text, ground arith, ground arith, ground arith)
]

module _ {A : Type 0} (names : List String) (decode : Json → Result A)
    (strict : (j : Json) (a : A) → decode j ≡ ok a → HasOnlyKeys names j) where
  accepted-IsProper :
      (body : Body) → is_ok (read_json has_more (limited decode) body) ≡ true → IsProper names body
  accepted-IsProper body accepted = elim (Result-cases (read_json has_more (limited decode) body)) [
    | inr (t, failed) ↦ ground arith
    | inl (a, read) ↦
        let (rest, decoded, done) = read_json-ok has_more (limited decode) body a read in
        let (j, later, text, made, within, seen) =
          limited-ok decode max_body_size body a rest decoded in
        record {
          json = j;
          rest = later;
          text = text;
          within = within;
          keys = strict j a made;
          done = no_more-IsEnd max_body_size body later (ap has_more (sym seen) ∙ done);
        }
  ]

-- A request that `readJSON` accepts, of whatever kind, has a body of at most 2 ^ 20 bytes up to the end of
-- its first value; this value is `null`, or an object that has no key but those of the request; and
-- after it the body ends, or goes on with a closing bracket, or has nothing but spaces up to 2 ^ 20 bytes.
pub accepted_lem :
    (n : Notation) (kind : Kind) (body : Body)
    → accepts n kind body ≡ true
    → IsProper (keys_of kind) body
unfolding decode_create_job decode_register_agent decode_job_result decode_capabilities
accepted_lem n job_kind = accepted-IsProper create_job_keys (decode_create_job n) (λ j r e.
    decode_struct-HasOnlyKeys create_job_keys (set_create_job n) (set_create_job-strict n) n j _ r
      e)
accepted_lem n agent_kind =
    accepted-IsProper register_agent_keys (decode_register_agent n) (λ j r e.
      decode_struct-HasOnlyKeys register_agent_keys (set_register_agent n)
        (set_register_agent-strict n) n j _ r e)
accepted_lem n result_kind = accepted-IsProper job_result_keys (decode_job_result n) (λ j r e.
    decode_struct-HasOnlyKeys job_result_keys (set_job_result n) (set_job_result-strict n) n j _ r
      e)
accepted_lem n poll_kind = accepted-IsProper ("capabilities" ∷ []) (decode_capabilities n) (λ j l e.
    decode_struct-HasOnlyKeys ("capabilities" ∷ []) (set_capabilities n) (set_capabilities-strict n)
      n j _ l e)
