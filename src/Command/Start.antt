-- ===== src/Command/Start.antt =====
-- The start of the agent's process against a server, with JSON between them.
use Prim.Native.Char.{Char}
use golang_assignment.Prelude.{
  inr, inl, Bool-cases, Option-cases, ◌==◌, if◌then◌else◌, ℕ, ◌+◌, ◌≤◌, String, true, false, ◌≡◌,
  ◌≢◌, none, some, List, [], ◌∷◌, arith, Option,
}
use golang_assignment.Prelude.Int.{ℤ, is_positive}
use golang_assignment.GoText.{trim_space}
use golang_assignment.GoUrl.Plain.{AllRunes, is_visible, IsServerUrl}
use golang_assignment.Model.Dto.{RegisterAgentRequest}
use golang_assignment.Model.Validation.{ValidationError, validate_register_agent}
use golang_assignment.Model.Validation.Accepts.{named_iff, validate_register_agent_iff}
use golang_assignment.Store.Memory.{put_agent}
use golang_assignment.Api.Agents.{new_agent}
use golang_assignment.Api.Http.{Env, max_body_size}
use golang_assignment.Executor.Standard.{Site}
use golang_assignment.Worker.{Platform, Tick, after_ticks, run, poll_loop, registration_request}
use golang_assignment.Worker.Delivery.{Deployment, deployment, IsClientOf}
use golang_assignment.Wire.{Notation, IsLossless}
use golang_assignment.Wire.Registration.{registered_lem, refused_lem}
use golang_assignment.Wire.Requests.{encode_register_agent}
use golang_assignment.Wire.Rounds.{wire_network}
use golang_assignment.GoFlag.{parsed}
use golang_assignment.Command.Agent.{Settings, settings_of, split_commas, grow, worker_of, main}

grow-not_empty : (c : Char) (pieces : List String) → grow c pieces ≢ []
grow-not_empty c [] e = ground arith
grow-not_empty c (piece ∷ pieces) e = ground arith

-- There is always a first piece.
split_commas-not_empty : (s : String) → split_commas s ≢ []
unfolding split_commas
split_commas-not_empty String.[] e = ground arith
split_commas-not_empty (String.◌∷◌ c rest) e = ground (arith, grow-not_empty c (split_commas rest))

-- what the agent asks to be registered with
abbrev pub request_for : Platform → Settings → RegisterAgentRequest
request_for p s = registration_request p s.id (split_commas s.capabilities)

-- The server takes it exactly if the ID is not blank.
request_for-IsValid :
    (p : Platform) (s : Settings)
    → (trim_space s.id == "") ≡ false
    → validate_register_agent (request_for p s) ≡ none
request_for-IsValid p s named =
    (validate_register_agent_iff (request_for p s)).1
      ((named_iff s.id).0 named, split_commas-not_empty s.capabilities)

request_for-refused :
    (p : Platform) (s : Settings)
    → (trim_space s.id == "") ≡ true
    → (ve : ValidationError) × (validate_register_agent (request_for p s) ≡ some ve)
request_for-refused p s blank = elim (Option-cases (validate_register_agent (request_for p s))) [
  | inl valid ↦
      let named = (named_iff s.id).1 ((validate_register_agent_iff (request_for p s)).0 valid).0 in
      ground arith
  | inr refused ↦ refused
]

module _ (n : Notation) (token : String) (env : ℕ → Env) (parse_duration : String → Option ℤ)
    (platform : Platform) where
  -- The server after it has taken the registration.
  abbrev pub taken : Settings → Deployment → Deployment
  taken s w =
      deployment (put_agent s.id (new_agent (env w.served) (request_for platform s)) w.store)
        (w.served + 1)

  -- An agent whose arguments parse, with the server's token and the server's URL over http, "http://"
  -- and a host without a path, and a network that leads to the server and delivers every request. With a
  -- blank ID the process ends with code 1, and the server has not changed. Otherwise the server stores
  -- the agent, online, with its capabilities; with a positive interval its ticks follow, and it ends with
  -- code 0; with another it ends with code 2 before its first tick, as the ticker panics. It is assumed
  -- that the token has no space or control character, that a time is read as it was printed, and that the
  -- registration takes at most 2 ^ 20 bytes.
  pub main_starts :
      (arguments rest : List String) (s : Settings) (ticks : List Tick) (w : Deployment)
      (site : Site)
      → IsLossless n
      → settings_of parse_duration arguments ≡ parsed s rest
      → s.auth_token ≡ token
      → AllRunes is_visible s.auth_token
      → IsServerUrl s.server
      → n.size (encode_register_agent n (request_for platform s)) ≤ max_body_size
      → main (wire_network n token env) parse_duration platform arguments ticks w site ≡ (
          if trim_space s.id == ""
          then (1, (deployment w.store (w.served + 1), site))
          else if is_positive s.poll_interval
          then (0, after_ticks (wire_network n token env) (worker_of s) ticks (taken s w, site))
          else (2, (taken s w, site)))
  unfolding main run poll_loop worker_of
  main_starts arguments rest s ticks w site lossless given same visible server small =
      let c = (worker_of s).client in
      let of : IsClientOf token c = record { same = same; visible = visible; server = server } in
      elim (Bool-cases (trim_space s.id == "")) [
        | inl blank ↦
            let (ve, invalid) = request_for-refused platform s blank in
            ground (
              arith,
              refused_lem n token env lossless c (request_for platform s) w ve of small invalid,
            )
        | inr named ↦ ground (
          arith,
          registered_lem n token env lossless c (request_for platform s) w of small
              (request_for-IsValid platform s named),
        )
      ]
