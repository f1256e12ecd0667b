-- ===== src/Command/Arguments.antt =====
-- The arguments of the two processes: which ones give which settings.
use Prim.Native.Char.{code}
use text.Mathlib.TextLemmas.{cons-append, nil-append, append-nil}
use golang_assignment.Prelude.{
  none, arith, ap, ◌∙◌, All, nat_eq, String, Bool, true, false, ◌≡◌, refl, Option, some, List, [],
  ◌∷◌, if◌then◌else◌,
}
use golang_assignment.Prelude.Int.{ℤ}
use golang_assignment.GoText.{concat}
use golang_assignment.Model.Validation.{join}
use golang_assignment.GoFlag.{parsed, parse, parse_bool, find_flag, argument}
use golang_assignment.Command.Agent.{split_commas}
use Prim.Native.String
use golang_assignment.Command.Agent
use golang_assignment.Command.Server

abbrev log_flag : Bool → String
log_flag b = if b then "-log-json" else "-log-json=false"

-- a text for each setting
abbrev pub agent_arguments : (ℤ → String) → Agent.Settings → List String
agent_arguments print_duration s =
    "-server"
    ∷ s.server
    ∷ "-id"
    ∷ s.id
    ∷ "-capabilities"
    ∷ s.capabilities
    ∷ "-poll-interval"
    ∷ print_duration s.poll_interval
    ∷ "-auth-token"
    ∷ s.auth_token
    ∷ log_flag s.log_json
    ∷ []

abbrev pub server_arguments : Server.Settings → List String
server_arguments s = log_flag s.log_json ∷ "--addr" ∷ s.addr ∷ "--auth-token" ∷ s.auth_token ∷ []

-- The last flag, of the agent and of the server.
last_flag :
    (parse_duration : String → Option ℤ) (s : Agent.Settings) (b : Bool)
    → parse (Agent.flags parse_duration) (log_flag b ∷ []) none s
      ≡ parsed (record s { log_json = b }) []
unfolding parse find_flag argument parse_bool
last_flag parse_duration s true = refl
last_flag parse_duration s false = refl

first_flag :
    (s : Server.Settings) (b : Bool) (rest : List String)
    → parse Server.flags (log_flag b ∷ rest) none s
      ≡ parse Server.flags rest none (record s { log_json = b })
unfolding parse find_flag argument parse_bool
first_flag s true rest = refl
first_flag s false rest = refl

interval_flag :
    (parse_duration : String → Option ℤ) (text : String) (interval : ℤ) (rest : List String)
    (s : Agent.Settings)
    → parse_duration text ≡ some interval
    → parse (Agent.flags parse_duration) ("-poll-interval" ∷ text ∷ rest) none s
      ≡ parse (Agent.flags parse_duration) rest none (record s { poll_interval = interval })
unfolding parse find_flag argument
interval_flag parse_duration text interval rest s read = ground (arith, read)

-- Every value of the settings can be given: the two processes parse their arguments to the settings that
-- these were written for, whatever the texts among them are. It is assumed that the poll interval is
-- read as it was printed.
pub settings_of-arguments :
    (parse_duration : String → Option ℤ) (print_duration : ℤ → String) (a : Agent.Settings)
    (s : Server.Settings)
    → parse_duration (print_duration a.poll_interval) ≡ some a.poll_interval
    → (Agent.settings_of parse_duration (agent_arguments print_duration a) ≡ parsed a [])
      × (Server.settings_of (server_arguments s) ≡ parsed s [])
unfolding Agent.settings_of Server.settings_of parse find_flag argument parse_bool
settings_of-arguments parse_duration print_duration a s read = (
  interval_flag parse_duration (print_duration a.poll_interval) a.poll_interval
        ("-auth-token" ∷ a.auth_token ∷ log_flag a.log_json ∷ [])
        (record Agent.defaults { server = a.server; id = a.id; capabilities = a.capabilities }) read
      ∙ last_flag parse_duration (record a { log_json = false }) a.log_json,
  first_flag Server.defaults s.log_json ("--addr" ∷ s.addr ∷ "--auth-token" ∷ s.auth_token ∷ []),
)

-- No rune is a comma.
abbrev pub HasNoComma : String → Type 0
HasNoComma String.[] = Unit
HasNoComma (String.◌∷◌ c rest) = (nat_eq (code c) 44 ≡ false) × HasNoComma rest

split_commas-piece : (piece : String) → HasNoComma piece → split_commas piece ≡ piece ∷ []
unfolding split_commas
split_commas-piece String.[] h = refl
split_commas-piece (String.◌∷◌ c rest) (other, h) = ground (arith, split_commas-piece rest h, other)

split_commas-append :
    (piece rest : String)
    → HasNoComma piece
    → split_commas (String.◌++◌ piece (String.◌∷◌ "," rest)) ≡ piece ∷ split_commas rest
unfolding split_commas
split_commas-append String.[] rest h = ap (λ t. split_commas t) (nil-append (String.◌∷◌ "," rest))
split_commas-append (String.◌∷◌ c piece) rest (other, h) =
    ap (λ t. split_commas t) (cons-append c piece (String.◌∷◌ "," rest))
    ∙ ground (arith, split_commas-append piece rest h, other)

-- The agent gets from its flag the capabilities that were joined with commas for it, if there is one and
-- none has a comma in it.
pub split_commas-join :
    (piece : String) (pieces : List String)
    → HasNoComma piece
    → All HasNoComma pieces
    → split_commas (join "," (piece ∷ pieces)) ≡ piece ∷ pieces
unfolding join concat
split_commas-join piece [] h k = split_commas-piece piece h
split_commas-join piece (next ∷ pieces) h (k, rest) =
    ap (λ t. split_commas (String.◌++◌ piece t))
      (cons-append "," "" (String.◌++◌ (join "," (next ∷ pieces)) "")
        ∙ ap (λ t. String.◌∷◌ "," t)
            (nil-append (String.◌++◌ (join "," (next ∷ pieces)) "")
              ∙ append-nil (join "," (next ∷ pieces))))
    ∙ split_commas-append piece (join "," (next ∷ pieces)) h
    ∙ ap (λ l. piece ∷ l) (split_commas-join next pieces k rest)
