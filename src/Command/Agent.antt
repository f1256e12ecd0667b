-- ===== src/Command/Agent.antt =====
-- cmd/agent/main.go: the flags, the worker that is built of them, and the exit code. The worker's ticks
-- are those that come before SIGINT or SIGTERM. The log is left out.
use Prim.Native.Char.{Char, code}
use golang_assignment.Prelude.{
  ℕ, String, Bool, true, false, Option, none, some, List, [], ◌∷◌, nat_eq, if◌then◌else◌,
}
use golang_assignment.Prelude.Int.{ℤ, pos}
use golang_assignment.Prelude.Result.{Result, ok, err, map_ok}
use golang_assignment.Executor.Standard.{Site, standard_registry}
use golang_assignment.Worker.{Worker, Platform, Tick, Ending, run}
use golang_assignment.Worker.Requests.{Network}
use golang_assignment.GoFlag.{Flag, Parsed, parse, parse_bool, parsed, help, failed}

pub record Settings : Type 0 where
  pub server : String
  pub id : String
  pub capabilities : String
  pub poll_interval : ℤ
  pub auth_token : String
  pub log_json : Bool

abbrev pub defaults : Settings
defaults = record {
  server = "http://localhost:8080";
  id = "agent-dev-1";
  capabilities = "http_check,tcp_check,file_exists,checksum,copy_file,write_file,wait";
  poll_interval = pos 3000000000;
  auth_token = "";
  log_json = false;
}

-- the error of `Set` for a text that does not parse
abbrev parse_error {ℓ} : {A : Type ℓ} → Option A → Result A
parse_error none = err "parse error"
parse_error (some a) = ok a

-- strconv.ParseBool and time.ParseDuration give the values of the last two kinds of flags
abbrev pub flags : (String → Option ℤ) → List (Flag Settings)
flags parse_duration =
    record { name = "server"; is_bool = false; set = λ v s. ok (record s { server = v }) }
    ∷ record { name = "id"; is_bool = false; set = λ v s. ok (record s { id = v }) }
    ∷ record {
      name = "capabilities";
      is_bool = false;
      set = λ v s. ok (record s { capabilities = v });
    }
    ∷ record {
      name = "poll-interval";
      is_bool = false;
      set = λ v s. map_ok (λ d. record s { poll_interval = d }) (parse_error (parse_duration v));
    }
    ∷ record { name = "auth-token"; is_bool = false; set = λ v s. ok (record s { auth_token = v }) }
    ∷ record {
      name = "log-json";
      is_bool = true;
      set = λ v s. map_ok (λ b. record s { log_json = b }) (parse_error (parse_bool v));
    }
    ∷ []

unfoldable pub settings_of : (String → Option ℤ) → List String → Parsed Settings
settings_of parse_duration arguments = parse (flags parse_duration) arguments none defaults

-- a rune in front of the first of the pieces
abbrev pub grow : Char → List String → List String
grow c [] = String.◌∷◌ c "" ∷ []
grow c (piece ∷ pieces) = String.◌∷◌ c piece ∷ pieces

-- strings.Split(s, ","): the pieces between commas, one at least
unfoldable pub split_commas : String → List String
split_commas String.[] = "" ∷ []
split_commas (String.◌∷◌ c rest) =
    let pieces = split_commas rest in if nat_eq (code c) 44 then "" ∷ pieces else grow c pieces

unfoldable pub worker_of : Settings → Worker Site
unfolding split_commas
worker_of s = record {
  client = record { server_url = s.server; agent_id = s.id; auth_token = s.auth_token };
  registry = standard_registry;
  capabilities = split_commas s.capabilities;
  poll_interval = s.poll_interval;
}

-- the exit code of the process
abbrev pub exit_code : Ending → ℕ
exit_code (Ending.refused e) = 1
exit_code Ending.panicked = 2
exit_code Ending.stopped = 0

-- `main` on the arguments of the process
unfoldable pub main :
    (net : Network)
    → (String → Option ℤ)
    → Platform
    → List String
    → List Tick
    → net.World
    → Site
    → ℕ × (net.World × Site)
unfolding settings_of worker_of
main net parse_duration platform arguments ticks w site =
    elim (settings_of parse_duration arguments) [
      | help ↦ (0, (w, site))
      | failed e ↦ (2, (w, site))
      | parsed s rest ↦
          let (ending, state) = run net (worker_of s) platform ticks w site in
          (exit_code ending, state)
    ]
