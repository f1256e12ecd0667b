-- ===== src/Command/Server.antt =====
-- cmd/server/main.go: the flags, and the life of the process from its start to its exit. The log and the
-- timeouts of `http.Server` are left out.
use golang_assignment.Prelude.{true, ℕ, ◌*◌, String, Bool, false, none, some, List, [], ◌∷◌}
use golang_assignment.Prelude.Result.{ok, err}
use golang_assignment.Store.Memory.{MemoryStore, memory_store, new_memory_store}
use golang_assignment.Api.Http.{Env, Reader}
use golang_assignment.Api.Server.{Request, serve, health_tick}
use golang_assignment.GoFlag.{Flag, Parsed, parse, parse_bool, parsed, help, failed}

pub record Settings : Type 0 where
  pub addr : String
  pub auth_token : String
  pub log_json : Bool

abbrev pub defaults : Settings
defaults = record { addr = ":8080"; auth_token = ""; log_json = false }

abbrev pub flags : List (Flag Settings)
flags =
    record { name = "addr"; is_bool = false; set = λ v s. ok (record s { addr = v }) }
    ∷ record { name = "auth-token"; is_bool = false; set = λ v s. ok (record s { auth_token = v }) }
    ∷ record {
      name = "log-json";
      is_bool = true;
      set = λ v s. elim (parse_bool v) [
        | none ↦ err "parse error"
        | some b ↦ ok (record s { log_json = b })
      ];
    }
    ∷ []

unfoldable pub settings_of : List String → Parsed Settings
settings_of arguments = parse flags arguments none defaults

-- 30*time.Second
abbrev pub offline_after : ℕ
offline_after = 30 * 1000000000

-- The process serves; or it has been told to stop, and waits for the requests that are under way; or it
-- has ended with a code.
pub data Phase : Type 0 where
  serving draining : Phase
  exited : ℕ → Phase

pub record Process : Type 0 where
  pub phase : Phase
  pub store : MemoryStore

-- What can happen: a request, a tick of the health checker, an error of `ListenAndServe` other than
-- ErrServerClosed, a signal; and for `Shutdown`, that the requests are done, or an error of it, as when
-- ten seconds have passed.
pub data Event (reader : Reader) : Type 0 where
  request : Env → Request reader → Event reader
  tick : Env → Event reader
  listen_failed : Event reader
  signal : Event reader
  drained : Event reader
  shutdown_failed : Event reader

module _ (reader : Reader) (token : String) where
  -- the store after an event of a process that has not ended
  unfoldable pub after_event : Event reader → MemoryStore → MemoryStore
  after_event (request env r) m = (serve memory_store reader token env r m).1
  after_event (tick env) m = health_tick memory_store env offline_after m
  after_event listen_failed m = m
  after_event signal m = m
  after_event drained m = m
  after_event shutdown_failed m = m

  -- the phase after an event; once a signal has come, a second one and errors of the listener, which
  -- is closed, have no effect
  unfoldable pub next_phase : Event reader → Phase → Phase
  next_phase listen_failed serving = exited 1
  next_phase signal serving = draining
  next_phase e serving = serving
  next_phase drained draining = exited 0
  next_phase shutdown_failed draining = exited 1
  next_phase e draining = draining
  next_phase e (exited code) = exited code

  unfoldable pub step : Event reader → Process → Process
  unfolding after_event next_phase
  step e p = elim p.phase [
    | exited code ↦ p
    | running ↦ record { phase = next_phase e running; store = after_event e p.store }
  ]

  unfoldable pub steps : List (Event reader) → Process → Process
  unfolding step
  steps [] p = p
  steps (e ∷ events) p = steps events (step e p)

abbrev pub started : Process
started = record { phase = serving; store = new_memory_store }

-- what `main` does with its flags; the process ends with 0 after the help, and with 2 after an error
unfoldable pub launched : (reader : Reader) → Parsed Settings → List (Event reader) → Process
unfolding steps
launched reader help events = record { phase = exited 0; store = new_memory_store }
launched reader (failed e) events = record { phase = exited 2; store = new_memory_store }
launched reader (parsed s rest) events = steps reader s.auth_token events started

-- `main` on the arguments of the process: its phase and its store after the events
unfoldable pub main : (reader : Reader) → List String → List (Event reader) → Process
unfolding settings_of launched
main reader arguments events = launched reader (settings_of arguments) events
