-- ===== src/Worker.antt =====
-- internal/agent/worker.go: the registration and the rounds of the agent. The log is left out. The two
-- loops take turns: a heartbeat falls between two rounds.
pub mod Requests
pub mod Delivery
pub mod Rounds
pub mod Idle
pub mod Timeouts
pub mod Fixture
mod Tests
use golang_assignment.Prelude.{
  ℕ, ◌+◌, ◌-◌, ◌*◌, ◌%◌, ◌^◌, String, Bool, ◌||◌, Option, none, some, List, [], ◌∷◌, if◌then◌else◌,
  nat_eq, leb,
}
use golang_assignment.Prelude.Int.{is_positive, ℤ, pos, negsuc}
use golang_assignment.Prelude.Result.{Result, ok, err}
use golang_assignment.GoText.{concat}
use golang_assignment.Model.Dto.{RegisterAgentRequest}
use golang_assignment.Model.Entity.{Job}
use golang_assignment.Model.Status.{JobType, failed, type_text}
use golang_assignment.Executor.{ExecutionResult, Executor, Registry, get_executor}
use golang_assignment.Worker.Requests.{
  Client, Network, poll_next_job, submit_result, send_heartbeat, send_registration,
}

-- `time.Duration(s) * time.Second`: 64 bits in two's complement, as a number below 2 ^ 64
unfoldable pub seconds : ℤ → ℕ
seconds (pos n) = n * 1000000000 % 2 ^ 64
seconds (negsuc n) = (2 ^ 64 - (n + 1) * 1000000000 % 2 ^ 64) % 2 ^ 64

-- the timeout of an execution, in nanoseconds: 30 seconds if the product is not positive
unfoldable pub timeout_of : ℤ → ℕ
unfolding seconds
timeout_of s =
    if nat_eq (seconds s) 0 || leb (2 ^ 63) (seconds s) then 30 * 1000000000 else seconds s

abbrev pub unsupported : JobType → ExecutionResult
unsupported type = record {
  status = failed;
  logs = concat ("no executor registered for type: " ∷ type_text type ∷ []) ∷ [];
  result = none;
  error = "unsupported job type";
}

pub record Worker (Host : Type 0) : Type 0 where
  pub client : Client
  pub registry : Registry Host
  pub capabilities : List String
  -- a time.Duration, in nanoseconds
  pub poll_interval : ℤ

-- what `os.Hostname` and the runtime say of the agent's machine
pub record Platform : Type 0 where
  pub hostname : String
  pub os : String
  pub arch : String

abbrev pub registration_request : Platform → String → List String → RegisterAgentRequest
registration_request p id wanted = record {
  id = id;
  hostname = p.hostname;
  os = p.os;
  arch = p.arch;
  version = "1.0.0";
  capabilities = wanted;
}

-- How `Run` ends: with an error, with the panic of `NewTicker` for an interval that is not positive, or
-- after its context is done.
pub data Ending : Type 0 where
  refused : String → Ending
  panicked : Ending
  stopped : Ending

pub data Tick : Type 0 where
  poll : Tick
  beat : Tick

module _ (net : Network) {Host : Type 0} (worker : Worker Host) where
  unfoldable pub run_job : Option (Executor Host) → Job → net.World → Host → net.World × Host
  run_job none job w host =
      ((submit_result net worker.client job.id (unsupported job.type) w).1, host)
  run_job (some ex) job w host =
      let (result, host') = ex.execute (timeout_of job.timeout_seconds) job host in
      ((submit_result net worker.client job.id result w).1, host')

  unfoldable pub after_polling : Result (Option Job) × net.World → Host → net.World × Host
  unfolding run_job
  after_polling (err e, w) host = (w, host)
  after_polling (ok none, w) host = (w, host)
  after_polling (ok (some job), w) host = run_job (get_executor job.type worker.registry) job w host

  unfoldable pub poll_and_execute : net.World → Host → net.World × Host
  unfolding after_polling
  poll_and_execute w host =
      after_polling (poll_next_job net worker.client worker.capabilities w) host

  -- a tick of the poll loop, or of the loop in `heartbeatLoop`, whose errors are only logged
  unfoldable pub after_tick : Tick → net.World × Host → net.World × Host
  unfolding poll_and_execute
  after_tick poll (w, host) = poll_and_execute w host
  after_tick beat (w, host) = ((send_heartbeat net worker.client w).1, host)

  unfoldable pub after_ticks : List Tick → net.World × Host → net.World × Host
  unfolding after_tick
  after_ticks [] state = state
  after_ticks (t ∷ ticks) state = after_ticks ticks (after_tick t state)

  -- the poll loop, over the ticks that come before the context is done
  unfoldable pub poll_loop : List Tick → net.World × Host → Ending × (net.World × Host)
  unfolding after_ticks
  poll_loop ticks state =
      if is_positive worker.poll_interval
      then (stopped, after_ticks ticks state)
      else (panicked, state)

  unfoldable pub run : Platform → List Tick → net.World → Host → Ending × (net.World × Host)
  unfolding poll_loop
  run p ticks w host =
      let req = registration_request p worker.client.agent_id worker.capabilities in
      let (registered, w') = send_registration net worker.client req w in
      elim registered [ err e ↦ (refused e, (w', host)) | ok agent ↦ poll_loop ticks (w', host) ]
