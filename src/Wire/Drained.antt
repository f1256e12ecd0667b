-- ===== src/Wire/Drained.antt =====
-- A worker that keeps polling a server, with JSON between them, finishes the jobs that it can do.
use golang_assignment.Prelude.{ℕ, suc, ◌≤◌, String, ◌≢◌, none, List, [], ◌∷◌, map}
use golang_assignment.GoMap.{lookup}
use golang_assignment.Model.Status.{job_type, JobType}
use golang_assignment.Store.Memory.{new_memory_store, MemoryStore}
use golang_assignment.Store.Memory.Drain.{Settles}
use golang_assignment.Store.Memory.Steps.{run, assign, Op}
use golang_assignment.Store.Memory.Workload.{workload}
use golang_assignment.Api.Http.{Env}
use golang_assignment.Api.Server.Runs.{Event, after_events}
use golang_assignment.Worker.{Worker, Tick, poll, beat}
use golang_assignment.Wire.{IsLossless, Notation}
use golang_assignment.Wire.Polled.{IsConnected}
use golang_assignment.Wire.Portable.{IsPortableStore}
use golang_assignment.Wire.Rounds.{server_reader}
use golang_assignment.Store.Memory.Steps

abbrev pub polls : List Tick → ℕ
polls [] = 0
polls (poll ∷ ticks) = suc (polls ticks)
polls (beat ∷ ticks) = polls ticks

module _ (n : Notation) (lossless : IsLossless n) (token : String) (env : ℕ → Env) {Host : Type 0}
    (worker : Worker Host) (connected : IsConnected n token worker) where
  abbrev agent_id : String
  agent_id = worker.client.agent_id

  abbrev wanted : List JobType
  wanted = map job_type worker.capabilities

  -- How far the worker has come: the job `k` waits for it or is done with, and at most so many turns are
  -- left.
  record IsUnderway (k : String) (left : ℕ) (m : MemoryStore) : Type 0 where
    store : IsPortableStore m
    known : lookup agent_id m.agents ≢ none
    settles : Settles wanted k m
    small : workload wanted m ≤ left

-- the store of a server after events since its start
abbrev pub store_after : (n : Notation) → String → List (Event (server_reader n)) → MemoryStore
store_after n token events = after_events (server_reader n) token events new_memory_store
