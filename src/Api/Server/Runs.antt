-- ===== src/Api/Server/Runs.antt =====
-- The server over time: requests, and ticks of the health checker, in any order.
use mathlib.Core.Path.{subst}
use golang_assignment.Prelude.{ℕ, String, ◌≡◌, sym, refl, ap, ◌⊎◌, some, List, [], ◌∷◌, All, ◌∙◌}
use golang_assignment.Prelude.Int.{pos, ◌≤ℤ◌}
use golang_assignment.GoMap.{lookup}
use golang_assignment.Model.Entity.{Job}
use golang_assignment.Store.Memory.{MemoryStore, memory_store, new_memory_store}
use golang_assignment.Store.Memory.Attempts.{IsApiCall, run-attempts_bounded}
use golang_assignment.Store.Memory.Invariant.{IsWellFormed}
use golang_assignment.Store.Memory.Steps.{Op, mark_stale, apply, run}
use golang_assignment.Store.Memory.WellFormed.{run-IsWellFormed}
use golang_assignment.Api.Http.{
  Env, Reader, Decoder, json_reader, DecodesInt64, json_reader-IsInRange,
}
use golang_assignment.Api.Server.{Request, serve, health_tick}
use golang_assignment.Api.Server.Calls.{
  AnyEnv, AllowsServer, IsCallOf, no_call, one_call, serve-IsCallOf, api_calls,
}

pub data Event (reader : Reader) : Type 0 where
  request : Env → Request reader → Event reader
  tick : Env → ℕ → Event reader

-- Each request is served in an environment of a kind.
abbrev pub IsUsual : {reader : Reader} → (Env → Type 0) → Event reader → Type 0
IsUsual Usual (request env r) = Usual env
IsUsual Usual (tick env threshold) = Unit

pub AnyEnv-IsUsual : {reader : Reader} (events : List (Event reader)) → All (IsUsual AnyEnv) events
AnyEnv-IsUsual [] = tt
AnyEnv-IsUsual (request env r ∷ events) = (tt, AnyEnv-IsUsual events)
AnyEnv-IsUsual (tick env threshold ∷ events) = (tt, AnyEnv-IsUsual events)

-- The requests are served one after the other: a call of the store is atomic, and a handler makes at
-- most one that writes.
module _ (reader : Reader) (token : String) where
  unfoldable pub after_event : Event reader → MemoryStore → MemoryStore
  after_event (request env r) s = (serve memory_store reader token env r s).1
  after_event (tick env threshold) s = health_tick memory_store env threshold s

  unfoldable pub after_events : List (Event reader) → MemoryStore → MemoryStore
  after_events [] s = s
  after_events (e ∷ events) s = after_events events (after_event e s)

-- The calls that a run of the server makes of its store.
pub record IsCallsOf (Allowed : Op → Type 0) (s s' : MemoryStore) : Type 0 where
  pub calls : List Op
  pub allowed : All Allowed calls
  pub reached : s' ≡ run calls s

first_call :
    {Allowed : Op → Type 0} {s s' s'' : MemoryStore}
    → IsCallOf Allowed s s'
    → IsCallsOf Allowed s' s''
    → IsCallsOf Allowed s s''
unfolding run
first_call (no_call same) rest = record {
  calls = rest.calls;
  allowed = rest.allowed;
  reached = rest.reached ∙ ap (run rest.calls) same;
}
first_call (one_call op allowed e) rest = record {
  calls = op ∷ rest.calls;
  allowed = (allowed, rest.allowed);
  reached = rest.reached ∙ ap (run rest.calls) e;
}

module _ (reader : Reader) (Usual : Env → Type 0) (Allowed : Op → Type 0)
    (h : AllowsServer reader Usual Allowed) (token : String) where
  after_event-IsCallOf :
      (e : Event reader) (s : MemoryStore)
      → IsUsual Usual e
      → IsCallOf Allowed s (after_event reader token e s)
  unfolding after_event health_tick apply
  after_event-IsCallOf (request env r) s usual =
      serve-IsCallOf reader Usual Allowed h token env r s usual
  after_event-IsCallOf (tick env threshold) s usual =
      one_call (mark_stale env.now threshold) (h.checks env.now threshold) refl

  pub after_events-IsCallsOf :
      (events : List (Event reader)) (s : MemoryStore)
      → All (IsUsual Usual) events
      → IsCallsOf Allowed s (after_events reader token events s)
  unfolding after_events run
  after_events-IsCallsOf [] s usual = record { calls = []; allowed = tt; reached = refl }
  after_events-IsCallsOf (e ∷ events) s (now, later) =
      first_call (after_event-IsCallOf e s now)
        (after_events-IsCallsOf events (after_event reader token e s) later)

-- Whatever requests a server is sent after its start, valid or not, and however its health checks
-- fall among them: its store is well-formed, and no job in it has been started more often than its
-- `max_retries`, or once if that is 0. It is assumed of `encoding/json` that a decoded `int` fits its
-- 64 bits.
pub server_attempts_bounded :
    (d : Decoder) (token : String) (events : List (Event (json_reader d))) (k : String) (j : Job)
    → DecodesInt64 d
    → lookup k (after_events (json_reader d) token events new_memory_store).jobs ≡ some j
    → IsWellFormed (after_events (json_reader d) token events new_memory_store)
      × (pos 0 ≤ℤ j.attempt_count)
      × ((j.attempt_count ≤ℤ j.max_retries) ⊎ (j.attempt_count ≤ℤ pos 1))
server_attempts_bounded d token events k j fits stored =
    let h = api_calls (json_reader d) (json_reader-IsInRange d fits) in
    let c =
      after_events-IsCallsOf (json_reader d) AnyEnv IsApiCall h token events new_memory_store
        (AnyEnv-IsUsual events) in
    let bounds =
      run-attempts_bounded c.calls k j c.allowed
        (ap (λ (m : MemoryStore). lookup k m.jobs) (sym c.reached) ∙ stored) in
    (subst IsWellFormed (sym c.reached) (run-IsWellFormed c.calls), bounds.0, bounds.1)
