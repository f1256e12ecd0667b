-- ===== src/Command/Jobs.antt =====
-- What the process of cmd/server/main.go does to its jobs.
use mathlib.Core.Path.{subst}
use golang_assignment.Prelude.{String, ◌≡◌, refl, sym, ap, ◌∙◌, List, [], ◌∷◌, some, ◌⊎◌}
use golang_assignment.Prelude.Int.{pos, ◌≤ℤ◌}
use golang_assignment.GoMap.{lookup}
use golang_assignment.Model.Entity.{Job}
use golang_assignment.Store.Memory.{MemoryStore, new_memory_store}
use golang_assignment.Store.Memory.Invariant.{IsWellFormed}
use golang_assignment.Api.Http.{Reader, json_reader}
use golang_assignment.Api.Server.Runs.{after_events, server_attempts_bounded}
use golang_assignment.Wire.{Notation}
use golang_assignment.Wire.Body.{wire_decoder}
use golang_assignment.Wire.Decoded.{wire_decoder-DecodesInt64}
use golang_assignment.GoFlag.{Parsed, parsed, help, failed}
use golang_assignment.Command.Server.{
  Settings, Event, Phase, listen_failed, signal, drained, shutdown_failed, request, tick, serving,
  draining, exited, next_phase, step, steps, after_event, settings_of, main, launched,
  offline_after,
}
use golang_assignment.Api.Server.Runs

module _ (reader : Reader) (token : String) where
  -- the requests and the health checks of a run that leads from one store to the other
  pub record IsServed (m m' : MemoryStore) : Type 0 where
    pub events : List (Runs.Event reader)
    pub reached : m' ≡ after_events reader token events m

  untouched : (m : MemoryStore) → IsServed m m
  unfolding after_events
  untouched m = record { events = []; reached = refl }

  -- one event, and what follows it
  event-IsServed :
      (e : Event reader) (m m' : MemoryStore)
      → IsServed (after_event reader token e m) m'
      → IsServed m m'
  unfolding after_event after_events Runs.after_event
  event-IsServed (request env r) m m' s = record {
    events = Runs.request env r ∷ s.events;
    reached = s.reached;
  }
  event-IsServed (tick env) m m' s = record {
    events = Runs.tick env offline_after ∷ s.events;
    reached = s.reached;
  }
  event-IsServed listen_failed m m' s = s
  event-IsServed signal m m' s = s
  event-IsServed drained m m' s = s
  event-IsServed shutdown_failed m m' s = s

  steps-IsServed :
      (events : List (Event reader)) (phase : Phase) (m : MemoryStore)
      → IsServed m (steps reader token events (record { phase = phase; store = m })).store
  unfolding steps step
  steps-IsServed [] phase m = untouched m
  steps-IsServed (e ∷ events) (exited code) m = steps-IsServed events (exited code) m
  steps-IsServed (e ∷ events) serving m =
      event-IsServed e m _
        (steps-IsServed events (next_phase reader token e serving) (after_event reader token e m))
  steps-IsServed (e ∷ events) draining m =
      event-IsServed e m _
        (steps-IsServed events (next_phase reader token e draining) (after_event reader token e m))

pub launched-IsServed :
    (reader : Reader) (p : Parsed Settings) (events : List (Event reader))
    → (token : String) × IsServed reader token new_memory_store (launched reader p events).store
unfolding launched
launched-IsServed reader help events = ("", untouched reader "" new_memory_store)
launched-IsServed reader (failed e) events = ("", untouched reader "" new_memory_store)
launched-IsServed reader (parsed s rest) events =
    (s.auth_token, steps-IsServed reader s.auth_token events serving new_memory_store)

-- Whatever the arguments of the server's process, and whatever happens to it from its start to its exit
-- and beyond: requests with any bodies, health checks, signals and failures, in any order. Its store is
-- well-formed, and no job in it has been started more often than its `max_retries`, or once if that is 0.
pub main_attempts_bounded :
    (n : Notation) (arguments : List String) (events : List (Event (json_reader (wire_decoder n))))
    (k : String) (j : Job)
    → lookup k (main (json_reader (wire_decoder n)) arguments events).store.jobs ≡ some j
    → IsWellFormed (main (json_reader (wire_decoder n)) arguments events).store
      × (pos 0 ≤ℤ j.attempt_count)
      × ((j.attempt_count ≤ℤ j.max_retries) ⊎ (j.attempt_count ≤ℤ pos 1))
unfolding main
main_attempts_bounded n arguments events k j stored =
    let (token, s) =
      launched-IsServed (json_reader (wire_decoder n)) (settings_of arguments) events in
    let bounds =
      server_attempts_bounded (wire_decoder n) token s.events k j (wire_decoder-DecodesInt64 n)
        (ap (λ (m : MemoryStore). lookup k m.jobs) (sym s.reached) ∙ stored) in
    (subst IsWellFormed (sym s.reached) bounds.0, bounds.1, bounds.2)
