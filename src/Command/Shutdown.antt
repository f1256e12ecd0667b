-- ===== src/Command/Shutdown.antt =====
-- How the process of cmd/server/main.go ends.
use golang_assignment.Prelude.{
  ℕ, String, ◌≡◌, refl, ap, ◌∙◌, Bool, true, false, List, [], ◌∷◌, ◌++◌, arith, ◌↔◌, All,
}
use golang_assignment.Store.Memory.{MemoryStore}
use golang_assignment.Api.Http.{Reader}
use golang_assignment.Command.Server.{
  Event, Phase, listen_failed, signal, drained, shutdown_failed, request, tick, serving, draining,
  exited, next_phase, step, steps, started,
}

module _ (reader : Reader) where
  -- events that leave a serving process serving, and a draining one draining
  abbrev pub keeps_serving : Event reader → Bool
  keeps_serving listen_failed = false
  keeps_serving signal = false
  keeps_serving _ = true

  abbrev pub keeps_draining : Event reader → Bool
  keeps_draining drained = false
  keeps_draining shutdown_failed = false
  keeps_draining _ = true

  -- A signal, before which the listener has not failed, and then the end of the requests under way,
  -- before which the shutdown has not failed.
  pub record IsGraceful (events : List (Event reader)) : Type 0 where
    pub before : List (Event reader)
    pub during : List (Event reader)
    pub after : List (Event reader)
    pub order : events ≡ before ++ signal ∷ (during ++ drained ∷ after)
    pub served : All (λ e. keeps_serving e ≡ true) before
    pub waited : All (λ e. keeps_draining e ≡ true) during

module _ (reader : Reader) (token : String) where
  abbrev phase_after : List (Event reader) → Phase → MemoryStore → Phase
  phase_after events phase m =
      (steps reader token events (record { phase = phase; store = m })).phase

  exited-steps :
      (events : List (Event reader)) (code : ℕ) (m : MemoryStore)
      → phase_after events (exited code) m ≡ exited code
  unfolding steps step
  exited-steps [] code m = refl
  exited-steps (e ∷ events) code m = exited-steps events code m

  -- From a draining process: the requests end well, whatever follows.
  drained-steps :
      (during after : List (Event reader)) (m : MemoryStore)
      → All (λ e. keeps_draining reader e ≡ true) during
      → phase_after (during ++ drained ∷ after) draining m ≡ exited 0
  unfolding steps step next_phase
  drained-steps [] after m h = exited-steps after 0 m
  drained-steps (drained ∷ during) after m (h, rest) = ground arith
  drained-steps (shutdown_failed ∷ during) after m (h, rest) = ground arith
  drained-steps (request env r ∷ during) after m (h, rest) = drained-steps during after _ rest
  drained-steps (tick env ∷ during) after m (h, rest) = drained-steps during after _ rest
  drained-steps (listen_failed ∷ during) after m (h, rest) = drained-steps during after m rest
  drained-steps (signal ∷ during) after m (h, rest) = drained-steps during after m rest

  signal-steps :
      (before during after : List (Event reader)) (m : MemoryStore)
      → All (λ e. keeps_serving reader e ≡ true) before
      → All (λ e. keeps_draining reader e ≡ true) during
      → phase_after (before ++ signal ∷ (during ++ drained ∷ after)) serving m ≡ exited 0
  unfolding steps step next_phase
  signal-steps [] during after m h k = drained-steps during after m k
  signal-steps (listen_failed ∷ before) during after m (h, rest) k = ground arith
  signal-steps (signal ∷ before) during after m (h, rest) k = ground arith
  signal-steps (request env r ∷ before) during after m (h, rest) k =
      signal-steps before during after _ rest k
  signal-steps (tick env ∷ before) during after m (h, rest) k =
      signal-steps before during after _ rest k
  signal-steps (drained ∷ before) during after m (h, rest) k =
      signal-steps before during after m rest k
  signal-steps (shutdown_failed ∷ before) during after m (h, rest) k =
      signal-steps before during after m rest k

  -- the events of a draining process up to the end of the requests
  record IsDrained (events : List (Event reader)) : Type 0 where
    during : List (Event reader)
    after : List (Event reader)
    order : events ≡ during ++ drained ∷ after
    waited : All (λ e. keeps_draining reader e ≡ true) during

  longer_wait :
      (e : Event reader) (events : List (Event reader))
      → keeps_draining reader e ≡ true
      → IsDrained events
      → IsDrained (e ∷ events)
  longer_wait e events keeps d = record {
    during = e ∷ d.during;
    after = d.after;
    order = ap (λ l. e ∷ l) d.order;
    waited = (keeps, d.waited);
  }

  draining-IsDrained :
      (events : List (Event reader)) (m : MemoryStore)
      → phase_after events draining m ≡ exited 0
      → IsDrained events
  unfolding steps step next_phase
  draining-IsDrained [] m e = ground arith
  draining-IsDrained (drained ∷ events) m e = record {
    during = [];
    after = events;
    order = refl;
    waited = tt;
  }
  draining-IsDrained (shutdown_failed ∷ events) m e = ground (arith, exited-steps events 1 m)
  draining-IsDrained (request env r ∷ events) m e =
      longer_wait (request env r) events refl (draining-IsDrained events _ e)
  draining-IsDrained (tick env ∷ events) m e =
      longer_wait (tick env) events refl (draining-IsDrained events _ e)
  draining-IsDrained (listen_failed ∷ events) m e =
      longer_wait listen_failed events refl (draining-IsDrained events m e)
  draining-IsDrained (signal ∷ events) m e =
      longer_wait signal events refl (draining-IsDrained events m e)

  later_signal :
      (e : Event reader) (events : List (Event reader))
      → keeps_serving reader e ≡ true
      → IsGraceful reader events
      → IsGraceful reader (e ∷ events)
  later_signal e events keeps g = record {
    before = e ∷ g.before;
    during = g.during;
    after = g.after;
    order = ap (λ l. e ∷ l) g.order;
    served = (keeps, g.served);
    waited = g.waited;
  }

  serving-IsGraceful :
      (events : List (Event reader)) (m : MemoryStore)
      → phase_after events serving m ≡ exited 0
      → IsGraceful reader events
  unfolding steps step next_phase
  serving-IsGraceful [] m e = ground arith
  serving-IsGraceful (listen_failed ∷ events) m e = ground (arith, exited-steps events 1 m)
  serving-IsGraceful (signal ∷ events) m e =
      let d = draining-IsDrained events m e in
      record {
        before = [];
        during = d.during;
        after = d.after;
        order = ap (λ l. signal ∷ l) d.order;
        served = tt;
        waited = d.waited;
      }
  serving-IsGraceful (request env r ∷ events) m e =
      later_signal (request env r) events refl (serving-IsGraceful events _ e)
  serving-IsGraceful (tick env ∷ events) m e =
      later_signal (tick env) events refl (serving-IsGraceful events _ e)
  serving-IsGraceful (drained ∷ events) m e =
      later_signal drained events refl (serving-IsGraceful events m e)
  serving-IsGraceful (shutdown_failed ∷ events) m e =
      later_signal shutdown_failed events refl (serving-IsGraceful events m e)

  -- Once it serves, the process ends with code 0 exactly if a signal comes before the listener has
  -- failed, and the requests under way are then done before the shutdown has failed.
  pub exit_zero_iff :
      (events : List (Event reader))
      → ((steps reader token events started).phase ≡ exited 0) ↔ IsGraceful reader events
  exit_zero_iff events = (
    serving-IsGraceful events started.store,
    λ g.
        ap (λ (l : List (Event reader)). phase_after l serving started.store) g.order
        ∙ signal-steps g.before g.during g.after started.store g.served g.waited,
  )
