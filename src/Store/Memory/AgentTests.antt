-- ===== src/Store/Memory/AgentTests.antt =====
-- Agents on concrete inputs: tests, and the theorems at inputs that meet their hypotheses.

use mathlib.Core.List.{Perm}
use golang_assignment.Prelude.{◌-◌, String, ◌≡◌, refl, List, [], ◌∷◌, arith}
use golang_assignment.Prelude.Result.{ok}
use golang_assignment.GoMap.{lookup}
use golang_assignment.Model.Entity.{Agent}
use golang_assignment.Model.Status.{wait}
use golang_assignment.Store.Memory.{heartbeat, list_agents, values, mark_stale_agents_offline}
use golang_assignment.Store.Memory.AgentList.{IsSortedById, list_agents_sorted}
use golang_assignment.Store.Memory.Fixture.{store_code, agent, ready, ready-IsWellFormed}
use golang_assignment.Store.Memory.Health.{marked, count_stale}
use golang_assignment.Store.Memory.Liveness.{mark_stale_lem}
use golang_assignment.Store.Memory.Online.{run-online, IsOnlineSince}
use golang_assignment.Store.Memory.Steps.{assign, mark_stale, beat, run, Op}
use mathlib.Core.Option

list_agents_sorted_example :
    (agents : List Agent) × (list_agents ready ≡ ok agents)
    × IsSortedById agents
    × Perm agents (values ready.agents)
list_agents_sorted_example = list_agents_sorted ready ready-IsWellFormed

list_agents_test : list_agents ready ≡ ok (agent "a" ∷ agent "b" ∷ [])
unfolding store_code
list_agents_test = refl

mark_stale_lem_example :
    ((k : String)
      → lookup k (mark_stale_agents_offline 200 50 ready).1.agents
        ≡ Option.map (marked (200 - 50)) (lookup k ready.agents))
    × ((mark_stale_agents_offline 200 50 ready).0 ≡ count_stale (200 - 50) ready.agents)
    × ((mark_stale_agents_offline 200 50 (mark_stale_agents_offline 200 50 ready).1).0 ≡ 0)
mark_stale_lem_example = mark_stale_lem 200 50 ready ready-IsWellFormed

mark_stale_test : (mark_stale_agents_offline 200 50 (heartbeat 170 "a" ready).1).0 ≡ 1
unfolding store_code
mark_stale_test = refl

-- two heartbeats, each in time for the check after it
abbrev beats : List Op
beats =
    beat 120 "a"
    ∷ mark_stale 140 30
    ∷ assign 141 "a" (wait ∷ [])
    ∷ beat 150 "a"
    ∷ beat 155 "b"
    ∷ mark_stale 175 30
    ∷ []

ready-IsOnlineSince : IsOnlineSince "a" 100 ready
unfolding store_code
ready-IsOnlineSince = record { agent = agent "a"; found = refl; status = refl; last_seen = refl }

run-online_example : IsOnlineSince "a" 150 (run beats ready)
run-online_example =
    run-online "a" 100 beats ready ready-IsWellFormed
      (tt, (omega arith, (tt, (tt, (tt, (omega arith, tt)))))) ready-IsOnlineSince
