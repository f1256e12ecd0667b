-- ===== src/Store/Memory/Online.antt =====
-- An agent whose heartbeats come in time stays online.
use golang_assignment.Prelude.{
  Bool-cases, ℕ, ◌+◌, ◌-◌, ◌≤◌, String, ◌≡◌, refl, ap, ◌∙◌, some, List, [], ◌∷◌, ◌==◌,
  if◌then◌else◌, arith, eq_iff, Option-cases, inl, inr,
}
use golang_assignment.GoMap.{lookup, lookup-insert}
use golang_assignment.Model.Entity.{Time, Agent}
use golang_assignment.Model.Status.{online}
use golang_assignment.Store.Memory.{
  MemoryStore, create_job, update_job, cancel_job, register_agent, heartbeat, complete_job,
  mark_stale_agents_offline,
}
use golang_assignment.Store.Memory.Assign.{assign_next_job-NextJob}
use golang_assignment.Store.Memory.Health.{marked, lookup-mark_stale}
use golang_assignment.Store.Memory.Invariant.{IsWellFormed}
use golang_assignment.Store.Memory.Liveness.{recent_unmarked}
use golang_assignment.Store.Memory.Polls.{assign_keeps_agents}
use golang_assignment.Store.Memory.Steps.{
  Op, create, update, cancel, register, beat, assign, complete, mark_stale, apply, run,
}
use golang_assignment.Store.Memory.WellFormed.{apply-IsWellFormed}
use mathlib.Core.Option

-- when an agent was last seen after an operation
abbrev pub seen_after : String → Time → Op → Time
seen_after id last (register a) = if a.id == id then a.last_seen else last
seen_after id last (beat now k) = if k == id then now else last
seen_after id last op = last

abbrev pub last_beat : String → Time → List Op → Time
last_beat id last [] = last
last_beat id last (op ∷ ops) = last_beat id (seen_after id last op) ops

-- A health check comes within its threshold of the time when the agent was last seen, and a
-- registration is of an agent that is online.
abbrev pub IsInTime : String → Time → Op → Type 0
IsInTime id last (mark_stale now threshold) = now ≤ last + threshold
IsInTime id last (register a) = a.status ≡ online
IsInTime id last op = Unit

abbrev pub KeepsBeating : String → Time → List Op → Type 0
KeepsBeating id last [] = Unit
KeepsBeating id last (op ∷ ops) = IsInTime id last op × KeepsBeating id (seen_after id last op) ops

-- an agent that is online, and was last seen at a time
pub record IsOnlineSince (id : String) (last : Time) (m : MemoryStore) : Type 0 where
  pub agent : Agent
  pub found : lookup id m.agents ≡ some agent
  pub status : agent.status ≡ online
  pub last_seen : agent.last_seen ≡ last

same_agents :
    {id : String} {last : Time} {m m' : MemoryStore}
    → m'.agents ≡ m.agents
    → IsOnlineSince id last m
    → IsOnlineSince id last m'
same_agents {id} e o = record {
  agent = o.agent;
  found = ap (lookup id) e ∙ o.found;
  status = o.status;
  last_seen = o.last_seen;
}

module _ (id : String) (last : Time) (m : MemoryStore) (o : IsOnlineSince id last m) where
  register-IsOnlineSince :
      (a : Agent)
      → a.status ≡ online
      → IsOnlineSince id (if a.id == id then a.last_seen else last) (register_agent a m).1
  unfolding register_agent
  register-IsOnlineSince a up = elim (Bool-cases (a.id == id)) [
    | inl same ↦ record {
      agent = a;
      found = rw (lookup-insert a.id id a m.agents, same) refl;
      status = up;
      last_seen = rw same refl;
    }
    | inr differs ↦ record {
      agent = o.agent;
      found = rw (lookup-insert a.id id a m.agents, differs) o.found;
      status = o.status;
      last_seen = rw differs o.last_seen;
    }
  ]

  beat-IsOnlineSince :
      (now : Time) (k : String)
      → IsOnlineSince id (if k == id then now else last) (heartbeat now k m).1
  unfolding heartbeat
  beat-IsOnlineSince now k = elim (Bool-cases (k == id)) [
    | inl same ↦
        let present : lookup k m.agents ≡ some o.agent =
          ap (λ key. lookup key m.agents) ((eq_iff k id).0 same) ∙ o.found in
        let seen : Agent = record o.agent { last_seen = now; status = online } in
        record {
          agent = seen;
          found = ground (arith, present, lookup-insert k id seen m.agents, same);
          status = refl;
          last_seen = rw same refl;
        }
    | inr differs ↦ record {
      agent = o.agent;
      found = elim (Option-cases (lookup k m.agents)) [
        | inl missing ↦ ground (arith, missing, o.found)
        | inr (a, present) ↦
            let seen : Agent = record a { last_seen = now; status = online } in
            ground (arith, present, lookup-insert k id seen m.agents, differs, o.found)
      ];
      status = o.status;
      last_seen = rw differs o.last_seen;
    }
  ]

  mark_stale-IsOnlineSince :
      (now : Time) (threshold : ℕ)
      → IsWellFormed m
      → now ≤ last + threshold
      → IsOnlineSince id last (mark_stale_agents_offline now threshold m).1
  mark_stale-IsOnlineSince now threshold h recent = record {
    agent = o.agent;
    found =
        lookup-mark_stale now threshold m id h.agents_distinct
        ∙ ap (Option.map (marked (now - threshold))) o.found
        ∙ ap some (recent_unmarked last now threshold o.agent o.last_seen recent);
    status = o.status;
    last_seen = o.last_seen;
  }

apply-IsOnlineSince :
    (op : Op) (id : String) (last : Time) (m : MemoryStore)
    → IsWellFormed m
    → IsInTime id last op
    → IsOnlineSince id last m
    → IsOnlineSince id (seen_after id last op) (apply op m)
unfolding apply create_job update_job cancel_job complete_job
apply-IsOnlineSince (create job) id last m h t o = same_agents (ground arith) o
apply-IsOnlineSince (update job) id last m h t o = same_agents (ground arith) o
apply-IsOnlineSince (cancel now k) id last m h t o = same_agents (ground arith) o
apply-IsOnlineSince (register a) id last m h t o = register-IsOnlineSince id last m o a t
apply-IsOnlineSince (beat now k) id last m h t o = beat-IsOnlineSince id last m o now k
apply-IsOnlineSince (assign now k capabilities) id last m h t o =
    same_agents
      (assign_keeps_agents now k capabilities m (assign_next_job-NextJob now k capabilities m)) o
apply-IsOnlineSince (complete now k status logs result error) id last m h t o =
    same_agents (ground arith) o
apply-IsOnlineSince (mark_stale now threshold) id last m h t o =
    mark_stale-IsOnlineSince id last m o now threshold h t

-- An agent that is online stays online, and was last seen at its last heartbeat, through all calls of a
-- well-formed store by whomever, if each health check among them comes at most its threshold after
-- the agent was last seen, and whoever registers is online.
pub run-online :
    (id : String) (last : Time) (ops : List Op) (m : MemoryStore)
    → IsWellFormed m
    → KeepsBeating id last ops
    → IsOnlineSince id last m
    → IsOnlineSince id (last_beat id last ops) (run ops m)
unfolding run
run-online id last [] m h k o = o
run-online id last (op ∷ ops) m h (t, k) o =
    run-online id (seen_after id last op) ops (apply op m) (apply-IsWellFormed op m h) k
      (apply-IsOnlineSince op id last m h t o)
