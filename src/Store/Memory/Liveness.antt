-- ===== src/Store/Memory/Liveness.antt =====
-- What a health check and a heartbeat mean for an agent.
use golang_assignment.Prelude.{
  inr, inl, ℕ, ◌+◌, ◌-◌, ◌≤◌, String, ◌≡◌, ◌≢◌, refl, sym, ap, false, Option, none, some, [], ◌∷◌,
  arith, eq_iff, eq_refl, ◌∙◌, Option-cases,
}
use golang_assignment.GoMap.{
  insert-HasDistinctKeys, lookup-insert_self, GoMap, lookup, HasDistinctKeys,
}
use golang_assignment.Model.Entity.{Time, Agent}
use golang_assignment.Model.Status.{online}
use golang_assignment.Store.Memory.{put_agent, MemoryStore, heartbeat, mark_stale_agents_offline}
use golang_assignment.Store.Memory.Health.{
  is_stale, marked, count_stale, lookup-mark_stale, count-mark_stale, mark_stale-HasDistinctKeys,
}
use golang_assignment.Store.Memory.Invariant.{IsWellFormed}
use mathlib.Core.Option

no_stale :
    (cutoff : Time) (agents : GoMap Agent)
    → HasDistinctKeys agents
    → ((k : String) (a : Agent) → lookup k agents ≡ some a → is_stale cutoff a ≡ false)
    → count_stale cutoff agents ≡ 0
unfolding lookup
no_stale cutoff [] d h = refl
no_stale cutoff ((k, a) ∷ m) (fresh, d) h =
    let rest = no_stale cutoff m d (λ j b e. h j b (ground (arith, eq_iff k j))) in
    ground (arith, rest, h k a, eq_refl k)

marked_not_stale :
    (cutoff : Time) (o : Option Agent) (a : Agent)
    → Option.map (marked cutoff) o ≡ some a
    → is_stale cutoff a ≡ false
marked_not_stale cutoff none a e = cc
marked_not_stale cutoff (some b) a e = ground arith

-- After a health check of a well-formed store no agent is online whose last heartbeat is older than the threshold: a second
-- check at the same time finds none to mark. The first check counted exactly the agents that it
-- marked, and every agent is found as before but for those, which are offline.
pub mark_stale_lem :
    (now : Time) (threshold : ℕ) (m : MemoryStore)
    → IsWellFormed m
    → ((k : String)
        → lookup k (mark_stale_agents_offline now threshold m).1.agents
          ≡ Option.map (marked (now - threshold)) (lookup k m.agents))
      × ((mark_stale_agents_offline now threshold m).0 ≡ count_stale (now - threshold) m.agents)
      × ((mark_stale_agents_offline now threshold (mark_stale_agents_offline now threshold m).1).0
          ≡ 0)
mark_stale_lem now threshold m h =
    let m' = (mark_stale_agents_offline now threshold m).1 in
    (
      λ k. lookup-mark_stale now threshold m k h.agents_distinct,
      count-mark_stale now threshold m,
      count-mark_stale now threshold m'
          ∙ no_stale (now - threshold) m'.agents
              (mark_stale-HasDistinctKeys now threshold m h.agents_distinct)
              (λ k a e.
                marked_not_stale (now - threshold) (lookup k m.agents) a
                  (sym (lookup-mark_stale now threshold m k h.agents_distinct) ∙ e)),
    )

pub recent_unmarked :
    (beat now : Time) (threshold : ℕ) (a : Agent)
    → a.last_seen ≡ beat
    → now ≤ beat + threshold
    → marked (now - threshold) a ≡ a
recent_unmarked beat now threshold a e recent = ground arith

-- A registered agent of a well-formed store whose heartbeat came at most `threshold` before a health
-- check is online after it, last seen at its heartbeat.
pub heartbeat_survives :
    (beat now : Time) (threshold : ℕ) (id : String) (m : MemoryStore)
    → IsWellFormed m
    → lookup id m.agents ≢ none
    → now ≤ beat + threshold
    → (a : Agent) × (lookup id
          (mark_stale_agents_offline now threshold (heartbeat beat id m).1).1.agents
        ≡ some a)
      × (a.status ≡ online)
      × (a.last_seen ≡ beat)
unfolding heartbeat
heartbeat_survives beat now threshold id m h known recent =
    elim (Option-cases (lookup id m.agents)) [
      | inl missing ↦ absurd (known missing)
      | inr (agent, found) ↦
          let a = record agent { last_seen = beat; status = online } in
          (
            a,
            rw (found, heartbeat)
                (lookup-mark_stale now threshold (put_agent id a m) id
                    (insert-HasDistinctKeys id a m.agents h.agents_distinct)
                  ∙ ap (Option.map (marked (now - threshold))) (lookup-insert_self id a m.agents)
                  ∙ ap some (recent_unmarked beat now threshold a refl recent)),
            refl,
            refl,
          )
    ]
