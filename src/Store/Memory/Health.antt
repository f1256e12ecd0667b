-- ===== src/Store/Memory/Health.antt =====
-- `MarkStaleAgentsOffline`: the loop over the agents, entry by entry.
use golang_assignment.Prelude.{
  if_keeps, ℕ, ◌+◌, ◌-◌, String, ◌≡◌, refl, Bool, ◌&&◌, Option, none, some, [], ◌∷◌, arith, eq_iff,
  ltb, if◌then◌else◌,
}
use golang_assignment.GoMap.{
  GoMap, lookup, insert, lookup-insert, HasDistinctKeys, insert-HasDistinctKeys,
}
use golang_assignment.Model.Entity.{Time, Agent}
use golang_assignment.Model.Status.{offline, is_online}
use golang_assignment.Store.Memory.{MemoryStore, mark_from, mark_stale_agents_offline}
use mathlib.Core.Option

-- Online, and last seen before the cutoff.
abbrev pub is_stale : Time → Agent → Bool
is_stale cutoff a = is_online a.status && ltb a.last_seen cutoff

abbrev pub marked : Time → Agent → Agent
marked cutoff a = if is_stale cutoff a then record a { status = offline } else a

abbrev marked? : Time → Option Agent → Option Agent → Option Agent
marked? cutoff none before = before
marked? cutoff (some a) before =
    if is_stale cutoff a then some (record a { status = offline }) else before

module _ (cutoff : Time) where
  lookup-mark_from :
      (todo agents : GoMap Agent) (n : ℕ) (k : String)
      → HasDistinctKeys todo
      → lookup k (mark_from cutoff todo agents n).1
        ≡ marked? cutoff (lookup k todo) (lookup k agents)
  unfolding mark_from lookup
  lookup-mark_from [] agents n k h = refl
  lookup-mark_from ((i, a) ∷ todo) agents n k (fresh, h) =
      let stale = is_stale cutoff a in
      let agents' = if stale then insert i (record a { status = offline }) agents else agents in
      ground (
        arith,
        lookup-mark_from todo agents' (if stale then n + 1 else n) k h,
        lookup-insert i k (record a { status = offline }) agents,
        eq_iff i k,
      )

  -- how many entries are stale
  abbrev pub count_stale : GoMap Agent → ℕ
  count_stale [] = 0
  count_stale ((k, a) ∷ m) = (if is_stale cutoff a then 1 else 0) + count_stale m

  count-mark_from :
      (todo agents : GoMap Agent) (n : ℕ)
      → (mark_from cutoff todo agents n).0 ≡ n + count_stale todo
  unfolding mark_from
  count-mark_from [] agents n = omega arith
  count-mark_from ((i, a) ∷ todo) agents n =
      let stale = is_stale cutoff a in
      let agents' = if stale then insert i (record a { status = offline }) agents else agents in
      ground (arith, count-mark_from todo agents' (if stale then n + 1 else n))

  mark_from-HasDistinctKeys :
      (todo agents : GoMap Agent) (n : ℕ)
      → HasDistinctKeys agents
      → HasDistinctKeys (mark_from cutoff todo agents n).1
  unfolding mark_from
  mark_from-HasDistinctKeys [] agents n h = h
  mark_from-HasDistinctKeys ((i, a) ∷ todo) agents n h =
      let stale = is_stale cutoff a in
      let a' = record a { status = offline } in
      mark_from-HasDistinctKeys todo (if stale then insert i a' agents else agents)
        (if stale then n + 1 else n)
        (if_keeps HasDistinctKeys stale (insert-HasDistinctKeys i a' agents h) h)

module _ (now : Time) (threshold : ℕ) (m : MemoryStore) where
  -- Each agent is found as before, but for the stale ones, which are offline.
  pub lookup-mark_stale :
      (k : String)
      → HasDistinctKeys m.agents
      → lookup k (mark_stale_agents_offline now threshold m).1.agents
        ≡ Option.map (marked (now - threshold)) (lookup k m.agents)
  unfolding mark_stale_agents_offline
  lookup-mark_stale k h = ground (arith, lookup-mark_from (now - threshold) m.agents m.agents 0 k h)

  pub count-mark_stale :
      (mark_stale_agents_offline now threshold m).0 ≡ count_stale (now - threshold) m.agents
  unfolding mark_stale_agents_offline
  count-mark_stale = omega (arith, count-mark_from (now - threshold) m.agents m.agents 0)

  pub mark_stale-HasDistinctKeys :
      HasDistinctKeys m.agents
      → HasDistinctKeys (mark_stale_agents_offline now threshold m).1.agents
  unfolding mark_stale_agents_offline
  mark_stale-HasDistinctKeys h = mark_from-HasDistinctKeys (now - threshold) m.agents m.agents 0 h

  pub jobs-mark_stale : (mark_stale_agents_offline now threshold m).1.jobs ≡ m.jobs
  unfolding mark_stale_agents_offline
  jobs-mark_stale = refl

  pub job_order-mark_stale : (mark_stale_agents_offline now threshold m).1.job_order ≡ m.job_order
  unfolding mark_stale_agents_offline
  job_order-mark_stale = refl

-- The loop keeps each agent's ID.
pub id-marked :
    (cutoff : Time) (o : Option Agent) (k : String) (a : Agent)
    → ((b : Agent) → o ≡ some b → b.id ≡ k)
    → Option.map (marked cutoff) o ≡ some a
    → a.id ≡ k
id-marked cutoff none k a h e = cc
id-marked cutoff (some b) k a h e = ground (arith, h b)
