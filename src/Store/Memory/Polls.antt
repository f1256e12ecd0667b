-- ===== src/Store/Memory/Polls.antt =====
-- Polls by agents with the same capabilities, one after the other.
use mathlib.Core.Path.{subst}
use golang_assignment.Prelude.{
  ℕ, zero, suc, String, ◌≡◌, ◌≢◌, sym, ap, refl, inl, inr, Option, none, some, List, [], ◌∷◌, ◌++◌,
  All, length, ◌∙◌,
}
use golang_assignment.Prelude.Result.{Result, ok}
use golang_assignment.GoMap.{lookup}
use golang_assignment.Model.Entity.{Time, Job}
use golang_assignment.Model.Status.{JobType}
use golang_assignment.Store.Memory.{MemoryStore, assign_next_job}
use golang_assignment.Store.Memory.Assign.{
  NextJob, unregistered, no_job, next_job, assign_next_job-NextJob,
}
use golang_assignment.Store.Memory.Invariant.{IsWellFormed}
use golang_assignment.Store.Memory.Queue.{queue, IsPopped, NextJob-IsPopped}
use golang_assignment.Store.Memory.Steps.{assign, apply}
use golang_assignment.Store.Memory.WellFormed.{apply-IsWellFormed}

-- The IDs that a sequence of polls by agents with the same capabilities is given.
abbrev pub returned : Result (Option Job) → List String
returned (ok (some job)) = job.id ∷ []
returned _ = []

pub served : List JobType → List (Time × String) → MemoryStore → List String
served capabilities [] m = []
served capabilities ((now, agent_id) ∷ polls) m =
    let (r, m') = assign_next_job now agent_id capabilities m in
    returned r ++ served capabilities polls m'

abbrev pub take : ℕ → List String → List String
take zero xs = []
take (suc n) [] = []
take (suc n) (x ∷ xs) = x ∷ take n xs

take_nil : (n : ℕ) → take n [] ≡ []
take_nil zero = refl
take_nil (suc n) = refl

served_step :
    (capabilities : List JobType) (m : MemoryStore) (r : Result (Option Job) × MemoryStore) (n : ℕ)
    (rest : List String)
    → IsPopped capabilities m r
    → rest ≡ take n (queue capabilities r.1)
    → returned r.0 ++ rest ≡ take (suc n) (queue capabilities m)
served_step capabilities m r n rest (inl (empty, same)) e = rw empty (
    rw (ap (λ (q : Result (Option Job) × MemoryStore). returned q.0) same) (
      e
      ∙ ap (λ (q : Result (Option Job) × MemoryStore). take n (queue capabilities q.1)) same
      ∙ ap (take n) empty
      ∙ take_nil n))
served_step capabilities m r n rest (inr (job, got, popped)) e = rw (got, popped, e) refl

pub assign_keeps_agents :
    (now : Time) (agent_id : String) (capabilities : List JobType) (m : MemoryStore)
    {r : Result (Option Job) × MemoryStore}
    → NextJob now agent_id capabilities m r
    → r.1.agents ≡ m.agents
assign_keeps_agents now agent_id capabilities m (unregistered missing e) =
    ap (λ (q : Result (Option Job) × MemoryStore). q.1.agents) e
assign_keeps_agents now agent_id capabilities m (no_job known rest e) =
    ap (λ (q : Result (Option Job) × MemoryStore). q.1.agents) e
assign_keeps_agents now agent_id capabilities m (next_job id job known first e) =
    ap (λ (q : Result (Option Job) × MemoryStore). q.1.agents) e

-- In a well-formed store, polls by registered agents with the same capabilities serve the waiting jobs in the order of the
-- queue, each once: n polls return the first n IDs, so a job with fewer than n others before it in
-- the queue is among them.
pub served-eq-take :
    (capabilities : List JobType) (polls : List (Time × String)) (m : MemoryStore)
    → IsWellFormed m
    → All (λ p. lookup p.1 m.agents ≢ none) polls
    → served capabilities polls m ≡ take (length polls) (queue capabilities m)
unfolding served apply
served-eq-take capabilities [] m h known = refl
served-eq-take capabilities ((now, agent_id) ∷ polls) m h (here, later) =
    let promise = assign_next_job-NextJob now agent_id capabilities m in
    let r = assign_next_job now agent_id capabilities m in
    served_step capabilities m r (length polls) (served capabilities polls r.1)
      (NextJob-IsPopped h here promise)
      (served-eq-take capabilities polls r.1
        (apply-IsWellFormed (assign now agent_id capabilities) m h)
        (subst (λ agents. All (λ p. lookup p.1 agents ≢ none) polls)
          (sym (assign_keeps_agents now agent_id capabilities m promise)) later))
