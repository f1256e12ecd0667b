-- ===== src/Store/Memory/Held.antt =====
-- A job that is not waiting stays with its agent until it is completed, canceled or replaced.
use mathlib.Core.Path.{subst}
use golang_assignment.Prelude.{
  String, ◌≡◌, ◌≢◌, true, false, Option, some, List, [], ◌∷◌, arith, All, ◌∙◌,
}
use golang_assignment.GoMap.{lookup}
use golang_assignment.Model.Entity.{Job}
use golang_assignment.Model.Status.{is_pending, is_terminal}
use golang_assignment.Store.Memory.{MemoryStore}
use golang_assignment.Store.Memory.Lifecycle.{
  Edge, start, stop, requeue, finish, replace, Effect, kept, born, moved, apply-Effect,
}
use golang_assignment.Store.Memory.Steps.{Op, update, cancel, complete, apply, run}

-- calls that do not complete or replace the job under `k`
abbrev pub LeavesResult : String → Op → Type 0
LeavesResult k (update job) = job.id ≢ k
LeavesResult k (complete now id status logs result error) = id ≢ k
LeavesResult k _ = Unit

-- calls that do not cancel it either
abbrev pub LeavesAlone : String → Op → Type 0
LeavesAlone k (cancel now id) = id ≢ k
LeavesAlone k op = LeavesResult k op

Edge-not_pending :
    {op : Op} {k : String} {job job' : Job}
    → Edge op k job job'
    → is_pending job.status ≡ false
    → LeavesAlone k op
    → ⊥
Edge-not_pending (start {capabilities} {job} e) w c = ground arith
Edge-not_pending (stop e u) w c = c e
Edge-not_pending (requeue e bad left) w c = c e
Edge-not_pending (finish e final) w c = c e
Edge-not_pending (replace e) w c = c e

Edge-not_terminal :
    {op : Op} {k : String} {job job' : Job}
    → Edge op k job job'
    → is_terminal job.status ≡ true
    → LeavesResult k op
    → ⊥
unfolding is_terminal
Edge-not_terminal (start {capabilities} {job} e) w c = ground arith
Edge-not_terminal (stop e u) w c = cc
Edge-not_terminal (requeue e bad left) w c = c e
Edge-not_terminal (finish e final) w c = c e
Edge-not_terminal (replace e) w c = c e

Effect-stays :
    {op : Op} {k : String} {before after : Option Job} {job : Job}
    → Effect op k before after
    → before ≡ some job
    → ((job' : Job) → Edge op k job job' → ⊥)
    → after ≡ some job
Effect-stays (kept e) b no_edge = e ∙ b
Effect-stays (born new o i n e) b no_edge = cc
Effect-stays {op} {k} {job} (moved old job' o edge e) b no_edge =
    let same : old ≡ job = cc in absurd (no_edge job' (subst (λ x. Edge op k x job') same edge))

-- A job that is RUNNING, or in any state but PENDING, is left exactly as it is by every sequence of
-- calls that does not complete, cancel or replace it: assignments to other agents, new jobs,
-- registrations, heartbeats and health checks among them.
pub run-held :
    (ops : List Op) (k : String) (job : Job) (m : MemoryStore)
    → lookup k m.jobs ≡ some job
    → is_pending job.status ≡ false
    → All (LeavesAlone k) ops
    → lookup k (run ops m).jobs ≡ some job
unfolding run
run-held [] k job m stored w c = stored
run-held (op ∷ ops) k job m stored w (c, cs) =
    run-held ops k job (apply op m)
      (Effect-stays (apply-Effect op k m) stored (λ j e. Edge-not_pending e w c)) w cs

-- A job in a terminal state is left as it is by every sequence of calls that submits no result for
-- it and does not replace it; attempts to cancel it are among them.
pub run-terminal :
    (ops : List Op) (k : String) (job : Job) (m : MemoryStore)
    → lookup k m.jobs ≡ some job
    → is_terminal job.status ≡ true
    → All (LeavesResult k) ops
    → lookup k (run ops m).jobs ≡ some job
unfolding run
run-terminal [] k job m stored w c = stored
run-terminal (op ∷ ops) k job m stored w (c, cs) =
    run-terminal ops k job (apply op m)
      (Effect-stays (apply-Effect op k m) stored (λ j e. Edge-not_terminal e w c)) w cs
