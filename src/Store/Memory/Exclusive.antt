-- ===== src/Store/Memory/Exclusive.antt =====
-- No job is handed to two agents at once.
use mathlib.Core.Path.{subst}
use golang_assignment.Prelude.{
  String, ◌≡◌, ◌≢◌, sym, ap, refl, true, Option, some, List, arith, All, ◌∙◌,
}
use golang_assignment.Prelude.Result.{Result, ok}
use golang_assignment.GoMap.{lookup, lookup-insert_self}
use golang_assignment.Model.Entity.{Time, Job}
use golang_assignment.Model.Status.{JobType, running, is_pending}
use golang_assignment.Store.Memory.{MemoryStore, assign_next_job}
use golang_assignment.Store.Memory.Assign.{
  NextJob, unregistered, no_job, next_job, assignment, is_eligible, assign_next_job-NextJob,
}
use golang_assignment.Store.Memory.Held.{LeavesAlone, run-held}
use golang_assignment.Store.Memory.Invariant.{IsWellFormed}
use golang_assignment.Store.Memory.Steps.{assign, Op, apply, run, run_induction}
use golang_assignment.Store.Memory.WellFormed.{apply-IsWellFormed}

-- What it means that a call handed out `job`: it was waiting before, and is stored RUNNING after.
pub record IsHandedOut (m m' : MemoryStore) (job : Job) : Type 0 where
  pub old : Job
  pub stored_before : lookup job.id m.jobs ≡ some old
  pub waiting : is_pending old.status ≡ true
  pub stored_after : lookup job.id m'.jobs ≡ some job
  pub running_now : job.status ≡ running

ok_some-inj :
    {a b : Job} {m n : MemoryStore}
    → ◌≡◌ {A = Result (Option Job) × MemoryStore} (ok (some a), m) (ok (some b), n)
    → (a ≡ b) × (m ≡ n)
ok_some-inj e = (cc, cc)

eligible_waits :
    (capabilities : List JobType) (job : Job)
    → is_eligible capabilities job ≡ true
    → is_pending job.status ≡ true
eligible_waits capabilities job h = ground arith

pub NextJob-IsHandedOut :
    {now : Time} {agent_id : String} {capabilities : List JobType} {m m' : MemoryStore} {job : Job}
    {r : Result (Option Job) × MemoryStore}
    → IsWellFormed m
    → NextJob now agent_id capabilities m r
    → r ≡ (ok (some job), m')
    → IsHandedOut m m' job
NextJob-IsHandedOut h (unregistered missing e) p = cc
NextJob-IsHandedOut h (no_job known rest e) p = cc
NextJob-IsHandedOut {now} {agent_id} {capabilities} {m} {m'} {job} h (next_job id old known first e)
      p =
    let (same, state) = ok_some-inj (sym e ∙ p) in
    let own : job.id ≡ id = sym (ap (λ (j : Job). j.id) same) ∙ h.job_ids id old first.stored in
    record {
      old = old;
      stored_before = subst (λ k. lookup k m.jobs ≡ some old) (sym own) first.stored;
      waiting = eligible_waits capabilities old first.eligible;
      stored_after =
          subst (λ k. lookup k m'.jobs ≡ some job) (sym own)
            (rw (← state)
              (lookup-insert_self id (assignment now agent_id old) m.jobs ∙ ap some same));
      running_now = sym (ap (λ (j : Job). j.status) same);
    }

not_both :
    (old job : Job) → some old ≡ some job → is_pending old.status ≡ true → job.status ≡ running → ⊥
not_both old job e w r = ground arith

-- In a well-formed store, a job that `AssignNextJob` returned is not returned again, to any agent, until it has been
-- completed, canceled or replaced: after every sequence of other calls, the job that the next
-- assignment returns has another ID.
pub assign_next_job_exclusive :
    (now later : Time) (agent other_agent : String) (capabilities other_capabilities : List JobType)
    (m m' m'' : MemoryStore) (job next : Job) (ops : List Op)
    → IsWellFormed m
    → assign_next_job now agent capabilities m ≡ (ok (some job), m')
    → All (LeavesAlone job.id) ops
    → assign_next_job later other_agent other_capabilities (run ops m') ≡ (ok (some next), m'')
    → next.id ≢ job.id
unfolding apply
assign_next_job_exclusive now later agent other_agent capabilities other_capabilities m m' m'' job
      next ops h first quiet second same =
    let a = NextJob-IsHandedOut h (assign_next_job-NextJob now agent capabilities m) first in
    let sound : IsWellFormed m' =
      subst IsWellFormed (ap (λ (r : Result (Option Job) × MemoryStore). r.1) first)
        (apply-IsWellFormed (assign now agent capabilities) m h) in
    let still = run-held ops job.id job m' a.stored_after (rw a.running_now refl) quiet in
    let b =
      NextJob-IsHandedOut (run_induction IsWellFormed apply-IsWellFormed ops m' sound)
        (assign_next_job-NextJob later other_agent other_capabilities (run ops m')) second in
    not_both b.old job
      (sym (subst (λ k. lookup k (run ops m').jobs ≡ some b.old) same b.stored_before) ∙ still)
      b.waiting a.running_now
