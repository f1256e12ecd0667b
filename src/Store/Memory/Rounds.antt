-- ===== src/Store/Memory/Rounds.antt =====
-- Rounds of an agent on the store: it is given a job and reports a result. What the agent does with the
-- job is open: each round has a function that gives the report.
use golang_assignment.Prelude.{
  String, ◌≡◌, ◌≢◌, refl, ap, ◌∙◌, ◌⊎◌, Option, none, some, List, [], ◌∷◌,
}
use golang_assignment.Prelude.Result.{Result, ok, err}
use golang_assignment.GoMap.{lookup, lookup-insert_self}
use golang_assignment.Model.Entity.{Time, Job}
use golang_assignment.Model.Status.{JobStatus, JobType, success, failed}
use golang_assignment.Model.Value.{Payload}
use golang_assignment.Store.Memory.{
  MemoryStore, put_job, assign_next_job, complete_job, completed_job,
}
use golang_assignment.Store.Memory.Assign.{
  NextJob, unregistered, no_job, next_job, IsFirst, assignment, NoneEligible,
  assign_next_job-NextJob,
}
use golang_assignment.Store.Memory.Invariant.{IsWellFormed}
use golang_assignment.Store.Memory.Steps.{Op, assign, complete, apply}

pub record Report : Type 0 where
  pub status : JobStatus
  pub logs : List String
  pub result : Option Payload
  pub error : String

pub record Round : Type 0 where
  pub asked : Time
  pub reported : Time
  pub report : Job → Report

-- A report that the API takes.
abbrev pub IsFinalReport : Report → Type 0
IsFinalReport r = (r.status ≡ success) ⊎ (r.status ≡ failed)

abbrev pub IsAnswered : Round → Type 0
IsAnswered r = (job : Job) → IsFinalReport (r.report job)

unfoldable pub submitted : Time → String → Report → MemoryStore → MemoryStore
submitted now id r m = (complete_job now id r.status r.logs r.result r.error m).1

unfoldable pub after_round : Round → Result (Option Job) × MemoryStore → MemoryStore
unfolding submitted
after_round r (ok (some job), m) = submitted r.reported job.id (r.report job) m
after_round r (_, m) = m

unfoldable pub work : String → List JobType → Round → MemoryStore → MemoryStore
unfolding after_round
work agent_id capabilities r m = after_round r (assign_next_job r.asked agent_id capabilities m)

unfoldable pub work_all : String → List JobType → List Round → MemoryStore → MemoryStore
unfolding work
work_all agent_id capabilities [] m = m
work_all agent_id capabilities (r ∷ rs) m =
    work_all agent_id capabilities rs (work agent_id capabilities r m)

-- The job as it stands after it was assigned in the round and reported.
abbrev pub worked : Round → String → Job → Job
worked r agent_id job =
    let given = assignment r.asked agent_id job in
    let report = r.report given in
    completed_job r.reported report.status report.logs report.result report.error given

-- What a round of a registered agent does: nothing, if no job is eligible; else the first eligible job,
-- and no other, is assigned and reported.
pub data Worked (agent_id : String) (capabilities : List JobType) (r : Round) (m m' : MemoryStore)
    : Type 0 where
  idle : NoneEligible m capabilities m.job_order → m' ≡ m → Worked agent_id capabilities r m m'
  busy :
      (id : String) (job : Job)
      → IsFirst m capabilities m.job_order id job
      → m' ≡ put_job id (worked r agent_id job) (put_job id (assignment r.asked agent_id job) m)
      → Worked agent_id capabilities r m m'

submitted-stored :
    (now : Time) (id : String) (report : Report) (job : Job) (m : MemoryStore)
    → lookup id m.jobs ≡ some job
    → submitted now id report m
      ≡ put_job id (completed_job now report.status report.logs report.result report.error job) m
unfolding submitted complete_job
submitted-stored now id report job m stored = rw (stored, submitted, complete_job) refl

module _ (agent_id : String) (capabilities : List JobType) (r : Round) (m : MemoryStore) where
  submitted_lem :
      (id : String) (job : Job)
      → job.id ≡ id
      → submitted r.reported job.id
          (r.report (assignment r.asked agent_id job))
          (put_job id (assignment r.asked agent_id job) m)
        ≡ put_job id (worked r agent_id job) (put_job id (assignment r.asked agent_id job) m)
  submitted_lem id job own =
      let given = assignment r.asked agent_id job in
      ap (λ k. submitted r.reported k (r.report given) (put_job id given m)) own
      ∙ submitted-stored r.reported id (r.report given) given (put_job id given m)
          (lookup-insert_self id given m.jobs)

  NextJob-Worked :
      {q : Result (Option Job) × MemoryStore}
      → IsWellFormed m
      → lookup agent_id m.agents ≢ none
      → NextJob r.asked agent_id capabilities m q
      → Worked agent_id capabilities r m (after_round r q)
  unfolding after_round
  NextJob-Worked h known (unregistered missing e) = absurd (known missing)
  NextJob-Worked h known (no_job _ rest e) = idle rest (rw e refl)
  NextJob-Worked h known (next_job id job _ first e) =
      busy id job first (rw e (submitted_lem id job (h.job_ids id job first.stored)))

  pub work-Worked :
      IsWellFormed m
      → lookup agent_id m.agents ≢ none
      → Worked agent_id capabilities r m (work agent_id capabilities r m)
  unfolding work
  work-Worked h known =
      NextJob-Worked h known (assign_next_job-NextJob r.asked agent_id capabilities m)

-- What each call of a kind keeps, a round of such calls keeps.
module _ (P : MemoryStore → Type 0) (Allowed : Op → Type 0)
    (step : (op : Op) (m : MemoryStore) → Allowed op → P m → P (apply op m)) where
  -- The reports of a round are calls of this kind.
  abbrev pub Reports : Round → Type 0
  Reports r =
      (job : Job)
      → Allowed (
          complete r.reported job.id (r.report job).status (r.report job).logs (r.report job).result
            (r.report job).error)

  after_round-keeps :
      (r : Round) (q : Result (Option Job) × MemoryStore) → Reports r → P q.1 → P (after_round r q)
  unfolding after_round apply
  after_round-keeps r (ok (some job), m) answered h =
      let report = r.report job in
      step (complete r.reported job.id report.status report.logs report.result report.error) m
        (answered job) h
  after_round-keeps r (ok none, m) answered h = h
  after_round-keeps r (err e, m) answered h = h

  pub work-keeps :
      (agent_id : String) (capabilities : List JobType) (r : Round) (m : MemoryStore)
      → Allowed (assign r.asked agent_id capabilities)
      → Reports r
      → P m
      → P (work agent_id capabilities r m)
  unfolding work apply
  work-keeps agent_id capabilities r m asks answered h =
      after_round-keeps r (assign_next_job r.asked agent_id capabilities m) answered
        (step (assign r.asked agent_id capabilities) m asks h)
