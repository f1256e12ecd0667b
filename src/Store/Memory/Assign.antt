-- ===== src/Store/Memory/Assign.antt =====
-- `AssignNextJob` takes the first eligible job of the order.
use mathlib.Core.Path.{subst}
use golang_assignment.Prelude.{
  ◌≢◌, String, ◌≡◌, sym, refl, ap, inl, inr, Bool, true, false, ◌&&◌, Option, none, some, List, [],
  ◌∷◌, ◌++◌, arith, All, Option-cases, Bool-cases,
}
use golang_assignment.Prelude.Int.{incr}
use golang_assignment.Prelude.Result.{Result, ok, err}
use golang_assignment.GoMap.{lookup}
use golang_assignment.Model.Entity.{Time, Job}
use golang_assignment.Model.Status.{running, JobType, is_pending}
use golang_assignment.Store.Memory.{
  MemoryStore, put_job, in_capabilities, assigned_job, assign_from, assign_next_job,
  agent_not_found,
}

-- Waiting, and of a type among the capabilities.
abbrev pub is_eligible : List JobType → Job → Bool
is_eligible capabilities job = is_pending job.status && in_capabilities capabilities job.type

abbrev pub is_eligible? : List JobType → Option Job → Bool
is_eligible? capabilities none = false
is_eligible? capabilities (some job) = is_eligible capabilities job

-- `job`, stored under `id`, is the first of `ids` that is eligible.
pub record IsFirst (m : MemoryStore) (capabilities : List JobType) (ids : List String) (id : String)
    (job : Job) : Type 0 where
  pub before : List String
  pub after : List String
  pub split : ids ≡ before ++ id ∷ after
  pub skipped : All (λ x. is_eligible? capabilities (lookup x m.jobs) ≡ false) before
  pub stored : lookup id m.jobs ≡ some job
  pub eligible : is_eligible capabilities job ≡ true

abbrev pub NoneEligible : MemoryStore → List JobType → List String → Type 0
NoneEligible m capabilities ids = All (λ x. is_eligible? capabilities (lookup x m.jobs) ≡ false) ids

eligible-stored :
    (capabilities : List JobType) (o : Option Job)
    → is_eligible? capabilities o ≡ true
    → (job : Job) × (o ≡ some job) × (is_eligible capabilities job ≡ true)
eligible-stored capabilities none h = cc
eligible-stored capabilities (some job) h = (job, refl, h)

module _ (now : Time) (agent_id : String) (capabilities : List JobType) (m : MemoryStore) where
  -- The first eligible job is assigned and written back; with none, nothing changes.
  pub data Outcome (ids : List String) (r : Option Job × MemoryStore) : Type 0 where
    idle : NoneEligible m capabilities ids → r ≡ (none, m) → Outcome ids r
    assigned :
        (id : String) (job : Job)
        → IsFirst m capabilities ids id job
        → r ≡ (some (assigned_job now agent_id job), put_job id (assigned_job now agent_id job) m)
        → Outcome ids r

  Outcome-cons :
      {id : String} {ids : List String} {r : Option Job × MemoryStore}
      → is_eligible? capabilities (lookup id m.jobs) ≡ false
      → Outcome ids r
      → Outcome (id ∷ ids) r
  Outcome-cons {id} skip (idle rest e) = idle (skip, rest) e
  Outcome-cons {id} skip (assigned x job first e) =
      assigned x job
        (record {
          before = id ∷ first.before;
          after = first.after;
          split = ap (λ l. id ∷ l) first.split;
          skipped = (skip, first.skipped);
          stored = first.stored;
          eligible = first.eligible;
        })
        e

  assign_from-skip :
      (id : String) (ids : List String)
      → is_eligible? capabilities (lookup id m.jobs) ≡ false
      → assign_from now agent_id capabilities (id ∷ ids) m
        ≡ assign_from now agent_id capabilities ids m
  unfolding assign_from
  assign_from-skip id ids h = ground arith

  assign_from-take :
      (id : String) (ids : List String) (job : Job)
      → lookup id m.jobs ≡ some job
      → is_eligible capabilities job ≡ true
      → assign_from now agent_id capabilities (id ∷ ids) m
        ≡ (some (assigned_job now agent_id job), put_job id (assigned_job now agent_id job) m)
  unfolding assign_from
  assign_from-take id ids job stored h = ground arith

  pub assign_from-Outcome :
      (ids : List String) → Outcome ids (assign_from now agent_id capabilities ids m)
  unfolding assign_from
  assign_from-Outcome [] = idle tt refl
  assign_from-Outcome (id ∷ ids) =
      elim (Bool-cases (is_eligible? capabilities (lookup id m.jobs))) [
        | inl take ↦
            let (job, stored, eligible) = eligible-stored capabilities (lookup id m.jobs) take in
            assigned id job
              (record {
                before = [];
                after = ids;
                split = refl;
                skipped = tt;
                stored = stored;
                eligible = eligible;
              })
              (assign_from-take id ids job stored eligible)
        | inr skip ↦
            subst (Outcome (id ∷ ids)) (sym (assign_from-skip id ids skip))
              (Outcome-cons skip (assign_from-Outcome ids))
      ]

-- A job as it is handed to an agent.
abbrev pub assignment : Time → String → Job → Job
assignment now agent_id job = record job {
  status = running;
  assigned_agent_id = agent_id;
  started_at = some now;
  attempt_count = incr job.attempt_count;
}

-- What `AssignNextJob` promises: an agent that is not registered gets an error; a registered one gets
-- the first eligible job, and just that job is written back; or no job is eligible.
pub data NextJob (now : Time) (agent_id : String) (capabilities : List JobType) (m : MemoryStore)
    (r : Result (Option Job) × MemoryStore) : Type 0 where
  unregistered :
      lookup agent_id m.agents ≡ none
      → r ≡ (err (agent_not_found agent_id), m)
      → NextJob now agent_id capabilities m r
  no_job :
      lookup agent_id m.agents ≢ none
      → NoneEligible m capabilities m.job_order
      → r ≡ (ok none, m)
      → NextJob now agent_id capabilities m r
  next_job :
      (id : String) (job : Job)
      → lookup agent_id m.agents ≢ none
      → IsFirst m capabilities m.job_order id job
      → r ≡ (ok (some (assignment now agent_id job)), put_job id (assignment now agent_id job) m)
      → NextJob now agent_id capabilities m r

registered :
    (now : Time) (agent_id : String) (capabilities : List JobType) (m : MemoryStore)
    (r : Option Job × MemoryStore)
    → lookup agent_id m.agents ≢ none
    → Outcome now agent_id capabilities m m.job_order r
    → NextJob now agent_id capabilities m (ok r.0, r.1)
unfolding assigned_job
registered now agent_id capabilities m r known (idle rest e) =
    no_job known rest (ap (λ (q : Option Job × MemoryStore). (ok q.0, q.1)) e)
registered now agent_id capabilities m r known (assigned id job first e) =
    next_job id job known first (ap (λ (q : Option Job × MemoryStore). (ok q.0, q.1)) e)

-- `AssignNextJob` keeps its promise: for every time, agent, list of capabilities and store, the
-- oldest eligible job is returned RUNNING, assigned to the agent, started now and with one more
-- attempt, and only that job changes; if none is eligible, or the agent is unknown, nothing changes.
pub assign_next_job-NextJob :
    (now : Time) (agent_id : String) (capabilities : List JobType) (m : MemoryStore)
    → NextJob now agent_id capabilities m (assign_next_job now agent_id capabilities m)
unfolding assign_next_job
assign_next_job-NextJob now agent_id capabilities m =
    elim (Option-cases (lookup agent_id m.agents)) [
      | inl missing ↦ unregistered missing (ground arith)
      | inr (agent, found) ↦ subst (NextJob now agent_id capabilities m) (ground arith) (
          registered now agent_id capabilities m
            (assign_from now agent_id capabilities m.job_order m) (λ e. cc)
            (assign_from-Outcome now agent_id capabilities m m.job_order))
    ]
