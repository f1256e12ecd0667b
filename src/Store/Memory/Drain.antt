-- ===== src/Store/Memory/Drain.antt =====
-- A registered agent that keeps working finishes every job that it can take.
use mathlib.Core.Path.{subst}
use golang_assignment.Prelude.{
  ℕ, suc, ◌≤◌, String, ◌≡◌, ◌≢◌, sym, refl, ap, ◌∙◌, ◌⊎◌, inl, inr, true, false, none, some, List,
  [], ◌∷◌, arith, ◌==◌, eq_iff, All, length, is_some, Bool-cases,
}
use golang_assignment.GoMap.{lookup}
use golang_assignment.Model.Entity.{Job}
use golang_assignment.Model.Status.{JobType, is_terminal}
use golang_assignment.Store.Memory.{MemoryStore, new_memory_store, completed_job}
use golang_assignment.Store.Memory.Assign.{
  IsFirst, assignment, is_eligible, is_eligible?, NoneEligible,
}
use golang_assignment.Store.Memory.Attempts.{
  IsApiCall, AllBudgeted, apply-IsBudgeted, run-AllBudgeted, none_stored,
}
use golang_assignment.Store.Memory.Invariant.{IsWellFormed}
use golang_assignment.Store.Memory.Names.{contains}
use golang_assignment.Store.Memory.Rounds.{
  Round, IsFinalReport, IsAnswered, worked, Worked, idle, busy, work, work_all, work-Worked,
  work-keeps,
}
use golang_assignment.Store.Memory.Steps.{Op, apply, run}
use golang_assignment.Store.Memory.WellFormed.{apply-IsWellFormed, run-IsWellFormed}
use golang_assignment.Store.Memory.Workload.{
  workload, workload_of_none, none_of_workload, after_busy, lookup-after_busy, workload-after_busy,
}

-- What a store that the API has filled offers.
pub record IsServed (m : MemoryStore) : Type 0 where
  pub well_formed : IsWellFormed m
  pub budgeted : AllBudgeted m

pub run-IsServed : (ops : List Op) → All IsApiCall ops → IsServed (run ops new_memory_store)
run-IsServed ops calls = record {
  well_formed = run-IsWellFormed ops;
  budgeted = run-AllBudgeted ops new_memory_store calls (λ k j e. absurd (none_stored k j e));
}

pub apply-IsServed : (op : Op) (m : MemoryStore) → IsApiCall op → IsServed m → IsServed (apply op m)
apply-IsServed op m call h = record {
  well_formed = apply-IsWellFormed op m h.well_formed;
  budgeted = apply-IsBudgeted op m call h.budgeted;
}

-- Waiting for these capabilities, or done with.
abbrev pub IsSettling : List JobType → Job → Type 0
IsSettling capabilities job =
    (is_eligible capabilities job ≡ true) ⊎ (is_terminal job.status ≡ true)

worked-IsSettling :
    (agent_id : String) (capabilities : List JobType) (r : Round) (job : Job)
    → is_eligible capabilities job ≡ true
    → IsFinalReport (r.report (assignment r.asked agent_id job))
    → IsSettling capabilities (worked r agent_id job)
unfolding completed_job is_terminal
worked-IsSettling agent_id capabilities r job fit final = ground arith

abbrev pub Settles : List JobType → String → MemoryStore → Type 0
Settles capabilities k m = (j : Job) × (lookup k m.jobs ≡ some j) × IsSettling capabilities j

module _ (agent_id : String) (capabilities : List JobType) where
  after_busy-Settles :
      (m : MemoryStore) (r : Round) (id : String) (job : Job) (k : String)
      → IsFirst m capabilities m.job_order id job
      → IsAnswered r
      → Settles capabilities k m
      → Settles capabilities k (after_busy agent_id capabilities r m id job)
  after_busy-Settles m r id job k first answered (j, stored, h) =
      let found = lookup-after_busy agent_id capabilities r m id job k in
      elim (Bool-cases (id == k)) [
        | inl same ↦ (
          worked r agent_id job,
          found ∙ (rw same refl),
          worked-IsSettling agent_id capabilities r job first.eligible
              (answered (assignment r.asked agent_id job)),
        )
        | inr other ↦ (j, found ∙ (rw other stored), h)
      ]

  pub Worked-Settles :
      {r : Round} {m m' : MemoryStore} (k : String)
      → Worked agent_id capabilities r m m'
      → IsAnswered r
      → Settles capabilities k m
      → Settles capabilities k m'
  Worked-Settles k (idle rest same) answered h = subst (Settles capabilities k) (sym same) h
  Worked-Settles {r} {m} k (busy id job first e) answered h =
      subst (Settles capabilities k) (sym e) (after_busy-Settles m r id job k first answered h)

  pub Worked-agents :
      {r : Round} {m m' : MemoryStore} → Worked agent_id capabilities r m m' → m'.agents ≡ m.agents
  Worked-agents (idle rest same) = ap (λ (m : MemoryStore). m.agents) same
  Worked-agents (busy id job first e) = ap (λ (m : MemoryStore). m.agents) e

  pub Worked-workload :
      {r : Round} {m m' : MemoryStore} (n : ℕ)
      → Worked agent_id capabilities r m m'
      → IsServed m
      → IsAnswered r
      → workload capabilities m ≤ suc n
      → workload capabilities m' ≤ n
  Worked-workload {m} n (idle rest same) h answered small =
      let nothing : workload capabilities m ≤ n =
        omega (arith, workload_of_none capabilities m m.job_order rest) in
      subst (λ m. workload capabilities m ≤ n) (sym same) nothing
  Worked-workload {r} {m} n (busy id job first e) h answered small =
      let less : workload capabilities (after_busy agent_id capabilities r m id job) ≤ n = omega (
        arith,
        workload-after_busy agent_id capabilities r m id job first (h.budgeted id job first.stored)
            answered,
      ) in
      subst (λ m. workload capabilities m ≤ n) (sym e) less

  -- After as many rounds as there are turns left, no job is eligible.
  work_all-NoneEligible :
      (rs : List Round) (m : MemoryStore)
      → IsServed m
      → lookup agent_id m.agents ≢ none
      → All IsAnswered rs
      → workload capabilities m ≤ length rs
      → (let after = work_all agent_id capabilities rs m in
          IsServed after × NoneEligible after capabilities after.job_order)
  unfolding work_all
  work_all-NoneEligible [] m h known answered small =
      (h, none_of_workload capabilities m m.job_order (omega arith))
  work_all-NoneEligible (r ∷ rs) m h known (now, later) small =
      let did = work-Worked agent_id capabilities r m h.well_formed known in
      work_all-NoneEligible rs (work agent_id capabilities r m)
        (work-keeps IsServed IsApiCall apply-IsServed agent_id capabilities r m tt now h)
        (subst (λ agents. lookup agent_id agents ≢ none) (sym (Worked-agents did)) known) later
        (Worked-workload (length rs) did h now small)

  work_all-Settles :
      (rs : List Round) (m : MemoryStore) (k : String)
      → IsServed m
      → lookup agent_id m.agents ≢ none
      → All IsAnswered rs
      → Settles capabilities k m
      → Settles capabilities k (work_all agent_id capabilities rs m)
  unfolding work_all
  work_all-Settles [] m k h known answered s = s
  work_all-Settles (r ∷ rs) m k h known (now, later) s =
      let did = work-Worked agent_id capabilities r m h.well_formed known in
      work_all-Settles rs (work agent_id capabilities r m) k
        (work-keeps IsServed IsApiCall apply-IsServed agent_id capabilities r m tt now h)
        (subst (λ agents. lookup agent_id agents ≢ none) (sym (Worked-agents did)) known) later
        (Worked-Settles k did now s)

NoneEligible-contains :
    (m : MemoryStore) (capabilities : List JobType) (ids : List String) (k : String)
    → contains ids k ≡ true
    → NoneEligible m capabilities ids
    → is_eligible? capabilities (lookup k m.jobs) ≡ false
NoneEligible-contains m capabilities [] k e h = cc
NoneEligible-contains m capabilities (id ∷ ids) k e (here, later) = elim (Bool-cases (id == k)) [
  | inl same ↦ rw (← (eq_iff id k).0 same) here
  | inr other ↦ NoneEligible-contains m capabilities ids k (ground arith) later
]

-- In a store with no eligible job, what is waiting or done with is done with.
pub settled-IsTerminal :
    (capabilities : List JobType) (k : String) (j : Job) (m : MemoryStore)
    → IsWellFormed m
    → NoneEligible m capabilities m.job_order
    → lookup k m.jobs ≡ some j
    → IsSettling capabilities j
    → is_terminal j.status ≡ true
settled-IsTerminal capabilities k j m h rest found (inr done) = done
settled-IsTerminal capabilities k j m h rest found (inl fit) =
    let listed = h.listed k ∙ ap is_some found in
    let unfit =
      ap (is_eligible? capabilities) (sym found)
      ∙ NoneEligible-contains m capabilities m.job_order k listed rest in
    absurd (cc (sym fit ∙ unfit))

-- On a store that any calls of the API have filled, a registered agent that reports every job it is
-- given as SUCCESS or FAILED finishes every waiting job of its capabilities: after as many rounds as
-- these jobs have attempts left together (one for a job that has none), each of them is in a terminal
-- state.
pub work_all-finishes :
    (ops : List Op) (agent_id : String) (capabilities : List JobType) (rs : List Round) (k : String)
    (job : Job)
    → All IsApiCall ops
    → lookup agent_id (run ops new_memory_store).agents ≢ none
    → All IsAnswered rs
    → workload capabilities (run ops new_memory_store) ≤ length rs
    → lookup k (run ops new_memory_store).jobs ≡ some job
    → is_eligible capabilities job ≡ true
    → (j : Job) × (lookup k (work_all agent_id capabilities rs (run ops new_memory_store)).jobs
        ≡ some j)
      × (is_terminal j.status ≡ true)
work_all-finishes ops agent_id capabilities rs k job calls known answered enough stored fit =
    let m = run ops new_memory_store in
    let h = run-IsServed ops calls in
    let (served, rest) = work_all-NoneEligible agent_id capabilities rs m h known answered enough in
    let (j, found, settled) =
      work_all-Settles agent_id capabilities rs m k h known answered (job, stored, inl fit) in
    (
      j,
      found,
      settled-IsTerminal capabilities k j (work_all agent_id capabilities rs m) served.well_formed
          rest found settled,
    )
