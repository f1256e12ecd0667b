-- ===== src/Store/Memory/Workload.antt =====
-- How much work is left for an agent: each round that finds an eligible job uses up an attempt.
use golang_assignment.Prelude.{
  ℕ, ◌+◌, ◌-◌, ◌≤◌, ◌<◌, String, ◌≡◌, refl, inl, inr, true, false, Option, none, some, List, [],
  ◌∷◌, ◌++◌, arith, ◌==◌, eq_iff, eq_refl, if◌then◌else◌, Bool-cases, ltb,
}
use golang_assignment.Prelude.Int.{pos_part, incr}
use golang_assignment.GoMap.{lookup, insert, lookup-insert}
use golang_assignment.Model.Entity.{Job}
use golang_assignment.Model.Status.{JobType}
use golang_assignment.Store.Memory.{MemoryStore, put_job, completed_job}
use golang_assignment.Store.Memory.Assign.{
  IsFirst, assignment, is_eligible, is_eligible?, NoneEligible,
}
use golang_assignment.Store.Memory.Attempts.{IsBudgeted}
use golang_assignment.Store.Memory.Rounds.{Round, IsFinalReport, IsAnswered, worked}

-- How often a job can still be handed to an agent with these capabilities.
abbrev pub turns : List JobType → Job → ℕ
turns capabilities job =
    if is_eligible capabilities job
    then (let left = pos_part job.max_retries - pos_part job.attempt_count in
        if ltb 0 left then left else 1)
    else 0

abbrev pub turns? : List JobType → Option Job → ℕ
turns? capabilities none = 0
turns? capabilities (some job) = turns capabilities job

-- The same for all jobs of the order together.
abbrev pub total : (String → ℕ) → List String → ℕ
total f [] = 0
total f (x ∷ xs) = f x + total f xs

abbrev pub workload : List JobType → MemoryStore → ℕ
workload capabilities m = total (λ id. turns? capabilities (lookup id m.jobs)) m.job_order

total-le :
    (f g : String → ℕ) (xs : List String) → ((x : String) → g x ≤ f x) → total g xs ≤ total f xs
total-le f g [] h = omega arith
total-le f g (x ∷ xs) h = omega (arith, h x, total-le f g xs h)

total-lt :
    (f g : String → ℕ) (before after : List String) (id : String)
    → ((x : String) → g x ≤ f x)
    → g id < f id
    → total g (before ++ id ∷ after) < total f (before ++ id ∷ after)
total-lt f g [] after id h less = omega (arith, total-le f g after h)
total-lt f g (x ∷ xs) after id h less = omega (arith, h x, total-lt f g xs after id h less)

-- An eligible job that has been worked on has fewer turns.
turns-worked :
    (capabilities : List JobType) (agent_id : String) (r : Round) (job : Job)
    → IsBudgeted job
    → IsFinalReport (r.report (assignment r.asked agent_id job))
    → is_eligible capabilities job ≡ true
    → turns capabilities (worked r agent_id job) < turns capabilities job
unfolding completed_job incr
turns-worked capabilities agent_id r job b final fit = ground arith

turns_of_none :
    (capabilities : List JobType) (o : Option Job)
    → is_eligible? capabilities o ≡ false
    → turns? capabilities o ≡ 0
turns_of_none capabilities none h = refl
turns_of_none capabilities (some job) h = ground arith

none_of_turns :
    (capabilities : List JobType) (o : Option Job)
    → turns? capabilities o ≡ 0
    → is_eligible? capabilities o ≡ false
none_of_turns capabilities none h = refl
none_of_turns capabilities (some job) h = ground arith

pub workload_of_none :
    (capabilities : List JobType) (m : MemoryStore) (ids : List String)
    → NoneEligible m capabilities ids
    → total (λ id. turns? capabilities (lookup id m.jobs)) ids ≡ 0
workload_of_none capabilities m [] h = refl
workload_of_none capabilities m (id ∷ ids) (here, later) = omega (
  arith,
  turns_of_none capabilities (lookup id m.jobs) here,
  workload_of_none capabilities m ids later,
)

pub none_of_workload :
    (capabilities : List JobType) (m : MemoryStore) (ids : List String)
    → total (λ id. turns? capabilities (lookup id m.jobs)) ids ≡ 0
    → NoneEligible m capabilities ids
none_of_workload capabilities m [] h = tt
none_of_workload capabilities m (id ∷ ids) h = (
  none_of_turns capabilities (lookup id m.jobs) (omega arith),
  none_of_workload capabilities m ids (omega arith),
)

module _ (agent_id : String) (capabilities : List JobType) (r : Round) (m : MemoryStore)
    (id : String) (job : Job) where
  -- the store after a round in which `job` was worked on
  abbrev pub after_busy : MemoryStore
  after_busy = put_job id (worked r agent_id job) (put_job id (assignment r.asked agent_id job) m)

  pub lookup-after_busy :
      (x : String)
      → lookup x after_busy.jobs
        ≡ (if id == x then some (worked r agent_id job) else lookup x m.jobs)
  lookup-after_busy x =
      let given = assignment r.asked agent_id job in
      ground (
        arith,
        lookup-insert id x (worked r agent_id job) (insert id given m.jobs),
        lookup-insert id x given m.jobs,
      )

  turns-le :
      lookup id m.jobs ≡ some job
      → turns capabilities (worked r agent_id job) ≤ turns capabilities job
      → (x : String)
      → turns? capabilities (lookup x after_busy.jobs) ≤ turns? capabilities (lookup x m.jobs)
  turns-le stored less x = elim (Bool-cases (id == x)) [
    | inl same ↦ let e = (eq_iff id x).0 same in rw (lookup-after_busy x, same, ← e, stored) less
    | inr other ↦ rw (lookup-after_busy x, other) (omega arith)
  ]

  pub workload-after_busy :
      IsFirst m capabilities m.job_order id job
      → IsBudgeted job
      → IsAnswered r
      → workload capabilities after_busy < workload capabilities m
  workload-after_busy first b answered =
      let less =
        turns-worked capabilities agent_id r job b (answered (assignment r.asked agent_id job))
          first.eligible in
      rw first.split (
        total-lt (λ x. turns? capabilities (lookup x m.jobs))
          (λ x. turns? capabilities (lookup x after_busy.jobs)) first.before first.after id
          (turns-le first.stored (omega arith))
          (rw (lookup-after_busy id, eq_refl id, first.stored) less))
