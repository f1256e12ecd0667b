-- ===== src/Store/Memory/Queue.antt =====
-- The abstract view of assignment: for agents with the same capabilities the store is a queue of job
-- IDs, which `AssignNextJob` pops and `CreateJob` extends.
use mathlib.Core.Path.{subst}
use golang_assignment.Prelude.{
  String, ◌≡◌, ◌≢◌, sym, ap, refl, ◌⊎◌, inl, inr, Bool, true, false, Option, none, some, List, [],
  ◌∷◌, ◌++◌, arith, ◌==◌, eq_iff, eq_refl, All, if◌then◌else◌, ◌∙◌,
}
use golang_assignment.Prelude.Result.{Result, ok}
use golang_assignment.GoMap.{lookup, insert, lookup-insert}
use golang_assignment.Model.Entity.{Time, Job}
use golang_assignment.Model.Status.{JobType}
use golang_assignment.Store.Memory.{put_job, MemoryStore, create_job, assign_next_job}
use golang_assignment.Store.Memory.Assign.{
  NextJob, unregistered, no_job, next_job, IsFirst, assignment, is_eligible, is_eligible?,
  assign_next_job-NextJob,
}
use golang_assignment.Store.Memory.Invariant.{IsWellFormed}
use golang_assignment.Store.Memory.Names.{contains, IsDistinct, split-IsDistinct}

abbrev pub keep : (String → Bool) → List String → List String
keep p [] = []
keep p (x ∷ xs) = if p x then x ∷ keep p xs else keep p xs

module _ (p : String → Bool) where
  keep-append : (xs ys : List String) → keep p (xs ++ ys) ≡ keep p xs ++ keep p ys
  keep-append [] ys = refl
  keep-append (x ∷ xs) ys = ground (arith, keep-append xs ys)

  keep_none : (xs : List String) → All (λ x. p x ≡ false) xs → keep p xs ≡ []
  keep_none [] h = refl
  keep_none (x ∷ xs) (no_x, h) = ground (arith, keep_none xs h)

-- Only the tests on the list's own elements matter.
keep_cong :
    (p q : String → Bool) (xs : List String)
    → ((x : String) → contains xs x ≡ true → p x ≡ q x)
    → keep p xs ≡ keep q xs
keep_cong p q [] h = refl
keep_cong p q (x ∷ xs) h =
    ground (arith, h x, eq_refl x, keep_cong p q xs (λ y e. h y (ground arith)))

abbrev pub waits : List JobType → MemoryStore → String → Bool
waits capabilities m id = is_eligible? capabilities (lookup id m.jobs)

-- The IDs of the waiting jobs that an agent with these capabilities can take, oldest first.
abbrev pub queue : List JobType → MemoryStore → List String
queue capabilities m = keep (waits capabilities m) m.job_order

pop_list :
    (p q : String → Bool) (xs : List String) (y : String) (ys : List String)
    → All (λ x. p x ≡ false) xs
    → p y ≡ true
    → q y ≡ false
    → keep q xs ≡ keep p xs
    → keep q ys ≡ keep p ys
    → keep p (xs ++ y ∷ ys) ≡ y ∷ keep q (xs ++ y ∷ ys)
pop_list p q xs y ys skipped yes_p no_q left right =
    ground (arith, keep-append p xs (y ∷ ys), keep-append q xs (y ∷ ys), keep_none p xs skipped)

-- A write that leaves a job ineligible takes its ID out of the queue, and nothing else.
module _ (capabilities : List JobType) (m : MemoryStore) (id : String) (job job' : Job) where
  waits-insert :
      (x : String)
      → waits capabilities (record m { jobs = insert id job' m.jobs }) x
        ≡ (if id == x then is_eligible capabilities job' else waits capabilities m x)
  waits-insert x = ground (arith, lookup-insert id x job' m.jobs)

  keep-unrelated :
      (xs : List String)
      → contains xs id ≡ false
      → keep (waits capabilities (record m { jobs = insert id job' m.jobs })) xs
        ≡ keep (waits capabilities m) xs
  keep-unrelated xs h =
      keep_cong _ _ xs
        (λ x e. ground (arith, waits-insert x, eq_iff id x, eq_iff x id, other_id xs x e))
    where
      other_id :
          (ys : List String) (x : String) → contains ys x ≡ true → contains ys id ≡ false → id ≢ x
      other_id ys x e n same = ground arith

  queue-pop :
      (first : IsFirst m capabilities m.job_order id job)
      → IsDistinct m.job_order
      → is_eligible capabilities job' ≡ false
      → queue capabilities m ≡ id ∷ queue capabilities (record m { jobs = insert id job' m.jobs })
  queue-pop first distinct gone =
      let q = waits capabilities (record m { jobs = insert id job' m.jobs }) in
      let once = split-IsDistinct first.before id first.after (rw (← first.split) distinct) in
      subst (λ order. keep (waits capabilities m) order ≡ id ∷ keep q order) (sym first.split)
        (pop_list (waits capabilities m) q first.before id first.after first.skipped
          (rw first.stored first.eligible) (waits-insert id ∙ (rw (eq_refl id) gone))
          (keep-unrelated first.before once.0) (keep-unrelated first.after once.1))

abbrev pub IsPopped : List JobType → MemoryStore → Result (Option Job) × MemoryStore → Type 0
IsPopped capabilities m r =
    ((queue capabilities m ≡ []) × (r ≡ (ok none, m)))
    ⊎ ((job : Job) × (r.0 ≡ ok (some job))
        × (queue capabilities m ≡ job.id ∷ queue capabilities r.1))

pub NextJob-IsPopped :
    {now : Time} {agent_id : String} {capabilities : List JobType} {m : MemoryStore}
    {r : Result (Option Job) × MemoryStore}
    → IsWellFormed m
    → lookup agent_id m.agents ≢ none
    → NextJob now agent_id capabilities m r
    → IsPopped capabilities m r
NextJob-IsPopped h known (unregistered missing e) = absurd (known missing)
NextJob-IsPopped {capabilities} {m} h known (no_job _ rest e) =
    inl (keep_none (waits capabilities m) m.job_order rest, e)
NextJob-IsPopped {now} {agent_id} {capabilities} {m} h known (next_job id job _ first e) =
    let job' = assignment now agent_id job in
    let own = sym (h.job_ids id job first.stored) in
    inr (
      job',
      ap (λ (q : Result (Option Job) × MemoryStore). q.0) e,
      rw e (
          subst (λ k. queue capabilities m ≡ k ∷ queue capabilities (put_job id job' m)) own
            (queue-pop capabilities m id job job' first h.ordered_once refl)),
    )

-- In a well-formed store a registered agent pops the queue of its capabilities: with an empty queue
-- it gets nothing and the store stays as it is; otherwise it gets the job at the head, and what is
-- left of the queue is its tail.
pub assign_next_job-IsPopped :
    (now : Time) (agent_id : String) (capabilities : List JobType) (m : MemoryStore)
    → IsWellFormed m
    → lookup agent_id m.agents ≢ none
    → IsPopped capabilities m (assign_next_job now agent_id capabilities m)
assign_next_job-IsPopped now agent_id capabilities m h known =
    NextJob-IsPopped h known (assign_next_job-NextJob now agent_id capabilities m)

-- In a well-formed store a waiting job with a new ID, of a type among the capabilities, joins the queue
-- of these capabilities at its end.
pub queue-create_job :
    (capabilities : List JobType) (job : Job) (m : MemoryStore)
    → IsWellFormed m
    → lookup job.id m.jobs ≡ none
    → is_eligible capabilities job ≡ true
    → queue capabilities (create_job job m).1 ≡ queue capabilities m ++ job.id ∷ []
unfolding create_job
queue-create_job capabilities job m h fresh fit =
    let q = waits capabilities (record m { jobs = insert job.id job m.jobs }) in
    rw fresh (
      keep-append q m.job_order (job.id ∷ [])
      ∙ ground (
        arith,
        waits-insert capabilities m job.id job job job.id,
        eq_refl job.id,
        keep-unrelated capabilities m job.id job job m.job_order,
        h.listed job.id,
      ))
