-- ===== src/Store/Memory/Attempts.antt =====
-- How often a job is attempted: at most `max_retries` times, and once if that is 0.
use golang_assignment.Prelude.{
  ◌∙◌, ap, ℕ, ◌+◌, ◌≤◌, ◌<◌, String, ◌≡◌, refl, ◌⊎◌, inl, inr, true, some, List, arith, All,
}
use golang_assignment.Prelude.Int.{ℤ, pos, pos_part, ltb_ℤ, ◌≤ℤ◌, max_int, incr}
use golang_assignment.GoMap.{lookup}
use golang_assignment.Model.Entity.{Job}
use golang_assignment.Model.Status.{JobType, pending, success, failed}
use golang_assignment.Store.Memory.{MemoryStore, new_memory_store}
use golang_assignment.Store.Memory.Assign.{is_eligible}
use golang_assignment.Store.Memory.Kept.{apply_keeps, run_keeps}
use golang_assignment.Store.Memory.Lifecycle.{Edge, start, stop, requeue, finish, replace}
use golang_assignment.Store.Memory.Steps.{Op, create, update, complete, apply, run}

-- A job as the API creates it: waiting, with no attempt yet, and `max_retries` an `int` from 0.
pub record IsFresh (job : Job) : Type 0 where
  pub waiting : job.status ≡ pending
  pub untried : job.attempt_count ≡ pos 0
  pub retries_low : pos 0 ≤ℤ job.max_retries
  pub retries_high : pos_part job.max_retries ≤ max_int

-- The calls that the API makes: fresh jobs, results SUCCESS or FAILED, no `UpdateJob`.
abbrev pub IsApiCall : Op → Type 0
IsApiCall (create job) = IsFresh job
IsApiCall (update job) = ⊥
IsApiCall (complete now id status logs result error) = (status ≡ success) ⊎ (status ≡ failed)
IsApiCall _ = Unit

pub record IsBudgeted (job : Job) : Type 0 where
  pub attempts : ℕ
  pub retries : ℕ
  pub counted : job.attempt_count ≡ pos attempts
  pub allowed : job.max_retries ≡ pos retries
  pub capped : retries ≤ max_int
  pub within : (attempts ≤ retries) ⊎ (attempts ≤ 1)
  pub waiting : job.status ≡ pending → (attempts ≡ 0) ⊎ (attempts < retries)

fresh-IsBudgeted : (job : Job) → IsFresh job → IsBudgeted job
fresh-IsBudgeted job f = record {
  attempts = 0;
  retries = pos_part job.max_retries;
  counted = f.untried;
  allowed = ground arith;
  capped = f.retries_high;
  within = inr (omega arith);
  waiting = λ _. inl refl;
}

pending_of_eligible :
    (capabilities : List JobType) (job : Job)
    → is_eligible capabilities job ≡ true
    → job.status ≡ pending
pending_of_eligible capabilities job e = ground arith

-- One more attempt, from a count below the budget, does not wrap around.
incr-pos : (n : ℕ) → n < max_int → incr (pos n) ≡ pos (n + 1)
unfolding incr
incr-pos n h = ground arith

room : (n r : ℕ) → (n ≡ 0) ⊎ (n < r) → r ≤ max_int → n < max_int
room n r h k = omega arith

left_over : (a r : ℤ) {n m : ℕ} → ltb_ℤ a r ≡ true → a ≡ pos n → r ≡ pos m → n < m
left_over a r h p q = ground arith

Edge-IsBudgeted :
    {op : Op} {k : String} {job job' : Job}
    → Edge op k job job'
    → IsApiCall op
    → IsBudgeted job
    → IsBudgeted job'
Edge-IsBudgeted (start {capabilities} {job} e) c b =
    let before = b.waiting (pending_of_eligible capabilities job e) in
    record {
      attempts = b.attempts + 1;
      retries = b.retries;
      counted = ap incr b.counted ∙ incr-pos b.attempts (room b.attempts b.retries before b.capped);
      allowed = b.allowed;
      capped = b.capped;
      within = ground arith;
      waiting = λ p. cc;
    }
Edge-IsBudgeted (stop e u) c b = record {
  attempts = b.attempts;
  retries = b.retries;
  counted = b.counted;
  allowed = b.allowed;
  capped = b.capped;
  within = b.within;
  waiting = λ p. cc;
}
Edge-IsBudgeted (requeue {job} e bad left) c b = record {
  attempts = b.attempts;
  retries = b.retries;
  counted = b.counted;
  allowed = b.allowed;
  capped = b.capped;
  within = b.within;
  waiting = λ _. inr (left_over job.attempt_count job.max_retries left b.counted b.allowed);
}
Edge-IsBudgeted (finish e final) c b = record {
  attempts = b.attempts;
  retries = b.retries;
  counted = b.counted;
  allowed = b.allowed;
  capped = b.capped;
  within = b.within;
  waiting = λ p. ground arith;
}
Edge-IsBudgeted (replace e) c b = absurd c

pub apply-IsBudgeted :
    (op : Op) (m : MemoryStore)
    → IsApiCall op
    → ((k : String) (j : Job) → lookup k m.jobs ≡ some j → IsBudgeted j)
    → (k : String) (j : Job) → lookup k (apply op m).jobs ≡ some j
    → IsBudgeted j
apply-IsBudgeted =
    apply_keeps IsBudgeted IsApiCall fresh-IsBudgeted (λ op k job job' edge. Edge-IsBudgeted edge)

abbrev pub AllBudgeted : MemoryStore → Type 0
AllBudgeted m = (k : String) (j : Job) → lookup k m.jobs ≡ some j → IsBudgeted j

pub run-AllBudgeted :
    (ops : List Op) (m : MemoryStore) → All IsApiCall ops → AllBudgeted m → AllBudgeted (run ops m)
run-AllBudgeted =
    run_keeps IsBudgeted IsApiCall fresh-IsBudgeted (λ op k job job' edge. Edge-IsBudgeted edge)

pub none_stored : (k : String) (j : Job) → lookup k new_memory_store.jobs ≡ some j → ⊥
unfolding lookup
none_stored k j e = cc

-- However the calls that the API makes (new jobs are fresh, results SUCCESS or FAILED, no job is
-- replaced) are ordered, repeated or interleaved on a new store, no job is started more often than
-- its `max_retries` says, except that a job with 0 retries may be started once; its count of
-- attempts is never negative, so it has not wrapped around.
pub run-attempts_bounded :
    (ops : List Op) (k : String) (j : Job)
    → All IsApiCall ops
    → lookup k (run ops new_memory_store).jobs ≡ some j
    → (pos 0 ≤ℤ j.attempt_count) × ((j.attempt_count ≤ℤ j.max_retries) ⊎ (j.attempt_count ≤ℤ pos 1))
run-attempts_bounded ops k j calls stored =
    let b =
      run-AllBudgeted ops new_memory_store calls (λ x i e. absurd (none_stored x i e)) k j stored in
    ground arith
