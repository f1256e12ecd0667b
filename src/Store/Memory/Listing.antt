-- ===== src/Store/Memory/Listing.antt =====
-- `ListJobs` and `ListAgents`.
use golang_assignment.Prelude.{
  inr, inl, String, ◌≡◌, sym, ap, refl, true, false, none, some, List, [], ◌∷◌, ◌++◌, map, arith,
  eq_iff, eq_refl, is_some, filter_map, filter_map-append, Option-cases, ◌∙◌,
}
use golang_assignment.Prelude.Result.{ok}
use golang_assignment.GoMap.{GoMap, lookup, insert, lookup-insert}
use golang_assignment.Model.Entity.{Job}
use golang_assignment.Store.Memory.{MemoryStore, create_job, list_jobs}
use golang_assignment.Store.Memory.Invariant.{IsWellFormed}
use golang_assignment.Store.Memory.Names.{contains}

-- the jobs stored under the IDs of a list
abbrev pub stored : GoMap Job → List String → List Job
stored jobs ids = filter_map (λ id. lookup id jobs) ids

stored-ids :
    (jobs : GoMap Job) (ids : List String)
    → ((k : String) → contains ids k ≡ true → is_some (lookup k jobs) ≡ true)
    → ((k : String) (j : Job) → lookup k jobs ≡ some j → j.id ≡ k)
    → map (λ (j : Job). j.id) (stored jobs ids) ≡ ids
stored-ids jobs [] listed own = refl
stored-ids jobs (id ∷ ids) listed own = elim (Option-cases (lookup id jobs)) [
  | inl missing ↦
      absurd (missing_not_listed jobs id (listed id (ground (arith, eq_refl id))) missing)
  | inr (job, e) ↦
      rw (e, own id job e)
        (ap (λ l. id ∷ l) (stored-ids jobs ids (λ k c. listed k (ground arith)) own))
]
  where
    missing_not_listed :
        (m : GoMap Job) (k : String) → is_some (lookup k m) ≡ true → lookup k m ≡ none → ⊥
    missing_not_listed m k s n = ground arith

-- In a well-formed store `ListJobs` lists every stored job exactly once, in the order of creation:
-- the IDs of the listed jobs are the job order.
pub list_jobs_ids :
    (m : MemoryStore)
    → IsWellFormed m
    → (jobs : List Job) × (list_jobs m ≡ ok jobs) × (map (λ (j : Job). j.id) jobs ≡ m.job_order)
unfolding list_jobs
list_jobs_ids m h = (
  stored m.jobs m.job_order,
  refl,
  stored-ids m.jobs m.job_order (λ k c. sym (h.listed k) ∙ c) h.job_ids,
)

stored-insert :
    (jobs : GoMap Job) (id : String) (job : Job) (ids : List String)
    → contains ids id ≡ false
    → stored (insert id job jobs) ids ≡ stored jobs ids
stored-insert jobs id job [] h = refl
stored-insert jobs id job (x ∷ xs) h =
    ground
      (arith, lookup-insert id x job jobs, eq_iff id x, eq_iff x id, stored-insert jobs id job xs)

-- In a well-formed store a job with a new ID is listed after all the others, which are listed as before.
pub list_jobs-create_job :
    (job : Job) (m : MemoryStore)
    → IsWellFormed m
    → lookup job.id m.jobs ≡ none
    → (jobs : List Job) × (list_jobs m ≡ ok jobs)
      × (list_jobs (create_job job m).1 ≡ ok (jobs ++ job ∷ []))
unfolding list_jobs create_job
list_jobs-create_job job m h fresh =
    let jobs' = insert job.id job m.jobs in
    (
      stored m.jobs m.job_order,
      refl,
      rw fresh (
          ap ok (
            filter_map-append (λ id. lookup id jobs') m.job_order (job.id ∷ [])
            ∙ ground (
              arith,
              stored-insert m.jobs job.id job m.job_order,
              h.listed job.id,
              lookup-insert job.id job.id job m.jobs,
              eq_refl job.id,
            ))),
    )
