-- ===== src/Store/Memory/DrainTests.antt =====
-- An agent that fails every job until no attempt is left.
use golang_assignment.Prelude.{
  ℕ, ◌≤◌, ◌≡◌, refl, inr, true, none, some, List, [], ◌∷◌, arith, All, length,
}
use golang_assignment.GoMap.{lookup}
use golang_assignment.Model.Entity.{Job}
use golang_assignment.Model.Status.{failed, wait, is_terminal}
use golang_assignment.Store.Memory.Assign.{is_eligible}
use golang_assignment.Store.Memory.Drain.{work_all-finishes}
use golang_assignment.Store.Memory.Fixture.{store_code, setup, ready, job, setup-IsApiCall, a-known}
use golang_assignment.Store.Memory.Rounds.{Round, IsAnswered, work_all}
use golang_assignment.Store.Memory.Workload.{workload}

abbrev failing : ℕ → Round
failing now = record {
  asked = now;
  reported = now;
  report = λ given. record { status = failed; logs = []; result = none; error = "boom" };
}

abbrev rounds : List Round
rounds = failing 10 ∷ failing 20 ∷ failing 30 ∷ failing 40 ∷ []

rounds-IsAnswered : All IsAnswered rounds
rounds-IsAnswered = ((λ j. inr refl), ((λ j. inr refl), ((λ j. inr refl), ((λ j. inr refl), tt))))

rounds-enough : workload (wait ∷ []) ready ≤ length rounds
unfolding store_code
rounds-enough = omega arith

j3-waits :
    (lookup "j3" ready.jobs ≡ some (job "j3" wait))
    × (is_eligible (wait ∷ []) (job "j3" wait) ≡ true)
unfolding store_code
j3-waits = (refl, refl)

work_all-finishes_example :
    (j : Job) × (lookup "j3" (work_all "a" (wait ∷ []) rounds ready).jobs ≡ some j)
    × (is_terminal j.status ≡ true)
work_all-finishes_example =
    work_all-finishes setup "a" (wait ∷ []) rounds "j3" (job "j3" wait) setup-IsApiCall a-known
      rounds-IsAnswered rounds-enough j3-waits.0 j3-waits.1
