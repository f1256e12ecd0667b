-- ===== src/Store/Memory/Steps.antt =====
-- Sequences of operations. Since each operation holds the lock, every run of concurrent callers is
-- such a sequence; the clock of each call is part of the call.
use golang_assignment.Prelude.{none, some, ℕ, String, Option, List, [], ◌∷◌}
use golang_assignment.Prelude.Result.{Result, ok, err}
use golang_assignment.Model.Entity.{Time, Job, Agent}
use golang_assignment.Model.Status.{JobStatus, JobType}
use golang_assignment.Model.Value.{Payload}
use golang_assignment.Store.Memory.{
  MemoryStore, create_job, update_job, cancel_job, register_agent, heartbeat, assign_next_job,
  complete_job, mark_stale_agents_offline,
}

pub data Op : Type 0 where
  create : Job → Op
  update : Job → Op
  cancel : Time → String → Op
  register : Agent → Op
  beat : Time → String → Op
  assign : Time → String → List JobType → Op
  complete : Time → String → JobStatus → List String → Option Payload → String → Op
  mark_stale : Time → ℕ → Op

-- the state after a call
unfoldable pub apply : Op → MemoryStore → MemoryStore
apply (create job) m = (create_job job m).1
apply (update job) m = (update_job job m).1
apply (cancel now id) m = (cancel_job now id m).1
apply (register agent) m = (register_agent agent m).1
apply (beat now id) m = (heartbeat now id m).1
apply (assign now id capabilities) m = (assign_next_job now id capabilities m).1
apply (complete now id status logs result error) m =
    (complete_job now id status logs result error m).1
apply (mark_stale now threshold) m = (mark_stale_agents_offline now threshold m).1

abbrev error_in {ℓ} : {A : Type ℓ} → Result A → Option String
error_in (ok a) = none
error_in (err e) = some e

-- the error that a call returns
unfoldable pub error_of : Op → MemoryStore → Option String
error_of (create job) m = error_in (create_job job m).0
error_of (update job) m = error_in (update_job job m).0
error_of (cancel now id) m = error_in (cancel_job now id m).0
error_of (register agent) m = error_in (register_agent agent m).0
error_of (beat now id) m = error_in (heartbeat now id m).0
error_of (assign now id capabilities) m = error_in (assign_next_job now id capabilities m).0
error_of (complete now id status logs result error) m =
    error_in (complete_job now id status logs result error m).0
error_of (mark_stale now threshold) m = none

unfoldable pub run : List Op → MemoryStore → MemoryStore
run [] m = m
run (op ∷ ops) m = run ops (apply op m)

module _ (P : MemoryStore → Type 0)
    (step : (op : Op) (m : MemoryStore) → P m → P (apply op m)) where
  -- What every operation keeps holds after any sequence of them.
  pub run_induction : (ops : List Op) (m : MemoryStore) → P m → P (run ops m)
  unfolding run
  run_induction [] m h = h
  run_induction (op ∷ ops) m h = run_induction ops (apply op m) (step op m h)
