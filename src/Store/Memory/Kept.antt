-- ===== src/Store/Memory/Kept.antt =====
-- What holds of each stored job, if new jobs have it and each edge keeps it.
use mathlib.Core.Path.{subst}
use golang_assignment.Prelude.{String, ◌≡◌, sym, ◌∙◌, Option, some, List, [], ◌∷◌, All}
use golang_assignment.GoMap.{lookup}
use golang_assignment.Model.Entity.{Job}
use golang_assignment.Store.Memory.{MemoryStore}
use golang_assignment.Store.Memory.Lifecycle.{Edge, Effect, kept, born, moved, apply-Effect}
use golang_assignment.Store.Memory.Steps.{Op, create, apply, run}

some-inj : {a b : Job} → some a ≡ some b → a ≡ b
some-inj e = cc

module _ (P : Job → Type 0) (Allowed : Op → Type 0)
    (created : (job : Job) → Allowed (create job) → P job)
    (edge_keeps : (op : Op) (k : String) (job job' : Job)
      → Edge op k job job'
      → Allowed op
      → P job
      → P job') where
  effect_keeps :
      {op : Op} {k : String} {before after : Option Job}
      → Effect op k before after
      → Allowed op
      → ((j : Job) → before ≡ some j → P j)
      → (j : Job) → after ≡ some j
      → P j
  effect_keeps (kept e) allowed h j stored = h j (sym e ∙ stored)
  effect_keeps (born job o own none_before e) allowed h j stored =
      subst P (some-inj (sym e ∙ stored)) (created job (subst Allowed o allowed))
  effect_keeps {op} {k} (moved job job' before edge e) allowed h j stored =
      subst P (some-inj (sym e ∙ stored)) (edge_keeps op k job job' edge allowed (h job before))

  pub apply_keeps :
      (op : Op) (m : MemoryStore)
      → Allowed op
      → ((k : String) (j : Job) → lookup k m.jobs ≡ some j → P j)
      → (k : String) (j : Job) → lookup k (apply op m).jobs ≡ some j
      → P j
  apply_keeps op m allowed h k = effect_keeps (apply-Effect op k m) allowed (h k)

  pub run_keeps :
      (ops : List Op) (m : MemoryStore)
      → All Allowed ops
      → ((k : String) (j : Job) → lookup k m.jobs ≡ some j → P j)
      → (k : String) (j : Job) → lookup k (run ops m).jobs ≡ some j
      → P j
  unfolding run
  run_keeps [] m allowed h = h
  run_keeps (op ∷ ops) m (first, allowed) h =
      run_keeps ops (apply op m) allowed (apply_keeps op m first h)
