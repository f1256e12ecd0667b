-- ===== src/Store/Memory/AgentList.antt =====
-- `ListAgents`: the sort by ID.
use mathlib.Core.List.{Perm}
use golang_assignment.Prelude.{
  String, ◌≡◌, ◌≢◌, ◌⊎◌, inl, inr, sym, refl, true, false, none, some, List, [], ◌∷◌, arith, eq_iff,
  eq_refl, All, Bool-cases, if_keeps,
}
use golang_assignment.Prelude.Result.{ok}
use golang_assignment.GoMap.{GoMap, lookup, HasDistinctKeys}
use golang_assignment.GoText.Order.{text_lt, text_lt_trans, text_lt_total}
use golang_assignment.Model.Entity.{Agent}
use golang_assignment.Store.Memory.{MemoryStore, list_agents, values, insert_by_id, sort_by_id}
use golang_assignment.Store.Memory.Invariant.{IsWellFormed}
use mathlib.Core.List.Perm

-- In strictly rising order of the IDs.
abbrev pub IsBelow : String → List Agent → Type 0
IsBelow id agents = All (λ (b : Agent). text_lt id b.id ≡ true) agents

abbrev pub IsSortedById : List Agent → Type 0
IsSortedById [] = Unit
IsSortedById (a ∷ rest) = IsBelow a.id rest × IsSortedById rest

IsBelow-trans :
    (x y : String) (agents : List Agent) → text_lt x y ≡ true → IsBelow y agents → IsBelow x agents
IsBelow-trans x y [] p h = tt
IsBelow-trans x y (b ∷ bs) p (q, h) = (text_lt_trans x y b.id p q, IsBelow-trans x y bs p h)

insert_by_id-IsBelow :
    (x : String) (a : Agent) (agents : List Agent)
    → text_lt x a.id ≡ true
    → IsBelow x agents
    → IsBelow x (insert_by_id a agents)
unfolding insert_by_id
insert_by_id-IsBelow x a [] p h = (p, tt)
insert_by_id-IsBelow x a (b ∷ bs) p (q, h) = ground (arith, insert_by_id-IsBelow x a bs p h)

-- no agent of the list has the ID
abbrev IsNewId : String → List Agent → Type 0
IsNewId id agents = All (λ (b : Agent). id ≢ b.id) agents

insert_by_id-IsSortedById :
    (a : Agent) (agents : List Agent)
    → IsNewId a.id agents
    → IsSortedById agents
    → IsSortedById (insert_by_id a agents)
unfolding insert_by_id
insert_by_id-IsSortedById a [] n h = (tt, tt)
insert_by_id-IsSortedById a (b ∷ bs) (n, ns) (below, h) = elim (Bool-cases (text_lt b.id a.id)) [
  | inl less ↦
      rw (less, insert_by_id)
        (insert_by_id-IsBelow b.id a bs less below, insert_by_id-IsSortedById a bs ns h)
  | inr other ↦
      let more = above (text_lt_total b.id a.id) other n in
      rw (other, insert_by_id) ((more, IsBelow-trans a.id b.id bs more below), (below, h))
]
  where
    above :
        {x y : String}
        → (text_lt y x ≡ true) ⊎ (y ≡ x) ⊎ (text_lt x y ≡ true)
        → text_lt y x ≡ false
        → x ≢ y
        → text_lt x y ≡ true
    above (inl p) q n = cc
    above (inr (inl p)) q n = absurd (n (sym p))
    above (inr (inr p)) q n = p

insert_by_id-Perm : (a : Agent) (agents : List Agent) → Perm (insert_by_id a agents) (a ∷ agents)
unfolding insert_by_id
insert_by_id-Perm a [] = Perm.refl _
insert_by_id-Perm a (b ∷ bs) =
    if_keeps (λ l. Perm l (a ∷ b ∷ bs)) (text_lt b.id a.id)
      (Perm.trans (Perm.cons b (insert_by_id-Perm a bs)) (Perm.swap a b bs)) (Perm.refl _)

sort_by_id-Perm : (agents : List Agent) → Perm (sort_by_id agents) agents
unfolding sort_by_id
sort_by_id-Perm [] = Perm.refl _
sort_by_id-Perm (a ∷ rest) =
    Perm.trans (insert_by_id-Perm a (sort_by_id rest)) (Perm.cons a (sort_by_id-Perm rest))

insert_by_id-IsNewId :
    (id : String) (a : Agent) (agents : List Agent)
    → id ≢ a.id
    → IsNewId id agents
    → IsNewId id (insert_by_id a agents)
unfolding insert_by_id
insert_by_id-IsNewId id a [] n h = (n, tt)
insert_by_id-IsNewId id a (b ∷ bs) n (q, h) =
    if_keeps (IsNewId id) (text_lt b.id a.id) (q, insert_by_id-IsNewId id a bs n h) (n, (q, h))

sort_by_id-IsNewId :
    (id : String) (agents : List Agent) → IsNewId id agents → IsNewId id (sort_by_id agents)
unfolding sort_by_id
sort_by_id-IsNewId id [] h = tt
sort_by_id-IsNewId id (a ∷ rest) (n, h) =
    insert_by_id-IsNewId id a (sort_by_id rest) n (sort_by_id-IsNewId id rest h)

-- No two agents of the list have one ID.
abbrev HasDistinctIds : List Agent → Type 0
HasDistinctIds [] = Unit
HasDistinctIds (a ∷ rest) = IsNewId a.id rest × HasDistinctIds rest

sort_by_id-IsSortedById :
    (agents : List Agent) → HasDistinctIds agents → IsSortedById (sort_by_id agents)
unfolding sort_by_id
sort_by_id-IsSortedById [] h = tt
sort_by_id-IsSortedById (a ∷ rest) (n, h) =
    insert_by_id-IsSortedById a (sort_by_id rest) (sort_by_id-IsNewId a.id rest n)
      (sort_by_id-IsSortedById rest h)

abbrev OwnIds : GoMap Agent → Type 0
OwnIds [] = Unit
OwnIds ((k, a) ∷ m) = (a.id ≡ k) × OwnIds m

values-OwnIds :
    (m : GoMap Agent)
    → HasDistinctKeys m
    → ((k : String) (a : Agent) → lookup k m ≡ some a → a.id ≡ k)
    → OwnIds m
unfolding lookup
values-OwnIds [] d own = tt
values-OwnIds ((k, a) ∷ m) (fresh, d) own = (
  own k a (rw (eq_refl k) refl),
  values-OwnIds m d (λ j b e. own j b (ground (arith, eq_iff k j))),
)

values-IsNewId :
    (id : String) (m : GoMap Agent) → OwnIds m → lookup id m ≡ none → IsNewId id (values m)
unfolding values lookup
values-IsNewId id [] h e = tt
values-IsNewId id ((k, a) ∷ m) (own, h) e =
    (λ same. ground (arith, eq_iff k id), values-IsNewId id m h (ground arith))

values-HasDistinctIds : (m : GoMap Agent) → OwnIds m → HasDistinctKeys m → HasDistinctIds (values m)
unfolding values
values-HasDistinctIds [] h d = tt
values-HasDistinctIds ((k, a) ∷ m) (own, h) (fresh, d) =
    (rw own (values-IsNewId k m h fresh), values-HasDistinctIds m h d)

-- In a well-formed store `ListAgents` returns the agents of the map, each once, in strictly rising
-- order of their IDs, in whatever order the map was visited.
pub list_agents_sorted :
    (m : MemoryStore)
    → IsWellFormed m
    → (agents : List Agent) × (list_agents m ≡ ok agents)
      × IsSortedById agents
      × Perm agents (values m.agents)
unfolding list_agents
list_agents_sorted m h =
    let own = values-OwnIds m.agents h.agents_distinct h.agent_ids in
    (
      sort_by_id (values m.agents),
      refl,
      sort_by_id-IsSortedById (values m.agents)
          (values-HasDistinctIds m.agents own h.agents_distinct),
      sort_by_id-Perm (values m.agents),
    )
