-- ===== src/Concurrency/WaitsFor/Search.antt =====
-- src/concurrency/lock_manager.cpp: `dfs`, which looks for a cycle of waiting transactions. A set is a
-- list without order; `std::sort` sorts the transactions that one waits for in place.
use lab.Common.{
  ℕ, zero, suc, ◌≡◌, refl, Bool, true, false, ◌||◌, Option, none, some, List, [], ◌∷◌, arith, ◌==◌,
  leb, if◌then◌else◌, insert, remove, contains,
}
use lab.Concurrency.Transaction.{emplace}
use lab.Concurrency.WaitsFor.{Graph, next_nodes}

unfoldable pub place : ℕ → List ℕ → List ℕ
place x [] = x ∷ []
place x (y ∷ ys) = let rest = place x ys in if leb x y then x ∷ y ∷ ys else y ∷ rest

unfoldable pub sort : List ℕ → List ℕ
unfolding place
sort [] = []
sort (x ∷ xs) = place x (sort xs)

pub record Search : Type 0 where
  pub waits_for : Graph
  pub safe_set : List ℕ
  pub active_set : List ℕ

-- The loop of `dfs` over the next nodes; `recurse` is the call of `dfs`, `none` that its fuel ran out.
unfoldable pub visit :
    (Search → ℕ → Option (Search × Bool)) → Search → List ℕ → Option (Search × Bool)
visit recurse s [] = some (s, false)
visit recurse s (node ∷ nodes) =
    if contains node s.active_set then some (s, true) else (elim (recurse s node) [
      | none ↦ none
      | some r ↦ elim r.1 [ true ↦ some (r.0, true) | false ↦ visit recurse r.0 nodes ]
    ])

-- `dfs` from its test of `safe_set_` on, to the loop.
unfoldable pub enter : Search → ℕ → Search
unfolding emplace next_nodes sort
enter s t = record s {
  active_set = emplace t s.active_set;
  waits_for = insert t (sort (next_nodes s.waits_for t)) s.waits_for;
}

-- `dfs` behind the loop.
unfoldable pub leave : Search → ℕ → Search
unfolding emplace
leave s t = record s { active_set = remove t s.active_set; safe_set = emplace t s.safe_set }

unfoldable pub dfs : ℕ → Search → ℕ → Option (Search × Bool)
unfolding visit enter leave
dfs zero s t = none
dfs (suc fuel) s t =
    let found = visit (dfs fuel) (enter s t) (next_nodes (enter s t).waits_for t) in
    if contains t s.safe_set then some (s, false) else (elim found [
      | none ↦ none
      | some r ↦ elim r.1 [ true ↦ some r | false ↦ some (leave r.0 t, false) ]
    ])

contains-place : (u x : ℕ) (ys : List ℕ) → contains u (place x ys) ≡ ((u == x) || contains u ys)
unfolding place contains
contains-place u x [] = refl
contains-place u x (y ∷ ys) = ground (arith, contains-place u x ys)

pub contains-sort : (u : ℕ) (xs : List ℕ) → contains u (sort xs) ≡ contains u xs
unfolding sort contains
contains-sort u [] = refl
contains-sort u (x ∷ xs) = ground (arith, contains-place u x (sort xs), contains-sort u xs)

-- One transaction waits for another, over one edge or more.
pub data Reaches (g : Graph) (a : ℕ) : ℕ → Type 0 where
  edge : {b : ℕ} → contains b (next_nodes g a) ≡ true → Reaches g a b
  further : {b c : ℕ} → Reaches g a b → contains c (next_nodes g b) ≡ true → Reaches g a c

-- A cycle of transactions that wait for each other.
abbrev pub Cycle : Graph → Type 0
Cycle g = (c : ℕ) × Reaches g c c

-- The same edges, in any order.
abbrev pub SameEdges : Graph → Graph → Type 0
SameEdges g h = (a b : ℕ) → contains b (next_nodes g a) ≡ contains b (next_nodes h a)
