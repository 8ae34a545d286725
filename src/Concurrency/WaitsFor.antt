-- ===== src/Concurrency/WaitsFor.antt =====
-- src/concurrency/lock_manager.cpp: `waits_for_`, the graph of the cycle detection, as an association
-- list of the transactions that each transaction waits for. GetEdgeList walks the map in the order of
-- the list.
pub mod Search
pub mod Cycles
pub mod Build
use lab.Common.{
  ℕ, ◌≡◌, ◌≢◌, inl, inr, refl, Bool, true, false, ◌&&◌, ◌||◌, Option, none, some, List, [], ◌∷◌,
  ◌++◌, arith, ◌==◌, if◌then◌else◌, lookup, insert, contains, lookup-insert, contains-append,
  Bool-cases, Option-cases, map,
}

abbrev pub Graph : Type 0
Graph = List (ℕ × List ℕ)

-- `waits_for_[t]`, which is empty where there is none.
unfoldable pub next_nodes : Graph → ℕ → List ℕ
next_nodes g t = elim (lookup t g) [ none ↦ [] | some ts ↦ ts ]

unfoldable pub add_edge : Graph → ℕ → ℕ → Graph
unfolding next_nodes
add_edge g t1 t2 = insert t1 (next_nodes g t1 ++ t2 ∷ []) g

-- `erase(find(begin, end, t))`
unfoldable pub erase_first : ℕ → List ℕ → List ℕ
erase_first t [] = []
erase_first t (u ∷ us) = let rest = erase_first t us in if u == t then us else u ∷ rest

-- The source searches for `t1`.
unfoldable pub remove_edge : Graph → ℕ → ℕ → Graph
unfolding next_nodes erase_first
remove_edge g t1 t2 = insert t1 (erase_first t1 (next_nodes g t1)) g

unfoldable pub get_edge_list : Graph → List (ℕ × ℕ)
get_edge_list [] = []
get_edge_list ((t1, ts) ∷ rest) = map (λ t2. (t1, t2)) ts ++ get_edge_list rest

-- AddEdge adds the one edge: afterwards `t` waits for `u` if it did before, or if this is the edge.
pub add_edge-next_nodes :
    (g : Graph) (t1 t2 t u : ℕ)
    → contains u (next_nodes (add_edge g t1 t2) t)
      ≡ (contains u (next_nodes g t) || ((t1 == t) && (t2 == u)))
unfolding add_edge contains
add_edge-next_nodes g t1 t2 t u = ground (
  arith,
  lookup-insert t1 t (next_nodes g t1 ++ t2 ∷ []) g,
  contains-append u (next_nodes g t1) (t2 ∷ []),
  Bool-cases (t1 == t),
  Bool-cases (t2 == u),
)

erase_first_absent : (t : ℕ) (us : List ℕ) → contains t us ≡ false → erase_first t us ≡ us
unfolding erase_first contains
erase_first_absent t [] h = refl
erase_first_absent t (u ∷ us) h = ground (arith, erase_first_absent t us)

-- RemoveEdge searches the transactions that `t1` waits for for `t1` itself: unless `t1` waits for
-- itself it removes no edge at all, the edge to `t2` included.
pub remove_edge-next_nodes :
    (g : Graph) (t1 t2 t : ℕ)
    → contains t1 (next_nodes g t1) ≡ false
    → next_nodes (remove_edge g t1 t2) t ≡ next_nodes g t
unfolding remove_edge
remove_edge-next_nodes g t1 t2 t h = ground (
  arith,
  lookup-insert t1 t (erase_first t1 (next_nodes g t1)) g,
  erase_first_absent t1 (next_nodes g t1) h,
)
